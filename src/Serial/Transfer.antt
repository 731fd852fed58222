-- ===== src/Serial/Transfer.antt =====
-- Reading and writing of src/SerialImp.c: read_byte_array, readByte, readArray, the loop of
-- writeArray and writeByte, which do no more in the Windows build, and the loop of nativeDrain. The
-- system calls are a parameter, over an abstract state `Dev`; on Windows SELECT is the constant 1.
-- The pauses are left out.
pub mod Order
pub mod Retry
pub mod Win
pub mod Terminated
pub mod Drain
use rxtx.Base.{
  ℕ, zero, suc, ◌+◌, ◌-◌, ◌==◌, leb, if◌then◌else◌, Bool, true, false, Option, some, none, List, [],
  ◌∷◌, ◌++◌, length, get_or, set, drop,
}
use rxtx.Base.Int.{ℤ, pos, negsuc, minus_one, pos_part}
use rxtx.Serial.Events.{EventInfo, spe_data_available}

-- What write returned: a number of bytes, or -1 with EINTR, or -1 with another errno.
pub data Wrote : Type 0 where
  wrote : ℕ → Wrote
  interrupted failed : Wrote

pub record FileApi (Dev : Type 0) : Type 0 where
  pub get_tick_count : Dev → ℕ × Dev
  pub select : Dev → Option ℕ → ℤ × Dev
  pub read : Dev → ℕ → Option (List ℕ) × Dev
  pub write : Dev → List ℕ → Wrote × Dev
  pub tcdrain : Dev → Wrote × Dev

-- The rounds of read_byte_array: `count++ < 20`.
abbrev pub read_limit : ℕ
read_limit = 20

-- `none` is no timeout: a negative one.
abbrev pub deadline : ℤ → ℕ → Option ℕ
deadline (pos t) start = some (start + t)
deadline (negsuc t) start = none

-- Whether `now - start >= timeout`, with the deadline start + timeout.
abbrev pub expired : Option ℕ → ℕ → Bool
expired none now = false
expired (some end) now = leb end now

-- timeout - (now - start)
abbrev pub time_left : Option ℕ → ℕ → Option ℕ
time_left none now = none
time_left (some end) now = some (end - now)

module _ {Dev : Type 0} (api : FileApi Dev) where
  -- The clock is read only when there is a timeout.
  unfoldable pub clock : Option ℕ → Dev → ℕ × Dev
  clock none dev = (0, dev)
  clock (some end) dev = api.get_tick_count dev

  -- What follows the select of one round: `none` is the return -1, otherwise the bytes that were
  -- read, none of them when select timed out.
  unfoldable pub after_select : ℤ → ℕ → Dev → Option (List ℕ) × Dev
  after_select (pos zero) left dev = (some [], dev)
  after_select (pos (suc n)) left dev = api.read dev left
  after_select (negsuc zero) left dev = (none, dev)
  after_select (negsuc (suc n)) left dev = (some [], dev)

  unfoldable pub read_round : Option ℕ → ℕ → ℕ → Dev → Option (List ℕ) × Dev
  unfolding after_select
  read_round end now left dev =
      let (ret, dev') = api.select dev (time_left end now) in after_select ret left dev'

  -- The loop, with the rounds and the bytes that are left, and the bytes read so far.
  unfoldable pub read_loop : ℕ → Option ℕ → ℕ → List ℕ → Dev → Option (List ℕ) × Dev
  unfolding clock read_round
  read_loop zero end left got dev = (some got, dev)
  read_loop (suc rounds) end left got dev =
      let (now, dev') = clock end dev in
      let (ret, dev'') = read_round end now left dev' in
      let more =
        λ (bytes : List ℕ). read_loop rounds end (left - length bytes) (got ++ bytes) dev'' in
      if left == 0
      then (some got, dev)
      else if expired end now
      then (some got, dev')
      else elim ret [ none ↦ (none, dev'') | some bytes ↦ more bytes ]

  -- The loop with its clock started.
  unfoldable pub read_bytes : ℤ → ℤ → Dev → Option (List ℕ) × Dev
  unfolding read_loop
  read_bytes len timeout dev = elim timeout [
    | negsuc t ↦ read_loop read_limit none (pos_part len) [] dev
    | pos t ↦
        let (start, dev') = api.get_tick_count dev in
        read_loop read_limit (some (start + t)) (pos_part len) [] dev'
  ]

  -- The event flag is 0 while the loop runs, and is set back on every way out.
  unfoldable pub read_byte_array : ℤ → ℤ → EventInfo → Dev → Option (List ℕ) × EventInfo × Dev
  unfolding read_bytes
  read_byte_array len timeout eis dev =
      let flag = get_or eis.eventflags spe_data_available 0 in
      let off = set eis.eventflags spe_data_available 0 in
      let (ret, dev') = read_bytes len timeout dev in
      (ret, record eis { eventflags = set off spe_data_available flag }, dev')

  -- The byte; -1 for no byte; `none` is the exception.
  unfoldable pub read_byte : ℤ → EventInfo → Dev → Option ℤ × EventInfo × Dev
  unfolding read_byte_array
  read_byte timeout eis dev =
      let (ret, eis', dev') = read_byte_array (pos 1) timeout eis dev in
      elim ret [
        | none ↦ (none, eis', dev')
        | some [] ↦ (some minus_one, eis', dev')
        | some (b ∷ bytes) ↦ (some (pos b), eis', dev')
      ]

  -- The bytes that are stored in the array from `offset`; their number is returned. `none` is an
  -- exception, for a negative length before anything is read.
  unfoldable pub read_array : ℤ → ℤ → EventInfo → Dev → Option (List ℕ) × EventInfo × Dev
  unfolding read_byte_array
  read_array (negsuc n) timeout eis dev = (none, eis, dev)
  read_array (pos n) timeout eis dev = read_byte_array (pos n) timeout eis dev

  -- The loop of writeArray over the bytes of the array from `offset`, on fuel: it ends with the
  -- number of bytes written, or by an exception, `failed`. `none`: the fuel is used up.
  unfoldable pub write_loop : ℕ → List ℕ → ℕ → Dev → Option (Wrote × Dev)
  write_loop zero bytes total dev = none
  write_loop (suc fuel) bytes total dev =
      let (ret, dev') = api.write dev (drop total bytes) in
      let again = write_loop fuel bytes total dev' in
      elim ret [
        | wrote n ↦ some (wrote (total + n), dev')
        | interrupted ↦ if leb (length bytes) total then some (failed, dev') else again
        | failed ↦ some (failed, dev')
      ]

  unfoldable pub write_array : ℕ → List ℕ → Dev → Option (Wrote × Dev)
  unfolding write_loop
  write_array fuel bytes dev = write_loop fuel bytes 0 dev

  -- writeByte retries as long as it is interrupted.
  unfoldable pub write_byte : ℕ → ℕ → Dev → Option (Wrote × Dev)
  write_byte zero b dev = none
  write_byte (suc fuel) b dev =
      let (ret, dev') = api.write dev (b ∷ []) in
      let again = write_byte fuel b dev' in
      elim ret [
        | interrupted ↦ again
        | wrote n ↦ some (wrote n, dev')
        | failed ↦ some (failed, dev')
      ]

  -- The loop of nativeDrain, with the tries left after the first: `count < 3`. A success of tcdrain
  -- is `wrote 0`.
  unfoldable pub drain_tries : ℕ → Dev → Wrote × Dev
  drain_tries zero dev = api.tcdrain dev
  drain_tries (suc tries) dev =
      let (ret, dev') = api.tcdrain dev in
      let again = drain_tries tries dev' in
      elim ret [ interrupted ↦ again | wrote n ↦ (wrote n, dev') | failed ↦ (failed, dev') ]
