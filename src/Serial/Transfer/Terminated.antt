-- ===== src/Serial/Transfer/Terminated.antt =====
-- readTerminatedArray of src/SerialImp.c, over read_byte_array. Bytes are read one at a time; a
-- device gives no more than was asked for, and what it gave beyond the first is not looked at.
pub mod Stored
use rxtx.Base.{
  ℕ, zero, suc, ◌+◌, ◌-◌, ◌==◌, ltb, if◌then◌else◌, ◌&&◌, Option, some, none, List, [], ◌∷◌, get_or,
  set, Bool,
}
use rxtx.Base.Int.{ℤ, pos, negsuc}
use rxtx.Serial.Events.{EventInfo}
use rxtx.Serial.Transfer.{FileApi, read_byte_array}

-- The last two bytes of `body` are tested, not those behind the offset.
abbrev pub ends_with : ℕ → ℕ → ℕ → List ℕ → Bool
ends_with first second total body =
    ltb 1 total && second == get_or body (total - 1) 0 && first == get_or body (total - 2) 0

-- The size of the last read, or `none` for an exception; the array; the listener; the devices.
abbrev pub Filled : Type 0 → Type 0
Filled Dev = Option ℕ × List ℕ × EventInfo × Dev

module _ {Dev : Type 0} (api : FileApi Dev) (offset length first second : ℕ) (timeout : ℤ) where
  -- What follows a read; `again` is the rest of the loop.
  unfoldable pub after_byte :
      (List ℕ → EventInfo → Dev → Filled Dev)
      → ℕ
      → List ℕ
      → Option (List ℕ) × EventInfo × Dev
      → Filled Dev
  after_byte again total body (none, eis, dev) = (none, body, eis, dev)
  after_byte again total body (some [], eis, dev) = (some 0, body, eis, dev)
  after_byte again total body (some (b ∷ more), eis, dev) =
      let body' = set body (offset + total) b in
      if ends_with first second (total + 1) body'
      then (some 1, body', eis, dev)
      else if ltb (total + 1) length
      then again body' eis dev
      else (some 1, body', eis, dev)

  -- With more rounds than there are bytes to read.
  unfoldable pub terminated_loop : ℕ → ℕ → List ℕ → EventInfo → Dev → Filled Dev
  unfolding read_byte_array after_byte
  terminated_loop zero total body eis dev = (some 0, body, eis, dev)
  terminated_loop (suc rounds) total body eis dev =
      after_byte (λ body' eis' dev'. terminated_loop rounds (total + 1) body' eis' dev') total body
        (read_byte_array api (pos 1) timeout eis dev)

-- For a negative length an exception is thrown before anything is read.
unfoldable pub read_terminated_array :
    {Dev : Type 0} → FileApi Dev → ℕ → ℤ → ℕ → ℕ → ℤ → List ℕ → EventInfo → Dev → Filled Dev
unfolding terminated_loop
read_terminated_array api offset (negsuc n) first second timeout body eis dev =
    (none, body, eis, dev)
read_terminated_array api offset (pos length) first second timeout body eis dev =
    terminated_loop api offset length first second timeout (suc length) 0 body eis dev
