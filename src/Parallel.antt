-- ===== src/Parallel.antt =====
-- The parallel port of src/ParallelImp.c in the Windows build, over the system calls on the port,
-- `ParApi`: the status of the printer, writeByte and writeArray, read_byte_array, readByte,
-- readArray, open, nativeClose and a round of eventLoop. select is serial_select of src/termios.c, as
-- src/win32termios.h has it, over the state of the serial ports. The loop of writeArray runs on fuel,
-- and `none` is a loop that has not ended. A threshold is not negative.
pub mod Write
pub mod Gives
pub mod Read
pub mod Loop
use rxtx.Base.{
  ℕ, zero, suc, ◌+◌, ◌-◌, ◌%◌, ◌==◌, ltb, if◌then◌else◌, Bool, true, false, not, ◌&&◌, ◌||◌, Option,
  some, none, List, [], ◌∷◌, ◌++◌, length, take, drop, bit_or,
}
use rxtx.Base.Int.{ℤ, pos, negsuc, minus_one, is_neg, byte_of, ◌==ℤ◌}
use rxtx.Termios.Flags.{has}
use rxtx.Termios.Comm.{CommApi, Sys}
use rxtx.Termios.Io.{IoApi}
use rxtx.Termios.Transfer.{serial_select}

abbrev pub parallel_paper_empty : ℕ
parallel_paper_empty = 0x4

abbrev pub parallel_off_line : ℕ
parallel_off_line = 0x8

abbrev pub parallel_power_off : ℕ
parallel_power_off = 0x10

abbrev pub parallel_not_connected : ℕ
parallel_not_connected = 0x20

abbrev pub parallel_busy : ℕ
parallel_busy = 0x40

abbrev pub parallel_selected : ℕ
parallel_selected = 0x80

abbrev pub par_ev_error : ℕ
par_ev_error = 1

-- DeviceIoControl: whether it succeeds, the bytes that it returned, and the status.
pub record Queried : Type 0 where
  pub ok : Bool
  pub count : ℕ
  pub status : ℕ

pub record ParApi (Dev : Type 0) : Type 0 where
  -- The handle as an int
  pub create_file : Dev → ℤ × Dev
  pub close_handle : Dev → Dev
  pub query : Dev → Queried
  pub set_timeouts : Dev → Dev
  -- WriteFile: whether it succeeds, and how many bytes it wrote.
  pub write_file : Dev → List ℕ → Bool × ℕ × Dev
  -- `none` is an error.
  pub read_file : Dev → ℕ → Option (List ℕ) × Dev
  -- ioctl with FIONREAD; `none` is an error.
  pub fionread : Dev → Option ℤ

-- The failures in a row that are passed over.
abbrev pub error_limit : ℕ
error_limit = 20

-- `timeout > 0`
abbrev pub below_one_ms : ℤ → Bool
below_one_ms (pos t) = t == 0
below_one_ms (negsuc t) = true

module _ {Dev : Type 0} (api : ParApi Dev) where
  unfoldable pub get_win32_parallel_status_flags : Dev → ℕ
  get_win32_parallel_status_flags dev =
      let q = api.query dev in if not q.ok && q.count == 1 then 0 else q.status

  unfoldable pub get_win32_parallel_status : Dev → ℕ → Bool
  unfolding get_win32_parallel_status_flags
  get_win32_parallel_status dev flag = has (get_win32_parallel_status_flags dev) flag

  unfoldable pub is_paper_out : Dev → Bool
  unfolding get_win32_parallel_status
  is_paper_out dev = get_win32_parallel_status dev parallel_paper_empty

  unfoldable pub is_printer_busy : Dev → Bool
  unfolding get_win32_parallel_status
  is_printer_busy dev = get_win32_parallel_status dev parallel_busy

  unfoldable pub is_printer_error : Dev → Bool
  unfolding get_win32_parallel_status
  is_printer_error dev = get_win32_parallel_status dev (
      bit_or parallel_paper_empty (
        bit_or parallel_off_line
          (bit_or parallel_power_off (bit_or parallel_not_connected parallel_busy))))

  unfoldable pub is_printer_selected : Dev → Bool
  unfolding get_win32_parallel_status
  is_printer_selected dev = get_win32_parallel_status dev parallel_selected

  -- The fd, or -1 with an exception.
  unfoldable pub par_open : Dev → ℤ × Dev
  par_open dev =
      let (fd, dev') = api.create_file dev in if is_neg fd then (minus_one, dev') else (fd, dev')

  unfoldable pub par_close : Dev → Dev
  par_close dev = api.close_handle dev

  -- WriteFile is compared with a negative number, which it never is: an exception is always thrown.
  unfoldable pub par_write_byte : ℤ → Dev → Bool × Dev
  par_write_byte byte dev =
      let (done, n, dev') = api.write_file dev (byte_of byte ∷ []) in (true, dev')

  -- The loop of writeArray, with the failures in a row; the result is whether an exception was thrown.
  unfoldable pub par_write_loop : ℕ → ℕ → List ℕ → Dev → Option (Bool × Dev)
  par_write_loop zero errors bytes dev = none
  par_write_loop (suc fuel) errors bytes dev =
      let (done, n, dev') = api.write_file dev bytes in
      let again = par_write_loop fuel (errors + 1) bytes dev' in
      let rest = par_write_loop fuel 0 (drop n bytes) dev' in
      if length bytes == 0
      then some (false, dev)
      else if not done && n == 0
      then (if ltb errors error_limit then again else some (true, dev'))
      else rest

  -- The part of the array from `offset` on.
  unfoldable pub par_write_array : ℕ → List ℕ → ℕ → ℕ → Dev → Option (Bool × Dev)
  unfolding par_write_loop
  par_write_array fuel body offset count dev =
      par_write_loop fuel 0 (take count (drop offset body)) (api.set_timeouts dev)

  -- What a round of eventLoop sends.
  unfoldable pub par_events : Dev → List (ℕ × Bool)
  unfolding get_win32_parallel_status_flags
  par_events dev =
      if has (get_win32_parallel_status_flags dev) parallel_busy
      then (par_ev_error, true) ∷ []
      else []

module _ {Dev : Type 0} (comm : CommApi Dev) (io : IoApi Dev) where
  -- The test of the loop of read_byte_array, and select: whether to read. serial_select returns no
  -- negative number.
  unfoldable pub par_wait : ℤ → ℤ → Sys Dev → Bool × Sys Dev
  unfolding serial_select
  par_wait fd timeout sys =
      if below_one_ms timeout then (true, sys) else serial_select comm io fd sys

module _ {Dev Lpt : Type 0} (comm : CommApi Dev) (io : IoApi Dev) (api : ParApi Lpt) where
  -- What has come, with at most `left` bytes to come.
  unfoldable pub par_read_loop :
      ℤ → ℕ → ℕ → ℕ → ℤ → List ℕ → Lpt → Sys Dev → Option (List ℕ) × Lpt × Sys Dev
  unfolding par_wait
  par_read_loop fd zero left threshold timeout got dev sys = (some got, dev, sys)
  par_read_loop fd (suc rounds) left threshold timeout got dev sys =
      let (go, sys') = par_wait comm io fd timeout sys in
      let (ret, dev') = api.read_file dev left in
      let rest = λ (bytes : List ℕ).
        par_read_loop fd rounds (left - length bytes) threshold timeout (got ++ bytes) dev' sys' in
      if left == 0 || not (ltb (length got) threshold)
      then (some got, dev, sys)
      else if not go
      then (some got, dev, sys')
      else elim ret [
        | none ↦ (none, dev', sys')
        | some [] ↦ (some got, dev', sys')
        | some (b ∷ bytes) ↦ rest (b ∷ bytes)
      ]

  unfoldable pub par_read_byte_array :
      ℤ → ℕ → ℕ → ℤ → Lpt → Sys Dev → Option (List ℕ) × Lpt × Sys Dev
  unfolding par_read_loop
  par_read_byte_array fd length threshold timeout dev sys =
      par_read_loop fd length length threshold timeout [] dev sys

  -- The byte, -1 for none; `none` is an exception.
  unfoldable pub par_read_byte : ℤ → ℤ → Lpt → Sys Dev → Option ℤ × Lpt × Sys Dev
  unfolding par_read_byte_array
  par_read_byte fd timeout dev sys =
      let (ret, dev', sys') = par_read_byte_array fd 1 1 timeout dev sys in
      elim ret [
        | none ↦ (none, dev', sys')
        | some [] ↦ (some minus_one, dev', sys')
        | some (b ∷ bytes) ↦ (some (pos b), dev', sys')
      ]

  -- The bytes that are stored from `offset` on, [] for the result -1; `none` is an exception. The
  -- timeout is read from the field `threshold`, as the threshold is.
  unfoldable pub par_read_array : ℤ → ℤ → ℕ → Lpt → Sys Dev → Option (List ℕ) × Lpt × Sys Dev
  unfolding par_read_byte_array
  par_read_array fd (negsuc n) threshold dev sys = (none, dev, sys)
  par_read_array fd (pos zero) threshold dev sys = (none, dev, sys)
  par_read_array fd (pos (suc n)) threshold dev sys =
      par_read_byte_array fd (suc n) threshold (pos threshold) dev sys
