-- ===== src/Termios/Transfer/Returns.antt =====
-- When serial_read of src/termios.c returns, and when it never does.
use rxtx.Termios.Flags.{has, o_nonblock, vtime}
use rxtx.Base.Int.{pos}
use rxtx.Termios.Ports.{find_port}
use rxtx.Termios.Transfer.{
  Next, read_step, read_rounds, end_round, wait_clock, serial_read, read_port, wait_input,
}
use rxtx.Termios.State.{Handle, Port}
use rxtx.Termios.Comm.{CommApi, Sys}
use rxtx.Termios.Io.{IoApi, more_data, broken_pipe, read_event, incomplete, complete}
use rxtx.Base.{
  ℕ, zero, suc, ◌≡◌, ◌<◌, arith, some, List, length, ◌==◌, ◌≢◌, true, ◌-◌, ◌++◌, ◌≤◌, ◌+◌, false,
  get_or, Option, [], none, ◌>>=◌, if◌then◌else◌,
}
use rxtx.Base.{refl, none, []}
use rxtx.Termios.Transfer.{go_on}

-- Every answer of a device that is no failure has bytes: ReadFile, and GetOverlappedResult, which
-- waits and so is never incomplete. The clock does not go back over ClearCommError.
pub record Progress {Dev : Type 0} (api : CommApi Dev) (io : IoApi Dev) : Type 0 where
  pub clock_goes :
      (d : Dev) (h : Handle)
      → (io.clock d).0 ≤ (io.clock (api.clear_comm_error (io.clock d).1 h).1).0
  pub more_moves :
      (d : Dev) (h : Handle) (n : ℕ) (bytes : List ℕ)
      → (io.read_file d h n).0 ≡ more_data bytes
      → 0 < length bytes
  pub broken_moves :
      (d : Dev) (h : Handle) (n : ℕ) (bytes : List ℕ)
      → (io.read_file d h n).0 ≡ broken_pipe bytes
      → 0 < length bytes
  pub result_waits : (d : Dev) (h : Handle) (n : ℕ) → (io.read_result d h n).0 ≢ incomplete
  pub result_moves :
      (d : Dev) (h : Handle) (n : ℕ) (bytes : List ℕ)
      → (io.read_result d h n).0 ≡ complete bytes
      → 0 < length bytes

module _ {Dev : Type 0} (api : CommApi Dev) (io : IoApi Dev) where
  -- A round that goes on has bytes.
  abbrev Moved : Next × List ℕ × Dev → Type 0
  Moved (go_on, bytes, dev) = 0 < length bytes
  Moved (next, bytes, dev) = Unit

  read_rounds-broken_pipe :
      (fuel start size : ℕ) (got : List ℕ) (p : Port) (dev : Dev)
      → ((d : Dev) (h : Handle) (k : ℕ) → (io.read_file d h k).0 ≡ broken_pipe [])
      → 0 < size
      → read_rounds api io fuel start size got p dev ≡ none
  unfolding read_rounds read_step end_round
  read_rounds-broken_pipe zero start size got p dev always more = refl
  read_rounds-broken_pipe (suc fuel) start size got p dev always more =
      let some_left : (size == 0) ≡ false = ground arith in
      let dev1 = io.reset_event dev p.hcomm read_event in
      let dev2 = (io.read_file dev1 p.hcomm size).1 in
      let unread : size - 0 ≡ size = omega arith in
      rw (some_left, read_step, always dev1 p.hcomm size, unread)
        (read_rounds-broken_pipe fuel start size (got ++ []) p dev2 always more)

  wait_clock-broken_pipe :
      (fuel start size : ℕ) (w : Option (Port × Dev))
      → ((d : Dev) (h : Handle) (k : ℕ) → (io.read_file d h k).0 ≡ broken_pipe [])
      → 0 < size
      → ((w >>= λ (q, d). some (true, q, d)) >>= λ (ready, q, d).
          if ready then read_rounds api io fuel start size [] q d else some (some [], q, d))
        ≡ none
  wait_clock-broken_pipe fuel start size none always more = refl
  wait_clock-broken_pipe fuel start size (some (q, d)) always more =
      read_rounds-broken_pipe fuel start size [] q d always more

  read_port-broken_pipe :
      (fuel start size stack : ℕ) (p : Port) (dev : Dev)
      → has p.open_flags o_nonblock ≡ false
      → ((d : Dev) (h : Handle) (k : ℕ) → (io.read_file d h k).0 ≡ broken_pipe [])
      → 0 < size
      → read_port api io fuel start size stack p dev ≡ none
  unfolding read_port wait_input
  read_port-broken_pipe fuel start size stack p dev blocks always more =
      let (now, dev') = io.clock dev in
      rw (read_port, wait_input, blocks)
        (wait_clock-broken_pipe fuel start size
          (wait_clock api io fuel (now + get_or p.ttyset.c_cc vtime 0) p dev') always more)

  -- On a broken pipe serial_read never returns, however many rounds it takes: when ReadFile reports
  -- one with no bytes every time, a read of one or more bytes from the fd of an open port without
  -- O_NONBLOCK goes on for ever.
  pub serial_read-broken_pipe :
      (fuel stack n size : ℕ) (p : Port) (sys : Sys Dev)
      → find_port (pos (suc n)) sys.ports ≡ some p
      → has p.open_flags o_nonblock ≡ false
      → ((d : Dev) (h : Handle) (k : ℕ) → (io.read_file d h k).0 ≡ broken_pipe [])
      → 0 < size
      → serial_read api io fuel stack (pos (suc n)) size sys ≡ none
  unfolding serial_read
  serial_read-broken_pipe fuel stack n size p sys found blocks always more =
      let (start, dev) = io.get_tick_count sys.dev in
      rw (serial_read, found, read_port-broken_pipe fuel start size stack p dev blocks always more)
        refl
