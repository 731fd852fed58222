-- ===== src/Termios/Io.antt =====
-- The calls of src/termios.c on the queues and the flags of a port: tcdrain, tcflush, tcflow,
-- tcsendbreak, fcntl, termios_interrupt_event_loop, termios_setflags, the two calls for the parity
-- error character, get_fd and get_filename. The rest of the Win32 API, for overlapped input and
-- output, is the parameter `IoApi`. Pauses and errno are left out.
use Prim.Native.String.{String}
use text.Mathlib.Text.{◌==◌ as str_eq}
use rxtx.Base.{
  ℕ, ◌==◌, if◌then◌else◌, Bool, false, not, ◌&&◌, Option, some, none, List, [], ◌∷◌, bit_or,
}
use rxtx.Base.Int.{ℤ, pos, negsuc, minus_one, is_nonpos, signed_char}
use rxtx.Termios.Flags.{has, clear}
use rxtx.Termios.State.{Handle, Dcb, Port}
use rxtx.Termios.Comm.{CommApi, Sys}
use rxtx.Termios.Ports.{Ports, find_port, update_from}
use rxtx.Termios.Ioctl.{clear_errors, ev_txempty}

-- ReadFile: done, or ERROR_MORE_DATA or ERROR_BROKEN_PIPE with the bytes that came, or
-- ERROR_IO_PENDING, or another error.
pub data ReadFile : Type 0 where
  read_done more_data broken_pipe : List ℕ → ReadFile
  read_pending read_failed : ReadFile

-- WriteFile: the number of bytes, or ERROR_IO_PENDING, or another error.
pub data WriteFile : Type 0 where
  write_done : ℕ → WriteFile
  write_pending write_failed : WriteFile

-- GetOverlappedResult: what was transferred, or ERROR_IO_INCOMPLETE, or another error.
pub data Overlapped (A : Type 0) : Type 0 where
  complete : A → Overlapped A
  incomplete broken : Overlapped A

-- WaitForSingleObject
pub data Wait : Type 0 where
  wait_object wait_timeout wait_abandoned : Wait

-- The events `wol`, `sol` and `rol` of a port.
pub data IoEvent : Type 0 where
  write_event select_event read_event : IoEvent

pub record IoApi (Dev : Type 0) : Type 0 where
  pub reset_event : Dev → Handle → IoEvent → Dev
  pub read_file : Dev → Handle → ℕ → ReadFile × Dev
  pub read_result : Dev → Handle → ℕ → Overlapped (List ℕ) × Dev
  pub write_file : Dev → Handle → List ℕ → WriteFile × Dev
  pub write_result : Dev → Handle → Overlapped ℕ × Dev
  -- Whether it succeeds or is pending.
  pub wait_comm_event : Dev → Handle → Bool × Dev
  pub wait_for : Dev → Handle → IoEvent → Wait × Dev
  pub get_tick_count : Dev → ℕ × Dev
  -- clock(), in tenths of a second
  pub clock : Dev → ℕ × Dev
  pub flush_file_buffers : Dev → Handle → Bool × Dev
  pub last_error : Dev → ℕ
  -- PURGE_RXABORT, PURGE_TXABORT
  pub purge_rx : Dev → Handle → Bool × Dev
  pub purge_tx : Dev → Handle → Bool × Dev
  pub set_comm_break : Dev → Handle → Bool × Dev
  pub clear_comm_break : Dev → Handle → Bool × Dev

-- EV_... of the Windows SDK
abbrev pub ev_rxchar : ℕ
ev_rxchar = 1

abbrev pub ev_cts : ℕ
ev_cts = 0x8

abbrev pub ev_dsr : ℕ
ev_dsr = 0x10

abbrev pub ev_rlsd : ℕ
ev_rlsd = 0x20

abbrev pub ev_break : ℕ
ev_break = 0x40

abbrev pub ev_err : ℕ
ev_err = 0x80

abbrev pub ev_ring : ℕ
ev_ring = 0x100

-- The trailing edge of the ring, which not every system knows.
abbrev pub ev_ringte : ℕ
ev_ringte = 0x2000

abbrev pub windows_flags : List ℕ
windows_flags =
    0
    ∷ ev_rxchar
    ∷ ev_txempty
    ∷ ev_cts
    ∷ ev_dsr
    ∷ bit_or ev_ring ev_ringte
    ∷ ev_rlsd
    ∷ ev_err
    ∷ ev_err
    ∷ ev_err
    ∷ ev_break
    ∷ []

-- The loop of termios_setflags, over the flags that are asked for.
unfoldable pub event_mask : List Bool → List ℕ → ℕ → ℕ
event_mask [] masks acc = acc
event_mask (on ∷ flags) [] acc = acc
event_mask (on ∷ flags) (m ∷ masks) acc = event_mask flags masks (if on then bit_or acc m else acc)

pub data Queue : Type 0 where
  tciflush tcoflush tcioflush unknown_queue : Queue

pub data Flow : Type 0 where
  tcooff tcoon tcioff tcion unknown_flow : Flow

pub data Command : Type 0 where
  f_setown f_setfl f_getfl unknown_command : Command

unfoldable pub tcflow : Flow → ℤ
tcflow unknown_flow = minus_one
tcflow _ = pos 1

unfoldable pub fcntl_port : Command → ℕ → Port → ℕ × Port
fcntl_port f_setown arg p = (0, p)
fcntl_port f_setfl arg p = (0, record p { open_flags = arg })
fcntl_port f_getfl arg p = (p.open_flags, p)
fcntl_port unknown_command arg p = (0, p)

unfoldable pub fcntl : {Dev : Type 0} → ℤ → Command → ℕ → Sys Dev → ℤ × Sys Dev
unfolding fcntl_port
fcntl fd command arg sys = if is_nonpos fd then (pos 0, sys) else elim (find_port fd sys.ports) [
  | none ↦ (minus_one, sys)
  | some p ↦
      let (r, p') = fcntl_port command arg p in
      (pos r, record sys { ports = update_from p.fd p' sys.ports })
]

unfoldable pub termios_interrupt_event_loop : {Dev : Type 0} → ℤ → ℕ → Sys Dev → Sys Dev
termios_interrupt_event_loop fd flag sys = elim (find_port fd sys.ports) [
  | none ↦ sys
  | some p ↦ record sys { ports = update_from p.fd (record p { interrupt = flag }) sys.ports }
]

-- The walk of get_fd: the successor of an entry is compared only when it is not the last. `none`:
-- with one entry and another name the walk reads through a null pointer.
unfoldable pub fd_from : String → Port → Ports → Option ℤ
fd_from filename p [] = if str_eq p.filename filename then some (pos p.fd) else none
fd_from filename p (q ∷ []) = if str_eq p.filename filename then some (pos p.fd) else some minus_one
fd_from filename p (q ∷ r ∷ ps) =
    let next = fd_from filename q (r ∷ ps) in
    if str_eq p.filename filename then some (pos p.fd) else next

unfoldable pub get_fd : String → Ports → Option ℤ
unfolding fd_from
get_fd filename [] = some minus_one
get_fd filename (p ∷ ps) = fd_from filename p ps

unfoldable pub get_filename : ℤ → Ports → String
get_filename fd [] = "bad"
get_filename (negsuc n) (p ∷ ps) = "bad"
get_filename (pos n) (p ∷ ps) = if p.fd == n then p.filename else get_filename (pos n) ps

-- A call on the port of an fd, which runs on its entry; -1 without one.
abbrev pub on_port : {Dev : Type 0} → ℤ → (Port → Dev → ℤ × Port × Dev) → Sys Dev → ℤ × Sys Dev
on_port fd call sys = elim (find_port fd sys.ports) [
  | none ↦ (minus_one, sys)
  | some p ↦
      let (r, p', dev') = call p sys.dev in
      (r, record { ports = update_from p.fd p' sys.ports; dev = dev' })
]

module _ {Dev : Type 0} (api : CommApi Dev) (io : IoApi Dev) where
  -- The mask is set with EV_TXEMPTY, and the flag in the entry is put back.
  abbrev pub mask_tx : Port → Dev → Dev
  mask_tx p dev = (api.set_comm_mask dev p.hcomm (bit_or p.event_flag ev_txempty)).1

  unfoldable pub setflags_port : List Bool → Port → Dev → Port × Dev
  unfolding event_mask
  setflags_port flags p dev =
      let mask = event_mask flags windows_flags 0 in
      let (done, dev') = api.set_comm_mask dev p.hcomm mask in
      if has mask ev_ringte && not done
      then (let less = clear mask ev_ringte in
          (record p { event_flag = less }, (api.set_comm_mask dev' p.hcomm less).1))
      else (record p { event_flag = mask }, dev')

  unfoldable pub termios_setflags : ℤ → List Bool → Sys Dev → Sys Dev
  unfolding setflags_port
  termios_setflags fd flags sys = elim (find_port fd sys.ports) [
    | none ↦ sys
    | some p ↦
        let (p', dev') = setflags_port flags p sys.dev in
        record { ports = update_from p.fd p' sys.ports; dev = dev' }
  ]

  -- ClearErrors for its effect.
  abbrev pub read_errors : Port → Dev → Port × Dev
  read_errors p dev = let (stat, p', dev') = clear_errors api p dev in (p', dev')

  -- The comm break is set and cleared; a failure only reads the errors.
  unfoldable pub send_break_port : Port → Dev → ℤ × Port × Dev
  send_break_port p dev =
      let (begun, dev1) = io.set_comm_break dev p.hcomm in
      let (p1, dev2) = if begun then (p, dev1) else read_errors p dev1 in
      let (cleared, dev3) = io.clear_comm_break dev2 p1.hcomm in
      let (p2, dev4) = if cleared then (p1, dev3) else read_errors p1 dev3 in (pos 1, p2, dev4)

  unfoldable pub tcsendbreak : ℤ → Sys Dev → ℤ × Sys Dev
  unfolding send_break_port
  tcsendbreak fd sys = on_port fd send_break_port sys

  unfoldable pub drain_port : Port → Dev → ℤ × Port × Dev
  drain_port p dev =
      let (flushed, dev1) = io.flush_file_buffers dev p.hcomm in
      if flushed
      then (pos 0, p, mask_tx p dev1)
      else if io.last_error dev1 == 0
      then (pos 0, p, dev1)
      else (minus_one, p, dev1)

  unfoldable pub tcdrain : ℤ → Sys Dev → ℤ × Sys Dev
  unfolding drain_port
  tcdrain fd sys = on_port fd drain_port sys

  -- Whether every PurgeComm succeeds; a failure ends them. `none`: the selector is unknown.
  unfoldable pub purge : Queue → Handle → Dev → Option (Bool × Dev)
  purge tciflush h dev = some (io.purge_rx dev h)
  purge tcoflush h dev = some (io.purge_tx dev h)
  purge tcioflush h dev =
      let (done, dev') = io.purge_tx dev h in
      some (if done then io.purge_rx dev' h else (false, dev'))
  purge unknown_queue h dev = none

  unfoldable pub flush_port : Queue → Port → Dev → ℤ × Port × Dev
  unfolding purge
  flush_port queue p dev =
      let p' = record p { tx_happened = 1 } in
      elim (purge queue p.hcomm dev) [
        | none ↦ (minus_one, p', dev)
        | some (done, dev') ↦ if done then (pos 0, p', mask_tx p dev') else (minus_one, p', dev')
      ]

  unfoldable pub tcflush : ℤ → Queue → Sys Dev → ℤ × Sys Dev
  unfolding flush_port
  tcflush fd queue sys = on_port fd (flush_port queue) sys

module _ {Dev : Type 0} (api : CommApi Dev) where
  -- `stack` is the DCB that GetCommState leaves alone when it fails.
  unfoldable pub termios_get_parity_error_char : Dcb → ℤ → Sys Dev → ℤ
  termios_get_parity_error_char stack fd sys = elim (find_port fd sys.ports) [
    | none ↦ minus_one
    | some p ↦ elim (api.get_comm_state sys.dev p.hcomm) [
      | none ↦ signed_char stack.error_char
      | some dcb ↦ signed_char dcb.error_char
    ]
  ]

  abbrev pub state_or : Dcb → Option Dcb → Dcb
  state_or stack none = stack
  state_or stack (some dcb) = dcb

  unfoldable pub termios_set_parity_error : Dcb → ℤ → ℕ → Sys Dev → Sys Dev
  termios_set_parity_error stack fd value sys = elim (find_port fd sys.ports) [
    | none ↦ sys
    | some p ↦
        let dcb = state_or stack (api.get_comm_state sys.dev p.hcomm) in
        record sys {
          dev = (api.set_comm_state sys.dev p.hcomm (record dcb { error_char = value })).1;
        }
  ]
