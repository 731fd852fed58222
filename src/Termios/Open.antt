-- ===== src/Termios/Open.antt =====
-- serial_open and serial_close of src/termios.c, with open_port and check_port_capabilities. The
-- overlapped structures are the three events that open_port creates; they are not kept here, and
-- their handles are closed with the port.
pub mod Life
use Prim.Native.String.{String}
use rxtx.Base.{
  ℕ, zero, suc, ◌==◌, if◌then◌else◌, not, Option, some, none, List, [], ◌∷◌, ◌&&◌, Bool, true,
  false,
}
use rxtx.Base.Int.{ℤ, pos, negsuc, minus_one}
use rxtx.Termios.Flags.{has, o_nonblock}
use rxtx.Termios.State.{Handle, null_handle, invalid_handle, handle, Port}
use rxtx.Termios.Comm.{CommApi, Sys}
use rxtx.Termios.Ports.{Ports, find_port, port_opened, add_port, unlink, update_from}
use rxtx.Termios.Raw.{zeroed, init_termios, init_serial_struct}
use rxtx.Termios.Attr.{tcsetattr}

-- The entry as add_port allocates it.
unfoldable pub new_port : String → Port
new_port name = record {
  filename = name;
  fd = 0;
  interrupt = 0;
  event_flag = 0;
  tx_happened = 0;
  hcomm = null_handle;
  ttyset = zeroed;
  sstruct = record { custom_divisor = 0; baud_base = 0 };
  msr = 0;
  sis = record { frame = 0; overrun = 0; parity = 0; brk = 0 };
  open_flags = 0;
}

abbrev pub is_null : Handle → Bool
is_null null_handle = true
is_null _ = false

abbrev pub is_invalid : Handle → Bool
is_invalid invalid_handle = true
is_invalid _ = false

-- A write through the pointer to the entry that add_port put at the end of the list.
unfoldable pub write_last : Port → Ports → Ports
write_last q [] = []
write_last q (p ∷ []) = q ∷ []
write_last q (p ∷ r ∷ ps) = p ∷ write_last q (r ∷ ps)

-- `!first_tl || !first_tl->hComm`
unfoldable pub nothing_open : Ports → Bool
nothing_open [] = true
nothing_open (p ∷ ps) = is_null p.hcomm

module _ {Dev : Type 0} (api : CommApi Dev) where
  -- Whether every CreateEvent succeeds, in the order of the calls; a failure ends them.
  unfoldable pub create_events : ℕ → Dev → Bool × Dev
  create_events zero dev = (true, dev)
  create_events (suc n) dev =
      let (made, dev') = api.create_event dev in
      let rest = create_events n dev' in if made then rest else (false, dev')

  -- Whether it returns 0, the handle that it stores, and the devices.
  unfoldable pub open_port : Port → Dev → Bool × Handle × Dev
  unfolding create_events
  open_port p dev =
      let (h, dev') = api.create_file dev p.filename in
      if is_invalid h
      then (false, h, dev')
      else let (done, dev'') = api.setup_comm dev' h in
        if not done
        then (false, h, dev'')
        else let (made, dev''') = create_events 3 dev'' in (made, h, dev''')

  -- CloseHandle is called on the comm handle unless it is null.
  unfoldable pub close_comm : Port → Dev → Dev
  close_comm p dev = if is_null p.hcomm then dev else api.close_handle dev p.hcomm

  unfoldable pub serial_close : ℤ → Sys Dev → ℤ × Sys Dev
  unfolding nothing_open close_comm
  serial_close fd sys =
      if nothing_open sys.ports then (pos 0, sys) else elim (find_port fd sys.ports) [
        | none ↦ (minus_one, sys)
        | some p ↦ (pos 0, record { ports = unlink fd sys.ports; dev = close_comm p sys.dev })
      ]

  -- The settings of a port whose device is open, ending with the open flags; `p` is its entry,
  -- the last one. tcsetattr gets the settings of the entry itself, which it may change.
  unfoldable pub set_up : Port → ℕ → Sys Dev → Sys Dev
  unfolding write_last
  set_up p flags sys =
      let ready : Port = record p { ttyset = init_termios; sstruct = init_serial_struct } in
      let sys' : Sys Dev = record { ports = write_last ready sys.ports; dev = sys.dev } in
      let (r, t, sys'') = tcsetattr api (pos p.fd) init_termios sys' in
      let last : Port = record ready {
        ttyset = t;
        open_flags = if has flags o_nonblock then o_nonblock else 0;
      } in
      record { ports = write_last last sys''.ports; dev = sys''.dev }

  unfoldable pub serial_open : String → ℕ → Sys Dev → ℤ × Sys Dev
  unfolding open_port serial_close set_up new_port write_last
  serial_open name flags sys =
      if not (port_opened name sys.ports == 0)
      then (minus_one, sys)
      else let (added, ports) = add_port (new_port name) sys.ports in
        let (opened, h, dev') = open_port added sys.dev in
        let port : Port = record added { hcomm = h } in
        let sys' : Sys Dev = record { ports = write_last port ports; dev = dev' } in
        if not opened
        then (minus_one, (serial_close (pos port.fd) sys').1)
        else elim (api.get_comm_state dev' h) [
          | none ↦ (minus_one, (serial_close (pos port.fd) sys').1)
          | some dcb ↦ (pos port.fd, set_up port flags sys')
        ]
