-- ===== src/Termios/Attr.antt =====
-- tcgetattr, tcsetattr and the conversions between struct termios and a DCB, of src/termios.c.
pub mod Fields
pub mod Parts
pub mod RoundTrip
pub mod Calls
pub mod Results
use rxtx.Base.{
  ℕ, zero, suc, ◌*◌, ◌/◌, ◌==◌, if◌then◌else◌, ltb, Bool, true, false, not, ◌&&◌, ◌||◌, bit_and,
  bit_or, Option, some, none, List, [], ◌∷◌, get_or, set, ◌%◌,
}
use rxtx.Base.Int.{ℤ, pos, negsuc, minus_one, is_nonpos}
use rxtx.Termios.Flags.{
  clear, has, ignpar, inpck, istrip, ixon, ixany, ixoff, cignore, icanon, cbaud, cstopb, parenb,
  parodd, cmspar, crtscts, vtime, vmin, vstart, vstop, veof,
}
use rxtx.Termios.Speed.{cbr_to_b, b_to_cbr, bytesize_to_termios, termios_to_bytesize}
use rxtx.Termios.State.{
  Termios, Dcb, CommTimeouts, Port, Handle, Parity, no_parity, odd_parity, even_parity, mark_parity,
  space_parity, StopBits, one_stop_bit, one5_stop_bits, two_stop_bits, RtsControl, rts_disable,
  rts_handshake, dtr_enable,
}
use rxtx.Termios.Comm.{CommApi, Sys}
use rxtx.Termios.Ports.{find_port, update_from}

-- The result -1 stored in an unsigned number of 32 bits.
abbrev pub dword : Option ℕ → ℕ
dword none = 0xffffffff
dword (some n) = n

-- termios_to_DCB

abbrev pub dcb_parity : ℕ → Parity
dcb_parity cflag =
    if has cflag parenb
    then (if has cflag parodd && has cflag cmspar
        then mark_parity
        else if has cflag parodd
        then odd_parity
        else if has cflag cmspar
        then space_parity
        else even_parity)
    else no_parity

unfoldable pub termios_to_dcb : Termios → Dcb → Termios × Dcb
unfolding b_to_cbr termios_to_bytesize
termios_to_dcb t dcb =
    let speed = bit_and t.c_cflag cbaud in
    let flow = has t.c_cflag crtscts in
    (
      record t { c_ispeed = speed; c_ospeed = speed },
      record dcb {
        baud_rate = dword (b_to_cbr speed);
        byte_size = termios_to_bytesize t.c_cflag;
        parity = dcb_parity t.c_cflag;
        stop_bits = if has t.c_cflag cstopb then two_stop_bits else one_stop_bit;
        f_rts_control = if flow then rts_handshake else rts_disable;
        f_outx_cts_flow = flow;
      },
    )

-- DCB_to_termios
unfoldable pub dcb_to_termios : Dcb → Termios → Termios
unfolding cbr_to_b
dcb_to_termios dcb t =
    let speed = dword (cbr_to_b dcb.baud_rate) in
    record t {
      c_ispeed = speed;
      c_ospeed = speed;
      c_cflag = bit_or t.c_cflag (bit_and speed cbaud);
    }

-- tcgetattr: the input mode flags, from the flags of the DCB

abbrev pub put : ℕ → ℕ → Bool → ℕ
put x m on = if on then bit_or x m else clear x m

unfoldable pub get_iflag : Dcb → ℕ → ℕ
get_iflag dcb iflag =
    let parity =
      if dcb.f_parity
      then clear (bit_or iflag inpck) ignpar
      else bit_or (clear iflag inpck) ignpar in
    put (put (put parity ixon dcb.f_out_x) ixoff dcb.f_in_x) ixany dcb.f_tx_continue_on_xoff

-- tcgetattr: the control mode flags

unfoldable pub get_stop : StopBits → ℕ → ℕ
get_stop two_stop_bits cflag = bit_or cflag cstopb
get_stop one_stop_bit cflag = clear cflag cstopb
get_stop one5_stop_bits cflag = cflag

unfoldable pub get_parity : Parity → ℕ → ℕ
get_parity mark_parity cflag = bit_or cflag (bit_or parodd cmspar)
get_parity space_parity cflag = bit_or cflag cmspar
get_parity odd_parity cflag = bit_or cflag parodd
get_parity even_parity cflag = clear cflag parodd
get_parity no_parity cflag = clear cflag (bit_or parodd (bit_or cmspar parenb))

abbrev pub is_handshake : RtsControl → Bool
is_handshake rts_handshake = true
is_handshake _ = false

unfoldable pub get_cflag : Dcb → ℕ → ℕ
unfolding get_stop get_parity bytesize_to_termios
get_cflag dcb cflag =
    let stopped = get_stop dcb.stop_bits cflag in
    let parity =
      get_parity dcb.parity
        (bit_or (clear stopped (bit_or parenb (bit_or parodd cmspar))) parenb) in
    put (bit_or parity (bytesize_to_termios dcb.byte_size)) crtscts
      (dcb.f_outx_cts_flow || is_handshake dcb.f_rts_control)

-- tcsetattr: the rest of the DCB, from the input flags and the control characters. The source first
-- sets fBinary by ISTRIP and then again by EofChar: the second value stands.

unfoldable pub set_input : Termios → Dcb → Dcb
set_input t dcb = record dcb {
  f_binary = get_or t.c_cc veof 0 == 0;
  f_out_x = has t.c_iflag ixon;
  f_in_x = has t.c_iflag ixoff;
  f_tx_continue_on_xoff = has t.c_iflag ixany;
  f_dtr_control = dtr_enable;
  f_outx_dsr_flow = false;
  f_dsr_sensitivity = false;
  xon_char = get_or t.c_cc vstart 0;
  xoff_char = get_or t.c_cc vstop 0;
  xon_lim = 0;
  xoff_lim = 0;
  eof_char = get_or t.c_cc veof 0;
  evt_char = b'\n';
}

unfoldable pub set_timeouts : Termios → CommTimeouts → CommTimeouts
set_timeouts t old =
    let millis = get_or t.c_cc vtime 0 * 100 in
    let at_once = get_or t.c_cc vmin 0 == 0 && millis == 0 in
    record old {
      read_interval_timeout = if at_once then 0xffffffff else 0;
      read_total_timeout_multiplier = 0;
      read_total_timeout_constant = millis;
      write_total_timeout_multiplier = 0;
      write_total_timeout_constant = millis;
    }

-- tcgetattr: the control characters
unfoldable pub get_cc : Dcb → CommTimeouts → List ℕ → List ℕ
get_cc dcb timeouts cc =
    set
      (set
        (set (set cc vtime (timeouts.read_total_timeout_constant / 100 % 256)) vstart dcb.xon_char)
        vstop dcb.xoff_char)
      veof dcb.eof_char

-- tcgetattr: what it fills in from the DCB before it asks for the timeouts, and all of it.

unfoldable pub fill_flags : Dcb → Termios → Termios
unfolding get_iflag get_cflag
fill_flags dcb t = record t { c_iflag = get_iflag dcb t.c_iflag; c_cflag = get_cflag dcb t.c_cflag }

unfoldable pub fill_attr : Dcb → CommTimeouts → Termios → Termios
unfolding fill_flags get_cc dcb_to_termios
fill_attr dcb timeouts t =
    let filled = fill_flags dcb t in
    dcb_to_termios dcb (record filled { c_cc = get_cc dcb timeouts filled.c_cc })

-- The DCB that tcsetattr passes to SetCommState, with what it leaves in `s_termios`.
unfoldable pub make_dcb : Termios → Dcb → Termios × Dcb
unfolding termios_to_dcb set_input
make_dcb t dcb =
    let (t', dcb') =
      if has t.c_cflag cignore
      then (t, dcb)
      else termios_to_dcb t (record dcb { f_parity = true }) in
    (t', set_input t' dcb')

module _ {Dev : Type 0} (api : CommApi Dev) where
  -- tcgetattr of a port that is found: the result, and what `s_termios` then holds; `old` is what
  -- it held. A failure of GetCommTimeouts leaves it half filled.
  unfoldable pub get_port_attr : Port → Dev → Termios → ℤ × Termios
  unfolding fill_flags fill_attr
  get_port_attr p dev old = elim (api.get_comm_state dev p.hcomm) [
    | none ↦ (minus_one, old)
    | some dcb ↦ elim (api.get_comm_timeouts dev p.hcomm) [
      | none ↦ (minus_one, fill_flags dcb p.ttyset)
      | some timeouts ↦ (pos 0, fill_attr dcb timeouts p.ttyset)
    ]
  ]

  unfoldable pub tcgetattr : ℤ → Sys Dev → Termios → ℤ × Termios
  unfolding get_port_attr
  tcgetattr fd sys old = if is_nonpos fd then (pos 0, old) else elim (find_port fd sys.ports) [
    | none ↦ (minus_one, old)
    | some p ↦ get_port_attr p sys.dev old
  ]

  -- tcsetattr: the two Set calls, with the settings and the DCB that were made.
  unfoldable pub send_attr : Port → Dev → CommTimeouts → Termios × Dcb → ℤ × Termios × Port × Dev
  unfolding set_timeouts
  send_attr p dev timeouts (t, dcb) =
      let (done, dev') = api.set_comm_state dev p.hcomm dcb in
      if not done
      then (minus_one, t, p, dev')
      else let (done', dev'') = api.set_comm_timeouts dev' p.hcomm (set_timeouts t timeouts) in
        if not done' then (minus_one, t, p, dev'') else (pos 0, t, record p { ttyset = t }, dev'')

  -- tcsetattr of a port that is found: the result, `s_termios`, the port with its `ttyset`, and
  -- the devices.
  unfoldable pub set_port_attr : Port → Dev → Termios → ℤ × Termios × Port × Dev
  unfolding make_dcb send_attr
  set_port_attr p dev t =
      if has t.c_lflag icanon
      then (minus_one, t, p, dev)
      else elim (api.get_comm_state dev p.hcomm) [
        | none ↦ (minus_one, t, p, dev)
        | some dcb ↦ elim (api.get_comm_timeouts dev p.hcomm) [
          | none ↦ (minus_one, t, p, dev)
          | some timeouts ↦ send_attr p dev timeouts (make_dcb t dcb)
        ]
      ]

  unfoldable pub tcsetattr : ℤ → Termios → Sys Dev → ℤ × Termios × Sys Dev
  unfolding set_port_attr
  tcsetattr fd t sys = if is_nonpos fd then (pos 0, t, sys) else elim (find_port fd sys.ports) [
    | none ↦ (minus_one, t, sys)
    | some p ↦
        let (r, t', p', dev') = set_port_attr p sys.dev t in
        (r, t', record { ports = update_from p.fd p' sys.ports; dev = dev' })
  ]
