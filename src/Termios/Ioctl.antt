-- ===== src/Termios/Ioctl.antt =====
-- ClearErrors and ioctl of src/termios.c.
pub mod Frame
pub mod Lines
pub mod Status
use rxtx.Base.{
  ℕ, zero, suc, ◌+◌, ◌%◌, ◌^◌, ◌==◌, if◌then◌else◌, Bool, true, false, ◌&&◌, Option, some, none,
}
use rxtx.Base.Int.{ℤ, pos, negsuc, minus_one, is_nonpos}
use rxtx.Termios.Flags.{
  has, clear, tiocm_dtr, tiocm_rts, tiocm_cts, tiocm_car, tiocm_rng, tiocm_dsr,
}
use rxtx.Termios.State.{Counters, SerialStruct, Port}
use rxtx.Termios.Comm.{CommApi, CommError, ModemStatus, Sys}
use rxtx.Termios.Ports.{find_port, update_from}
use rxtx.Termios.Attr.{put}

-- EV_TXEMPTY of the Windows SDK
abbrev pub ev_txempty : ℕ
ev_txempty = 4

-- -ENOIOCTLCMD
abbrev pub no_ioctl_cmd : ℤ
no_ioctl_cmd = negsuc 514

-- An `int` that is incremented when the error is reported.
abbrev pub tick : ℕ → Bool → ℕ
tick n on = if on then (n + 1) % 2 ^ 32 else n

unfoldable pub count_errors : CommError → Counters → Counters
count_errors stat sis = record sis {
  frame = tick sis.frame stat.ce_frame;
  parity = tick sis.parity stat.ce_rxparity;
  brk = tick sis.brk stat.ce_break;
}

-- The requests that the switch names, those that are answered with -ENOIOCTLCMD as one.
pub data Request : Type 0 where
  tiocmget tiocmset tiocserconfig tiocsergetlsr : Request
  tiocgicount tiocser_wild fionread unsupported : Request

-- What the third argument points to, for each type that it has.
pub record Arg : Type 0 where
  pub value : ℕ
  pub counts : Counters

unfoldable pub modem_bits : ModemStatus → ℕ → ℕ → ℕ
modem_bits status msr arg =
    let car = put arg tiocm_car status.rlsd_on in
    let rng = put car tiocm_rng status.ring_on in
    let dsr = put rng tiocm_dsr status.dsr_on in
    let cts = put dsr tiocm_cts status.cts_on in
    let dtr = put cts tiocm_dtr (has msr tiocm_dtr) in put dtr tiocm_rts (has msr tiocm_rts)

-- dwStatus = 0
abbrev pub no_status : ModemStatus
no_status = record { rlsd_on = false; ring_on = false; dsr_on = false; cts_on = false }

-- dwStatus after GetCommModemStatus: still 0 when the call fails.
abbrev pub status_or : Option ModemStatus → ModemStatus
status_or none = no_status
status_or (some status) = status

unfoldable pub copy_counts : Counters → Counters → Counters
copy_counts sis counts = record counts {
  frame = sis.frame;
  overrun = sis.overrun;
  parity = sis.parity;
  brk = sis.brk;
}

module _ {Dev : Type 0} (api : CommApi Dev) where
  -- `none` is the result 0.
  unfoldable pub clear_errors : Port → Dev → Option CommError × Port × Dev
  unfolding count_errors
  clear_errors p dev =
      let (stat, dev') = api.clear_comm_error dev p.hcomm in
      elim stat [
        | none ↦ (none, p, dev')
        | some s ↦ (some s, record p { sis = count_errors s p.sis }, dev')
      ]

  unfoldable pub get_lsr : Arg → Port → Dev → ℤ × Arg × Port × Dev
  unfolding clear_errors
  get_lsr a p dev =
      let (stat, p', dev') = clear_errors p dev in
      elim stat [
        | none ↦ (minus_one, a, p', dev')
        | some s ↦
            if s.cb_out_que == 0 && p'.tx_happened == 1
            then (
              pos 0,
              record a { value = 1 },
              record p' { tx_happened = 0 },
              (api.set_comm_mask dev' p'.hcomm (clear p'.event_flag ev_txempty)).1,
            )
            else (pos 0, record a { value = 0 }, p', dev')
      ]

  unfoldable pub set_modem : Arg → Port → Dev → ℤ × Arg × Port × Dev
  set_modem a p dev =
      let dtr = has a.value tiocm_dtr in
      let rts = has a.value tiocm_rts in
      let msr = put (put p.msr tiocm_dtr dtr) tiocm_rts rts in
      (
        pos 0,
        a,
        record p { msr = msr },
        api.escape_rts (api.escape_dtr dev p.hcomm dtr) p.hcomm rts,
      )

  -- The switch. src/win32termios.h does not define TIOCGSERIAL and TIOCSSERIAL, so that their cases
  -- are not compiled.
  unfoldable pub serve : Request → Arg → Port → Dev → ℤ × Arg × Port × Dev
  unfolding clear_errors get_lsr set_modem modem_bits copy_counts
  serve tiocmget a p dev =
      let status = status_or (api.get_comm_modem_status dev p.hcomm) in
      (pos 0, record a { value = modem_bits status p.msr a.value }, p, dev)
  serve tiocmset a p dev = set_modem a p dev
  serve tiocserconfig a p dev = get_lsr a p dev
  serve tiocsergetlsr a p dev = get_lsr a p dev
  serve tiocgicount a p dev =
      let (stat, p', dev') = clear_errors p dev in
      elim stat [
        | none ↦ (minus_one, a, p', dev')
        | some s ↦ (pos 0, record a { counts = copy_counts p'.sis a.counts }, p', dev')
      ]
  serve tiocser_wild a p dev = (pos 0, a, p, dev)
  serve fionread a p dev =
      let (stat, p', dev') = clear_errors p dev in
      elim stat [
        | none ↦ (minus_one, a, p', dev')
        | some s ↦ (pos 0, record a { value = s.cb_in_que }, p', dev')
      ]
  serve unsupported a p dev = (no_ioctl_cmd, a, p, dev)

  unfoldable pub ioctl_port : Request → Arg → Port → Dev → ℤ × Arg × Port × Dev
  unfolding clear_errors serve
  ioctl_port request a p dev =
      let (stat, p', dev') = clear_errors p dev in
      elim stat [ none ↦ (minus_one, a, p', dev') | some s ↦ serve request a p' dev' ]

  unfoldable pub ioctl : ℤ → Request → Arg → Sys Dev → ℤ × Arg × Sys Dev
  unfolding ioctl_port
  ioctl fd request a sys = if is_nonpos fd then (pos 0, a, sys) else elim (find_port fd sys.ports) [
    | none ↦ (minus_one, a, sys)
    | some p ↦
        let (r, a', p', dev') = ioctl_port request a p sys.dev in
        (r, a', record { ports = update_from p.fd p' sys.ports; dev = dev' })
  ]
