-- ===== src/Tests/Ioctl.antt =====
-- ioctl, on the loopback device.
use rxtx.Base.{ℕ, ◌≡◌, refl, some, ◌∷◌, [], true, false}
use rxtx.Base.Int.{pos}
use rxtx.Termios.Flags.{has, tiocm_dtr, tiocm_rts}
use rxtx.Termios.State.{Port}
use rxtx.Termios.Comm.{Sys, ModemStatus}
use rxtx.Termios.Ports.{find_port, find_from, update_from}
use rxtx.Termios.Ioctl.{
  Arg, tiocmget, tiocmset, tiocsergetlsr, ioctl, ioctl_port, serve, clear_errors, get_lsr,
  set_modem,
}
use rxtx.Termios.Ioctl.Lines.{tiocmget-tiocmset}
use rxtx.Tests.Device.{Loopback, loopback, loop_api, port_with}

abbrev two_ports : Sys Loopback
two_ports = record { ports = port_with 1 ∷ port_with 2 ∷ []; dev = loopback }

abbrev argument : ℕ → Arg
argument v = record { value = v; counts = record { frame = 0; overrun = 0; parity = 0; brk = 0 } }

-- A port that has sent.
abbrev sent_port : Port
sent_port = record (port_with 1) { tx_happened = 1 }

abbrev dsr_only : ModemStatus
dsr_only = record { rlsd_on = false; ring_on = false; dsr_on = true; cts_on = false }

finds_2 : find_port (pos 2) two_ports.ports ≡ some (port_with 2)
unfolding find_port find_from
finds_2 = refl

sets_2 : (ioctl loop_api (pos 2) tiocmset (argument 2) two_ports).0 ≡ pos 0
unfolding ioctl ioctl_port clear_errors serve set_modem find_port find_from
sets_2 = refl

gets_2 :
    (ioctl loop_api
      (pos 2)
      tiocmget
      (argument 0)
      (ioctl loop_api (pos 2) tiocmset (argument 2) two_ports).2).0
    ≡ pos 0
unfolding ioctl ioctl_port clear_errors serve set_modem find_port find_from update_from
gets_2 = refl

tiocmget-tiocmset_example :
    let read =
      (ioctl loop_api
        (pos 2)
        tiocmget
        (argument 0)
        (ioctl loop_api (pos 2) tiocmset (argument 2) two_ports).2).1.value in
    (has read tiocm_dtr ≡ has 2 tiocm_dtr) × (has read tiocm_rts ≡ has 2 tiocm_rts)
tiocmget-tiocmset_example =
    tiocmget-tiocmset loop_api 1 (port_with 2) two_ports (argument 2) (argument 0) finds_2 sets_2
      gets_2

reports_1 :
    ((ioctl_port loop_api tiocsergetlsr (argument 7) sent_port loopback).0 ≡ pos 0)
    × ((ioctl_port loop_api tiocsergetlsr (argument 7) sent_port loopback).1.value ≡ 1)
unfolding ioctl_port clear_errors serve get_lsr
reports_1 = (refl, refl)

abbrev after_one : Port
after_one = (ioctl_port loop_api tiocsergetlsr (argument 7) sent_port loopback).2

reports_again : (ioctl_port loop_api tiocsergetlsr (argument 7) after_one loopback).0 ≡ pos 0
unfolding ioctl_port clear_errors serve get_lsr
reports_again = refl
