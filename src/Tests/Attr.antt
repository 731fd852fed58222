-- ===== src/Tests/Attr.antt =====
-- tcsetattr and tcgetattr, on the loopback device.
use rxtx.Base.{◌≡◌, refl, some, ◌∷◌, [], arith}
use rxtx.Base.Int.{pos}
use rxtx.Base.Tables.{assoc}
use rxtx.Termios.State.{Termios}
use rxtx.Termios.Comm.{Sys}
use rxtx.Termios.Speed.{b_to_cbr}
use rxtx.Termios.Ports.{find_port, find_from}
use rxtx.Termios.Attr.{tcsetattr, tcgetattr, set_port_attr, make_dcb, send_attr}
use rxtx.Termios.Attr.RoundTrip.{ReadsBack}
use rxtx.Termios.Attr.Calls.{tcgetattr-tcsetattr}
use rxtx.Tests.Device.{Loopback, loopback, loop_api, loop_laws, raw_termios, port_with}

abbrev two_ports : Sys Loopback
two_ports = record { ports = port_with 1 ∷ port_with 2 ∷ []; dev = loopback }

finds_2 : find_port (pos 2) two_ports.ports ≡ some (port_with 2)
unfolding find_port find_from
finds_2 = refl

sets_2 : (tcsetattr loop_api (pos 2) raw_termios two_ports).0 ≡ pos 0
unfolding tcsetattr set_port_attr find_port find_from make_dcb send_attr
sets_2 = refl

code_13 : b_to_cbr 13 ≡ some 9600
unfolding b_to_cbr assoc
code_13 = refl

tcgetattr-tcsetattr_example :
    (v : Termios) × (tcgetattr loop_api
        (pos 2)
        (tcsetattr loop_api (pos 2) raw_termios two_ports).2
        raw_termios
      ≡ (pos 0, v))
    × ReadsBack raw_termios v
tcgetattr-tcsetattr_example =
    tcgetattr-tcsetattr loop_api loop_laws 2 (port_with 2) two_ports raw_termios raw_termios 9600
      finds_2 sets_2 refl refl (omega arith) code_13
