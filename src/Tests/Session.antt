-- ===== src/Tests/Session.antt =====
-- Opening, closing and the receive timeout, on the loopback and the line device.
use rxtx.Serial.Native.{set_java_vars}
use rxtx.Base.{ℕ, ◌≡◌, ◌≢◌, refl, some, none, true, [], ◌∷◌, arith}
use rxtx.Base.Int.{pos, negsuc}
use rxtx.Termios.Comm.{Sys}
use rxtx.Termios.Ports.{find_port, find_from}
use rxtx.Termios.Ports.Fresh.{Ascends}
use rxtx.Termios.Attr.{
  tcgetattr, tcsetattr, get_port_attr, set_port_attr, send_attr, make_dcb, fill_flags, fill_attr,
}
use rxtx.Serial.Lines.{is_dtr}
use rxtx.Serial.Preopened.{Store, done}
use rxtx.Serial.Static.{native_static_set_dtr}
use rxtx.Serial.Session.{
  Opened, java_open, native_close, native_enable_receive_timeout_threshold,
  native_get_receive_timeout, native_is_receive_timeout_enabled,
}
use rxtx.Serial.Session.Opens.{java_open-static_set_dtr}
use rxtx.Serial.Session.Closes.{native_close_lem}
use rxtx.Serial.Session.Timeout.{get_receive_timeout-enable}
use rxtx.Tests.Settings.{two_ports, finds_2, read_ready}
use rxtx.Tests.Static.{no_ports, closed, configured, opens, loop-Answers}
use rxtx.Tests.Line.{Line, line, line_api, line_io}
use rxtx.Tests.Device.{Loopback, loop_api, loop_laws, port_with, raw_termios}

java_open-static_set_dtr_example :
    (s1 : Store) × (sys2 : Sys Loopback) × (o : Opened Loopback) × (native_static_set_dtr loop_api 3
        255 raw_termios "COM1" true no_ports closed
      ≡ done (true, s1, sys2))
    × (java_open loop_api 1 "COM1" raw_termios s1 sys2 ≡ done o)
    × (o.fd ≡ pos 1)
    × (o.vars ≡ set_java_vars loop_api (pos 1) raw_termios sys2)
    × (o.preopened.head ≡ 0)
    × ((is_dtr loop_api (pos 1) o.sys).0 ≡ true)
java_open-static_set_dtr_example =
    java_open-static_set_dtr loop_api loop-Answers 3 0 255 0 "COM1" true raw_termios raw_termios
      opens.1.0 no_ports closed configured refl (λ e. absurd (omega arith)) opens.0 opens.1.1

abbrev open_lines : Sys Line
open_lines = record { ports = port_with 1 ∷ port_with 2 ∷ []; dev = line }

finds_line : find_port (pos 1) open_lines.ports ≡ some (port_with 1)
unfolding find_port find_from
finds_line = refl

native_close_lem_example :
    let sys' = native_close line_api line_io (negsuc 0) (pos 1) open_lines in
    Ascends 0 sys'.ports
    × (find_port (pos 1) sys'.ports ≡ none)
    × ((g : ℕ) → g ≢ 1 → find_port (pos g) sys'.ports ≡ find_port (pos g) open_lines.ports)
native_close_lem_example =
    native_close_lem line_api line_io 0 (negsuc 0) (port_with 1) open_lines
      (omega arith, (omega arith, tt)) (refl, (refl, tt)) finds_line refl

timeout_set :
    (native_enable_receive_timeout_threshold loop_api (pos 2) (pos 2550) raw_termios two_ports).0
    ≡ true
unfolding native_enable_receive_timeout_threshold tcgetattr tcsetattr find_port find_from
    get_port_attr set_port_attr send_attr make_dcb fill_flags fill_attr
timeout_set = refl

get_receive_timeout-enable_example :
    let sys' =
      (native_enable_receive_timeout_threshold loop_api
        (pos 2)
        (pos 2550)
        raw_termios
        two_ports).1 in
    (native_get_receive_timeout loop_api (pos 2) raw_termios sys' ≡ some 2500)
    × (native_is_receive_timeout_enabled loop_api (pos 2) raw_termios sys' ≡ some true)
get_receive_timeout-enable_example =
    get_receive_timeout-enable loop_api loop_laws 2 2549 9600 (port_with 2) two_ports raw_termios
      raw_termios (omega arith) finds_2 timeout_set read_ready.0 read_ready.1 read_ready.3
