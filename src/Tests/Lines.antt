-- ===== src/Tests/Lines.antt =====
-- setDTR and setRTS, on the loopback device.
use rxtx.Base.{◌≡◌, refl, some, [], ◌∷◌}
use rxtx.Base.Int.{pos}
use rxtx.Termios.Comm.{Sys}
use rxtx.Termios.Ports.{find_port, find_from}
use rxtx.Serial.Lines.Laws.{Answers}
use rxtx.Tests.Device.{Loopback, loopback, loop_api, port_with}

abbrev two_ports : Sys Loopback
two_ports = record { ports = port_with 1 ∷ port_with 2 ∷ []; dev = loopback }

loop-Answers : Answers loop_api
loop-Answers = λ d h. (_, refl)

finds_2 : find_port (pos 2) two_ports.ports ≡ some (port_with 2)
unfolding find_port find_from
finds_2 = refl
