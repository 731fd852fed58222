-- ===== src/Tests/Open.antt =====
-- serial_open, on the loopback device.
use rxtx.Base.{◌≡◌, refl, ◌⊎◌, [], ◌∷◌, arith}
use rxtx.Base.Int.{minus_one}
use rxtx.Termios.Comm.{Sys}
use rxtx.Termios.Open.{serial_open}
use rxtx.Termios.Open.Life.{Added, serial_open_lem}
use rxtx.Tests.Device.{Loopback, loopback, loop_api, port_with}

abbrev two_ports : Sys Loopback
two_ports = record { ports = port_with 1 ∷ port_with 3 ∷ []; dev = loopback }

serial_open_example :
    let (r, sys') = serial_open loop_api "COM2" 0 two_ports in
    ((r ≡ minus_one) × (sys'.ports ≡ two_ports.ports)) ⊎ Added loop_api "COM2" two_ports (r, sys')
serial_open_example =
    serial_open_lem loop_api "COM2" 0 two_ports (omega arith, (omega arith, tt)) (refl, (refl, tt))
      (λ dev. refl)
