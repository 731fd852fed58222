-- ===== src/Tests/Ports.antt =====
-- The list of ports, on examples.
use rxtx.Base.{ℕ, ◌<◌, ◌≡◌, refl, true, false, some, [], ◌∷◌, arith}
use rxtx.Base.Int.{pos}
use rxtx.Termios.Ports.{Ports, find_port, get_free_fd, add_port, unlink}
use rxtx.Termios.Ports.Fresh.{uses, Ascends, get_free_fd-least}
use rxtx.Termios.Ports.Close.{reopen_collides}
use rxtx.Tests.Device.{port_with}

abbrev three : Ports
three = port_with 1 ∷ port_with 2 ∷ port_with 4 ∷ []

three-Ascends : Ascends 0 three
three-Ascends = (omega arith, (omega arith, (omega arith, tt)))

get_free_fd-least_example :
    (0 < get_free_fd three)
    × (uses (get_free_fd three) three ≡ false)
    × ((fd : ℕ) → 0 < fd → fd < get_free_fd three → uses fd three ≡ true)
get_free_fd-least_example = get_free_fd-least three three-Ascends

reopen_collides_example :
    let (c', rs) = add_port (port_with 0) (unlink (pos 1) three) in
    let (d', ss) = add_port (port_with 0) rs in
    (c'.fd ≡ 1) × (d'.fd ≡ 1) × (find_port (pos 1) ss ≡ some c')
reopen_collides_example =
    reopen_collides (port_with 1) (port_with 2) (port_with 0) (port_with 0) (port_with 4 ∷ [])
      three-Ascends refl
