-- ===== src/Termios/Ports/Update.antt =====
-- What is found after a write through the pointer that find_port returned, in src/termios.c.
use rxtx.Base.{ℕ, zero, suc, ◌≡◌, some, [], ◌∷◌, arith}
use rxtx.Base.Int.{pos}
use rxtx.Termios.State.{Port}
use rxtx.Termios.Ports.{Ports, find_from, find_port, update_from}

find_from-update_from :
    (fd : ℕ) (p q : Port) (ps : Ports)
    → find_from fd ps ≡ some p
    → q.fd ≡ p.fd
    → (p.fd ≡ fd) × (find_from fd (update_from p.fd q ps) ≡ some q)
unfolding find_from update_from
find_from-update_from fd p q [] found same = absurd cc
find_from-update_from fd p q (r ∷ ps) found same = ground (arith, find_from-update_from fd p q ps)

pub find_port-update_from :
    (fd : ℕ) (p q : Port) (ps : Ports)
    → find_port (pos fd) ps ≡ some p
    → q.fd ≡ p.fd
    → find_port (pos fd) (update_from p.fd q ps) ≡ some q
unfolding find_port
find_port-update_from zero p q ps found same = absurd cc
find_port-update_from (suc fd) p q ps found same =
    (find_from-update_from (suc fd) p q ps found same).1
