-- ===== src/Termios/Ports/Close.antt =====
-- Closing a port, and what a later opening then gets.
use rxtx.Base.{
  ℕ, zero, suc, ◌<◌, ◌≤◌, ◌≡◌, ◌∙◌, ◌<◌, some, ◌++◌, refl, inl, inr, none, some, [], ◌∷◌, ◌++◌,
  arith, ◌==◌, if◌then◌else◌, Bool-cases,
}
use rxtx.Base.Int.{pos}
use rxtx.Termios.State.{Port}
use rxtx.Termios.Ports.{Ports, find_from, find_port, get_free_fd, add_port, unlink_from, unlink}
use rxtx.Termios.Ports.Fresh.{Ascends}

unlink_from-Ascends : (fd low : ℕ) (ps : Ports) → Ascends low ps → Ascends low (unlink_from fd ps)
unfolding unlink_from
unlink_from-Ascends fd low [] h = h
unlink_from-Ascends fd low (p ∷ ps) h = elim (Bool-cases (p.fd == 0)) [
  | inl z ↦ rw z h
  | inr n ↦ rw n (elim (Bool-cases (p.fd == fd)) [
    | inl e ↦ rw e (weaken ps (omega arith) h.1)
    | inr e ↦ rw e (h.0, unlink_from-Ascends fd p.fd ps h.1)
  ])
]
  where
    weaken : (qs : Ports) → low ≤ p.fd → Ascends p.fd qs → Ascends low qs
    weaken [] le a = tt
    weaken (q ∷ qs) le a = (omega arith, a.1)

-- Unlinking a port keeps the fds ascending.
pub unlink-Ascends : (fd : ℕ) (ps : Ports) → Ascends 0 ps → Ascends 0 (unlink (pos fd) ps)
unfolding unlink
unlink-Ascends zero ps h = h
unlink-Ascends (suc fd) ps h = unlink_from-Ascends (suc fd) 0 ps h

find_from-below : (fd low : ℕ) (ps : Ports) → Ascends low ps → fd ≤ low → find_from fd ps ≡ none
unfolding find_from
find_from-below fd low [] h le = refl
find_from-below fd low (p ∷ ps) h le = ground (arith, find_from-below fd p.fd ps h.1)

find_from-unlink_from :
    (fd g low : ℕ) (ps : Ports)
    → Ascends low ps
    → find_from fd (unlink_from g ps) ≡ (if g == fd then none else find_from fd ps)
unfolding find_from unlink_from
find_from-unlink_from fd g low [] h = ground arith
find_from-unlink_from fd g low (p ∷ ps) h =
    ground (arith, find_from-unlink_from fd g p.fd ps h.1, find_from-below fd p.fd ps h.1)

-- When the fds ascend, closing a port takes it, and no other port, away from find_port.
pub find_port-unlink :
    (fd g : ℕ) (ps : Ports)
    → Ascends 0 ps
    → find_port (pos fd) (unlink (pos g) ps) ≡ (if g == fd then none else find_port (pos fd) ps)
unfolding find_port unlink
find_port-unlink zero g ps h = ground arith
find_port-unlink (suc fd) zero ps h = ground arith
find_port-unlink (suc fd) (suc g) ps h = find_from-unlink_from (suc fd) (suc g) 0 ps h

find_from-skip :
    (fd low : ℕ) (ps qs : Ports)
    → Ascends low ps
    → fd ≤ low
    → find_from fd (ps ++ qs) ≡ find_from fd qs
unfolding find_from
find_from-skip fd low [] qs h le = refl
find_from-skip fd low (p ∷ ps) qs h le = ground (arith, find_from-skip fd p.fd ps qs h.1)

found-append :
    (fd : ℕ) (ps qs : Ports) (c : Port)
    → find_from fd ps ≡ some c
    → find_from fd (ps ++ qs) ≡ some c
unfolding find_from
found-append fd [] qs c h = cc
found-append fd (p ∷ ps) qs c h = ground (arith, found-append fd ps qs c)

unlink-head : (p : Port) (ps : Ports) → p.fd ≡ 1 → unlink (pos 1) (p ∷ ps) ≡ ps
unfolding unlink unlink_from
unlink-head p ps e = ground arith

get_free_fd-one : (p : Port) (ps : Ports) → 1 < p.fd → get_free_fd (p ∷ ps) ≡ 1
unfolding get_free_fd
get_free_fd-one p ps h = ground arith

find_port-first :
    (q c d : Port) (ps : Ports)
    → Ascends 1 (q ∷ ps)
    → c.fd ≡ 1
    → find_port (pos 1) ((q ∷ ps ++ c ∷ []) ++ d ∷ []) ≡ some c
unfolding find_port
find_port-first q c d ps h e =
    found-append 1 (q ∷ ps ++ c ∷ []) (d ∷ []) c
      (find_from-skip 1 1 (q ∷ ps) (c ∷ []) h (omega arith) ∙ (unfold find_from in ground arith))

-- When the first of two or more ports, which has fd 1, is closed, the next two openings both get
-- fd 1, and find_port of it gives the first of these two.
pub reopen_collides :
    (p q c d : Port) (ps : Ports)
    → Ascends 0 (p ∷ q ∷ ps)
    → p.fd ≡ 1
    → let (c', rs) = add_port c (unlink (pos 1) (p ∷ q ∷ ps)) in
      let (d', ss) = add_port d rs in (c'.fd ≡ 1) × (d'.fd ≡ 1) × (find_port (pos 1) ss ≡ some c')
unfolding add_port
reopen_collides p q c d ps h e =
    let above : 1 < q.fd = omega arith in
    rw (unlink-head p (q ∷ ps) e) (
      get_free_fd-one q ps above,
      get_free_fd-one q _ above,
      find_port-first q _ _ ps (above, h.1.1) (get_free_fd-one q ps above),
    )
