-- ===== src/Termios/Ports/Fresh.antt =====
-- The descriptors that get_free_fd gives: fresh in a list that ascends, and not in every list that
-- opening and closing reach.
use rxtx.Base.{
  ℕ, zero, suc, ◌+◌, ◌<◌, ◌≤◌, ◌≡◌, refl, Bool, true, false, ◌||◌, some, [], ◌∷◌, ◌++◌, arith, ◌==◌,
  if◌then◌else◌,
}
use rxtx.Base.Int.{pos}
use rxtx.Termios.State.{Port}
use rxtx.Termios.Ports.{Ports, find_from, find_port, gap_after, get_free_fd, add_port}

-- Whether some entry has this fd.
abbrev pub uses : ℕ → Ports → Bool
uses fd [] = false
uses fd (p ∷ ps) = p.fd == fd || uses fd ps

-- The fds ascend strictly, from above `low`.
abbrev pub Ascends : ℕ → Ports → Type 0
Ascends low [] = Unit
Ascends low (p ∷ ps) = (low < p.fd) × Ascends p.fd ps

not_uses_below : (low fd : ℕ) (ps : Ports) → Ascends low ps → fd ≤ low → uses fd ps ≡ false
not_uses_below low fd [] h le = refl
not_uses_below low fd (p ∷ ps) h le = ground (arith, not_uses_below p.fd fd ps h.1)

gap_after-above : (last : ℕ) (ps : Ports) → last < gap_after last ps
unfolding gap_after
gap_after-above last [] = omega arith
gap_after-above last (p ∷ ps) = ground (arith, gap_after-above p.fd ps)

gap_after-free : (last : ℕ) (ps : Ports) → Ascends last ps → uses (gap_after last ps) ps ≡ false
unfolding gap_after
gap_after-free last [] h = refl
gap_after-free last (p ∷ ps) h = ground (
  arith,
  gap_after-free p.fd ps h.1,
  gap_after-above p.fd ps,
  not_uses_below p.fd (last + 1) ps h.1,
)

gap_after-least :
    (last : ℕ) (ps : Ports) (fd : ℕ) → last < fd → fd < gap_after last ps → uses fd ps ≡ true
unfolding gap_after
gap_after-least last [] fd h k = absurd (omega arith)
gap_after-least last (p ∷ ps) fd h k = ground (arith, gap_after-least p.fd ps fd)

-- When the fds of the open ports ascend, get_free_fd gives the least positive fd that no open port
-- has.
pub get_free_fd-least :
    (ps : Ports)
    → Ascends 0 ps
    → (0 < get_free_fd ps)
      × (uses (get_free_fd ps) ps ≡ false)
      × ((fd : ℕ) → 0 < fd → fd < get_free_fd ps → uses fd ps ≡ true)
unfolding get_free_fd
get_free_fd-least [] h = (omega arith, refl, λ fd p q. absurd (omega arith))
get_free_fd-least (p ∷ ps) h = (
  ground (arith, gap_after-above p.fd ps),
  ground (arith, gap_after-free p.fd ps h.1, gap_after-above p.fd ps, not_uses_below p.fd 1 ps h.1),
  λ fd low high. ground (arith, gap_after-least p.fd ps fd),
)

pub uses-append : (fd : ℕ) (ps qs : Ports) → uses fd (ps ++ qs) ≡ (uses fd ps || uses fd qs)
uses-append fd [] qs = refl
uses-append fd (p ∷ ps) qs = ground (arith, uses-append fd ps qs)

pub find_from-append :
    (fd : ℕ) (ps : Ports) (q : Port) (low : ℕ)
    → 0 < q.fd
    → Ascends low ps
    → uses q.fd ps ≡ false
    → find_from fd (ps ++ q ∷ []) ≡ (if q.fd == fd then some q else find_from fd ps)
unfolding find_from
find_from-append fd [] q low pos_q h new = ground arith
find_from-append fd (p ∷ ps) q low pos_q h new =
    ground (arith, find_from-append fd ps q p.fd pos_q h.1)

-- When the fds ascend, the port that add_port adds is found under its fd, and every other fd finds
-- what it found before.
find_port-add_port :
    (port : Port) (ps : Ports) (fd : ℕ)
    → Ascends 0 ps
    → let (port', qs) = add_port port ps in
      find_port (pos fd) qs ≡ (if port'.fd == fd then some port' else find_port (pos fd) ps)
unfolding add_port find_port
find_port-add_port port ps zero h = ground (arith, get_free_fd-least ps h)
find_port-add_port port ps (suc fd) h =
    let (above, new, _) = get_free_fd-least ps h in
    find_from-append (suc fd) ps (record port { fd = get_free_fd ps }) 0 above h new
