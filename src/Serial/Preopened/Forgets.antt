-- ===== src/Serial/Preopened/Forgets.antt =====
-- What static_add_filename of src/SerialImp.c leaves of a list with a node or more.
use Prim.Native.String.{String}
use rxtx.Base.{ℕ, ◌<◌, ◌≡◌, ◌≢◌, refl, Option, some, none, List, [], ◌∷◌, length, ==_refl, sym}
use rxtx.Serial.Preopened.{
  Node, Store, malloced, done, write, find_preopened_ports, static_add_filename,
}
use rxtx.Serial.Preopened.Walk.{
  Chain, Absent, last_at, linked, new_node, differs, Chain-write, find_walk-Absent, add_walk-Absent,
}

last_at-Chain :
    (cell : ℕ → Option Node) (p : ℕ) (n : Node) (ns : List Node)
    → Chain cell p (n ∷ ns)
    → let (p', n') = last_at p n ns in (p' ≢ 0) × (cell p' ≡ some n') × (n'.next ≡ 0)
unfolding Chain last_at
last_at-Chain cell p n [] (there, at, end) = (there, at, end)
last_at-Chain cell p n (m ∷ ms) (there, at, h) = last_at-Chain cell n.next m ms h

find-Absent :
    (fuel : ℕ) (name : String) (n : Node) (ns : List Node) (s : Store)
    → Chain s.cell s.head (n ∷ ns)
    → Absent name (n ∷ ns)
    → length ns < fuel
    → find_preopened_ports fuel name s ≡ done (0, s)
unfolding find_preopened_ports Chain
find-Absent fuel name n ns s h others enough =
    rw (find_preopened_ports, differs s.head 0 h.0)
      (find_walk-Absent fuel name s.head n ns s h others enough)

-- The list that is left is the last node and the new one.
linked-Chain :
    (s : Store) (p : ℕ) (n : Node) (q : ℕ) (name : String) (fd : ℕ)
    → p ≢ 0
    → q ≢ 0
    → p ≢ q
    → let s' = linked s p n q (new_node name fd p) in
      Chain s'.cell s'.head (record n { next = q } ∷ new_node name fd p ∷ [])
unfolding Chain
linked-Chain s p n q name fd there made apart =
    (there, rw (write, ==_refl p) refl, (made, rw (write, differs p q apart, ==_refl q) refl, refl))

-- Adding a new name to a list with a node or more leaves only the last node and the new one in
-- the list: a name that neither of them has is not found again, whatever nodes were there before.
-- It needs a malloc that gives an address that is not null and not in use.
pub static_add_filename-forgets :
    (fuel rounds : ℕ) (name other : String) (fd : ℕ) (n : Node) (ns : List Node) (s : Store)
    → Chain s.cell s.head (n ∷ ns)
    → Absent name (n ∷ ns)
    → s.fresh ≢ 0
    → s.cell s.fresh ≡ none
    → length ns < fuel
    → 1 < rounds
    → let (p, last) = last_at s.head n ns in
      let last' : Node = record last { next = s.fresh } in
      Absent other (last' ∷ new_node name fd p ∷ [])
      → (s' : Store) × (static_add_filename fuel name fd s ≡ done s')
        × Chain s'.cell s'.head (last' ∷ new_node name fd p ∷ [])
        × (find_preopened_ports rounds other s' ≡ done (0, s'))
unfolding static_add_filename Chain
static_add_filename-forgets fuel rounds name other fd n ns s h others made free enough more away =
    let q = s.fresh in
    let (p, last) = last_at s.head n ns in
    let (there, at, end) = last_at-Chain s.cell s.head n ns h in
    let apart : q ≢ p =
      λ same. (let none_at_p : s.cell p ≡ none = (rw same at free) in absurd cc) in
    let held : Store = record (malloced s) { cell = write s.cell q (some (new_node name fd 0)) } in
    let s' : Store = linked held p last q (new_node name fd p) in
    let chain = linked-Chain held p last q name fd there made (λ e. apart (sym e)) in
    let kept = Chain-write s.cell q (some (new_node name fd 0)) s.head (n ∷ ns) free h in
    (
      s',
      rw (static_add_filename, differs s.head 0 kept.0)
          (add_walk-Absent fuel name fd q s.head n ns held kept others enough apart),
      chain,
      find-Absent rounds other (record last { next = q }) (new_node name fd p ∷ []) s' chain away
          more,
    )
