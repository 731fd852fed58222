-- ===== src/Serial/Preopened/Walk.antt =====
-- The walks of find_preopened_ports and static_add_filename of src/SerialImp.c along a list that is
-- well linked.
use Prim.Native.String.{String}
use text.Mathlib.Text.{◌==◌ as str_eq}
use rxtx.Base.{
  ℕ, zero, suc, ◌<◌, ◌==◌, ◌≡◌, ◌≢◌, refl, false, Option, some, none, List, [], ◌∷◌, length, arith,
}
use rxtx.Serial.Preopened.{Node, Store, done, write, load, set_next, find_walk, add_walk}

-- The nodes that the pointers `next` lead to from an address, in their order.
unfoldable pub Chain : (ℕ → Option Node) → ℕ → List Node → Type 0
Chain cell p [] = p ≡ 0
Chain cell p (n ∷ ns) = (p ≢ 0) × (cell p ≡ some n) × Chain cell n.next ns

unfoldable pub Absent : String → List Node → Type 0
Absent name [] = Unit
Absent name (n ∷ ns) = (str_eq n.filename name ≡ false) × Absent name ns

-- The last node of a chain, with its address.
unfoldable pub last_at : ℕ → Node → List Node → ℕ × Node
last_at p n [] = (p, n)
last_at p n (m ∷ ms) = last_at n.next m ms

-- The list after a node was put behind the one at `p`, to which the head moves.
abbrev pub linked : Store → ℕ → Node → ℕ → Node → Store
linked s p n q new = record s {
  cell = write (write s.cell q (some new)) p (some (record n { next = q }));
  head = p;
}

abbrev pub new_node : String → ℕ → ℕ → Node
new_node name fd p = record { filename = name; fd = fd; next = 0; prev = p }

pub differs : (a b : ℕ) → a ≢ b → (a == b) ≡ false
differs a b h = ground arith

-- A write elsewhere keeps the chain.
pub Chain-write :
    (cell : ℕ → Option Node) (q : ℕ) (new : Option Node) (p : ℕ) (ns : List Node)
    → cell q ≡ none
    → Chain cell p ns
    → Chain (write cell q new) p ns
unfolding Chain
Chain-write cell q new p [] free h = h
Chain-write cell q new p (n ∷ ns) free (there, at, h) =
    let apart : q ≢ p = λ same. (let free_p : cell p ≡ none = (rw same at free) in absurd cc) in
    (there, rw (write, differs q p apart) at, Chain-write cell q new n.next ns free h)

-- A name that is not in the list is not found, and nothing changes.
pub find_walk-Absent :
    (fuel : ℕ) (name : String) (p : ℕ) (n : Node) (ns : List Node) (s : Store)
    → Chain s.cell p (n ∷ ns)
    → Absent name (n ∷ ns)
    → length ns < fuel
    → find_walk fuel name p s ≡ done (0, s)
unfolding Chain Absent find_walk
find_walk-Absent zero name p n ns s h others enough = absurd (omega arith)
find_walk-Absent (suc fuel) name p n [] s (there, at, end) (other, any) enough =
    rw (find_walk, load, at, other, end) refl
find_walk-Absent (suc fuel) name p n (m ∷ ms) s (there, at, h) (other, others) enough =
    rw (find_walk, load, at, other, differs n.next 0 h.0)
      (find_walk-Absent fuel name n.next m ms s h others (omega arith))

-- The walk of static_add_filename ends at the last node, for a name that is not in the list, and
-- puts the new node behind it.
pub add_walk-Absent :
    (fuel : ℕ) (name : String) (fd q p : ℕ) (n : Node) (ns : List Node) (s : Store)
    → Chain s.cell p (n ∷ ns)
    → Absent name (n ∷ ns)
    → length ns < fuel
    → q ≢ (last_at p n ns).0
    → let (p', n') = last_at p n ns in
      add_walk fuel name fd q p s ≡ done (linked s p' n' q (new_node name fd p'))
unfolding Chain Absent add_walk last_at set_next
add_walk-Absent zero name fd q p n ns s h others enough apart = absurd (omega arith)
add_walk-Absent (suc fuel) name fd q p n [] s (there, at, end) (other, any) enough apart =
    rw (add_walk, load, at, other, end, set_next, load, write, differs q p apart) refl
add_walk-Absent (suc fuel) name fd q p n (m ∷ ms) s (there, at, h) (other, others) enough apart =
    rw (add_walk, load, at, other, differs n.next 0 h.0)
      (add_walk-Absent fuel name fd q n.next m ms s h others (omega arith) apart)
