-- ===== src/Serial/Preopened/Dangling.antt =====
-- What find_preopened_ports of src/SerialImp.c leaves when it takes the first of several nodes out.
use Prim.Native.String.{String}
use text.Mathlib.Text.{◌==◌ as str_eq}
use rxtx.Base.{ℕ, suc, ◌≡◌, ◌≢◌, refl, true, some, none, List, ◌∷◌, ==_refl}
use rxtx.Serial.Preopened.{
  Node, Store, done, fault, write, load, set_prev, free_node, take_out, find_walk,
  find_preopened_ports, add_walk, static_add_filename,
}
use rxtx.Serial.Preopened.Walk.{Chain, differs}

-- When the name is that of the first of two or more nodes, find_preopened_ports returns its fd and
-- frees it, but the head of the list still points to it: the next search and the next addition read
-- the freed node, whatever their name, the addition unless malloc gives it the address of that node.
pub find_preopened_ports-dangling :
    (fuel later : ℕ) (name any : String) (fd : ℕ) (n m : Node) (ns : List Node) (s : Store)
    → Chain s.cell s.head (n ∷ m ∷ ns)
    → n.prev ≡ 0
    → str_eq n.filename name ≡ true
    → s.fresh ≢ s.head
    → (s' : Store) × (find_preopened_ports (suc fuel) name s ≡ done (n.fd, s'))
      × (find_preopened_ports (suc later) any s' ≡ fault)
      × (static_add_filename (suc later) any fd s' ≡ fault)
unfolding find_preopened_ports find_walk take_out static_add_filename add_walk set_prev free_node
    Chain
find_preopened_ports-dangling fuel later name any fd n m ns s (there, at, (next, at_next, h)) first
      same apart =
    let head_set = differs s.head 0 there in
    let s' : Store = record s {
      cell = write (write s.cell n.next (some (record m { prev = 0 }))) s.head none;
    } in
    let gone : s'.cell s'.head ≡ none = (rw (write, ==_refl s.head) refl) in
    let taken : take_out s.head n s ≡ done (n.fd, s') =
      (rw (take_out, first, differs n.next 0 next, set_prev, load, at_next) refl) in
    (
      s',
      rw (find_preopened_ports, head_set, find_walk, load, at, same, taken) refl,
      rw (find_preopened_ports, head_set, find_walk, load, gone) refl,
      rw (static_add_filename, head_set, add_walk, load, write, differs s.fresh s.head apart, gone)
          refl,
    )
