-- ===== src/Serial/Preopened/Once.antt =====
-- A list of one preopened port in src/SerialImp.c: the port is found once.
use Prim.Native.String.{String}
use text.Mathlib.Text.{◌==◌ as str_eq}
use text.Mathlib.TextEquality.{eq_iff}
use rxtx.Base.{ℕ, suc, ◌≡◌, ◌≢◌, refl, true, some, ==_refl, none}
use rxtx.Serial.Preopened.{
  Store, malloced, done, write, load, take_out, free_node, find_walk, find_preopened_ports,
  static_add_filename,
}
use rxtx.Serial.Preopened.Walk.{new_node, differs}

-- The list with a single new node, and after that node was found.
abbrev pub alone : String → ℕ → Store → Store
alone name fd s = record (malloced s) {
  head = s.fresh;
  cell = write s.cell s.fresh (some (new_node name fd 0));
}

abbrev pub emptied : String → ℕ → Store → Store
emptied name fd s = record (alone name fd s) {
  head = 0;
  cell = write (write s.cell s.fresh (some (new_node name fd 0))) s.fresh none;
}

pub find-add_alone :
    (fuel later fd : ℕ) (name : String) (s : Store)
    → s.head ≡ 0
    → s.fresh ≢ 0
    → (static_add_filename fuel name fd s ≡ done (alone name fd s))
      × (find_preopened_ports (suc later) name (alone name fd s) ≡ done (fd, emptied name fd s))
unfolding static_add_filename find_preopened_ports find_walk take_out free_node
find-add_alone fuel later fd name s empty made =
    let q = s.fresh in
    let same : str_eq name name ≡ true = (eq_iff name name).1 refl in
    let at : (alone name fd s).cell q ≡ some (new_node name fd 0) = (rw (write, ==_refl q) refl) in
    (
      rw (static_add_filename, empty) refl,
      rw (find_preopened_ports, differs q 0 made, find_walk, load, at, same, take_out) refl,
    )
