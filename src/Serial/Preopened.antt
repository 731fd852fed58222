-- ===== src/Serial/Preopened.antt =====
-- The list of ports that src/SerialImp.c opens before the Java open(): static_add_filename and
-- find_preopened_ports, with the nodes of the list in a store, so that a node that was freed is
-- seen. The addresses that malloc will give are part of the store and can be any, those of freed
-- nodes too. A name fits in the 40 characters of its node. The walks run on fuel.
pub mod Walk
pub mod Forgets
pub mod Dangling
pub mod Once
use Prim.Native.String.{String}
use text.Mathlib.Text.{◌==◌ as str_eq}
use rxtx.Base.{ℕ, zero, suc, ◌+◌, ◌==◌, if◌then◌else◌, not, ◌&&◌, Option, some, none}

-- struct preopened; the address 0 is the null pointer
pub record Node : Type 0 where
  pub filename : String
  pub fd : ℕ
  pub next : ℕ
  pub prev : ℕ

-- `head` is preopened_port, `fresh` what the next malloc returns, and `later` what those after it
-- return.
pub record Store : Type 0 where
  pub head : ℕ
  pub cell : ℕ → Option Node
  pub fresh : ℕ
  pub later : ℕ → ℕ

-- The store after a malloc.
abbrev pub malloced : Store → Store
malloced s = record s { fresh = s.later 0; later = λ i. s.later (suc i) }

-- A read or write through a dangling pointer is a fault; `endless` is a walk that has not ended.
pub data Outcome {ℓ} (A : Type ℓ) : Type ℓ where
  done : A → Outcome A
  fault endless : Outcome A

infixl 5 ◌>>=◌
abbrev pub ◌>>=◌ {ℓ κ} : {A : Type ℓ} {B : Type κ} → Outcome A → (A → Outcome B) → Outcome B
done a >>= f = f a
fault >>= f = fault
endless >>= f = endless

abbrev pub write : (ℕ → Option Node) → ℕ → Option Node → ℕ → Option Node
write cell p n q = if p == q then n else cell q

abbrev pub load : ℕ → Store → Outcome Node
load p s = elim (s.cell p) [ none ↦ fault | some n ↦ done n ]

unfoldable pub set_next : ℕ → ℕ → Store → Outcome Store
set_next p q s =
    load p s >>= λ n. done (record s { cell = write s.cell p (some (record n { next = q })) })

unfoldable pub set_prev : ℕ → ℕ → Store → Outcome Store
set_prev p q s =
    load p s >>= λ n. done (record s { cell = write s.cell p (some (record n { prev = q })) })

unfoldable pub free_node : ℕ → Store → Store
free_node p s = record s { cell = write s.cell p none }

-- What find_preopened_ports does with the node that it found: preopened_port is set only when this
-- was the only node.
unfoldable pub take_out : ℕ → Node → Store → Outcome (ℕ × Store)
unfolding set_next set_prev free_node
take_out p n s =
    if not (n.prev == 0) && not (n.next == 0)
    then (set_next n.prev n.next s >>= λ s1.
        set_prev n.next n.prev s1 >>= λ s2. done (n.fd, free_node p s2))
    else if not (n.prev == 0)
    then (set_next n.prev 0 s >>= λ s1. done (n.fd, free_node p s1))
    else if not (n.next == 0)
    then (set_prev n.next 0 s >>= λ s1. done (n.fd, free_node p s1))
    else done (n.fd, record (free_node p s) { head = 0 })

unfoldable pub find_walk : ℕ → String → ℕ → Store → Outcome (ℕ × Store)
unfolding take_out
find_walk zero name p s = endless
find_walk (suc fuel) name p s = load p s >>= λ n.
    let rest = find_walk fuel name n.next s in
    if str_eq n.filename name then take_out p n s else if n.next == 0 then done (0, s) else rest

-- The fd, 0 for none.
unfoldable pub find_preopened_ports : ℕ → String → Store → Outcome (ℕ × Store)
unfolding find_walk
find_preopened_ports fuel name s = if s.head == 0 then done (0, s) else find_walk fuel name s.head s

-- The walk of static_add_filename to the last node; the new node is `q`.
unfoldable pub add_walk : ℕ → String → ℕ → ℕ → ℕ → Store → Outcome Store
unfolding set_next
add_walk zero name fd q p s = endless
add_walk (suc fuel) name fd q p s = load p s >>= λ n.
    let rest = add_walk fuel name fd q n.next s in
    let added = record s {
      cell = write s.cell q (some (record { filename = name; fd = fd; next = 0; prev = p }));
      head = p;
    } in
    if str_eq n.filename name then done s else if n.next == 0 then set_next p q added else rest

-- When the name is there already, the new node stays allocated and no one has its address.
unfoldable pub static_add_filename : ℕ → String → ℕ → Store → Outcome Store
unfolding add_walk
static_add_filename fuel name fd s =
    let q = s.fresh in
    let alone : Node = record { filename = name; fd = fd; next = 0; prev = 0 } in
    let s' = malloced s in
    if s.head == 0
    then done (record s' { head = q; cell = write s.cell q (some alone) })
    else add_walk fuel name fd q s.head (record s' { cell = write s.cell q (some alone) })
