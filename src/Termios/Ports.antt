-- ===== src/Termios/Ports.antt =====
-- The list of open ports of src/termios.c, `first_tl`: its entries in the order of the `next`
-- pointers. A search that fails also sets my_errno to EBADF, which is left out, as are the reports.
pub mod Fresh
pub mod Close
pub mod Update
use Prim.Native.String.{String}
use text.Mathlib.Text.{◌==◌ as str_eq}
use rxtx.Base.{
  ℕ, zero, suc, ◌+◌, ◌==◌, if◌then◌else◌, ltb, Option, some, none, List, [], ◌∷◌, ◌++◌, not,
}
use rxtx.Base.Int.{ℤ, pos, negsuc, minus_one}
use rxtx.Termios.State.{Port}

abbrev pub Ports : Type 0
Ports = List Port

-- The walk of find_port: it stops at an entry whose fd is 0.
unfoldable pub find_from : ℕ → Ports → Option Port
find_from fd [] = none
find_from fd (p ∷ ps) = if p.fd == 0 then none else if p.fd == fd then some p else find_from fd ps

unfoldable pub find_port : ℤ → Ports → Option Port
unfolding find_from
find_port (pos zero) ps = none
find_port (pos (suc n)) ps = find_from (suc n) ps
find_port (negsuc n) ps = none

-- The fd of the port with this name, 0 if there is none.
unfoldable pub port_opened : String → Ports → ℕ
port_opened filename [] = 0
port_opened filename (p ∷ ps) = if str_eq p.filename filename then p.fd else port_opened filename ps

-- The walk of get_free_fd: `last` is the fd of the entry before.
unfoldable pub gap_after : ℕ → Ports → ℕ
gap_after last [] = last + 1
gap_after last (p ∷ ps) = if p.fd == last + 1 then gap_after p.fd ps else last + 1

unfoldable pub get_free_fd : Ports → ℕ
unfolding gap_after
get_free_fd [] = 1
get_free_fd (p ∷ ps) = if p.fd == 0 then 1 else if ltb 1 p.fd then 1 else gap_after p.fd ps

-- add_port, with `port` the zeroed entry for the file: it goes to the end of the list. Memory is
-- taken to be there.
unfoldable pub add_port : Port → Ports → Port × Ports
unfolding get_free_fd
add_port port ps = let port' = record port { fd = get_free_fd ps } in (port', ps ++ port' ∷ [])

-- The unlinking of serial_close: the entry that find_port finds leaves the list.
unfoldable pub unlink_from : ℕ → Ports → Ports
unlink_from fd [] = []
unlink_from fd (p ∷ ps) =
    if p.fd == 0 then p ∷ ps else if p.fd == fd then ps else p ∷ unlink_from fd ps

unfoldable pub unlink : ℤ → Ports → Ports
unfolding unlink_from
unlink (pos zero) ps = ps
unlink (pos (suc n)) ps = unlink_from (suc n) ps
unlink (negsuc n) ps = ps

-- A write through the pointer that find_port returned: its entry changes in place.
unfoldable pub update_from : ℕ → Port → Ports → Ports
update_from fd q [] = []
update_from fd q (p ∷ ps) =
    if p.fd == 0 then p ∷ ps else if p.fd == fd then q ∷ ps else p ∷ update_from fd q ps
