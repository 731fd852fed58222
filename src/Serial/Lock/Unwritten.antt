-- ===== src/Serial/Lock/Unwritten.antt =====
-- Two processes that run fhs_lock of src/SerialImp.c, when one looks at the lock file of the other
-- before the pid is written.
use rxtx.Base.{ℕ, ◌≡◌, refl, true, some, none, List, [], ◌∷◌, ◌+◌}
use rxtx.Serial.Text.{print_pid}
use rxtx.Serial.Lock.{LockEnv, Files, create, lock_file}
use rxtx.Serial.Lock.Holding.{same_refl}
use rxtx.Serial.Lock.Steps.{
  removing, creating, Disk, look, step, first_turn, second_turn, run, beginning, both_hold,
}
use rxtx.Serial.Lock.Stale.{opens, fills, breaks}

-- Without any lock at first both can get it: when the first process finds no lock and can create the
-- file, and the second takes the empty file for a stale lock and can remove and create it, then the
-- first looks and opens its file, the second looks, the first writes its pid, and the second removes
-- the lock of the first and makes its own.
pub run-unwritten :
    (a b : LockEnv) (port : List ℕ) (files : Files) (node : ℕ)
    → files (lock_file port) ≡ none
    → look a port files ≡ creating
    → look b port (create (lock_file port) [] files) ≡ removing
    → a.can_create (lock_file port) ≡ true
    → b.can_unlink (lock_file port) ≡ true
    → b.can_create (lock_file port) ≡ true
    → both_hold (
        run a b port
          (first_turn ∷ first_turn ∷ second_turn ∷ first_turn ∷ second_turn ∷ second_turn
            ∷ second_turn ∷ [])
          (beginning files node))
      ≡ true
unfolding run step
run-unwritten a b port files node free a_looks b_looks a_creates b_unlinks b_creates =
    let file = lock_file port in
    let start : Disk = record { files = files; node = node } in
    let empty : Disk = record { files = create file [] files; node = node + 1 } in
    let mine : Disk = record empty { files = create file (print_pid a.pid) empty.files } in
    let unwritten : empty.files file ≡ some [] = (rw (same_refl file) refl) in
    let written : mine.files file ≡ some (print_pid a.pid) = (rw (same_refl file) refl) in
    rw
      (
        a_looks,
        opens a port start free a_creates,
        b_looks,
        fills a port empty unwritten,
        breaks b port (print_pid a.pid) mine written b_unlinks b_creates,
      )
      refl
