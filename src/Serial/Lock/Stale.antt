-- ===== src/Serial/Lock/Stale.antt =====
-- Two processes that run fhs_lock of src/SerialImp.c at the same time, when there is a stale lock.
use rxtx.Base.{ℕ, ◌≡◌, refl, true, some, none, List, [], ◌∷◌, ◌+◌, ==_refl}
use rxtx.Serial.Text.{print_pid}
use rxtx.Serial.Lock.{LockEnv, Files, is_there, create, unlink_file, lock_file}
use rxtx.Serial.Lock.Holding.{same_refl}
use rxtx.Serial.Lock.Steps.{
  removing, creating, writing, holding, Disk, look, open_lock, write_pid, step, first_turn,
  second_turn, run, beginning, both_hold,
}

module _ (env : LockEnv) (port : List ℕ) where
  removes :
      (text : List ℕ) (d : Disk)
      → d.files (lock_file port) ≡ some text
      → env.can_unlink (lock_file port) ≡ true
      → step env port removing d
        ≡ (creating, record d { files = unlink_file (lock_file port) d.files })
  unfolding step
  removes text d e unlinks = rw (step, is_there, e, unlinks) refl

  pub opens :
      (d : Disk)
      → d.files (lock_file port) ≡ none
      → env.can_create (lock_file port) ≡ true
      → step env port creating d ≡ (
        writing (d.node + 1),
        record { files = create (lock_file port) [] d.files; node = d.node + 1 },
      )
  unfolding step open_lock
  opens d e creates = rw (step, open_lock, is_there, e, creates) refl

  pub fills :
      (d : Disk)
      → d.files (lock_file port) ≡ some []
      → write_pid env port d.node d
        ≡ record d { files = create (lock_file port) (print_pid env.pid) d.files }
  unfolding write_pid
  fills d e = rw (write_pid, is_there, e, ==_refl d.node) refl

  writes :
      (d : Disk)
      → d.files (lock_file port) ≡ some []
      → step env port (writing d.node) d
        ≡ (holding, record d { files = create (lock_file port) (print_pid env.pid) d.files })
  unfolding step
  writes d e = rw (step, fills d e) refl

  -- The lock file of the process, made after the one that was there was removed.
  abbrev pub replaced : Disk → Disk
  replaced d =
      let file = lock_file port in
      record {
        files = create file (print_pid env.pid) (create file [] (unlink_file file d.files));
        node = d.node + 1;
      }

  -- A process that saw a stale lock removes whatever lock is there then, and makes its own.
  pub breaks :
      (text : List ℕ) (d : Disk)
      → d.files (lock_file port) ≡ some text
      → env.can_unlink (lock_file port) ≡ true
      → env.can_create (lock_file port) ≡ true
      → let (p1, d1) = step env port removing d in
        let (p2, d2) = step env port p1 d1 in step env port p2 d2 ≡ (holding, replaced d)
  breaks text d e unlinks creates =
      let file = lock_file port in
      let without : Disk = record d { files = unlink_file file d.files } in
      let empty : Disk = record { files = create file [] without.files; node = d.node + 1 } in
      let free : without.files file ≡ none = (rw (same_refl file) refl) in
      let there : empty.files file ≡ some [] = (rw (same_refl file) refl) in
      rw (removes text d e unlinks, opens without free creates) (writes empty there)

-- With a stale lock both can get it: when each process, looking first, would remove the lock, and
-- each can remove and create the file, then the second looks, the first takes all its steps, and the
-- second removes the new lock of the first and makes its own.
pub run-stale :
    (a b : LockEnv) (port text : List ℕ) (files : Files) (node : ℕ)
    → files (lock_file port) ≡ some text
    → look a port files ≡ removing
    → look b port files ≡ removing
    → a.can_unlink (lock_file port) ≡ true
    → b.can_unlink (lock_file port) ≡ true
    → a.can_create (lock_file port) ≡ true
    → b.can_create (lock_file port) ≡ true
    → both_hold (
        run a b port
          (second_turn ∷ first_turn ∷ first_turn ∷ first_turn ∷ first_turn ∷ second_turn
            ∷ second_turn ∷ second_turn ∷ [])
          (beginning files node))
      ≡ true
unfolding run step
run-stale a b port text files node there a_looks b_looks a_unlinks b_unlinks a_creates b_creates =
    let start : Disk = record { files = files; node = node } in
    let there_again : (replaced a port start).files (lock_file port) ≡ some (print_pid a.pid) =
      (rw (same_refl (lock_file port)) refl) in
    rw
      (
        a_looks,
        b_looks,
        breaks a port text start there a_unlinks a_creates,
        breaks b port (print_pid a.pid) (replaced a port start) there_again b_unlinks b_creates,
      )
      refl
