-- ===== src/Serial/Lock/Exclusion.antt =====
-- Two processes that run fhs_lock of src/SerialImp.c at the same time, when there is no lock
-- file at first.
use rxtx.Base.{
  ℕ, ◌^◌, ◌<◌, ◌==◌, ◌≡◌, refl, ◌∙◌, ap, Bool-cases, Option-cases, Bool, true, false, some, none,
  List, [], ◌∷◌, inl, inr, ◌⊎◌, ==_refl,
}
use rxtx.Serial.Text.{print_pid, scan}
use rxtx.Serial.Lock.{
  LockEnv, Files, is_there, lock_file, lockdir, lockdirs, owner, has_unexpected, check_group_uucp,
}
use rxtx.Serial.Lock.Holding.{same_refl, owner-print_pid}
use rxtx.Serial.Lock.Steps.{
  Phase, looking, removing, creating, writing, holding, refused, Disk, look, open_lock, write_pid,
  step, Pair, Turn, first_turn, second_turn, move, run, beginning, holds, both_hold,
}

-- A phase without a lock file and without the intention to remove one.
abbrev waits : Phase → Bool
waits looking = true
waits creating = true
waits refused = true
waits removing = false
waits (writing n) = false
waits holding = false

module _ (env : LockEnv) (port : List ℕ) where
  look-waits_free :
      (files : Files) → files (lock_file port) ≡ none → waits (look env port files) ≡ true
  unfolding look
  look-waits_free files e = elim (Option-cases (env.inode lockdir)) [
    | inl i ↦ rw (look, i) refl
    | inr (n, i) ↦ elim (Bool-cases (check_group_uucp env)) [
      | inl g ↦ rw (look, i, g) refl
      | inr g ↦ elim (Bool-cases (has_unexpected env files port lockdirs)) [
        | inl u ↦ rw (look, i, g, u) refl
        | inr u ↦ rw (look, i, g, u, e) refl
      ]
    ]
  ]

  look-waits_held :
      (files : Files) (text : List ℕ)
      → files (lock_file port) ≡ some text
      → env.gone (owner env text) ≡ false
      → waits (look env port files) ≡ true
  unfolding look
  look-waits_held files text e alive = elim (Option-cases (env.inode lockdir)) [
    | inl i ↦ rw (look, i) refl
    | inr (n, i) ↦ elim (Bool-cases (check_group_uucp env)) [
      | inl g ↦ rw (look, i, g) refl
      | inr g ↦ elim (Bool-cases (has_unexpected env files port lockdirs)) [
        | inl u ↦ rw (look, i, g, u) refl
        | inr u ↦ rw (look, i, g, u, e, alive) refl
      ]
    ]
  ]

  -- The process has the lock file, with its pid in it or still empty.
  abbrev Owns : Phase → Disk → Type 0
  Owns (writing n) d = (d.node ≡ n) × (d.files (lock_file port) ≡ some [])
  Owns holding d = d.files (lock_file port) ≡ some (print_pid env.pid)
  Owns _ d = true ≡ false

  -- A step with no lock file: it is still not there, or the process has it.
  abbrev After : Phase × Disk → Type 0
  After (p, d) = ((waits p ≡ true) × (d.files (lock_file port) ≡ none)) ⊎ Owns p d

  open_lock-After : (d : Disk) → d.files (lock_file port) ≡ none → After (open_lock env port d)
  unfolding open_lock
  open_lock-After d e = elim (Bool-cases (env.can_create (lock_file port))) [
    | inl can ↦ rw (open_lock, is_there, e, can) (inr (refl, rw (same_refl (lock_file port)) refl))
    | inr cannot ↦ rw (open_lock, is_there, e, cannot) (inl (refl, e))
  ]

  step-free :
      (p : Phase) (d : Disk)
      → waits p ≡ true
      → d.files (lock_file port) ≡ none
      → After (step env port p d)
  unfolding step
  step-free looking d w e = inl (look-waits_free d.files e, e)
  step-free removing d w e = absurd cc
  step-free creating d w e = open_lock-After d e
  step-free (writing n) d w e = absurd cc
  step-free holding d w e = absurd cc
  step-free refused d w e = inl (refl, e)

  -- The owner goes on to own.
  step-Owns : (p : Phase) (d : Disk) → Owns p d → Owns (step env port p d).0 (step env port p d).1
  unfolding step write_pid
  step-Owns (writing n) d (at, e) =
      let same : (d.node == n) ≡ true = (rw at (==_refl n)) in
      rw (write_pid, is_there, e, same) (rw (same_refl (lock_file port)) refl)
  step-Owns holding d e = e
  step-Owns looking d e = absurd cc
  step-Owns removing d e = absurd cc
  step-Owns creating d e = absurd cc
  step-Owns refused d e = absurd cc

  -- A step while another process has the lock changes nothing.
  step-held :
      (p : Phase) (d : Disk) (text : List ℕ)
      → waits p ≡ true
      → d.files (lock_file port) ≡ some text
      → env.gone (owner env text) ≡ false
      → (waits (step env port p d).0 ≡ true) × ((step env port p d).1 ≡ d)
  unfolding step open_lock
  step-held looking d text w e alive = (look-waits_held d.files text e alive, refl)
  step-held removing d text w e alive = absurd cc
  step-held creating d text w e alive = rw (open_lock, is_there, e) (refl, refl)
  step-held (writing n) d text w e alive = absurd cc
  step-held holding d text w e alive = absurd cc
  step-held refused d text w e alive = (refl, refl)

-- The lock file of an owner is not stale for a process that sees the owner alive, and that takes the
-- pid in its memory, which it reads from an empty file, for alive.
Owns-alive :
    (own other : LockEnv) (port : List ℕ) (p : Phase) (d : Disk)
    → own.pid < 10 ^ 10
    → other.gone own.pid ≡ false
    → other.gone other.stack_pid ≡ false
    → Owns own port p d
    → (text : List ℕ) × (d.files (lock_file port) ≡ some text)
      × (other.gone (owner other text) ≡ false)
unfolding owner scan
Owns-alive own other port (writing n) d fits lives luck (at, e) = ([], e, luck)
Owns-alive own other port holding d fits lives luck e =
    (print_pid own.pid, e, ap other.gone (owner-print_pid other own.pid fits) ∙ lives)
Owns-alive own other port looking d fits lives luck e = absurd cc
Owns-alive own other port removing d fits lives luck e = absurd cc
Owns-alive own other port creating d fits lives luck e = absurd cc
Owns-alive own other port refused d fits lives luck e = absurd cc

-- A waiting process moves, and the owner still owns.
held_move :
    (own other : LockEnv) (port : List ℕ) (p q : Phase) (d : Disk)
    → own.pid < 10 ^ 10
    → other.gone own.pid ≡ false
    → other.gone other.stack_pid ≡ false
    → Owns own port p d
    → waits q ≡ true
    → Owns own port p (step other port q d).1 × (waits (step other port q d).0 ≡ true)
held_move own other port p q d fits lives luck owns w =
    let (text, e, alive) = Owns-alive own other port p d fits lives luck owns in
    let (w', same) = step-held other port q d text w e alive in (rw same owns, w')

module _ (a b : LockEnv) (port : List ℕ) where
  -- Nobody has the lock file, or one process has it and the other waits.
  abbrev Safe : Pair → Type 0
  Safe s =
      ((waits s.first ≡ true) × (waits s.second ≡ true) × (s.disk.files (lock_file port) ≡ none))
      ⊎ ((Owns a port s.first s.disk × (waits s.second ≡ true))
          ⊎ (Owns b port s.second s.disk × (waits s.first ≡ true)))

  module _ (a_fits : a.pid < 10 ^ 10) (b_fits : b.pid < 10 ^ 10) (a_lives : b.gone a.pid ≡ false)
      (b_lives : a.gone b.pid ≡ false) (a_luck : a.gone a.stack_pid ≡ false)
      (b_luck : b.gone b.stack_pid ≡ false) where
    move-Safe : (t : Turn) (s : Pair) → Safe s → Safe (move a b port t s)
    move-Safe first_turn s (inl (w, v, e)) = elim (step-free a port s.first s.disk w e) [
      | inl (w', e') ↦ inl (w', v, e')
      | inr owns ↦ inr (inl (owns, v))
    ]
    move-Safe first_turn s (inr (inl (owns, v))) =
        inr (inl (step-Owns a port s.first s.disk owns, v))
    move-Safe first_turn s (inr (inr (owns, w))) =
        inr (inr (held_move b a port s.second s.first s.disk b_fits b_lives a_luck owns w))
    move-Safe second_turn s (inl (w, v, e)) = elim (step-free b port s.second s.disk v e) [
      | inl (v', e') ↦ inl (w, v', e')
      | inr owns ↦ inr (inr (owns, w))
    ]
    move-Safe second_turn s (inr (inl (owns, v))) =
        inr (inl (held_move a b port s.first s.second s.disk a_fits a_lives b_luck owns v))
    move-Safe second_turn s (inr (inr (owns, w))) =
        inr (inr (step-Owns b port s.second s.disk owns, w))

    run-Safe : (turns : List Turn) (s : Pair) → Safe s → Safe (run a b port turns s)
    unfolding run
    run-Safe [] s safe = safe
    run-Safe (t ∷ ts) s safe = run-Safe ts (move a b port t s) (move-Safe t s safe)

waits-holds : (p : Phase) → waits p ≡ true → holds p ≡ false
waits-holds looking w = refl
waits-holds removing w = refl
waits-holds creating w = refl
waits-holds (writing n) w = refl
waits-holds holding w = absurd cc
waits-holds refused w = refl

both_hold-waits :
    (p q : Phase) (d : Disk)
    → (waits p ≡ true) ⊎ (waits q ≡ true)
    → both_hold (record { first = p; second = q; disk = d }) ≡ false
both_hold-waits p q d (inl w) = rw (waits-holds p w) refl
both_hold-waits p q d (inr v) = elim (Bool-cases (holds p)) [
  | inl h ↦ rw (h, waits-holds q v) refl
  | inr h ↦ rw h refl
]

Safe-both_hold : (a b : LockEnv) (port : List ℕ) (s : Pair) → Safe a b port s → both_hold s ≡ false
Safe-both_hold a b port s (inl (w, v, e)) = both_hold-waits s.first s.second s.disk (inl w)
Safe-both_hold a b port s (inr (inl (owns, v))) = both_hold-waits s.first s.second s.disk (inr v)
Safe-both_hold a b port s (inr (inr (owns, w))) = both_hold-waits s.first s.second s.disk (inl w)

-- Two processes whose pids have at most ten digits, and who see each other alive, run fhs_lock of
-- the same port at the same time, in any order of their steps, the look of is_device_locked being
-- one step. When there is no lock file at first, and the pid that each takes from an empty lock
-- file, which is what it has in its memory, is not that of a process that is gone, they never hold
-- the lock both.
pub run-both_hold :
    (a b : LockEnv) (port : List ℕ) (files : Files) (node : ℕ) (turns : List Turn)
    → a.pid < 10 ^ 10
    → b.pid < 10 ^ 10
    → b.gone a.pid ≡ false
    → a.gone b.pid ≡ false
    → a.gone a.stack_pid ≡ false
    → b.gone b.stack_pid ≡ false
    → files (lock_file port) ≡ none
    → both_hold (run a b port turns (beginning files node)) ≡ false
run-both_hold a b port files node turns a_fits b_fits a_lives b_lives a_luck b_luck e =
    Safe-both_hold a b port (run a b port turns (beginning files node)) (
      run-Safe a b port a_fits b_fits a_lives b_lives a_luck b_luck turns (beginning files node)
        (inl (refl, refl, e)))
