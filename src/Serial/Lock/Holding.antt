-- ===== src/Serial/Lock/Holding.antt =====
-- fhs_lock of src/SerialImp.c: who gets a lock.
use rxtx.Base.{
  ℕ, ◌^◌, ◌<◌, ◌≡◌, refl, ◌∙◌, sym, ap, Bool-cases, Option-cases, Bool, true, false, Option, some,
  none, List, [], ◌∷◌, take, inl, inr, ◌⊎◌, ==_refl,
}
use rxtx.Serial.Text.{same, print_pid, scan}
use rxtx.Serial.Lock.{
  LockEnv, Files, is_there, create, unlink_file, lock_file, lockdir, lockdirs, owner, remove_stale,
  has_unexpected, is_device_locked, check_group_uucp, check_lock_status, create_lock, fhs_lock,
}
use rxtx.Serial.Lock.Pid.{scan-print_pid, take-print_pid}

pub same_refl : (cs : List ℕ) → same cs cs ≡ true
same_refl [] = refl
same_refl (c ∷ cs) = rw (==_refl c) (same_refl cs)

pub owner-print_pid : (env : LockEnv) (pid : ℕ) → pid < 10 ^ 10 → owner env (print_pid pid) ≡ pid
unfolding owner
owner-print_pid env pid fits =
    let read : scan (take 11 (print_pid pid)) ≡ some pid =
      ap scan (take-print_pid pid) ∙ scan-print_pid pid fits in
    rw (owner, read) refl

-- Without the one file the two are the same.
abbrev pub Only : List ℕ → Files → Files → Type 0
Only file files files' =
    (other : List ℕ) → unlink_file file files' other ≡ unlink_file file files other

pub create-Only : (file text : List ℕ) (files : Files) → Only file files (create file text files)
create-Only file text files other = elim (Bool-cases (same file other)) [
  | inl e ↦ rw e refl
  | inr e ↦ rw e refl
]

pub unlink_file-Only : (file : List ℕ) (files : Files) → Only file files (unlink_file file files)
unlink_file-Only file files other = elim (Bool-cases (same file other)) [
  | inl e ↦ rw e refl
  | inr e ↦ rw e refl
]

module _ (env : LockEnv) where
  -- There is no lock, or there is one whose owner is gone.
  abbrev pub Free : Option (List ℕ) → Type 0
  Free o = (o ≡ none) ⊎ ((text : List ℕ) × (o ≡ some text) × (env.gone (owner env text) ≡ true))

  -- A step that may remove the lock only when it is free.
  abbrev pub Clears : List ℕ → Files → Bool × Files → Type 0
  Clears file files (refused, files') =
      Only file files files' × (files' file ≡ none → Free (files file))

  pub keeps : (file : List ℕ) (files : Files) (refused : Bool) → Clears file files (refused, files)
  keeps file files refused = (λ other. refl, λ e. inl e)

  pub remove_stale-Clears :
      (files : Files) (file : List ℕ) → Clears file files (remove_stale env files file)
  unfolding remove_stale
  remove_stale-Clears files file = elim (Option-cases (files file)) [
    | inl e ↦ rw (remove_stale, e) (λ other. refl, λ h. inl refl)
    | inr (text, e) ↦ elim (Bool-cases (env.gone (owner env text))) [
      | inr alive ↦ rw (remove_stale, e, alive) (λ other. refl, λ h. inl (sym e ∙ h))
      | inl gone ↦ elim (Bool-cases (env.can_unlink file)) [
        | inr stays ↦ rw (remove_stale, e, gone, stays) (λ other. refl, λ h. inl (sym e ∙ h))
        | inl goes ↦
            rw (remove_stale, e, gone, goes)
              (unlink_file-Only file files, λ h. inr (text, refl, gone))
      ]
    ]
  ]

  is_device_locked-Clears :
      (files : Files) (port : List ℕ)
      → Clears (lock_file port) files (is_device_locked env files port)
  unfolding is_device_locked
  is_device_locked-Clears files port = elim (Bool-cases (has_unexpected env files port lockdirs)) [
    | inl e ↦ rw (is_device_locked, e) (keeps (lock_file port) files true)
    | inr e ↦ rw (is_device_locked, e) (remove_stale-Clears files (lock_file port))
  ]

  pub check_lock_status-Clears :
      (files : Files) (port : List ℕ)
      → Clears (lock_file port) files (check_lock_status env files port)
  unfolding check_lock_status
  check_lock_status-Clears files port = elim (Option-cases (env.inode lockdir)) [
    | inl e ↦ rw (check_lock_status, e) (keeps (lock_file port) files true)
    | inr (n, e) ↦ elim (Bool-cases (check_group_uucp env)) [
      | inl refused ↦ rw (check_lock_status, e, refused) (keeps (lock_file port) files true)
      | inr allowed ↦ rw (check_lock_status, e, allowed) (is_device_locked-Clears files port)
    ]
  ]

  -- The lock was free, it now holds the pid of the process, and no other file was touched.
  abbrev pub Taken : List ℕ → Files → Files → Type 0
  Taken file files files' =
      Free (files file) × (files' file ≡ some (print_pid env.pid)) × Only file files files'

  pub create_lock-Taken :
      (files : Files) (file : List ℕ)
      → (create_lock env files file).0 ≡ false
      → (files file ≡ none)
        × ((create_lock env files file).1 ≡ create file (print_pid env.pid) files)
  unfolding create_lock
  create_lock-Taken files file h = elim (Option-cases (files file)) [
    | inl e ↦ elim (Bool-cases (env.can_create file)) [
      | inl can ↦
          let made : create_lock env files file ≡ (false, create file (print_pid env.pid) files) =
            rw (create_lock, is_there, e, can) refl in
          (e, ap (λ r. r.1) made)
      | inr cannot ↦
          let clash : true ≡ false = (rw (create_lock, is_there, e, cannot) at h) in absurd cc
    ]
    | inr (text, e) ↦ let clash : true ≡ false = (rw (create_lock, is_there, e) at h) in absurd cc
  ]

  -- When fhs_lock succeeds, the lock was free before, which means that there was no lock file or one
  -- whose owner is gone; the lock file now holds the pid of the process, and no other file was
  -- touched.
  pub fhs_lock-Taken :
      (files : Files) (port : List ℕ)
      → (fhs_lock env files port).0 ≡ false
      → Taken (lock_file port) files (fhs_lock env files port).1
  unfolding fhs_lock
  fhs_lock-Taken files port h =
      let file = lock_file port in
      let (only, free) = check_lock_status-Clears files port in
      let cleared = (check_lock_status env files port).1 in
      elim (Bool-cases (check_lock_status env files port).0) [
        | inl e ↦ let clash : true ≡ false = (rw (fhs_lock, e) at h) in absurd cc
        | inr e ↦
            let made : (create_lock env cleared file).0 ≡ false = (rw (fhs_lock, e) at h) in
            let (empty, result) = create_lock-Taken cleared file made in
            rw (fhs_lock, e, result)
              (
                free empty,
                rw (same_refl file) refl,
                λ other. create-Only file (print_pid env.pid) cleared other ∙ only other,
              )
      ]

  check_lock_status-held :
      (files : Files) (port text : List ℕ)
      → files (lock_file port) ≡ some text
      → env.gone (owner env text) ≡ false
      → (check_lock_status env files port).1 ≡ files
  unfolding check_lock_status is_device_locked remove_stale
  check_lock_status-held files port text e alive = elim (Option-cases (env.inode lockdir)) [
    | inl i ↦ rw (check_lock_status, i) refl
    | inr (n, i) ↦ elim (Bool-cases (check_group_uucp env)) [
      | inl refused ↦ rw (check_lock_status, i, refused) refl
      | inr allowed ↦ elim (Bool-cases (has_unexpected env files port lockdirs)) [
        | inl u ↦ rw (check_lock_status, i, allowed, is_device_locked, u) refl
        | inr u ↦
            rw (check_lock_status, i, allowed, is_device_locked, u, remove_stale, e, alive) refl
      ]
    ]
  ]

  -- A lock whose owner is not gone is refused, and nothing is changed.
  pub fhs_lock-held :
      (files : Files) (port text : List ℕ)
      → files (lock_file port) ≡ some text
      → env.gone (owner env text) ≡ false
      → fhs_lock env files port ≡ (true, files)
  unfolding fhs_lock
  fhs_lock-held files port text e alive =
      let kept = check_lock_status-held files port text e alive in
      elim (Bool-cases (check_lock_status env files port).0) [
        | inl r ↦ rw (fhs_lock, r) (ap (λ f. (true, f)) kept)
        | inr r ↦ rw (fhs_lock, r, kept) (rw (create_lock, is_there, e) refl)
      ]

-- While the process that holds a lock is not gone, no other process gets it: after a success of
-- fhs_lock by a process whose pid has at most ten digits, fhs_lock of the same port by a process
-- that sees it alive fails and changes nothing.
pub fhs_lock-excludes :
    (holder other : LockEnv) (files : Files) (port : List ℕ)
    → holder.pid < 10 ^ 10
    → (fhs_lock holder files port).0 ≡ false
    → other.gone holder.pid ≡ false
    → fhs_lock other (fhs_lock holder files port).1 port ≡ (true, (fhs_lock holder files port).1)
fhs_lock-excludes holder other files port fits taken alive =
    let (free, held, only) = fhs_lock-Taken holder files port taken in
    let known = owner-print_pid other holder.pid fits in
    fhs_lock-held other (fhs_lock holder files port).1 port (print_pid holder.pid) held
      (ap other.gone known ∙ alive)
