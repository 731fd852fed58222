-- ===== src/Serial/Lock/Uucp.antt =====
-- uucp_lock and uucp_unlock of src/SerialImp.c in a build without FHS, in the setting of the other
-- lock files, with the lock directory that NetBSD has. The three device numbers of a port, as
-- "%03d.%03d.%03d" prints them, are the parameter `numbers`; `none` is a port that stat does not
-- find.
use rxtx.Base.{
  ℕ, ◌^◌, ◌<◌, ◌≡◌, refl, ◌∙◌, sym, ap, if◌then◌else◌, Bool, Bool-cases, Option-cases, true, false,
  Option, some, none, List, ◌∷◌, ◌++◌, take, inl, inr, ==_refl,
}
use rxtx.Serial.Text.{codes, slash, print_pid, scan, atol}
use rxtx.Serial.Lock.{
  LockEnv, Files, lockdir, lockdirs, create, unlink_file, create_lock, check_group_uucp,
  has_unexpected, remove_stale, check_lock_pid,
}
use rxtx.Serial.Lock.Pid.{scan-print_pid, take-print_pid}
use rxtx.Serial.Lock.Holding.{
  Only, Clears, Taken, keeps, same_refl, create-Only, unlink_file-Only, remove_stale-Clears,
  create_lock-Taken,
}

unfoldable pub uucp_file : List ℕ → List ℕ
uucp_file text = lockdir ++ (slash ∷ codes "LK.") ++ text

module _ (env : LockEnv) (numbers : List ℕ → Option (List ℕ)) where
  -- is_device_locked in a build without FHS.
  unfoldable pub uucp_device_locked : Files → List ℕ → Bool × Files
  unfolding has_unexpected remove_stale uucp_file
  uucp_device_locked files port =
      if has_unexpected env files port lockdirs then (true, files) else elim (numbers port) [
        | none ↦ (true, files)
        | some text ↦ remove_stale env files (uucp_file text)
      ]

  -- check_lock_status over it.
  unfoldable pub uucp_lock_status : Files → List ℕ → Bool × Files
  unfolding check_group_uucp uucp_device_locked
  uucp_lock_status files port = elim (env.inode lockdir) [
    | none ↦ (true, files)
    | some n ↦ if check_group_uucp env then (true, files) else uucp_device_locked files port
  ]

  -- `true` is the return 1.
  unfoldable pub uucp_lock : Files → List ℕ → Bool × Files
  unfolding uucp_lock_status create_lock uucp_file
  uucp_lock files port =
      let (refused, files') = uucp_lock_status files port in
      if refused then (true, files') else elim (env.inode lockdir) [
        | none ↦ (true, files')
        | some n ↦ elim (numbers port) [
          | none ↦ (true, files')
          | some text ↦ create_lock env files' (uucp_file text)
        ]
      ]

  unfoldable pub uucp_unlock : Files → List ℕ → ℕ → Files
  unfolding check_lock_pid uucp_file
  uucp_unlock files port openpid = elim (numbers port) [
    | none ↦ files
    | some text ↦
        let file = uucp_file text in
        if check_lock_pid env files file openpid
        then files
        else if env.can_unlink file
        then unlink_file file files
        else files
  ]

module _ (env : LockEnv) (numbers : List ℕ → Option (List ℕ)) where
  uucp_lock_status-Clears :
      (files : Files) (port text : List ℕ)
      → numbers port ≡ some text
      → Clears env (uucp_file text) files (uucp_lock_status env numbers files port)
  unfolding uucp_lock_status uucp_device_locked
  uucp_lock_status-Clears files port text known =
      let file = uucp_file text in
      elim (Option-cases (env.inode lockdir)) [
        | inl i ↦ rw (uucp_lock_status, i) (keeps env file files true)
        | inr (n, i) ↦ elim (Bool-cases (check_group_uucp env)) [
          | inl g ↦ rw (uucp_lock_status, i, g) (keeps env file files true)
          | inr g ↦ elim (Bool-cases (has_unexpected env files port lockdirs)) [
            | inl u ↦ rw (uucp_lock_status, i, g, uucp_device_locked, u) (keeps env file files true)
            | inr u ↦
                rw (uucp_lock_status, i, g, uucp_device_locked, u, known)
                  (remove_stale-Clears env files file)
          ]
        ]
      ]

  -- What is known when uucp_lock succeeds.
  lock_made :
      (files : Files) (port text : List ℕ)
      → numbers port ≡ some text
      → (uucp_lock env numbers files port).0 ≡ false
      → let cleared = (uucp_lock_status env numbers files port).1 in
        (uucp_lock env numbers files port ≡ create_lock env cleared (uucp_file text))
        × ((create_lock env cleared (uucp_file text)).0 ≡ false)
  unfolding uucp_lock
  lock_made files port text known h =
      elim (Bool-cases (uucp_lock_status env numbers files port).0) [
        | inl r ↦ let clash : true ≡ false = (rw (uucp_lock, r) at h) in absurd cc
        | inr r ↦ elim (Option-cases (env.inode lockdir)) [
          | inl i ↦ let clash : true ≡ false = (rw (uucp_lock, r, i) at h) in absurd cc
          | inr (n, i) ↦
              let run : uucp_lock env numbers files port
                  ≡ create_lock env (uucp_lock_status env numbers files port).1 (uucp_file text) =
                rw (uucp_lock, r, i, known) refl in
              (run, sym (ap (λ x. x.0) run) ∙ h)
        ]
      ]

  uucp_lock-Taken :
      (files : Files) (port text : List ℕ)
      → numbers port ≡ some text
      → (uucp_lock env numbers files port).0 ≡ false
      → Taken env (uucp_file text) files (uucp_lock env numbers files port).1
  uucp_lock-Taken files port text known taken =
      let file = uucp_file text in
      let cleared = (uucp_lock_status env numbers files port).1 in
      let (run, made) = lock_made files port text known taken in
      let (empty, result) = create_lock-Taken env cleared file made in
      let (only, free) = uucp_lock_status-Clears files port text known in
      let now : (uucp_lock env numbers files port).1 ≡ create file (print_pid env.pid) cleared =
        ap (λ x. x.1) run ∙ result in
      rw now (
        free empty,
        rw (same_refl file) refl,
        λ other. create-Only file (print_pid env.pid) cleared other ∙ only other,
      )

  -- A lock that uucp_lock took is given back by uucp_unlock of the same process, whatever pid the
  -- opener had, when the port still has its numbers, the pid has at most ten digits, and the process
  -- can remove the file: there was no lock file before or one whose owner is gone, there is one with
  -- the pid in between, and none afterwards, when every other file is as it was before both calls.
  pub uucp_lock-uucp_unlock :
      (files : Files) (port text : List ℕ) (openpid : ℕ)
      → env.pid < 10 ^ 10
      → numbers port ≡ some text
      → env.can_unlink (uucp_file text) ≡ true
      → (uucp_lock env numbers files port).0 ≡ false
      → let files' = (uucp_lock env numbers files port).1 in
        let after = uucp_unlock env numbers files' port openpid in
        Taken env (uucp_file text) files files'
        × (after (uucp_file text) ≡ none)
        × Only (uucp_file text) files after
  unfolding uucp_unlock check_lock_pid atol
  uucp_lock-uucp_unlock files port text openpid fits known unlinks taken =
      let file = uucp_file text in
      let files' = (uucp_lock env numbers files port).1 in
      let (free, held, only) = uucp_lock-Taken files port text known taken in
      let read : scan (take 11 (print_pid env.pid)) ≡ some env.pid =
        ap scan (take-print_pid env.pid) ∙ scan-print_pid env.pid fits in
      let run : uucp_unlock env numbers files' port openpid ≡ unlink_file file files' =
        (rw (uucp_unlock, known, check_lock_pid, held, atol, read, ==_refl env.pid, unlinks)
          refl) in
      (
        (free, held, only),
        ap (λ f. f file) run ∙ (rw (same_refl file) refl),
        rw run (λ other. unlink_file-Only file files' other ∙ only other),
      )
