-- ===== src/Serial/Lock/Release.antt =====
-- fhs_unlock of src/SerialImp.c: who can give a lock back.
use rxtx.Base.{
  ℕ, ◌^◌, ◌<◌, ◌≡◌, ◌≢◌, refl, ◌∙◌, ap, ◌==◌, false, some, none, List, take, arith, ==_refl, true,
}
use rxtx.Serial.Text.{print_pid, scan, atol}
use rxtx.Serial.Lock.{LockEnv, Files, lock_file, fhs_lock, fhs_unlock, check_lock_pid}
use rxtx.Serial.Lock.Pid.{scan-print_pid, take-print_pid}
use rxtx.Serial.Lock.Holding.{Only, same_refl, unlink_file-Only, fhs_lock-Taken}

==_ne : (a b : ℕ) → a ≢ b → (a == b) ≡ false
==_ne a b h = ground arith

module _ (env : LockEnv) where
  -- fhs_unlock leaves every file alone, unless the lock file has the pid of the process, of its
  -- parent or of the opener.
  fhs_unlock-foreign :
      (files : Files) (port : List ℕ) (openpid owner_pid : ℕ)
      → owner_pid < 10 ^ 10
      → files (lock_file port) ≡ some (print_pid owner_pid)
      → owner_pid ≢ env.pid
      → owner_pid ≢ env.ppid
      → owner_pid ≢ openpid
      → fhs_unlock env files port openpid ≡ files
  unfolding fhs_unlock check_lock_pid atol
  fhs_unlock-foreign files port openpid owner_pid fits e not_own not_parent not_opener =
      let text = print_pid owner_pid in
      let read : scan (take 11 text) ≡ some owner_pid =
        ap scan (take-print_pid owner_pid) ∙ scan-print_pid owner_pid fits in
      rw
        (
          fhs_unlock,
          check_lock_pid,
          e,
          atol,
          read,
          ==_ne owner_pid env.pid not_own,
          ==_ne owner_pid env.ppid not_parent,
          ==_ne owner_pid openpid not_opener,
        )
        refl

  -- A lock that fhs_lock took is given back by fhs_unlock of the same process, whatever pid the
  -- opener had: there is no lock file then, and every other file is as it was before both calls, when
  -- the pid has at most ten digits and the process can remove the lock file.
  pub fhs_lock-fhs_unlock :
      (files : Files) (port : List ℕ) (openpid : ℕ)
      → env.pid < 10 ^ 10
      → env.can_unlink (lock_file port) ≡ true
      → (fhs_lock env files port).0 ≡ false
      → (fhs_unlock env (fhs_lock env files port).1 port openpid (lock_file port) ≡ none)
        × Only (lock_file port) files (fhs_unlock env (fhs_lock env files port).1 port openpid)
  unfolding fhs_unlock check_lock_pid atol
  fhs_lock-fhs_unlock files port openpid fits unlinks taken =
      let file = lock_file port in
      let files' = (fhs_lock env files port).1 in
      let (free, held, only) = fhs_lock-Taken env files port taken in
      let read : scan (take 11 (print_pid env.pid)) ≡ some env.pid =
        ap scan (take-print_pid env.pid) ∙ scan-print_pid env.pid fits in
      rw (fhs_unlock, check_lock_pid, held, atol, read, ==_refl env.pid, unlinks)
        (rw (same_refl file) refl, λ other. unlink_file-Only file files' other ∙ only other)
