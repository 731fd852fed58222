-- ===== src/Serial/Lock.antt =====
-- The lock files of src/SerialImp.c as Linux has them: fhs_lock, fhs_unlock, check_lock_status,
-- check_group_uucp, is_device_locked and check_lock_pid, with LOCKDIR and LOCKFILEPREFIX of
-- src/SerialImp.h. The files are a function of their path; what the process cannot change is in
-- `LockEnv`. The sizes of the path buffers are left out, and a pid is not negative.
pub mod Pid
pub mod Holding
pub mod Release
pub mod Steps
pub mod Exclusion
pub mod Stale
pub mod Unwritten
pub mod Uucp
use rxtx.Serial.Text.{codes, slash, newline, same, starts, print_pid, scan, atol}
use rxtx.Base.{
  ℕ, zero, suc, ◌+◌, ◌*◌, ◌-◌, ◌/◌, ◌%◌, ◌==◌, leb, if◌then◌else◌, Bool, true, false, not, ◌&&◌,
  ◌||◌, Option, some, none, List, [], ◌∷◌, ◌++◌, take,
}

abbrev pub lockdir : List ℕ
lockdir = codes "/var/lock"

abbrev pub lock_prefix : List ℕ
lock_prefix = codes "LCK.."

abbrev pub has_slash : List ℕ → Bool
has_slash [] = false
has_slash (c ∷ cs) = (c == slash) || has_slash cs

-- What follows the last slash, or all of it.
unfoldable pub last_part : List ℕ → List ℕ
last_part [] = []
last_part (c ∷ cs) =
    let rest = last_part cs in if has_slash cs then rest else if c == slash then cs else c ∷ cs

-- The walk from the end stops behind the first character at the latest.
unfoldable pub base_name : List ℕ → List ℕ
unfolding last_part
base_name [] = []
base_name (c ∷ cs) = last_part cs

unfoldable pub lock_file : List ℕ → List ℕ
unfolding base_name
lock_file port = lockdir ++ (slash ∷ lock_prefix) ++ base_name port

-- The contents of the files that there are.
abbrev pub Files : Type 0
Files = List ℕ → Option (List ℕ)

abbrev pub is_there : Files → List ℕ → Bool
is_there files name = elim (files name) [ none ↦ false | some text ↦ true ]

abbrev pub create : List ℕ → List ℕ → Files → Files
create name text files = λ other. if same name other then some text else files other

abbrev pub unlink_file : List ℕ → Files → Files
unlink_file name files = λ other. if same name other then none else files other

-- The process, and what the system answers it: the inode of a directory, whether a file can be
-- created and removed, whether kill(pid, 0) fails with ESRCH, the device numbers of a port printed
-- with "%03d.%03d.%03d", and the pid that is on the stack when a lock file holds none.
pub record LockEnv : Type 0 where
  pub pid : ℕ
  pub ppid : ℕ
  pub stack_pid : ℕ
  pub inode : List ℕ → Option ℕ
  pub can_create : List ℕ → Bool
  pub can_unlink : List ℕ → Bool
  pub gone : ℕ → Bool
  pub device_text : List ℕ → List ℕ

abbrev pub lockdirs : List (List ℕ)
lockdirs =
    codes "/etc/locks"
    ∷ codes "/usr/spool/kermit"
    ∷ codes "/usr/spool/locks"
    ∷ codes "/usr/spool/uucp"
    ∷ codes "/usr/spool/uucp/"
    ∷ codes "/usr/spool/uucp/LCK"
    ∷ codes "/var/lock"
    ∷ codes "/var/lock/modem"
    ∷ codes "/var/spool/lock"
    ∷ codes "/var/spool/locks"
    ∷ codes "/var/spool/uucp"
    ∷ lockdir
    ∷ []

abbrev pub lockprefixes : List (List ℕ)
lockprefixes = codes "LCK.." ∷ codes "lk.." ∷ codes "LK." ∷ []

module _ (env : LockEnv) where
  abbrev pub inode_is : List ℕ → ℕ → Bool
  inode_is dir n = elim (env.inode dir) [ none ↦ false | some m ↦ m == n ]

  -- Whether the directory is there and is not the lock directory.
  unfoldable pub is_suspect : List ℕ → Bool
  is_suspect dir = elim (env.inode dir) [
    | none ↦ false
    | some n ↦ not (inode_is lockdir n) && not (starts dir lockdir)
  ]

  unfoldable pub has_lock : Files → List ℕ → List ℕ → List (List ℕ) → Bool
  unfolding base_name
  has_lock files port dir [] = false
  has_lock files port dir (pre ∷ pres) =
      is_there files (dir ++ (slash ∷ pre) ++ base_name port)
      || (is_there files (dir ++ (slash ∷ pre) ++ env.device_text port)
          || has_lock files port dir pres)

  unfoldable pub has_unexpected : Files → List ℕ → List (List ℕ) → Bool
  unfolding is_suspect has_lock
  has_unexpected files port [] = false
  has_unexpected files port (dir ∷ dirs) =
      (is_suspect dir && has_lock files port dir lockprefixes) || has_unexpected files port dirs

  -- The pid of a lock file, whose first 11 characters are read.
  unfoldable pub owner : List ℕ → ℕ
  unfolding scan
  owner text = elim (scan (take 11 text)) [ none ↦ env.stack_pid | some pid ↦ pid ]

  -- The last part of is_device_locked: a stale lock is removed, and a lock that is not stale is
  -- passed over.
  unfoldable pub remove_stale : Files → List ℕ → Bool × Files
  unfolding owner
  remove_stale files file = elim (files file) [
    | none ↦ (false, files)
    | some text ↦
        if not (env.gone (owner text))
        then (false, files)
        else if env.can_unlink file
        then (false, unlink_file file files)
        else (true, files)
  ]

  unfoldable pub is_device_locked : Files → List ℕ → Bool × Files
  unfolding has_unexpected remove_stale lock_file
  is_device_locked files port =
      if has_unexpected files port lockdirs
      then (true, files)
      else remove_stale files (lock_file port)

  -- The temporary file is created and removed again.
  unfoldable pub check_group_uucp : Bool
  check_group_uucp = not (env.can_create (lockdir ++ codes "/tmpXXXXXX"))

  unfoldable pub check_lock_status : Files → List ℕ → Bool × Files
  unfolding check_group_uucp is_device_locked
  check_lock_status files port = elim (env.inode lockdir) [
    | none ↦ (true, files)
    | some n ↦ if check_group_uucp then (true, files) else is_device_locked files port
  ]

  -- open with O_CREAT | O_EXCL, and the pid written; `true` is the return 1. What can come between
  -- the two is in Serial.Lock.Steps.
  unfoldable pub create_lock : Files → List ℕ → Bool × Files
  unfolding print_pid
  create_lock files file =
      if is_there files file
      then (true, files)
      else if env.can_create file
      then (false, create file (print_pid env.pid) files)
      else (true, files)

  unfoldable pub fhs_lock : Files → List ℕ → Bool × Files
  unfolding check_lock_status create_lock lock_file
  fhs_lock files port =
      let (refused, files') = check_lock_status files port in
      if refused then (true, files') else create_lock files' (lock_file port)

  -- `true` is the return 1.
  unfoldable pub check_lock_pid : Files → List ℕ → ℕ → Bool
  unfolding atol
  check_lock_pid files file openpid = elim (files file) [
    | none ↦ true
    | some text ↦
        let lockpid = atol (take 11 text) in
        not ((lockpid == env.pid) || (lockpid == env.ppid) || (lockpid == openpid))
  ]

  unfoldable pub fhs_unlock : Files → List ℕ → ℕ → Files
  unfolding check_lock_pid lock_file
  fhs_unlock files port openpid =
      let file = lock_file port in
      if check_lock_pid files file openpid
      then files
      else if env.can_unlink file
      then unlink_file file files
      else files
