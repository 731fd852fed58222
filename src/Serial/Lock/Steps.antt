-- ===== src/Serial/Lock/Steps.antt =====
-- fhs_lock of src/SerialImp.c in its steps on the lock file, which other processes can come between:
-- the look at it in is_device_locked, the removal of a stale lock, the open that creates the file,
-- and the write of the pid. The look is one step.
use rxtx.Base.{if◌then◌else◌, ◌&&◌, ◌+◌, ◌==◌, none, some, List, [], ◌∷◌, ℕ, Bool, true, false}
use rxtx.Serial.Text.{print_pid}
use rxtx.Serial.Lock.{
  LockEnv, Files, lockdir, lockdirs, lock_file, is_there, create, unlink_file, owner,
  has_unexpected, check_group_uucp,
}

-- The lock that `writing` writes to is the file that was made with that number, whatever has its
-- name by then.
pub data Phase : Type 0 where
  looking removing creating holding refused : Phase
  writing : ℕ → Phase

-- The files, and the number of the last file that was made with the name of the lock.
pub record Disk : Type 0 where
  pub files : Files
  pub node : ℕ

module _ (env : LockEnv) (port : List ℕ) where
  -- What check_lock_status finds, before it removes anything.
  unfoldable pub look : Files → Phase
  look files = elim (env.inode lockdir) [
    | none ↦ refused
    | some n ↦
        if check_group_uucp env
        then refused
        else if has_unexpected env files port lockdirs
        then refused
        else elim (files (lock_file port)) [
          | none ↦ creating
          | some text ↦ if env.gone (owner env text) then removing else creating
        ]
  ]

  -- open with O_CREAT | O_EXCL: the file is empty.
  unfoldable pub open_lock : Disk → Phase × Disk
  open_lock d =
      let file = lock_file port in
      let made : Disk = record { files = create file [] d.files; node = d.node + 1 } in
      if is_there d.files file
      then (refused, d)
      else if env.can_create file
      then (writing (d.node + 1), made)
      else (refused, d)

  -- A file that was removed in between takes the pid, but no one can find it.
  unfoldable pub write_pid : ℕ → Disk → Disk
  write_pid n d =
      let file = lock_file port in
      if is_there d.files file && d.node == n
      then record d { files = create file (print_pid env.pid) d.files }
      else d

  -- One step; unlink fails for a file that is not there.
  unfoldable pub step : Phase → Disk → Phase × Disk
  unfolding look open_lock write_pid
  step looking d = (look d.files, d)
  step removing d =
      if is_there d.files (lock_file port) && env.can_unlink (lock_file port)
      then (creating, record d { files = unlink_file (lock_file port) d.files })
      else (refused, d)
  step creating d = open_lock d
  step (writing n) d = (holding, write_pid n d)
  step holding d = (holding, d)
  step refused d = (refused, d)

-- Two processes that lock the same port.
pub record Pair : Type 0 where
  pub first : Phase
  pub second : Phase
  pub disk : Disk

pub data Turn : Type 0 where
  first_turn second_turn : Turn

module _ (a b : LockEnv) (port : List ℕ) where
  abbrev pub move : Turn → Pair → Pair
  move first_turn s =
      let (p, disk) = step a port s.first s.disk in record s { first = p; disk = disk }
  move second_turn s =
      let (p, disk) = step b port s.second s.disk in record s { second = p; disk = disk }

  unfoldable pub run : List Turn → Pair → Pair
  run [] s = s
  run (t ∷ ts) s = run ts (move t s)

-- Both processes before their look.
abbrev pub beginning : Files → ℕ → Pair
beginning files node = record {
  first = looking;
  second = looking;
  disk = record { files = files; node = node };
}

abbrev pub holds : Phase → Bool
holds holding = true
holds _ = false

abbrev pub both_hold : Pair → Bool
both_hold s = holds s.first && holds s.second
