-- ===== src/Tests/Lock.antt =====
-- The checks of the lock files, with two processes and one serial port.
use rxtx.Base.{
  ℕ, ◌≡◌, refl, ◌==◌, some, none, List, arith, true, false, if◌then◌else◌, ◌∷◌, [], Option,
}
use rxtx.Serial.Text.{codes, same, print_pid, scan, field, skip_blanks, digits}
use rxtx.Serial.Lock.{
  LockEnv, Files, lockdir, lock_file, create, fhs_lock, fhs_unlock, owner, base_name,
  check_lock_status, last_part, check_group_uucp, is_device_locked, has_unexpected, is_suspect,
  has_lock, remove_stale, create_lock,
}
use rxtx.Serial.Lock.Uucp.{
  uucp_file, uucp_lock_status, uucp_device_locked, uucp_lock, uucp_unlock, uucp_lock-uucp_unlock,
}
use rxtx.Serial.Lock.Steps.{
  look, removing, creating, run, Turn, first_turn, second_turn, beginning, both_hold,
}
use rxtx.Serial.Lock.Exclusion.{run-both_hold}
use rxtx.Serial.Lock.Stale.{run-stale}
use rxtx.Serial.Lock.Unwritten.{run-unwritten}
use rxtx.Serial.Lock.Release.{fhs_lock-fhs_unlock}
use rxtx.Serial.Lock.Holding.{Only, Taken, fhs_lock-excludes}

abbrev pub port : List ℕ
port = codes "/dev/ttyS0"

-- Process 42, and process 99 is gone.
abbrev pub me : LockEnv
me = record {
  pid = 42;
  ppid = 7;
  stack_pid = 0;
  inode = λ dir. if same dir lockdir then some 5 else none;
  can_create = λ name. true;
  can_unlink = λ name. true;
  gone = λ pid. pid == 99;
  device_text = λ name. codes "000.004.064";
}

abbrev you : LockEnv
you = record me { pid = 43 }

abbrev pub no_files : Files
no_files name = none

abbrev stale : Files
stale = create (codes "/var/lock/LCK..ttyS0") (print_pid 99) no_files

the_file : lock_file port ≡ codes "/var/lock/LCK..ttyS0"
unfolding lock_file base_name last_part
the_file = refl

print_pid_example : print_pid 42 ≡ codes "        42\n"
unfolding print_pid field
print_pid_example = refl

takes_stale : (fhs_lock me stale port).0 ≡ false
unfolding fhs_lock check_lock_status check_group_uucp is_device_locked has_unexpected is_suspect
    has_lock remove_stale owner scan skip_blanks digits create_lock print_pid field lock_file
    base_name last_part
takes_stale = refl

abbrev mine : Files
mine = (fhs_lock me stale port).1

fhs_lock-excludes_example : fhs_lock you mine port ≡ (true, mine)
fhs_lock-excludes_example = fhs_lock-excludes me you stale port (omega arith) takes_stale refl

fhs_lock-fhs_unlock_example :
    (fhs_unlock me mine port 0 (lock_file port) ≡ none)
    × Only (lock_file port) stale (fhs_unlock me mine port 0)
fhs_lock-fhs_unlock_example = fhs_lock-fhs_unlock me stale port 0 (omega arith) refl takes_stale

abbrev numbers : List ℕ → Option (List ℕ)
numbers name = some (codes "003.004.064")

-- A stale uucp lock.
abbrev uucp_stale : Files
uucp_stale = create (codes "/var/lock/LK.003.004.064") (print_pid 99) no_files

uucp_takes : (uucp_lock me numbers uucp_stale port).0 ≡ false
unfolding uucp_lock uucp_lock_status uucp_device_locked check_group_uucp has_unexpected is_suspect
    has_lock remove_stale owner scan skip_blanks digits print_pid field create_lock uucp_file
uucp_takes = refl

uucp_lock-uucp_unlock_example :
    let files = (uucp_lock me numbers uucp_stale port).1 in
    let file = uucp_file (codes "003.004.064") in
    let after = uucp_unlock me numbers files port 0 in
    Taken me file uucp_stale files × (after file ≡ none) × Only file uucp_stale after
uucp_lock-uucp_unlock_example =
    uucp_lock-uucp_unlock me numbers uucp_stale port (codes "003.004.064") 0 (omega arith) refl refl
      uucp_takes

abbrev turns : List Turn
turns = second_turn ∷ first_turn ∷ first_turn ∷ second_turn ∷ []

run-both_hold_example : both_hold (run me you port turns (beginning no_files 0)) ≡ false
run-both_hold_example =
    run-both_hold me you port no_files 0 turns (omega arith) (omega arith) refl refl refl refl refl

stale_there : stale (lock_file port) ≡ some (print_pid 99)
unfolding lock_file base_name last_part
stale_there = refl

me_looks : look me port stale ≡ removing
unfolding look check_group_uucp has_unexpected is_suspect has_lock owner scan skip_blanks digits
    print_pid field lock_file base_name last_part
me_looks = refl

you_looks : look you port stale ≡ removing
unfolding look check_group_uucp has_unexpected is_suspect has_lock owner scan skip_blanks digits
    print_pid field lock_file base_name last_part
you_looks = refl

run-stale_example :
    both_hold (
      run me you port
        (second_turn ∷ first_turn ∷ first_turn ∷ first_turn ∷ first_turn ∷ second_turn ∷ second_turn
          ∷ second_turn ∷ [])
        (beginning stale 0))
    ≡ true
run-stale_example =
    run-stale me you port (print_pid 99) stale 0 stale_there me_looks you_looks refl refl refl refl

-- A process with the pid 99 in its memory.
abbrev unlucky : LockEnv
unlucky = record me { pid = 44; stack_pid = 99 }

me_finds_none : look me port no_files ≡ creating
unfolding look check_group_uucp has_unexpected is_suspect has_lock
me_finds_none = refl

unlucky_looks : look unlucky port (create (lock_file port) [] no_files) ≡ removing
unfolding look check_group_uucp has_unexpected is_suspect has_lock owner scan skip_blanks digits
    lock_file base_name last_part
unlucky_looks = refl

run-unwritten_example :
    both_hold (
      run me unlucky port
        (first_turn ∷ first_turn ∷ second_turn ∷ first_turn ∷ second_turn ∷ second_turn
          ∷ second_turn ∷ [])
        (beginning no_files 0))
    ≡ true
run-unwritten_example =
    run-unwritten me unlucky port no_files 0 refl me_finds_none unlucky_looks refl refl refl
