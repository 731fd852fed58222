-- ===== src/Tests/Scan.antt =====
-- The checks of the search for ports: a machine with /dev/ttyS3 only, and a port with settings that
-- are a number.
use rxtx.Base.{ℕ, ◌≡◌, refl, true, false, some, none, arith, if◌then◌else◌}
use rxtx.Base.Int.{ℤ, pos, negsuc}
use rxtx.Serial.Text.{codes, same}
use rxtx.Serial.Lock.{
  lock_file, fhs_lock, check_lock_status, check_group_uucp, is_device_locked, has_unexpected,
  is_suspect, has_lock, remove_stale, create_lock, base_name, last_part,
}
use rxtx.Tests.Lock.{me, port, no_files}
use rxtx.Serial.Scan.{
  ScanApi, TestApi, again, is_port_prefix_valid, test_read, probe_serial, probe, finish,
}
use rxtx.Serial.Scan.Prefix.{is_port_prefix_valid-finds}

abbrev machine : ScanApi ℕ
machine = record {
  stat = λ file d. if same file (codes "/dev/ttyS3") then some true else none;
  open_file = λ file d. if same file (codes "/dev/ttyS3") then (pos 4, d) else (negsuc 0, d);
  close = λ fd d. d;
}

is_port_prefix_valid-finds_example : (is_port_prefix_valid machine (codes "ttyS") false 0).0 ≡ true
is_port_prefix_valid-finds_example =
    is_port_prefix_valid-finds machine (codes "ttyS") 3 false 0 (omega arith) (λ d. refl)
      (λ d. refl)

-- The settings and the flags.
record Port : Type 0 where
  set : ℕ
  flags : ℤ

abbrev port_api : TestApi ℕ Port
port_api = record {
  open_file = λ d. (pos 5, d);
  close = λ fd d. d;
  tcgetattr = λ d. some d.set;
  tcsetattr = λ t d. (false, record d { set = t });
  raw = λ t. 0;
  nonblock = pos 2048;
  getfl = λ d. d.flags;
  setfl = λ f d. (false, record d { flags = f });
  read = λ d. (again, d);
}

abbrev idle : Port
idle = record { set = 77; flags = pos 2 }

probes :
    ((test_read port_api me port true no_files idle).0 ≡ true)
    × ((test_read port_api me port true no_files idle).2 ≡ idle)
unfolding test_read probe_serial probe finish fhs_lock check_lock_status check_group_uucp
    is_device_locked has_unexpected is_suspect has_lock remove_stale create_lock lock_file base_name
    last_part
probes = (refl, refl)
