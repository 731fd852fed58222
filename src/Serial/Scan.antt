-- ===== src/Serial/Scan.antt =====
-- The search for ports of src/SerialImp.c in the Linux build: isPortPrefixValid and testRead. The
-- system calls on the ports are the parameters `ScanApi` and `TestApi`, the lock is Serial.Lock's; an open that is interrupted is taken to
-- be repeated inside `open_file`, as the loop of testRead does.
pub mod Prefix
pub mod Restores
use rxtx.Base.{
  ℕ, zero, suc, ◌+◌, ◌%◌, ltb, if◌then◌else◌, not, Bool, true, false, Option, some, none, List, [],
  ◌∷◌, ◌++◌, ◌/◌,
}
use rxtx.Base.Int.{ℤ, pos, negsuc, is_neg}
use rxtx.Serial.Text.{codes}
use rxtx.Serial.Lock.{LockEnv, Files, fhs_lock, fhs_unlock}

abbrev pub devicedir : List ℕ
devicedir = codes "/dev/"

-- The suffix of the name number i: "%i" of a number below 100.
abbrev pub decimal : ℕ → List ℕ
decimal i = if ltb i 10 then (48 + i) ∷ [] else (48 + i / 10) ∷ (48 + i % 10) ∷ []

abbrev pub numbered : List ℕ → ℕ → List ℕ
numbered name i = devicedir ++ name ++ decimal i

-- stat gives whether the file is a character device, and `none` when it fails.
pub record ScanApi (Dev : Type 0) : Type 0 where
  pub stat : List ℕ → Dev → Option Bool
  pub open_file : List ℕ → Dev → ℤ × Dev
  pub close : ℤ → Dev → Dev

abbrev pub is_positive : ℤ → Bool
is_positive (pos zero) = false
is_positive (pos (suc n)) = true
is_positive (negsuc n) = false

module _ {Dev : Type 0} (api : ScanApi Dev) where
  -- Whether `mystat` says a character device after a stat; it is static and keeps the last answer
  -- when stat fails.
  abbrev pub stat_after : List ℕ → Bool → Dev → Bool
  stat_after file mode dev = elim (api.stat file dev) [ none ↦ mode | some is_chr ↦ is_chr ]

  -- The loop from number i on, with the rounds left and `mystat`: the result of the last round.
  unfoldable pub prefix_loop : List ℕ → ℕ → ℕ → Bool → Dev → Bool × Bool × Dev
  prefix_loop name zero i mode dev = (false, mode, dev)
  prefix_loop name (suc left) i mode dev =
      let file = numbered name i in
      let mode' = stat_after file mode dev in
      let (fd, dev1) = api.open_file file dev in
      let rest = prefix_loop name left (i + 1) mode' (if mode' then dev1 else dev) in
      if not mode' then rest else if is_positive fd then (true, mode', api.close fd dev1) else rest

  unfoldable pub is_port_prefix_valid : List ℕ → Bool → Dev → Bool × Bool × Dev
  unfolding prefix_loop
  is_port_prefix_valid name mode dev =
      let (result, mode', dev') = prefix_loop name 64 0 mode dev in
      let file = devicedir ++ name in
      let mode'' = stat_after file mode' dev' in
      let (fd, dev1) = api.open_file file dev' in
      if not mode''
      then (result, mode'', dev')
      else if is_positive fd
      then (true, mode'', api.close fd dev1)
      else (result, mode'', dev1)

-- What read of one byte ended with: `again` is an error with EAGAIN.
pub data Probed : Type 0 where
  got again bad : Probed

-- The calls that answer with a Bool say whether they failed. `raw` is cfmakeraw, with VMIN and VTIME
-- set to 0, and the flags are those of fcntl.
pub record TestApi (T Dev : Type 0) : Type 0 where
  pub open_file : Dev → ℤ × Dev
  pub close : ℤ → Dev → Dev
  pub tcgetattr : Dev → Option T
  pub tcsetattr : T → Dev → Bool × Dev
  pub raw : T → T
  pub nonblock : ℤ
  pub getfl : Dev → ℤ
  pub setfl : ℤ → Dev → Bool × Dev
  pub read : Dev → Probed × Dev

abbrev pub can_read : Probed → Bool
can_read got = true
can_read again = true
can_read bad = false

module _ {T Dev : Type 0} (api : TestApi T Dev) where
  -- From the change to O_NONBLOCK on, with the settings and the flags that were saved.
  unfoldable pub probe : T → ℤ → Dev → Bool × Dev
  probe saved flags dev =
      let (bad1, dev1) = api.setfl api.nonblock dev in
      let (bad2, dev2) = api.tcsetattr (api.raw saved) dev1 in
      let (ret, dev3) = api.read dev2 in
      if bad1
      then (false, dev1)
      else if bad2
      then (false, (api.tcsetattr saved dev2).1)
      else (can_read ret, (api.setfl flags (api.tcsetattr saved dev3).1).1)

  unfoldable pub probe_serial : Dev → Bool × Dev
  unfolding probe
  probe_serial dev = elim (api.tcgetattr dev) [
    | none ↦ (false, dev)
    | some saved ↦ if is_neg (api.getfl dev) then (false, dev) else probe saved (api.getfl dev) dev
  ]

  -- END: the lock is given back before the port is closed, and `ret` returned.
  unfoldable pub finish : LockEnv → List ℕ → Bool → ℤ → Files → Dev → Bool × Files × Dev
  unfolding fhs_unlock
  finish env name ret fd files dev = (ret, fhs_unlock env files name env.pid, api.close fd dev)

  -- LOCK and UNLOCK are fhs_lock and fhs_unlock, and `serial` is whether the port type is
  -- PORT_SERIAL.
  unfoldable pub test_read : LockEnv → List ℕ → Bool → Files → Dev → Bool × Files × Dev
  unfolding fhs_lock probe_serial finish
  test_read env name serial files dev =
      let (busy, files1) = fhs_lock env files name in
      let (fd, dev2) = api.open_file dev in
      let (ok, dev3) = probe_serial dev2 in
      if busy
      then (false, files1, dev)
      else if is_neg fd
      then finish env name false fd files1 dev2
      else if serial
      then finish env name ok fd files1 dev3
      else finish env name true fd files1 dev2
