-- ===== src/Serial/Scan/Restores.antt =====
-- testRead of src/SerialImp.c leaves the port and its lock file as it found them.
use rxtx.Base.{ℕ, ◌⊎◌, List, ◌≡◌, Bool, true, false, some, none}
use rxtx.Base.Int.{ℤ}
use rxtx.Serial.Lock.{LockEnv, Files, lock_file, fhs_lock}
use rxtx.Serial.Lock.Holding.{Only}
use rxtx.Serial.Scan.{TestApi}

-- A device whose settings change by tcsetattr only. A tcsetattr that fails can leave any settings.
pub record Steady {T Dev : Type 0} (api : TestApi T Dev) (settings : Dev → T) : Type 0 where
  pub open_keeps : (d : Dev) → settings (api.open_file d).1 ≡ settings d
  pub close_keeps : (fd : ℤ) (d : Dev) → settings (api.close fd d) ≡ settings d
  pub setfl_keeps : (flags : ℤ) (d : Dev) → settings (api.setfl flags d).1 ≡ settings d
  pub tcgetattr_gives : (d : Dev) (t : T) → api.tcgetattr d ≡ some t → t ≡ settings d
  pub tcsetattr_sets :
      (t : T) (d : Dev) → (api.tcsetattr t d).0 ≡ false → settings (api.tcsetattr t d).1 ≡ t

module _ {T Dev : Type 0} (api : TestApi T Dev) (settings : Dev → T)
    (law : Steady api settings) where
  abbrev Same : T → Bool × Dev → Type 0
  Same t (ok, dev) = settings dev ≡ t

module _ {T Dev : Type 0} (api : TestApi T Dev) (settings : Dev → T) (law : Steady api settings)
    (env : LockEnv) (name : List ℕ) where
  -- The settings are `t`, and the lock was refused, with the device untouched, or it is given back.
  abbrev Left : T → Files → Dev → Bool × Files × Dev → Type 0
  Left t files dev (ok, files', dev') =
      (settings dev' ≡ t)
      × ((((fhs_lock env files name).0 ≡ true) × (dev' ≡ dev))
          ⊎ ((files' (lock_file name) ≡ none) × Only (lock_file name) files files'))
