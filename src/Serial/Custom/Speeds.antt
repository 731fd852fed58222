-- ===== src/Serial/Custom/Speeds.antt =====
-- The baud base and the divisor for custom speeds of src/SerialImp.c in a build with TIOCGSERIAL,
-- as Linux has it, over the two ioctls, a parameter. The Windows build has no TIOCGSERIAL: there all
-- four calls throw.
use rxtx.Base.{
  ◌≡◌, refl, ◌∙◌, sym, ap, ltb, if◌then◌else◌, Bool, true, false, Option, some, none, Option-cases,
  Bool-cases, inl, inr,
}
use rxtx.Base.Int.{ℤ, pos, negsuc, minus_one}

-- The fields of struct serial_struct that the code uses.
pub record SpeedSettings : Type 0 where
  pub custom_divisor : ℤ
  pub baud_base : ℤ

-- ioctl with TIOCGSERIAL, where `none` is a failure, and with TIOCSSERIAL, where `true` is one.
pub record SerialApi (Dev : Type 0) : Type 0 where
  pub tiocgserial : Dev → Option SpeedSettings
  pub tiocsserial : SpeedSettings → Dev → Bool × Dev

-- `x < 1`
abbrev pub below_one : ℤ → Bool
below_one (pos n) = ltb n 1
below_one (negsuc n) = true

module _ {Dev : Type 0} (api : SerialApi Dev) where
  -- The result is true for a failure, which is an exception too.
  unfoldable pub native_set_baud_base : ℤ → Dev → Bool × Dev
  native_set_baud_base baud_base dev = elim (api.tiocgserial dev) [
    | none ↦ (true, dev)
    | some s ↦
        if below_one baud_base
        then (true, dev)
        else api.tiocsserial (record s { baud_base = baud_base }) dev
  ]

  unfoldable pub native_get_baud_base : Dev → ℤ
  native_get_baud_base dev = elim (api.tiocgserial dev) [ none ↦ minus_one | some s ↦ s.baud_base ]

  -- The divisor that is given is not read.
  unfoldable pub native_set_divisor : ℤ → Dev → Bool × Dev
  native_set_divisor divisor dev = elim (api.tiocgserial dev) [
    | none ↦ (true, dev)
    | some s ↦ if below_one s.custom_divisor then (true, dev) else api.tiocsserial s dev
  ]

  unfoldable pub native_get_divisor : Dev → ℤ
  native_get_divisor dev = elim (api.tiocgserial dev) [
    | none ↦ minus_one
    | some s ↦ s.custom_divisor
  ]

-- A device that gives back the structure that was set.
pub record Remembers {Dev : Type 0} (api : SerialApi Dev) : Type 0 where
  pub reads :
      (s : SpeedSettings) (d : Dev)
      → (api.tiocsserial s d).0 ≡ false
      → api.tiocgserial (api.tiocsserial s d).1 ≡ some s

module _ {Dev : Type 0} (api : SerialApi Dev) (law : Remembers api) where
  after_baud_base :
      (base : ℤ) (dev : Dev)
      → (native_set_baud_base api base dev).0 ≡ false
      → (s : SpeedSettings) × (api.tiocgserial dev ≡ some s)
        × (api.tiocgserial (native_set_baud_base api base dev).1
            ≡ some (record s { baud_base = base }))
  unfolding native_set_baud_base
  after_baud_base base dev h = elim (Option-cases (api.tiocgserial dev)) [
    | inl e ↦ let clash : true ≡ false = (rw (native_set_baud_base, e) at h) in absurd cc
    | inr (s, e) ↦ elim (Bool-cases (below_one base)) [
      | inl low ↦ let clash : true ≡ false = (rw (native_set_baud_base, e, low) at h) in absurd cc
      | inr high ↦
          let wanted : SpeedSettings = record s { baud_base = base } in
          let run : native_set_baud_base api base dev ≡ api.tiocsserial wanted dev =
            rw (native_set_baud_base, e, high) refl in
          (
            s,
            e,
            ap (λ r. api.tiocgserial r.1) run ∙ law.reads wanted dev (ap (λ r. r.0) (sym run) ∙ h),
          )
    ]
  ]

  after_divisor :
      (divisor : ℤ) (dev : Dev)
      → (native_set_divisor api divisor dev).0 ≡ false
      → api.tiocgserial (native_set_divisor api divisor dev).1 ≡ api.tiocgserial dev
  unfolding native_set_divisor
  after_divisor divisor dev h = elim (Option-cases (api.tiocgserial dev)) [
    | inl e ↦ let clash : true ≡ false = (rw (native_set_divisor, e) at h) in absurd cc
    | inr (s, e) ↦ elim (Bool-cases (below_one s.custom_divisor)) [
      | inl low ↦ let clash : true ≡ false = (rw (native_set_divisor, e, low) at h) in absurd cc
      | inr high ↦
          let run : native_set_divisor api divisor dev ≡ api.tiocsserial s dev =
            rw (native_set_divisor, e, high) refl in
          ap (λ r. api.tiocgserial r.1) run ∙ law.reads s dev (ap (λ r. r.0) (sym run) ∙ h) ∙ sym e
    ]
  ]

  -- A baud base that is set is read back, but a divisor that is set is lost: when nativeSetBaudBase
  -- and then nativeSetDivisor succeed, nativeGetBaudBase returns that baud base and nativeGetDivisor
  -- what it returned before both, whatever divisor was given. It needs a device that gives back the
  -- structure that was set.
  pub native_get_divisor-set_divisor :
      (base divisor : ℤ) (dev : Dev)
      → (native_set_baud_base api base dev).0 ≡ false
      → (native_set_divisor api divisor (native_set_baud_base api base dev).1).0 ≡ false
      → let dev' = (native_set_divisor api divisor (native_set_baud_base api base dev).1).1 in
        (native_get_baud_base api dev' ≡ base)
        × (native_get_divisor api dev' ≡ native_get_divisor api dev)
  unfolding native_get_baud_base native_get_divisor
  native_get_divisor-set_divisor base divisor dev set_base set_div =
      let dev1 = (native_set_baud_base api base dev).1 in
      let (s, before, after) = after_baud_base base dev set_base in
      let now : api.tiocgserial (native_set_divisor api divisor dev1).1
          ≡ some (record s { baud_base = base }) =
        after_divisor divisor dev1 set_div ∙ after in
      (rw (native_get_baud_base, now) refl, rw (native_get_divisor, now, before) refl)
