-- ===== src/Serial/Params/Space.antt =====
-- nativeGetParity of src/SerialImp.c after translate_parity.
use rxtx.Base.{
  ℕ, ◌≡◌, refl, ◌∙◌, ap, ◌==◌, if◌then◌else◌, not, ◌&&◌, Bool, true, false, bit_and, bit_or, arith,
  inl, inr, Bool-cases,
}
use rxtx.Base.Bits.{bit_and-zero}
use rxtx.Base.Int.{pos}
use rxtx.Base.Tables.{all_cases, all_cases-assoc}
use rxtx.Termios.Flags.{has, clear, parenb, parodd, cmspar, complement}
use rxtx.Termios.Masks.{replaced, kept}
use rxtx.Serial.Params.{
  parity_cases, mark_flags, translate_parity, native_get_parity, jparity_even, jparity_space,
}
use rxtx.Serial.Params.Laws.{parity_back}

-- nativeGetParity of the three parity flags of `v` and the lowest bit.
abbrev parity_by : ℕ → Bool → ℕ
parity_by v low =
    if has v parenb && has v parodd && has v cmspar
    then 3
    else if has v cmspar && low
    then 4
    else if has v parenb && has v parodd
    then 1
    else if has v parenb
    then 2
    else 0

abbrev told : ℕ → Bool → ℕ
told n low = if n == jparity_space && not low then jparity_even else n

abbrev tells : ℕ → ℕ → Bool
tells n v = parity_by v true == told n true && parity_by v false == told n false && bit_and v 1 == 0

parity_cases_tell : all_cases tells parity_cases ≡ true
unfolding all_cases
parity_cases_tell = refl

tells_lem :
    (n v : ℕ) (low : Bool) → tells n v ≡ true → (parity_by v low ≡ told n low) × (bit_and v 1 ≡ 0)
tells_lem n v true h = ground arith
tells_lem n v false h = ground arith

native_by : (u : ℕ) → native_get_parity u ≡ parity_by u (has u 1)
unfolding native_get_parity
native_by u = elim (Bool-cases (has u cmspar)) [
  | inl on ↦ rw on
  | inr off ↦ rw (off, bit_and-zero u)
]

-- The parity that was set is read by nativeGetParity, but for space parity when the lowest bit of
-- c_cflag, a bit of the rate code, is clear: then even parity is read.
pub native_get_parity-translate_parity :
    (c n : ℕ)
    → (translate_parity c (pos n)).0 ≡ 0
    → native_get_parity (translate_parity c (pos n)).1
      ≡ (if n == jparity_space && not (has c 1) then jparity_even else n)
native_get_parity-translate_parity c n done =
    let (v, found, e) = parity_back c n done in
    let (reads, low) =
      tells_lem n v (has c 1) (all_cases-assoc tells parity_cases n v parity_cases_tell found) in
    let u = bit_or (clear c mark_flags) v in
    let flag : (m : ℕ) → bit_and (complement mark_flags) m ≡ 0 → has u m ≡ has v m =
      λ m h. ap (λ x. not (x == 0)) (replaced c v mark_flags m h) in
    let lowest : has u 1 ≡ has c 1 = ap (λ x. not (x == 0)) (kept c v mark_flags 1 refl low) in
    ap native_get_parity e
    ∙ native_by u
    ∙ rw (flag parenb refl, flag parodd refl, flag cmspar refl, lowest) reads
