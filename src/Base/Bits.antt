-- ===== src/Base/Bits.antt =====
-- The laws of `&` and `|` at every width. Masking code is restated by them so that the masks,
-- which are numerals, meet and compute.
mod Step
use Step.{and-half, and-low, or-half, or-low, eq_of_digits}
use Prim.Native.Nat.{
  ℕ, zero, suc, ◌+◌, ◌*◌, ◌/◌, ◌%◌, ◌^◌, ◌≤◌, bit_and, bit_or, min, max, bit_and-bitwise,
  bit_or-bitwise,
}
use mathlib.Core.Path.{◌≡◌, refl, ap, ap₂, ◌∙◌}
use mathlib.Core.Logic.{◌⊎◌}
use native.Mathlib.Nat.{pow-suc}
use native.Mathlib.Omega.{arith}

pub zero-bit_and : (b : ℕ) → bit_and 0 b ≡ 0
zero-bit_and b = bit_and-bitwise 0 b

pub zero-bit_or : (b : ℕ) → bit_or 0 b ≡ b
zero-bit_or b = bit_or-bitwise 0 b

-- Each law goes from the halves to the numbers; `n` bounds the first of them.
bit_and-zero_fuel : (n a : ℕ) → a ≤ n → bit_and a 0 ≡ 0
bit_and-zero_fuel zero zero h = refl
bit_and-zero_fuel (suc n) zero h = refl
bit_and-zero_fuel zero (suc a) h = absurd (omega arith)
bit_and-zero_fuel (suc n) (suc a) h =
    omega
      (arith, and-half (suc a) 0, and-low (suc a) 0, bit_and-zero_fuel n (suc a / 2) (omega arith))

pub bit_and-zero : (a : ℕ) → bit_and a 0 ≡ 0
bit_and-zero a = bit_and-zero_fuel a a (omega arith)

bit_or-zero_fuel : (n a : ℕ) → a ≤ n → bit_or a 0 ≡ a
bit_or-zero_fuel zero zero h = refl
bit_or-zero_fuel (suc n) zero h = refl
bit_or-zero_fuel zero (suc a) h = absurd (omega arith)
bit_or-zero_fuel (suc n) (suc a) h =
    omega (arith, or-half (suc a) 0, or-low (suc a) 0, bit_or-zero_fuel n (suc a / 2) (omega arith))

pub bit_or-zero : (a : ℕ) → bit_or a 0 ≡ a
bit_or-zero a = bit_or-zero_fuel a a (omega arith)

and_assoc_fuel : (n a b c : ℕ) → a ≤ n → bit_and (bit_and a b) c ≡ bit_and a (bit_and b c)
and_assoc_fuel n zero b c h = omega (arith, zero-bit_and (bit_and b c), and-zero-left)
  where
    and-zero-left : bit_and (bit_and 0 b) c ≡ 0
    and-zero-left = rw (zero-bit_and b, zero-bit_and c)
and_assoc_fuel zero (suc a) b c h = absurd (omega arith)
and_assoc_fuel (suc n) (suc a) b c h =
    eq_of_digits _ _ (simp and-half (and_assoc_fuel n (suc a / 2) (b / 2) (c / 2) (omega arith))) (
      omega (
        arith,
        and-low (bit_and (suc a) b) c,
        and-low (suc a) b,
        and-low (suc a) (bit_and b c),
        and-low b c,
      ))

pub and_assoc : (a b c : ℕ) → bit_and (bit_and a b) c ≡ bit_and a (bit_and b c)
and_assoc a b c = and_assoc_fuel a a b c (omega arith)

or_assoc_fuel : (n a b c : ℕ) → a ≤ n → bit_or (bit_or a b) c ≡ bit_or a (bit_or b c)
or_assoc_fuel n zero b c h = rw (zero-bit_or b, zero-bit_or (bit_or b c))
or_assoc_fuel zero (suc a) b c h = absurd (omega arith)
or_assoc_fuel (suc n) (suc a) b c h =
    eq_of_digits _ _ (simp or-half (or_assoc_fuel n (suc a / 2) (b / 2) (c / 2) (omega arith))) (
      omega (
        arith,
        or-low (bit_or (suc a) b) c,
        or-low (suc a) b,
        or-low (suc a) (bit_or b c),
        or-low b c,
      ))

pub or_assoc : (a b c : ℕ) → bit_or (bit_or a b) c ≡ bit_or a (bit_or b c)
or_assoc a b c = or_assoc_fuel a a b c (omega arith)

and_or_fuel : (n a b c : ℕ) → a ≤ n → bit_and (bit_or a b) c ≡ bit_or (bit_and a c) (bit_and b c)
and_or_fuel n zero b c h = rw (zero-bit_or b, zero-bit_and c, zero-bit_or (bit_and b c))
and_or_fuel zero (suc a) b c h = absurd (omega arith)
and_or_fuel (suc n) (suc a) b c h =
    eq_of_digits _ _
      (simp (and-half, or-half) (and_or_fuel n (suc a / 2) (b / 2) (c / 2) (omega arith)))
      (omega (
        arith,
        and-low (bit_or (suc a) b) c,
        or-low (suc a) b,
        or-low (bit_and (suc a) c) (bit_and b c),
        and-low (suc a) c,
        and-low b c,
      ))

pub and_or : (a b c : ℕ) → bit_and (bit_or a b) c ≡ bit_or (bit_and a c) (bit_and b c)
and_or a b c = and_or_fuel a a b c (omega arith)

and_comm_fuel : (n a b : ℕ) → a ≤ n → bit_and a b ≡ bit_and b a
and_comm_fuel n zero b h = rw (zero-bit_and b, bit_and-zero b)
and_comm_fuel zero (suc a) b h = absurd (omega arith)
and_comm_fuel (suc n) (suc a) b h =
    eq_of_digits _ _ (simp and-half (and_comm_fuel n (suc a / 2) (b / 2) (omega arith)))
      (omega (arith, and-low (suc a) b, and-low b (suc a)))

pub and_comm : (a b : ℕ) → bit_and a b ≡ bit_and b a
and_comm a b = and_comm_fuel a a b (omega arith)

or_self_fuel : (n a : ℕ) → a ≤ n → bit_or a a ≡ a
or_self_fuel n zero h = refl
or_self_fuel zero (suc a) h = absurd (omega arith)
or_self_fuel (suc n) (suc a) h = omega (
  arith,
  or-half (suc a) (suc a),
  or-low (suc a) (suc a),
  or_self_fuel n (suc a / 2) (omega arith),
)

pub or_self : (a : ℕ) → bit_or a a ≡ a
or_self a = or_self_fuel a a (omega arith)

-- `&` with a union of masks
pub and_or_left : (a b c : ℕ) → bit_and a (bit_or b c) ≡ bit_or (bit_and a b) (bit_and a c)
and_or_left a b c =
    and_comm a (bit_or b c) ∙ and_or b c a ∙ ap₂ bit_or (and_comm b a) (and_comm c a)

bit_and-le_fuel : (n a b : ℕ) → a ≤ n → bit_and a b ≤ b
bit_and-le_fuel n zero b h = omega (arith, zero-bit_and b)
bit_and-le_fuel zero (suc a) b h = absurd (omega arith)
bit_and-le_fuel (suc n) (suc a) b h = omega (
  arith,
  and-half (suc a) b,
  and-low (suc a) b,
  bit_and-le_fuel n (suc a / 2) (b / 2) (omega arith),
)

pub bit_and-le : (a b : ℕ) → bit_and a b ≤ b
bit_and-le a b = bit_and-le_fuel a a b (omega arith)

-- Distributing `&` over `|` and nesting to the right brings the numerals together.
pub ruleset masks = (and_or, and_assoc, bit_and-zero, bit_or-zero, zero-bit_or)

-- A single bit of a number is off or on.
pub bit_and_pow : (k a : ℕ) → (bit_and a (2 ^ k) ≡ 0) ⊎ (bit_and a (2 ^ k) ≡ 2 ^ k)
bit_and_pow zero a = omega (arith, and-half a 1, and-low a 1, bit_and-zero (a / 2))
bit_and_pow (suc k) a = omega (
  arith,
  and-half a (2 ^ suc k),
  and-low a (2 ^ suc k),
  pow-suc 2 k,
  halved,
  bit_and_pow k (a / 2),
)
  where
    halved : bit_and (a / 2) (2 ^ suc k / 2) ≡ bit_and (a / 2) (2 ^ k)
    halved = ap (bit_and (a / 2)) (omega (arith, pow-suc 2 k))
