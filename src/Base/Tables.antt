-- ===== src/Base/Tables.antt =====
-- A switch as a table of cases, searched from the top, and properties of a table by evaluation.
use mathlib.Core.Path.{◌≡◌}
use mathlib.Core.Bool.{Bool, true, false, ◌&&◌}
use mathlib.Core.Option.{Option, none, some}
use mathlib.Core.List.{List, [], ◌∷◌}
use Prim.Native.Nat.{ℕ}
use native.Mathlib.Omega.{arith}
use rxtx.Base.Tests.{◌==◌, if◌then◌else◌}

unfoldable pub assoc : ℕ → List (ℕ × ℕ) → Option ℕ
assoc k [] = none
assoc k ((j, v) ∷ t) = if k == j then some v else assoc k t

abbrev pub or_else : Option ℕ → Option ℕ → Option ℕ
or_else none y = y
or_else (some v) y = some v

-- Whether an optional number is the given one.
abbrev pub is_just : Option ℕ → ℕ → Bool
is_just none v = false
is_just (some u) v = u == v

pub is_just→eq : (o : Option ℕ) (v : ℕ) → is_just o v ≡ true → o ≡ some v
is_just→eq none v h = cc
is_just→eq (some u) v h = ground arith

unfoldable pub all_cases : (ℕ → ℕ → Bool) → List (ℕ × ℕ) → Bool
all_cases p [] = true
all_cases p ((k, v) ∷ t) = p k v && all_cases p t

-- What holds of every case of a table holds of what is found in it.
pub all_cases-assoc :
    (p : ℕ → ℕ → Bool) (t : List (ℕ × ℕ)) (k v : ℕ)
    → all_cases p t ≡ true
    → assoc k t ≡ some v
    → p k v ≡ true
unfolding assoc all_cases
all_cases-assoc p [] k v all found = cc
all_cases-assoc p ((j, w) ∷ t) k v all found = ground (arith, all_cases-assoc p t k v)
