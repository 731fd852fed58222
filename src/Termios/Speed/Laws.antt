-- ===== src/Termios/Speed/Laws.antt =====
-- CBR_to_B and B_to_CBR against one another, and the byte sizes.
use rxtx.Base.{ℕ, ◌≡◌, refl, ◌⊎◌, Bool, true, false, ◌||◌, ◌&&◌, some, none, arith, ◌==◌, Option}
use rxtx.Base.Tables.{assoc, is_just, is_just→eq, all_cases, all_cases-assoc}
use rxtx.Termios.Speed.{cbr_cases, b_cases, cbr_to_b, b_to_cbr}

abbrev is_none : Option ℕ → Bool
is_none none = true
is_none (some v) = false

abbrev returns : ℕ → ℕ → Bool
returns baud b = is_just (assoc b b_cases) baud || is_none (assoc b b_cases) && baud == 28800

cbr_cases_return : all_cases returns cbr_cases ≡ true
unfolding all_cases assoc
cbr_cases_return = refl

b_cases_return : all_cases (λ b baud. is_just (assoc baud cbr_cases) b) b_cases ≡ true
unfolding all_cases assoc
b_cases_return = refl

returns_lem :
    (baud b : ℕ) (o : Option ℕ)
    → (is_just o baud || is_none o && baud == 28800) ≡ true
    → (o ≡ some baud) ⊎ ((o ≡ none) × (baud ≡ 28800))
returns_lem baud b none h = ground arith
returns_lem baud b (some v) h = ground arith

-- A rate code that CBR_to_B gives is taken back by B_to_CBR to the same baud rate, but for
-- the rate 28800, whose code B_to_CBR refuses.
b_to_cbr-cbr_to_b :
    (baud b : ℕ)
    → cbr_to_b baud ≡ some b
    → (b_to_cbr b ≡ some baud) ⊎ ((b_to_cbr b ≡ none) × (baud ≡ 28800))
unfolding cbr_to_b b_to_cbr
b_to_cbr-cbr_to_b baud b h =
    returns_lem baud b _ (all_cases-assoc returns cbr_cases baud b cbr_cases_return h)

-- A baud rate that B_to_CBR gives is taken back by CBR_to_B to the same code.
pub cbr_to_b-b_to_cbr : (b baud : ℕ) → b_to_cbr b ≡ some baud → cbr_to_b baud ≡ some b
unfolding cbr_to_b b_to_cbr
cbr_to_b-b_to_cbr b baud h =
    is_just→eq _ b
      (all_cases-assoc (λ c r. is_just (assoc r cbr_cases) c) b_cases b baud b_cases_return h)
