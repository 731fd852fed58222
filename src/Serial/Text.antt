-- ===== src/Serial/Text.antt =====
-- What the lock files of src/SerialImp.c use of the C library's text functions: strcmp, strncmp,
-- sprintf of "%10d\n", sscanf of "%d" and atol, for numbers that are not negative.
use Prim.Native.String.{String}
use Prim.Native.Char.{code}
use rxtx.Base.{
  ℕ, zero, suc, ◌+◌, ◌*◌, ◌-◌, ◌/◌, ◌%◌, ◌==◌, leb, if◌then◌else◌, Bool, true, false, ◌&&◌, ◌||◌,
  Option, some, none, List, [], ◌∷◌, ◌++◌,
}

-- The code points of a text.
abbrev pub codes : String → List ℕ
codes String.[] = []
codes (String.◌∷◌ c s) = code c ∷ codes s

abbrev pub slash : ℕ
slash = b'/'

abbrev pub newline : ℕ
newline = 10

abbrev pub blank : ℕ
blank = b' '

abbrev pub zero_digit : ℕ
zero_digit = b'0'

-- strcmp == 0, and strncmp with the length of the first == 0.
abbrev pub same : List ℕ → List ℕ → Bool
same [] [] = true
same [] (d ∷ ds) = false
same (c ∷ cs) [] = false
same (c ∷ cs) (d ∷ ds) = (c == d) && same cs ds

abbrev pub starts : List ℕ → List ℕ → Bool
starts [] ds = true
starts (c ∷ cs) [] = false
starts (c ∷ cs) (d ∷ ds) = (c == d) && starts cs ds

-- The lowest `width` decimal digits of n, with blanks for the zeros in front.
unfoldable pub field : ℕ → ℕ → List ℕ
field zero n = []
field (suc width) n = field width (n / 10) ++ (if n == 0 then blank else zero_digit + n % 10) ∷ []

-- sprintf of "%10d\n".
unfoldable pub print_pid : ℕ → List ℕ
unfolding field
print_pid n = field 9 (n / 10) ++ (zero_digit + n % 10) ∷ newline ∷ []

abbrev pub is_blank : ℕ → Bool
is_blank c = (c == blank) || (leb 9 c && leb c 13)

abbrev pub is_digit : ℕ → Bool
is_digit c = leb b'0' c && leb c b'9'

unfoldable pub skip_blanks : List ℕ → List ℕ
skip_blanks [] = []
skip_blanks (c ∷ cs) = if is_blank c then skip_blanks cs else c ∷ cs

unfoldable pub digits : ℕ → List ℕ → ℕ
digits n [] = n
digits n (c ∷ cs) = if is_digit c then digits (n * 10 + (c - zero_digit)) cs else n

abbrev pub begins_digit : List ℕ → Bool
begins_digit [] = false
begins_digit (c ∷ cs) = is_digit c

-- sscanf of "%d": `none` stores nothing.
unfoldable pub scan : List ℕ → Option ℕ
unfolding skip_blanks digits
scan text =
    let found = skip_blanks text in if begins_digit found then some (digits 0 found) else none

-- 0 for a text without digits.
unfoldable pub atol : List ℕ → ℕ
unfolding scan
atol text = elim (scan text) [ none ↦ 0 | some n ↦ n ]
