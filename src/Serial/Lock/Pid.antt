-- ===== src/Serial/Lock/Pid.antt =====
-- The pid that fhs_lock of src/SerialImp.c writes to a lock file is the one that is read from it.
use rxtx.Base.{
  ℕ, zero, suc, ◌+◌, ◌*◌, ◌-◌, ◌/◌, ◌%◌, ◌^◌, ◌<◌, ◌≡◌, ◌≢◌, refl, ◌∙◌, ap, ◌==◌, if◌then◌else◌,
  Bool-cases, true, false, some, List, [], ◌∷◌, ◌++◌, take, arith, append_assoc, inl, inr,
}
use rxtx.Serial.Text.{
  field, print_pid, is_blank, is_digit, skip_blanks, digits, scan, blank, newline, zero_digit,
}

scan-blank : (cs : List ℕ) → scan (blank ∷ cs) ≡ scan cs
unfolding scan skip_blanks
scan-blank cs = refl

scan-field_zero : (w : ℕ) (rest : List ℕ) → scan (field w 0 ++ rest) ≡ scan rest
unfolding field
scan-field_zero zero rest = refl
scan-field_zero (suc w) rest =
    ap scan (append_assoc (field w 0) (blank ∷ []) rest)
    ∙ scan-field_zero w (blank ∷ rest)
    ∙ scan-blank rest

scan_digit : (d : ℕ) (cs : List ℕ) → d < 10 → scan ((zero_digit + d) ∷ cs) ≡ some (digits d cs)
unfolding scan skip_blanks digits
scan_digit d cs h =
    let not_blank : is_blank (zero_digit + d) ≡ false = ground arith in
    let digit : is_digit (zero_digit + d) ≡ true = ground arith in
    let value : 0 * 10 + (zero_digit + d - zero_digit) ≡ d = omega arith in
    rw (not_blank, digit, value) refl

digits_digit :
    (n d : ℕ) (cs : List ℕ) → d < 10 → digits n ((zero_digit + d) ∷ cs) ≡ digits (n * 10 + d) cs
unfolding digits
digits_digit n d cs h =
    let digit : is_digit (zero_digit + d) ≡ true = ground arith in
    let value : zero_digit + d - zero_digit ≡ d = omega arith in rw (digits, digit, value) refl

digits_end : (n : ℕ) → digits n (newline ∷ []) ≡ n
unfolding digits
digits_end n = refl

scan-field :
    (w n : ℕ) (rest : List ℕ) → n ≢ 0 → n < 10 ^ w → scan (field w n ++ rest) ≡ some (digits n rest)
unfolding field
scan-field zero n rest more fits = absurd (more (omega arith))
scan-field (suc w) n rest more fits =
    let c = if n == 0 then blank else zero_digit + n % 10 in
    let c_digit : c ≡ zero_digit + n % 10 = ground arith in
    let split = ap scan (append_assoc (field w (n / 10)) (c ∷ []) rest) in
    split
    ∙ rw c_digit (elim (Bool-cases (n / 10 == 0)) [
      | inl only ↦
          let none_before : n / 10 ≡ 0 = ground arith in
          let last : n % 10 ≡ n = ground arith in
          ap (λ q. scan (field w q ++ (zero_digit + n % 10) ∷ rest)) none_before
          ∙ scan-field_zero w ((zero_digit + n % 10) ∷ rest)
          ∙ scan_digit (n % 10) rest (omega arith)
          ∙ ap (λ d. some (digits d rest)) last
      | inr rest_left ↦
          let whole : n / 10 * 10 + n % 10 ≡ n = omega arith in
          let power : 10 ^ suc w ≡ 10 * 10 ^ w = omega arith in
          scan-field w (n / 10) ((zero_digit + n % 10) ∷ rest) (ground arith) (omega arith)
          ∙ ap some (digits_digit (n / 10) (n % 10) rest (omega arith))
          ∙ ap (λ k. some (digits k rest)) whole
    ])

-- A number of up to ten digits is read as it was printed.
pub scan-print_pid : (n : ℕ) → n < 10 ^ 10 → scan (print_pid n) ≡ some n
unfolding print_pid
scan-print_pid n fits = elim (Bool-cases (n / 10 == 0)) [
  | inl only ↦
      let none_before : n / 10 ≡ 0 = ground arith in
      let last : n % 10 ≡ n = ground arith in
      ap (λ q. scan (field 9 q ++ (zero_digit + n % 10) ∷ newline ∷ [])) none_before
      ∙ scan-field_zero 9 ((zero_digit + n % 10) ∷ newline ∷ [])
      ∙ scan_digit (n % 10) (newline ∷ []) (omega arith)
      ∙ ap (λ d. some (digits d (newline ∷ []))) last
      ∙ ap some (digits_end n)
  | inr rest_left ↦
      let whole : n / 10 * 10 + n % 10 ≡ n = omega arith in
      scan-field 9 (n / 10) ((zero_digit + n % 10) ∷ newline ∷ []) (ground arith) (omega arith)
      ∙ ap some (digits_digit (n / 10) (n % 10) (newline ∷ []) (omega arith))
      ∙ ap (λ k. some (digits k (newline ∷ []))) whole
      ∙ ap some (digits_end n)
]

-- It takes 11 characters, as many as are read.
pub take-print_pid : (n : ℕ) → take 11 (print_pid n) ≡ print_pid n
unfolding print_pid field
take-print_pid n = refl
