-- ===== src/Serial/Params/Laws.antt =====
-- What the translations of src/SerialImp.c set is read back by its switches.
use rxtx.Base.{
  ℕ, ◌≡◌, ◌≢◌, refl, ◌∙◌, sym, ap, ◌==◌, if◌then◌else◌, not, ◌&&◌, Bool, true, false, Bool-cases,
  Option-cases, inl, inr, bit_and, bit_or, Option, some, none, arith, ◌⊎◌, subst,
}
use rxtx.Base.Int.{pos}
use rxtx.Base.Bits.{and_or, and_assoc, bit_and-zero, bit_or-zero, bit_and_pow}
use rxtx.Base.Tables.{assoc, is_just, all_cases, all_cases-assoc}
use rxtx.Termios.Flags.{clear, has, complement, csize, cstopb, parenb, cignore}
use rxtx.Termios.Masks.{replaced, kept}
use rxtx.Serial.Params.{
  data_cases, parity_cases, size_cases, flags_cases, mark_flags, or_minus_one, translate_data_bits,
  translate_stop_bits, translate_parity, translate_all, get_data_bits, get_stop_bits,
  get_java_parity, when_done, stopbits_1, stopbits_2, stopbits_1_5,
}

abbrev size_reads : ℕ → ℕ → Bool
size_reads n v = is_just (assoc (bit_and v csize) size_cases) n && bit_and v cignore == 0

size_reads_lem : (o : Option ℕ) (n x : ℕ) → (is_just o n && x == 0) ≡ true → (o ≡ some n) × (x ≡ 0)
size_reads_lem none n x h = ground arith
size_reads_lem (some m) n x h = ground arith

data_cases_read : all_cases size_reads data_cases ≡ true
unfolding all_cases assoc
data_cases_read = refl

-- A data size that is accepted is read back, and CIGNORE is left alone.
get_data_bits-translate :
    (c n : ℕ)
    → (translate_data_bits c (pos n)).0 ≡ 0
    → (get_data_bits (translate_data_bits c (pos n)).1 ≡ pos n)
      × (bit_and (translate_data_bits c (pos n)).1 cignore ≡ bit_and c cignore)
unfolding translate_data_bits get_data_bits
get_data_bits-translate c n done = elim (Option-cases (assoc n data_cases)) [
  | inl missing ↦
      let fails : (translate_data_bits c (pos n)).0 ≡ 1 = rw (translate_data_bits, missing) in
      absurd (omega arith)
  | inr (v, found) ↦
      let (reads, free) =
        size_reads_lem _ n _ (all_cases-assoc size_reads data_cases n v data_cases_read found) in
      let stored : (translate_data_bits c (pos n)).1 ≡ bit_or (clear c csize) v =
        rw (translate_data_bits, found) in
      (
        ap (λ x. or_minus_one (assoc (bit_and x csize) size_cases)) stored
            ∙ ap (λ x. or_minus_one (assoc x size_cases)) (replaced c v csize csize refl)
            ∙ ap or_minus_one reads,
        ap (λ x. bit_and x cignore) stored ∙ kept c v csize cignore refl free,
      )
]

-- Stop bits of one or two are read back, and leave the other flags alone.
stop_back :
    (c s : ℕ)
    → s ≢ 3
    → (translate_stop_bits c (pos s)).0 ≡ 0
    → (get_stop_bits (translate_stop_bits c (pos s)).1 ≡ s)
      × (bit_and (translate_stop_bits c (pos s)).1 csize ≡ bit_and c csize)
      × (bit_and (translate_stop_bits c (pos s)).1 cignore ≡ bit_and c cignore)
unfolding translate_stop_bits get_stop_bits
stop_back c s other done =
    let three : (s == 3) ≡ false = ground arith in
    elim (Bool-cases (s == 1)) [
      | inl one ↦
          rw (translate_stop_bits, one)
            (
              rw (and_assoc c (complement cstopb) cstopb, bit_and-zero) (ground arith),
              and_assoc c (complement cstopb) csize,
              and_assoc c (complement cstopb) cignore,
            )
      | inr off ↦ elim (Bool-cases (s == 2)) [
        | inl two ↦
            rw (translate_stop_bits, off, three, two)
              (
                rw (and_or c cstopb cstopb) (stop_set (ground arith) (bit_and_pow 6 c)),
                and_or c cstopb csize ∙ bit_or-zero _,
                and_or c cstopb cignore ∙ bit_or-zero _,
              )
        | inr bad ↦
            let fails : (translate_stop_bits c (pos s)).0 ≡ 1 =
              rw (translate_stop_bits, off, three, bad) in
            absurd (omega arith)
      ]
    ]
  where
    stop_set :
        s ≡ 2
        → (bit_and c 0x40 ≡ 0) ⊎ (bit_and c 0x40 ≡ 0x40)
        → (if bit_or (bit_and c cstopb) cstopb == 0
            then 1
            else if bit_or (bit_and c cstopb) cstopb == cstopb
            then 2
            else 3)
          ≡ s
    stop_set two (inl e) = rw e (sym two)
    stop_set two (inr e) = rw e (sym two)

-- A parity that is accepted is read back; without PARENB no parity flag is set. The size and the
-- stop bits are left alone.
abbrev parity_reads : ℕ → ℕ → Bool
parity_reads n v =
    is_just (assoc (bit_and v mark_flags) flags_cases) n
    && (if has v parenb then bit_and v mark_flags else 0) == bit_and v mark_flags
    && bit_and v csize == 0
    && bit_and v cstopb == 0
    && bit_and v cignore == 0

-- The parts of such a test.
parity_reads_lem :
    (o : Option ℕ) (n a b x y z : ℕ)
    → (is_just o n && a == b && x == 0 && y == 0 && z == 0) ≡ true
    → (o ≡ some n) × (a ≡ b) × (x ≡ 0) × (y ≡ 0) × (z ≡ 0)
parity_reads_lem none n a b x y z h = ground arith
parity_reads_lem (some m) n a b x y z h = ground arith

parity_cases_read : all_cases parity_reads parity_cases ≡ true
unfolding all_cases assoc
parity_cases_read = refl

pub parity_back :
    (c n : ℕ)
    → (translate_parity c (pos n)).0 ≡ 0
    → (v : ℕ) × (assoc n parity_cases ≡ some v)
      × ((translate_parity c (pos n)).1 ≡ bit_or (clear c mark_flags) v)
unfolding translate_parity
parity_back c n done = elim (Option-cases (assoc n parity_cases)) [
  | inl missing ↦
      let fails : (translate_parity c (pos n)).0 ≡ 1 = rw (translate_parity, missing) in
      absurd (omega arith)
  | inr (v, found) ↦ (v, found, rw (translate_parity, found))
]

-- The fields of c_cflag after the three translations, and a flag that none of them touches.
pub record Translated (c u n s p : ℕ) : Type 0 where
  pub size : get_data_bits u ≡ pos n
  pub stop : get_stop_bits u ≡ s
  pub parity : get_java_parity u ≡ pos p
  pub no_parity : (if has u parenb then bit_and u mark_flags else 0) ≡ bit_and u mark_flags
  pub others : has u cignore ≡ has c cignore

module _ (c n : ℕ) where
  parity_fields :
      (translate_parity c (pos n)).0 ≡ 0
      → let u = (translate_parity c (pos n)).1 in
        (get_java_parity u ≡ pos n)
        × ((if has u parenb then bit_and u mark_flags else 0) ≡ bit_and u mark_flags)
        × (bit_and u csize ≡ bit_and c csize)
        × (bit_and u cstopb ≡ bit_and c cstopb)
        × (bit_and u cignore ≡ bit_and c cignore)
  unfolding get_java_parity
  parity_fields done =
      let (v, found, e) = parity_back c n done in
      let reads = all_cases-assoc parity_reads parity_cases n v parity_cases_read found in
      let (known, enables, a, b, d) = parity_reads_lem _ n _ _ _ _ _ reads in
      let mark = replaced c v mark_flags mark_flags refl in
      let enabled = replaced c v mark_flags parenb refl in
      rw e (
        rw mark (ap or_minus_one known),
        rw (mark, enabled) enables,
        kept c v mark_flags csize refl a,
        kept c v mark_flags cstopb refl b,
        kept c v mark_flags cignore refl d,
      )

when_done_lem :
    (r : ℕ × ℕ) (rest : ℕ → Option ℕ) (u : ℕ)
    → when_done r rest ≡ some u
    → (r.0 ≡ 0) × (rest r.1 ≡ some u)
when_done_lem r rest u h = elim (Bool-cases (r.0 == 0)) [
  | inl ok ↦ let run : when_done r rest ≡ rest r.1 = rw ok in (ground arith, sym run ∙ h)
  | inr bad ↦ let run : when_done r rest ≡ none = rw bad in absurd cc
]

some-injective : (a b : ℕ) → some a ≡ some b → a ≡ b
some-injective a b h = cc

module _ (c u n s p : ℕ) where
  -- When the three translations succeed, with one or two stop bits, the switches read back what was
  -- asked for, no parity flag is set without PARENB, and CIGNORE is left alone.
  pub translate_all-Translated :
      s ≢ 3 → translate_all c (pos n) (pos s) (pos p) ≡ some u → Translated c u n s p
  unfolding translate_all get_data_bits get_stop_bits
  translate_all-Translated other done =
      let sized = translate_data_bits c (pos n) in
      let stopped = translate_stop_bits sized.1 (pos s) in
      let parity = translate_parity stopped.1 (pos p) in
      let after_stop : ℕ → Option ℕ = λ x. when_done (translate_parity x (pos p)) some in
      let after_size : ℕ → Option ℕ = λ x. when_done (translate_stop_bits x (pos s)) after_stop in
      let (first, rest) = when_done_lem sized after_size u done in
      let (second, rest') = when_done_lem stopped after_stop u rest in
      let (third, rest'') = when_done_lem parity some u rest' in
      let (read, marked, same_size, same_stop, same_other) = parity_fields stopped.1 p third in
      let (stop_read, stop_size, stop_other) = stop_back sized.1 s other second in
      let (size_read, size_other) = get_data_bits-translate c n first in
      subst (λ u. Translated c u n s p) (some-injective _ _ rest'')
        (record {
          size = ap (λ x. or_minus_one (assoc x size_cases)) (same_size ∙ stop_size) ∙ size_read;
          stop =
              ap
                (λ x.
                  if x == 0 then stopbits_1 else if x == cstopb then stopbits_2 else stopbits_1_5)
                same_stop
              ∙ stop_read;
          parity = read;
          no_parity = marked;
          others = ap (λ x. not (x == 0)) (same_other ∙ stop_other ∙ size_other);
        })
