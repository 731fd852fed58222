-- ===== src/Serial/Speed/Laws.antt =====
-- translate_speed against get_java_baudrate.
use rxtx.Base.{ℕ, ◌≡◌, refl, ◌⊎◌, inl, inr, true, some, none, sym, ◌∙◌, arith, Option-cases}
use rxtx.Base.Int.{pos}
use rxtx.Base.Tables.{assoc, is_just, is_just→eq, all_cases, all_cases-assoc}
use rxtx.Serial.Speed.{speed_cases, java_cases, translate_speed, get_java_baudrate}

speed_cases_return : all_cases (λ speed b. is_just (assoc b java_cases) speed) speed_cases ≡ true
unfolding all_cases assoc
speed_cases_return = refl

java_cases_return : all_cases (λ b speed. is_just (assoc speed speed_cases) b) java_cases ≡ true
unfolding all_cases assoc
java_cases_return = refl

-- A speed is translated to a code that get_java_baudrate takes back to that speed, or it is passed
-- on as it is.
get_java_baudrate-translate_speed :
    (speed b : ℕ)
    → translate_speed (pos speed) ≡ some b
    → (get_java_baudrate b ≡ some speed) ⊎ (b ≡ speed)
unfolding translate_speed get_java_baudrate
get_java_baudrate-translate_speed speed b h = elim (Option-cases (assoc speed speed_cases)) [
  | inl missing ↦ inr (ground arith)
  | inr (c, found) ↦
      let e : c ≡ b = ground arith in
      inl (
        is_just→eq _ speed (
          all_cases-assoc (λ s c. is_just (assoc c java_cases) s) speed_cases speed b
            speed_cases_return (ground arith)))
]

-- Every rate code that get_java_baudrate knows is the translation of the speed that it gives.
translate_speed-get_java_baudrate :
    (b speed : ℕ) → get_java_baudrate b ≡ some speed → translate_speed (pos speed) ≡ some b
unfolding translate_speed get_java_baudrate
translate_speed-get_java_baudrate b speed h =
    let found : assoc speed speed_cases ≡ some b = is_just→eq _ b (
      all_cases-assoc (λ c s. is_just (assoc s speed_cases) c) java_cases b speed java_cases_return
        h) in
    rw found

-- A speed that is not in the list but is spelled like a rate code is taken for that code: it is
-- translated as the listed speed of the code is.
translate_speed_alias :
    (b speed : ℕ)
    → get_java_baudrate b ≡ some speed
    → assoc b speed_cases ≡ none
    → translate_speed (pos b) ≡ translate_speed (pos speed)
translate_speed_alias b speed h missing =
    unfold translate_speed in (rw missing refl ∙ sym (translate_speed-get_java_baudrate b speed h))
