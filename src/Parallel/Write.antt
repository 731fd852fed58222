-- ===== src/Parallel/Write.antt =====
-- What writeArray of src/ParallelImp.c sends.
use rxtx.Base.{
  ℕ, zero, suc, ◌+◌, ◌==◌, ltb, ◌≡◌, refl, ◌∙◌, sym, ap, Bool, true, false, not, ◌&&◌, Option, some,
  none, List, [], ◌∷◌, ◌++◌, length, take, drop, arith, append_assoc, append_nil, append-take-drop,
  Ensures, Ensures-eq, if_holds,
}
use rxtx.Parallel.{ParApi, par_write_loop, par_write_array, error_limit}

-- A printer that gets what WriteFile says that it wrote, the first bytes of those given, and
-- nothing when the timeouts are set.
pub record Printer {Dev : Type 0} (api : ParApi Dev) (printed : Dev → List ℕ) : Type 0 where
  pub quiet : (d : Dev) → printed (api.set_timeouts d) ≡ printed d
  pub prints :
      (d : Dev) (bytes : List ℕ)
      → printed (api.write_file d bytes).2 ≡ printed d ++ take (api.write_file d bytes).1 bytes

-- All of the bytes were printed, or an exception was thrown.
abbrev Printed : {Dev : Type 0} → (Dev → List ℕ) → List ℕ → Dev → Bool × Dev → Type 0
Printed printed bytes dev (thrown, dev') = thrown ≡ false → printed dev' ≡ printed dev ++ bytes

nothing_left : (bytes : List ℕ) → (length bytes == 0) ≡ true → bytes ≡ []
nothing_left [] h = refl
nothing_left (b ∷ bytes) h = absurd (ground arith)

no_bytes : (done : Bool) (n : ℕ) → (not done && n == 0) ≡ true → n ≡ 0
no_bytes true n h = absurd cc
no_bytes false n h = ground arith

none_taken : (n : ℕ) (bytes : List ℕ) → n ≡ 0 → take n bytes ++ bytes ≡ bytes
none_taken zero bytes h = refl
none_taken (suc n) bytes h = absurd (omega arith)

module _ {Dev : Type 0} (api : ParApi Dev) (printed : Dev → List ℕ)
    (law : Printer api printed) where
  later :
      (bytes front rest : List ℕ) (dev dev' : Dev) (m : Option (Bool × Dev))
      → front ++ rest ≡ bytes
      → printed dev' ≡ printed dev ++ front
      → Ensures (Printed printed rest dev') m
      → Ensures (Printed printed bytes dev) m
  later bytes front rest dev dev' none e wrote h = tt
  later bytes front rest dev dev' (some (thrown, dev'')) e wrote h = λ calm.
      h calm
      ∙ ap (λ l. l ++ rest) wrote
      ∙ append_assoc (printed dev) front rest
      ∙ ap (λ l. printed dev ++ l) e

  par_write_loop-Printed :
      (fuel errors : ℕ) (bytes : List ℕ) (dev : Dev)
      → Ensures (Printed printed bytes dev) (par_write_loop api fuel errors bytes dev)
  unfolding par_write_loop
  par_write_loop-Printed zero errors bytes dev = tt
  par_write_loop-Printed (suc fuel) errors bytes dev =
      let (done, n, dev') = api.write_file dev bytes in
      let P = Ensures (Printed printed bytes dev) in
      let wrote = law.prints dev bytes in
      if_holds P (length bytes == 0) _ _
        (λ none_left e.
          sym (append_nil (printed dev))
          ∙ ap (λ l. printed dev ++ l) (sym (nothing_left bytes none_left)))
        (λ some_left.
          if_holds P (not done && n == 0) _ _
            (λ fails.
              if_holds P (ltb errors error_limit) _ _
                (λ again.
                  later bytes (take n bytes) bytes dev dev' _
                    (none_taken n bytes (no_bytes done n fails)) wrote
                    (par_write_loop-Printed fuel (errors + 1) bytes dev'))
                (λ enough e. absurd cc))
            (λ goes.
              later bytes (take n bytes) (drop n bytes) dev dev' _ (sym (append-take-drop n bytes))
                wrote (par_write_loop-Printed fuel 0 (drop n bytes) dev')))

  -- When writeArray ends without an exception, the printer has got all the bytes of that part of
  -- the array, in their order and once, however WriteFile split them and however often it failed in
  -- between. It needs a printer that gets what WriteFile says.
  pub par_write_array-printed :
      (fuel : ℕ) (body : List ℕ) (offset count : ℕ) (dev dev' : Dev)
      → par_write_array api fuel body offset count dev ≡ some (false, dev')
      → printed dev' ≡ printed dev ++ take count (drop offset body)
  unfolding par_write_array
  par_write_array-printed fuel body offset count dev dev' e =
      let bytes = take count (drop offset body) in
      let start = api.set_timeouts dev in
      Ensures-eq (Printed printed bytes start) (par_write_loop api fuel 0 bytes start) (false, dev')
        (par_write_loop-Printed fuel 0 bytes start) e refl
      ∙ ap (λ l. l ++ bytes) (law.quiet dev)
