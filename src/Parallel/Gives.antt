-- ===== src/Parallel/Gives.antt =====
-- How writeArray of src/ParallelImp.c ends, or does not, when the printer takes nothing.
use rxtx.Base.{
  ℕ, zero, suc, ◌+◌, ◌<◌, ◌==◌, ltb, ◌≡◌, refl, true, false, some, none, List, length, take, drop,
  arith,
}
use rxtx.Parallel.{ParApi, par_write_loop, par_write_array, error_limit}

module _ {Dev : Type 0} (api : ParApi Dev) where
  fails_on :
      (fuel errors left : ℕ) (bytes : List ℕ) (dev : Dev)
      → ((d : Dev) (l : List ℕ) → ((api.write_file d l).0 ≡ false) × ((api.write_file d l).1 ≡ 0))
      → (length bytes == 0) ≡ false
      → errors + left ≡ error_limit
      → left < fuel
      → (dev' : Dev) × (par_write_loop api fuel errors bytes dev ≡ some (true, dev'))
  unfolding par_write_loop
  fails_on zero errors left bytes dev always more sum enough = absurd (omega arith)
  fails_on (suc fuel) errors zero bytes dev always more sum enough =
      let (not_done, nothing) = always dev bytes in
      let limit : ltb errors error_limit ≡ false = ground arith in
      ((api.write_file dev bytes).2, rw (par_write_loop, more, not_done, nothing, limit) refl)
  fails_on (suc fuel) errors (suc left) bytes dev always more sum enough =
      let (not_done, nothing) = always dev bytes in
      let below : ltb errors error_limit ≡ true = ground arith in
      let (dev', run) =
        fails_on fuel (errors + 1) left bytes (api.write_file dev bytes).2 always more (omega arith)
          (omega arith) in
      (dev', rw (par_write_loop, more, not_done, nothing, below) run)

  -- A printer that refuses every write is given up: when WriteFile always fails with no bytes,
  -- writeArray of one or more bytes throws an exception, on any fuel above the 20 failures that are
  -- passed over.
  pub par_write_array-gives_up :
      (fuel : ℕ) (body : List ℕ) (offset count : ℕ) (dev : Dev)
      → ((d : Dev) (l : List ℕ) → ((api.write_file d l).0 ≡ false) × ((api.write_file d l).1 ≡ 0))
      → (length (take count (drop offset body)) == 0) ≡ false
      → error_limit < fuel
      → (dev' : Dev) × (par_write_array api fuel body offset count dev ≡ some (true, dev'))
  unfolding par_write_array
  par_write_array-gives_up fuel body offset count dev always more enough =
      fails_on fuel 0 error_limit (take count (drop offset body)) (api.set_timeouts dev) always more
        refl enough

  stays_on :
      (fuel errors : ℕ) (bytes : List ℕ) (dev : Dev)
      → ((d : Dev) (l : List ℕ) → ((api.write_file d l).0 ≡ true) × ((api.write_file d l).1 ≡ 0))
      → (length bytes == 0) ≡ false
      → par_write_loop api fuel errors bytes dev ≡ none
  unfolding par_write_loop
  stays_on zero errors bytes dev always more = refl
  stays_on (suc fuel) errors bytes dev always more =
      let (done, nothing) = always dev bytes in
      rw (par_write_loop, more, done, nothing)
        (stays_on fuel 0 bytes (api.write_file dev bytes).2 always more)

  -- A printer that takes nothing without an error is never given up: when WriteFile always succeeds
  -- with no bytes, writeArray of one or more bytes does not end, however long it runs.
  pub par_write_array-endless :
      (fuel : ℕ) (body : List ℕ) (offset count : ℕ) (dev : Dev)
      → ((d : Dev) (l : List ℕ) → ((api.write_file d l).0 ≡ true) × ((api.write_file d l).1 ≡ 0))
      → (length (take count (drop offset body)) == 0) ≡ false
      → par_write_array api fuel body offset count dev ≡ none
  unfolding par_write_array
  par_write_array-endless fuel body offset count dev always more =
      stays_on fuel 0 (take count (drop offset body)) (api.set_timeouts dev) always more
