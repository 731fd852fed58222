-- ===== src/Parallel/Read.antt =====
-- What read_byte_array of src/ParallelImp.c reads.
use rxtx.Termios.Ports.{find_port}
use rxtx.Termios.Transfer.{serial_select}
use rxtx.Termios.Io.{IoApi}
use rxtx.Termios.Comm.{CommApi, Sys}
use rxtx.Base.{
  ℕ, zero, suc, length-append, ap, ◌≤◌, ◌≡◌, refl, ◌∙◌, sym, true, false, Option, some, List, [],
  ◌++◌, length, arith, append_nil, if_holds, ◌-◌, append_assoc, ◌==◌, ◌||◌, not, ltb, Option-cases,
  inl, inr, ◌∷◌, none,
}
use rxtx.Base.Int.{ℤ, is_nonpos}
use rxtx.Parallel.{ParApi, par_wait, below_one_ms, par_read_loop, par_read_byte_array}

-- A device whose reads take bytes from the front of those that are pending, no more than were asked
-- for.
pub record Source {Lpt : Type 0} (api : ParApi Lpt) (pending : Lpt → List ℕ) : Type 0 where
  pub gives :
      (d : Lpt) (n : ℕ) (bytes : List ℕ)
      → (api.read_file d n).0 ≡ some bytes
      → (pending d ≡ bytes ++ pending (api.read_file d n).1) × (length bytes ≤ n)

module _ {Dev Lpt : Type 0} (comm : CommApi Dev) (io : IoApi Dev) (api : ParApi Lpt)
    (pending : Lpt → List ℕ) (law : Source api pending) where
  -- The result has the bytes that left the device behind those that had come.
  abbrev pub Got : ℕ → List ℕ → Lpt → Option (List ℕ) × Lpt × Sys Dev → Type 0
  Got left got dev (ret, dev', sys') =
      (bytes : List ℕ)
      → ret ≡ some bytes
      → (more : List ℕ) × (bytes ≡ got ++ more)
        × (pending dev ≡ more ++ pending dev')
        × (length more ≤ left)

  enough :
      (left : ℕ) (got : List ℕ) (dev dev' : Lpt) (sys : Sys Dev)
      → pending dev ≡ pending dev'
      → Got left got dev (some got, dev', sys)
  enough left got dev dev' sys same bytes e =
      let now : got ≡ bytes = cc in ([], sym now ∙ sym (append_nil got), same, omega arith)

  goes_on :
      (left : ℕ) (got : List ℕ) (dev dev' : Lpt) (bytes : List ℕ)
      (r : Option (List ℕ) × Lpt × Sys Dev)
      → pending dev ≡ bytes ++ pending dev'
      → length bytes ≤ left
      → Got (left - length bytes) (got ++ bytes) dev' r
      → Got left got dev r
  goes_on left got dev dev' bytes r taken fits h all e =
      let (more, is_all, front, few) = h all e in
      (
        bytes ++ more,
        is_all ∙ append_assoc got bytes more,
        taken ∙ ap (λ l. bytes ++ l) front ∙ sym (append_assoc bytes more _),
        (rw (length-append bytes more) (omega arith)),
      )

  par_read_loop-Got :
      (fd : ℤ) (rounds left threshold : ℕ) (timeout : ℤ) (got : List ℕ) (dev : Lpt) (sys : Sys Dev)
      → Got left got dev (par_read_loop comm io api fd rounds left threshold timeout got dev sys)
  unfolding par_read_loop
  par_read_loop-Got fd zero left threshold timeout got dev sys = enough left got dev dev sys refl
  par_read_loop-Got fd (suc rounds) left threshold timeout got dev sys =
      let (go, sys') = par_wait comm io fd timeout sys in
      let dev' = (api.read_file dev left).1 in
      let P = Got left got dev in
      if_holds P (left == 0 || not (ltb (length got) threshold)) _ _
        (λ done. enough left got dev dev sys refl)
        (λ more.
          if_holds P (not go) _ _ (λ out. enough left got dev dev sys' refl)
            (λ ready. elim (Option-cases (api.read_file dev left).0) [
              | inl r ↦ rw r (λ bytes e. absurd cc)
              | inr ([], r) ↦ rw r (enough left got dev dev' sys' (law.gives dev left [] r).0)
              | inr (b ∷ bytes, r) ↦
                  let (taken, fits) = law.gives dev left (b ∷ bytes) r in
                  let later =
                    par_read_loop comm io api fd rounds (left - length (b ∷ bytes)) threshold
                      timeout (got ++ (b ∷ bytes)) dev' sys' in
                  rw r (
                    goes_on left got dev dev' (b ∷ bytes) later taken fits (
                      par_read_loop-Got fd rounds (left - length (b ∷ bytes)) threshold timeout
                        (got ++ (b ∷ bytes)) dev' sys'))
            ]))

  -- The bytes that read_byte_array returns are the first of those that were pending, in their order,
  -- at most as many as were asked for, and those behind them are still pending. It needs a device
  -- whose reads take from the front.
  pub par_read_byte_array-in_order :
      (fd : ℤ) (n threshold : ℕ) (timeout : ℤ) (dev : Lpt) (sys : Sys Dev) (bytes : List ℕ)
      → (par_read_byte_array comm io api fd n threshold timeout dev sys).0 ≡ some bytes
      → (pending dev
          ≡ bytes ++ pending (par_read_byte_array comm io api fd n threshold timeout dev sys).1)
        × (length bytes ≤ n)
  unfolding par_read_byte_array
  par_read_byte_array-in_order fd n threshold timeout dev sys bytes e =
      let (more, all, front, fits) =
        par_read_loop-Got fd n n threshold timeout [] dev sys bytes e in
      (rw all front, rw all fits)

  -- With a positive timeout nothing is read from a port whose fd no serial port has: serial_select
  -- does not find it and answers 0.
  par_read_byte_array-unlisted :
      (fd : ℤ) (n threshold : ℕ) (timeout : ℤ) (dev : Lpt) (sys : Sys Dev)
      → is_nonpos fd ≡ false
      → find_port fd sys.ports ≡ none
      → below_one_ms timeout ≡ false
      → par_read_byte_array comm io api fd (suc n) (suc threshold) timeout dev sys
        ≡ (some [], dev, sys)
  unfolding par_read_byte_array par_read_loop par_wait serial_select
  par_read_byte_array-unlisted fd n threshold timeout dev sys above missing waits =
      let some_left : (suc n == 0) ≡ false = ground arith in
      let below : ltb 0 (suc threshold) ≡ true = ground arith in
      rw (par_read_loop, some_left, below, par_wait, waits, serial_select, above, missing) refl
