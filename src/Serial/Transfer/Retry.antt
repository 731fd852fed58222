-- ===== src/Serial/Transfer/Retry.antt =====
-- The write and drain loops of src/SerialImp.c: they repeat an interrupted call and only that.
use rxtx.Base.{
  ℕ, zero, suc, ◌+◌, ◌<◌, ◌≤◌, ◌≡◌, ◌≢◌, refl, sym, ap, ◌∙◌, some, List, [], ◌∷◌, length, leb,
  arith, ◌⊎◌, inl, inr, false,
}
use rxtx.Serial.Transfer.{
  FileApi, Wrote, wrote, interrupted, failed, write_loop, write_array, write_byte, drain_tries,
}

-- A call that is interrupted k times in a row and then gives the result r.
abbrev pub Settles : {Dev : Type 0} → (Dev → Wrote × Dev) → ℕ → Dev → Wrote × Dev → Type 0
Settles call zero d r = ((call d).0 ≢ interrupted) × (call d ≡ r)
Settles call (suc k) d r = ((call d).0 ≡ interrupted) × Settles call k (call d).1 r

Wrote-cases : (w : Wrote) → (w ≡ interrupted) ⊎ ((w ≡ failed) ⊎ ((n : ℕ) × (w ≡ wrote n)))
Wrote-cases interrupted = inl refl
Wrote-cases failed = inr (inl refl)
Wrote-cases (wrote n) = inr (inr (n, refl))

module _ {Dev : Type 0} (api : FileApi Dev) where
  write_loop-Settles :
      (fuel k : ℕ) (bytes : List ℕ) (dev : Dev) (r : Wrote × Dev)
      → k < fuel
      → 0 < length bytes
      → Settles (λ d. api.write d bytes) k dev r
      → write_loop api fuel bytes 0 dev ≡ some r
  unfolding write_loop
  write_loop-Settles zero k bytes dev r enough more s = absurd (omega arith)
  write_loop-Settles (suc fuel) zero bytes dev r enough more (calm, e) =
      elim (Wrote-cases (api.write dev bytes).0) [
        | inl i ↦ absurd (calm i)
        | inr (inl i) ↦
            rw (write_loop, i) (ap (λ w. some (w, (api.write dev bytes).1)) (sym i) ∙ ap some e)
        | inr (inr (n, i)) ↦
            let none_before : 0 + n ≡ n = omega arith in
            rw (write_loop, i)
              (ap (λ w. some (w, (api.write dev bytes).1)) (ap wrote none_before ∙ sym i)
                ∙ ap some e)
      ]
  write_loop-Settles (suc fuel) (suc k) bytes dev r enough more (again, s) =
      let some_left : leb (length bytes) 0 ≡ false = ground arith in
      rw (write_loop, again, some_left)
        (write_loop-Settles fuel k bytes (api.write dev bytes).1 r (omega arith) more s)

  -- writeArray makes one write that counts: when write is interrupted k times, less than the fuel,
  -- and then answers r, writeArray of one or more bytes ends with r, also when r is a short write,
  -- whose rest is not sent.
  write_array-Settles :
      (fuel k : ℕ) (bytes : List ℕ) (dev : Dev) (r : Wrote × Dev)
      → k < fuel
      → 0 < length bytes
      → Settles (λ d. api.write d bytes) k dev r
      → write_array api fuel bytes dev ≡ some r
  unfolding write_array
  write_array-Settles fuel k bytes dev r enough more s =
      write_loop-Settles fuel k bytes dev r enough more s

  -- writeByte does what writeArray does with an array of that one byte, whatever the device answers
  -- and however often it interrupts.
  write_byte-write_array :
      (fuel b : ℕ) (dev : Dev) → write_byte api fuel b dev ≡ write_array api fuel (b ∷ []) dev
  unfolding write_array write_byte write_loop
  write_byte-write_array zero b dev = refl
  write_byte-write_array (suc fuel) b dev = elim (Wrote-cases (api.write dev (b ∷ [])).0) [
    | inl i ↦
        rw (write_byte, write_loop, i) (write_byte-write_array fuel b (api.write dev (b ∷ [])).1)
    | inr (inl i) ↦ rw (write_byte, write_loop, i) refl
    | inr (inr (n, i)) ↦
        let none_before : n ≡ 0 + n = omega arith in
        rw (write_byte, write_loop, i)
          (ap (λ m. some (wrote m, (api.write dev (b ∷ [])).1)) none_before)
  ]

  drain_tries-either :
      (tries k : ℕ) (dev : Dev) (r : Wrote × Dev)
      → Settles api.tcdrain k dev r
      → (k ≤ tries → drain_tries api tries dev ≡ r)
        × (tries < k → (drain_tries api tries dev).0 ≡ interrupted)
  unfolding drain_tries
  drain_tries-either zero zero dev r (calm, e) = (λ h. e, λ h. absurd (omega arith))
  drain_tries-either zero (suc k) dev r (again, s) = (λ h. absurd (omega arith), λ h. again)
  drain_tries-either (suc tries) zero dev r (calm, e) = elim (Wrote-cases (api.tcdrain dev).0) [
    | inl i ↦ absurd (calm i)
    | inr (inl i) ↦
        rw (drain_tries, i)
          (λ h. ap (λ w. (w, (api.tcdrain dev).1)) (sym i) ∙ e, λ h. absurd (omega arith))
    | inr (inr (n, i)) ↦
        rw (drain_tries, i)
          (λ h. ap (λ w. (w, (api.tcdrain dev).1)) (sym i) ∙ e, λ h. absurd (omega arith))
  ]
  drain_tries-either (suc tries) (suc k) dev r (again, s) =
      let (met, late) = drain_tries-either tries k (api.tcdrain dev).1 r s in
      rw (drain_tries, again) (λ h. met (omega arith), λ h. late (omega arith))

  -- nativeDrain ends with the first answer of tcdrain that is no interruption, when no more
  -- interruptions come before it than there are further tries, of which nativeDrain has two.
  drain_tries-Settles :
      (tries k : ℕ) (dev : Dev) (r : Wrote × Dev)
      → k ≤ tries
      → Settles api.tcdrain k dev r
      → drain_tries api tries dev ≡ r
  drain_tries-Settles tries k dev r met s = (drain_tries-either tries k dev r s).0 met

  -- With more interruptions than further tries nativeDrain ends interrupted.
  drain_tries-busy :
      (tries k : ℕ) (dev : Dev) (r : Wrote × Dev)
      → tries < k
      → Settles api.tcdrain k dev r
      → (drain_tries api tries dev).0 ≡ interrupted
  drain_tries-busy tries k dev r late s = (drain_tries-either tries k dev r s).1 late
