-- ===== src/Termios/Ioctl/Status.antt =====
-- TIOCSERGETLSR of src/termios.c: the report that the output is empty.
use rxtx.Base.{
  ℕ, ◌≡◌, Option-cases, Bool-cases, inl, inr, ◌==◌, ◌&&◌, arith, ◌∙◌, ap, ◌⊎◌, sym, subst,
}
use rxtx.Base.Int.{pos, minus_one}
use rxtx.Termios.State.{Port}
use rxtx.Termios.Comm.{CommApi}
use rxtx.Termios.Ioctl.Lines.{clear_errors-msr}
use rxtx.Termios.Ioctl.{Arg, tiocsergetlsr, clear_errors, get_lsr, serve, ioctl_port}

-- tx_happened before, the value reported, and tx_happened after: either the value 1 uses up a
-- transmission, or the value is 0.
abbrev pub Outcome : ℕ → ℕ → ℕ → Type 0
Outcome before value after =
    ((before ≡ 1) × (value ≡ 1) × (after ≡ 0)) ⊎ ((value ≡ 0) × (after ≡ before))

module _ {Dev : Type 0} (api : CommApi Dev) where
  get_lsr-Outcome :
      (a : Arg) (p : Port) (dev : Dev)
      → (get_lsr api a p dev).0 ≡ pos 0
      → Outcome p.tx_happened (get_lsr api a p dev).1.value (get_lsr api a p dev).2.tx_happened
  unfolding get_lsr
  get_lsr-Outcome a p dev done =
      let q = (clear_errors api p dev).1 in
      let same = (clear_errors-msr api p dev).1 in
      elim (Option-cases (clear_errors api p dev).0) [
        | inl e ↦ let fails : (get_lsr api a p dev).0 ≡ minus_one = rw (get_lsr, e) in absurd cc
        | inr (s, e) ↦ elim (Bool-cases (s.cb_out_que == 0 && q.tx_happened == 1)) [
          | inl sent ↦ inl (ground arith, rw (get_lsr, e, sent), rw (get_lsr, e, sent))
          | inr busy ↦ inr (rw (get_lsr, e, busy), rw (get_lsr, e, busy) same)
        ]
      ]

  -- Every successful TIOCSERGETLSR either reports 1 and takes back tx_happened from 1 to 0, or
  -- reports 0 and leaves tx_happened as it was.
  pub lsr-Outcome :
      (a : Arg) (p : Port) (dev : Dev)
      → (ioctl_port api tiocsergetlsr a p dev).0 ≡ pos 0
      → Outcome p.tx_happened
          (ioctl_port api tiocsergetlsr a p dev).1.value
          (ioctl_port api tiocsergetlsr a p dev).2.tx_happened
  unfolding ioctl_port serve
  lsr-Outcome a p dev done =
      let (stat, q, dev') = clear_errors api p dev in
      let same = (clear_errors-msr api p dev).1 in
      elim (Option-cases stat) [
        | inl e ↦
            let fails : (ioctl_port api tiocsergetlsr a p dev).0 ≡ minus_one = rw (ioctl_port, e) in
            absurd cc
        | inr (s, e) ↦
            let run : ioctl_port api tiocsergetlsr a p dev ≡ get_lsr api a q dev' =
              rw (ioctl_port, e) in
            let outcome = get_lsr-Outcome a q dev' (ap (λ r. r.0) (sym run) ∙ done) in
            rw run (
              subst
                (λ n. Outcome n (get_lsr api a q dev').1.value (get_lsr api a q dev').2.tx_happened)
                same outcome)
      ]

  -- The empty output is reported once: after a successful TIOCSERGETLSR reported 1, the next
  -- successful one on the port that the first left reports 0, on any state of the devices.
  lsr_once :
      (a b : Arg) (p : Port) (dev dev2 : Dev)
      → let (r, a', q, dev') = ioctl_port api tiocsergetlsr a p dev in
        let (r2, b', q2, dev2') = ioctl_port api tiocsergetlsr b q dev2 in
        r ≡ pos 0 → a'.value ≡ 1 → r2 ≡ pos 0 → b'.value ≡ 0
  lsr_once a b p dev dev2 done one done2 =
      let first = lsr-Outcome a p dev done in
      let q = (ioctl_port api tiocsergetlsr a p dev).2 in
      let second = lsr-Outcome b q dev2 done2 in ground arith
