-- ===== src/Termios/Transfer/Rounds.antt =====
-- The rounds of serial_read of src/termios.c take the input of a handle in its order, and no more
-- than was asked for.
use rxtx.Base.{
  ℕ, zero, suc, ◌+◌, ◌≤◌, ◌≡◌, refl, ◌∙◌, sym, ap, ltb, Option, some, none, List, [], ◌++◌, length,
  Bool-cases, inl, inr, arith, ◌⊎◌, Ensures, Ensures->>=, append_assoc, ◌-◌, length-append, ◌==◌,
}
use rxtx.Termios.State.{Handle, Port}
use rxtx.Termios.Comm.{CommApi}
use rxtx.Termios.Ioctl.Frame.{SamePort, clear_errors-SamePort, keeps}
use rxtx.Termios.Io.{
  read_done, more_data, broken_pipe, read_pending, Overlapped, complete, incomplete, broken, IoApi,
  ReadFile, read_failed, read_event,
}
use rxtx.Termios.Transfer.{
  Next, go_on, stop, stop_errors, give_up, timed_out, await_read, after_await, read_step,
  read_rounds, end_round,
}
use rxtx.Termios.Transfer.Input.{Input, clear_errors-input}

pub Overlapped-cases :
    {A : Type 0} (o : Overlapped A)
    → ((a : A) × (o ≡ complete a)) ⊎ ((o ≡ incomplete) ⊎ (o ≡ broken))
Overlapped-cases (complete a) = inl (a, refl)
Overlapped-cases incomplete = inr (inl refl)
Overlapped-cases broken = inr (inr refl)

pub ReadFile-cases :
    (r : ReadFile)
    → ((bytes : List ℕ) × (r ≡ read_done bytes))
      ⊎ (((bytes : List ℕ) × (r ≡ more_data bytes))
          ⊎ (((bytes : List ℕ) × (r ≡ broken_pipe bytes))
              ⊎ ((r ≡ read_pending) ⊎ (r ≡ read_failed))))
ReadFile-cases (read_done bytes) = inl (bytes, refl)
ReadFile-cases (more_data bytes) = inr (inl (bytes, refl))
ReadFile-cases (broken_pipe bytes) = inr (inr (inl (bytes, refl)))
ReadFile-cases read_pending = inr (inr (inr (inl refl)))
ReadFile-cases read_failed = inr (inr (inr (inr refl)))

module _ {Dev : Type 0} (api : CommApi Dev) (io : IoApi Dev) (input : Dev → Handle → List ℕ)
    (law : Input api io input) where
  -- The bytes are the first of the input of the handle, no more than `size`.
  abbrev Took : Handle → ℕ → Dev → List ℕ → Dev → Type 0
  Took h size dev bytes dev' = (input dev h ≡ bytes ++ input dev' h) × (length bytes ≤ size)

  Took-none :
      (h : Handle) (size : ℕ) (dev dev' : Dev)
      → input dev' h ≡ input dev h
      → Took h size dev [] dev'
  Took-none h size dev dev' same = (sym same, omega arith)

  abbrev Awaited : Handle → ℕ → Dev → Option (List ℕ) × Dev → Type 0
  Awaited h size dev (none, dev') = input dev' h ≡ input dev h
  Awaited h size dev (some bytes, dev') = Took h size dev bytes dev'

  Awaited-after :
      (h : Handle) (size : ℕ) (dev dev' : Dev)
      → input dev' h ≡ input dev h
      → (r : Option (List ℕ) × Dev) → Awaited h size dev' r
      → Awaited h size dev r
  Awaited-after h size dev dev' same (none, dev'') a = a ∙ same
  Awaited-after h size dev dev' same (some bytes, dev'') (order, fits) = (sym same ∙ order, fits)

  Ensures-after :
      (h : Handle) (size : ℕ) (dev dev' : Dev)
      → input dev' h ≡ input dev h
      → (r : Option (Option (List ℕ) × Dev)) → Ensures (Awaited h size dev') r
      → Ensures (Awaited h size dev) r
  Ensures-after h size dev dev' same none a = tt
  Ensures-after h size dev dev' same (some r) a = Awaited-after h size dev dev' same r a

  await_read-Awaited :
      (fuel size : ℕ) (p : Port) (dev : Dev)
      → Ensures (Awaited p.hcomm size dev) (await_read api io fuel size p dev)
  unfolding await_read
  await_read-Awaited zero size p dev = tt
  await_read-Awaited (suc fuel) size p dev =
      let (ret, dev') = io.read_result dev p.hcomm size in
      elim (Overlapped-cases ret) [
        | inl (bytes, e) ↦ rw (Ensures, await_read, e) (law.complete_gives dev p.hcomm size bytes e)
        | inr (inl e) ↦
            rw (Ensures, await_read, e)
              (Ensures-after p.hcomm size dev dev' (law.incomplete_keeps dev p.hcomm size e)
                (await_read api io fuel size p dev') (await_read-Awaited fuel size p dev'))
        | inr (inr e) ↦ rw (Ensures, await_read, e) (law.result_keeps dev p.hcomm size e)
      ]

  -- What a round took, whatever follows it.
  abbrev Stepped : Handle → ℕ → Dev → Next × List ℕ × Dev → Type 0
  Stepped h size dev (next, bytes, dev') = Took h size dev bytes dev'

  after_await-Stepped :
      (h : Handle) (start size : ℕ) (p : Port) (dev : Dev) (r : Option (List ℕ) × Dev)
      → Awaited h size dev r
      → Stepped h size dev (after_await api io start size p r)
  unfolding after_await
  after_await-Stepped h start size p dev (none, dev') a = Took-none h size dev dev' a
  after_await-Stepped h start size p dev (some bytes, dev') (order, fits) =
      let ticked = λ (b : List ℕ). ap (λ l. b ++ l) (sym (law.tick_keeps dev' h)) in
      let (now, dev'') = io.get_tick_count dev' in
      elim (Bool-cases (ltb (length bytes) size)) [
        | inr all ↦ rw all (order, fits)
        | inl short ↦ elim (Bool-cases (timed_out p start now)) [
          | inl late ↦ rw (short, late) (order ∙ ticked bytes, fits)
          | inr early ↦ rw (short, early) (order ∙ ticked bytes, fits)
        ]
      ]

  -- A failed ReadFile has no bytes to speak of.
  abbrev Round : Handle → ℕ → Dev → Next × List ℕ × Dev → Type 0
  Round h size dev (give_up, bytes, dev') = Unit
  Round h size dev (next, bytes, dev') = Took h size dev bytes dev'

  Stepped-Round :
      (h : Handle) (size : ℕ) (dev : Dev) (r : Next × List ℕ × Dev)
      → Stepped h size dev r
      → Round h size dev r
  Stepped-Round h size dev (go_on, bytes, dev') t = t
  Stepped-Round h size dev (stop, bytes, dev') t = t
  Stepped-Round h size dev (stop_errors, bytes, dev') t = t
  Stepped-Round h size dev (give_up, bytes, dev') t = tt

  read_step-Round :
      (fuel start size : ℕ) (p : Port) (dev : Dev)
      → Ensures (Round p.hcomm size dev) (read_step api io fuel start size p dev)
  unfolding read_step
  read_step-Round fuel start size p dev =
      let h = p.hcomm in
      let dev1 = io.reset_event dev h read_event in
      let (ret, dev2) = io.read_file dev1 h size in
      let same = law.reset_keeps dev h h read_event in
      elim (ReadFile-cases ret) [
        | inl (bytes, e) ↦
            let (order, fits) = law.done_gives dev1 h size bytes e in
            rw (Ensures, read_step, e) (sym same ∙ order, fits)
        | inr (inl (bytes, e)) ↦
            let (order, fits) = law.more_gives dev1 h size bytes e in
            rw (Ensures, read_step, e) (sym same ∙ order, fits)
        | inr (inr (inl (bytes, e))) ↦
            let (order, fits) = law.broken_gives dev1 h size bytes e in
            rw (Ensures, read_step, e) (sym same ∙ order, fits)
        | inr (inr (inr (inl e))) ↦
            let kept = law.pending_keeps dev1 h size e ∙ same in
            rw (read_step, e)
              (Ensures->>= (Awaited h size dev2) (Round h size dev)
                (await_read api io fuel size p dev2) _ (await_read-Awaited fuel size p dev2)
                (λ r a. Stepped-Round h size dev (after_await api io start size p r) (
                  after_await-Stepped h start size p dev r
                    (Awaited-after h size dev dev2 kept r a))))
        | inr (inr (inr (inr e))) ↦ rw (Ensures, read_step, e) tt
      ]

  -- The bytes so far, and then the input, stay one sequence.
  abbrev pub Looped : Port → ℕ → List ℕ → Dev → Option (List ℕ) × Port × Dev → Type 0
  Looped p size got dev (none, p', dev') = SamePort p p'
  Looped p size got dev (some bytes, p', dev') =
      SamePort p p'
      × (got ++ input dev p.hcomm ≡ bytes ++ input dev' p.hcomm)
      × (length bytes ≤ length got + size)

  joins :
      (h : Handle) (size : ℕ) (got bytes : List ℕ) (dev dev' : Dev)
      → Took h size dev bytes dev'
      → (got ++ input dev h ≡ (got ++ bytes) ++ input dev' h)
        × (length (got ++ bytes) ≤ length got + size)
  joins h size got bytes dev dev' (order, fits) = (
    ap (λ l. got ++ l) order ∙ sym (append_assoc got bytes (input dev' h)),
    omega (arith, length-append got bytes),
  )

  Looped-after :
      (p : Port) (size : ℕ) (got bytes : List ℕ) (dev dev' : Dev)
      → Took p.hcomm size dev bytes dev'
      → (r : Option (Option (List ℕ) × Port × Dev))
      → Ensures (Looped p (size - length bytes) (got ++ bytes) dev') r
      → Ensures (Looped p size got dev) r
  Looped-after p size got bytes dev dev' took none l = tt
  Looped-after p size got bytes dev dev' took (some (none, p', dev'')) l = l
  Looped-after p size got bytes dev dev' (order, fits) (some (some all, p', dev''))
        (same, seq, short) =
      let (order', fits') = joins p.hcomm size got bytes dev dev' (order, fits) in
      (same, order' ∙ seq, omega (arith, length-append got bytes))

  -- What the loop does after a round.
  after-Round :
      (fuel start size : ℕ) (got : List ℕ) (p : Port) (dev : Dev) (r : Next × List ℕ × Dev)
      → ((n : ℕ) (got' : List ℕ) (dev' : Dev)
          → Ensures (Looped p n got' dev') (read_rounds api io fuel start n got' p dev'))
      → Round p.hcomm size dev r
      → Ensures (Looped p size got dev) (
          end_round api io
            (λ bytes dev'.
              read_rounds api io fuel start (size - length bytes) (got ++ bytes) p dev')
            got
            p
            r)
  unfolding end_round
  after-Round fuel start size got p dev (go_on, bytes, dev') again took =
      Looped-after p size got bytes dev dev' took _
        (again (size - length bytes) (got ++ bytes) dev')
  after-Round fuel start size got p dev (stop, bytes, dev') again took =
      let (order, fits) = joins p.hcomm size got bytes dev dev' took in (keeps p, order, fits)
  after-Round fuel start size got p dev (stop_errors, bytes, dev') again took =
      let (order, fits) = joins p.hcomm size got bytes dev dev' took in
      let kept = clear_errors-input api io input law p dev' p.hcomm in
      (clear_errors-SamePort api p dev', order ∙ ap (λ l. (got ++ bytes) ++ l) (sym kept), fits)
  after-Round fuel start size got p dev (give_up, bytes, dev') again took = keeps p

  pub read_rounds-Looped :
      (fuel start size : ℕ) (got : List ℕ) (p : Port) (dev : Dev)
      → Ensures (Looped p size got dev) (read_rounds api io fuel start size got p dev)
  unfolding read_rounds
  read_rounds-Looped zero start size got p dev = tt
  read_rounds-Looped (suc fuel) start size got p dev = elim (Bool-cases (size == 0)) [
    | inl empty ↦ rw empty (keeps p, refl, omega arith)
    | inr more ↦ rw more (
        Ensures->>= (Round p.hcomm size dev) (Looped p size got dev)
          (read_step api io fuel start size p dev) _ (read_step-Round fuel start size p dev)
          (λ r round.
            after-Round fuel start size got p dev r
              (λ n got' dev'. read_rounds-Looped fuel start n got' p dev') round))
  ]
