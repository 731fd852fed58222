-- ===== src/Termios/Transfer/Input.antt =====
-- The input at the handles of src/termios.c, and that the waits of serial_read take none of it.
use rxtx.Base.{
  ℕ, zero, suc, ◌+◌, ◌≤◌, ◌≡◌, ◌∙◌, ltb, ◌&&◌, Option, some, none, List, ◌++◌, length, Bool-cases,
  Option-cases, inl, inr, Bool, Ensures, get_or, Ensures->>=,
}
use rxtx.Termios.Flags.{has, o_nonblock, vtime}
use rxtx.Termios.State.{Handle, Port}
use rxtx.Termios.Comm.{CommApi}
use rxtx.Termios.Ioctl.{clear_errors}
use rxtx.Termios.Ioctl.Frame.{SamePort, SamePort-trans, clear_errors-SamePort}
use rxtx.Termios.Io.{
  read_done, more_data, broken_pipe, read_pending, complete, incomplete, broken, IoApi, IoEvent,
}
use rxtx.Termios.Transfer.{timed_out, in_queue, wait_queue, wait_clock, wait_input}

-- The input that waits at each handle: ReadFile, or GetOverlappedResult for a pending ReadFile,
-- takes bytes from its front, no more than were asked for; what fails, and every other call, takes
-- none.
pub record Input {Dev : Type 0} (api : CommApi Dev) (io : IoApi Dev) (input : Dev → Handle → List ℕ)
    : Type 0 where
  pub errors_keep : (d : Dev) (g h : Handle) → input (api.clear_comm_error d g).1 h ≡ input d h
  pub reset_keeps :
      (d : Dev) (g h : Handle) (e : IoEvent) → input (io.reset_event d g e) h ≡ input d h
  pub tick_keeps : (d : Dev) (h : Handle) → input (io.get_tick_count d).1 h ≡ input d h
  pub clock_keeps : (d : Dev) (h : Handle) → input (io.clock d).1 h ≡ input d h
  pub done_gives :
      (d : Dev) (h : Handle) (n : ℕ) (bytes : List ℕ)
      → (io.read_file d h n).0 ≡ read_done bytes
      → (input d h ≡ bytes ++ input (io.read_file d h n).1 h) × (length bytes ≤ n)
  pub more_gives :
      (d : Dev) (h : Handle) (n : ℕ) (bytes : List ℕ)
      → (io.read_file d h n).0 ≡ more_data bytes
      → (input d h ≡ bytes ++ input (io.read_file d h n).1 h) × (length bytes ≤ n)
  pub broken_gives :
      (d : Dev) (h : Handle) (n : ℕ) (bytes : List ℕ)
      → (io.read_file d h n).0 ≡ broken_pipe bytes
      → (input d h ≡ bytes ++ input (io.read_file d h n).1 h) × (length bytes ≤ n)
  pub pending_keeps :
      (d : Dev) (h : Handle) (n : ℕ)
      → (io.read_file d h n).0 ≡ read_pending
      → input (io.read_file d h n).1 h ≡ input d h
  pub complete_gives :
      (d : Dev) (h : Handle) (n : ℕ) (bytes : List ℕ)
      → (io.read_result d h n).0 ≡ complete bytes
      → (input d h ≡ bytes ++ input (io.read_result d h n).1 h) × (length bytes ≤ n)
  pub incomplete_keeps :
      (d : Dev) (h : Handle) (n : ℕ)
      → (io.read_result d h n).0 ≡ incomplete
      → input (io.read_result d h n).1 h ≡ input d h
  pub result_keeps :
      (d : Dev) (h : Handle) (n : ℕ)
      → (io.read_result d h n).0 ≡ broken
      → input (io.read_result d h n).1 h ≡ input d h

module _ {Dev : Type 0} (api : CommApi Dev) (io : IoApi Dev) (input : Dev → Handle → List ℕ)
    (law : Input api io input) where
  -- A step that leaves the port's fd and handle, and the input of the handle `h`.
  abbrev pub Still : Handle → Port → Dev → Port → Dev → Type 0
  Still h p dev p' dev' = SamePort p p' × (input dev' h ≡ input dev h)

  pub clear_errors-input :
      (p : Port) (dev : Dev) (h : Handle) → input (clear_errors api p dev).2 h ≡ input dev h
  unfolding clear_errors
  clear_errors-input p dev h = elim (Option-cases (api.clear_comm_error dev p.hcomm).0) [
    | inl e ↦ rw (clear_errors, e) (law.errors_keep dev p.hcomm h)
    | inr (s, e) ↦ rw (clear_errors, e) (law.errors_keep dev p.hcomm h)
  ]

  -- The same about a wait.
  abbrev pub Waited : Handle → Port → Dev → Bool × Port × Dev → Type 0
  Waited h p dev (ready, p', dev') = Still h p dev p' dev'

  Waited-trans :
      (h : Handle) (p q : Port) (dev dev' : Dev)
      → Still h p dev q dev'
      → (r : Option (Bool × Port × Dev)) → Ensures (Waited h q dev') r
      → Ensures (Waited h p dev) r
  Waited-trans h p q dev dev' s none w = tt
  Waited-trans h p q dev dev' (same, kept) (some r) (same', kept') =
      (SamePort-trans same same', kept' ∙ kept)

  wait_queue-Waited :
      (h : Handle) (fuel start size stack : ℕ) (p : Port) (dev : Dev)
      → Ensures (Waited h p dev) (wait_queue api io fuel start size stack p dev)
  unfolding wait_queue
  wait_queue-Waited h zero start size stack p dev = tt
  wait_queue-Waited h (suc fuel) start size stack p dev =
      let (stat, q, dev1) = clear_errors api p dev in
      let (now, dev2) = io.get_tick_count dev1 in
      let waiting = in_queue stack stat in
      let here : Still h p dev q dev2 =
        (clear_errors-SamePort api p dev, law.tick_keeps dev1 h ∙ clear_errors-input p dev h) in
      elim (Bool-cases (timed_out q start now)) [
        | inl late ↦ rw late here
        | inr early ↦ elim (Bool-cases (ltb waiting size && ltb 1 size)) [
          | inl w ↦
              let rest = wait_queue-Waited h fuel start size waiting q dev2 in
              rw (early, w)
                (Waited-trans h p q dev dev2 here (wait_queue api io fuel start size waiting q dev2)
                  rest)
          | inr r ↦ rw (early, r) here
        ]
      ]

  -- The same about the wait for the clock, which says nothing about a result.
  abbrev Passed : Handle → Port → Dev → Port × Dev → Type 0
  Passed h p dev (p', dev') = Still h p dev p' dev'

  Passed-trans :
      (h : Handle) (p q : Port) (dev dev' : Dev)
      → Still h p dev q dev'
      → (r : Option (Port × Dev)) → Ensures (Passed h q dev') r
      → Ensures (Passed h p dev) r
  Passed-trans h p q dev dev' s none w = tt
  Passed-trans h p q dev dev' (same, kept) (some r) (same', kept') =
      (SamePort-trans same same', kept' ∙ kept)

  wait_clock-Passed :
      (h : Handle) (fuel end : ℕ) (p : Port) (dev : Dev)
      → Ensures (Passed h p dev) (wait_clock api io fuel end p dev)
  unfolding wait_clock
  wait_clock-Passed h zero end p dev = tt
  wait_clock-Passed h (suc fuel) end p dev =
      let (stat, q, dev1) = clear_errors api p dev in
      let (now, dev2) = io.clock dev1 in
      let here : Still h p dev q dev2 =
        (clear_errors-SamePort api p dev, law.clock_keeps dev1 h ∙ clear_errors-input p dev h) in
      elim (Bool-cases (ltb now end)) [
        | inl early ↦ rw early (
            Passed-trans h p q dev dev2 here (wait_clock api io fuel end q dev2)
              (wait_clock-Passed h fuel end q dev2))
        | inr over ↦ rw over here
      ]

  pub wait_input-Waited :
      (h : Handle) (fuel start size stack : ℕ) (p : Port) (dev : Dev)
      → Ensures (Waited h p dev) (wait_input api io fuel start size stack p dev)
  unfolding wait_input
  wait_input-Waited h fuel start size stack p dev =
      elim (Bool-cases (has p.open_flags o_nonblock)) [
        | inl on ↦ rw (wait_input, on) (wait_queue-Waited h fuel start size stack p dev)
        | inr off ↦
            let (now, dev') = io.clock dev in
            let wait = wait_clock api io fuel (now + get_or p.ttyset.c_cc vtime 0) p dev' in
            rw (wait_input, off)
              (Ensures->>= (Passed h p dev') (Waited h p dev) wait _
                (wait_clock-Passed h fuel (now + get_or p.ttyset.c_cc vtime 0) p dev')
                (λ (q, dev'') (same, kept). (same, kept ∙ law.clock_keeps dev h)))
      ]
