-- ===== src/Termios/Transfer/Order.antt =====
-- serial_read of src/termios.c delivers what waits at an fd in its order, and no more than was asked
-- for.
use rxtx.Termios.Ports.Update.{find_port-update_from}
use rxtx.Termios.Ports.{find_port, update_from}
use rxtx.Base.Int.{ℤ, pos, negsuc}
use rxtx.Base.{
  ℕ, zero, suc, ◌≤◌, ◌≡◌, refl, ◌∙◌, sym, ap, Option, some, none, List, [], ◌++◌, length,
  Bool-cases, inl, inr, arith, Ensures, Ensures->>=, subst, Option-cases, Ensures-eq,
}
use rxtx.Termios.State.{Handle, Port}
use rxtx.Termios.Comm.{CommApi, Sys}
use rxtx.Termios.Ioctl.Frame.{SamePort, SamePort-trans}
use rxtx.Termios.Io.{IoApi}
use rxtx.Termios.Transfer.{wait_input, read_rounds, read_port, serial_read}
use rxtx.Termios.Transfer.Input.{Input, wait_input-Waited, Waited}
use rxtx.Termios.Transfer.Rounds.{Looped, read_rounds-Looped}

module _ {Dev : Type 0} (api : CommApi Dev) (io : IoApi Dev) (input : Dev → Handle → List ℕ)
    (law : Input api io input) where
  from_wait :
      (p q : Port) (size : ℕ) (dev dev' : Dev)
      → SamePort p q
      → input dev' p.hcomm ≡ input dev p.hcomm
      → (r : Option (Option (List ℕ) × Port × Dev))
      → Ensures (Looped api io input law q size [] dev') r
      → Ensures (Looped api io input law p size [] dev) r
  from_wait p q size dev dev' same kept none l = tt
  from_wait p q size dev dev' same kept (some (none, p', dev'')) l = SamePort-trans same l
  from_wait p q size dev dev' same kept (some (some bytes, p', dev'')) (same', seq, short) = (
    SamePort-trans same same',
    sym kept ∙ subst (λ h. input dev' h ≡ bytes ++ input dev'' h) same.same_hcomm seq,
    short,
  )

  read_port-Looped :
      (fuel start size stack : ℕ) (p : Port) (dev : Dev)
      → Ensures
          (Looped api io input law p size [] dev)
          (read_port api io fuel start size stack p dev)
  unfolding read_port
  read_port-Looped fuel start size stack p dev =
      Ensures->>= (Waited api io input law p.hcomm p dev) (Looped api io input law p size [] dev)
        (wait_input api io fuel start size stack p dev) _
        (wait_input-Waited api io input law p.hcomm fuel start size stack p dev)
        (λ (ready, q, dev') (same, kept). elim (Bool-cases ready) [
          | inl go ↦ rw go (
              from_wait p q size dev dev' same kept (read_rounds api io fuel start size [] q dev')
                (read_rounds-Looped api io input law fuel start size [] q dev'))
          | inr late ↦ rw late (same, sym kept, omega arith)
        ])

  -- The input that waits at an fd, none without a port.
  abbrev pub waiting : ℤ → Sys Dev → List ℕ
  waiting fd sys = elim (find_port fd sys.ports) [ none ↦ [] | some p ↦ input sys.dev p.hcomm ]

  -- The bytes that a call gave are the first that waited, no more than `size`, and what waits next
  -- follows them.
  abbrev pub Gave : ℤ → ℕ → Sys Dev → Option (List ℕ) × Sys Dev → Type 0
  Gave fd size sys (none, sys') = Unit
  Gave fd size sys (some bytes, sys') =
      (waiting fd sys ≡ bytes ++ waiting fd sys') × (length bytes ≤ size)

  waiting-found :
      (fd : ℤ) (p : Port) (sys : Sys Dev)
      → find_port fd sys.ports ≡ some p
      → waiting fd sys ≡ input sys.dev p.hcomm
  waiting-found fd p sys found = rw (waiting, found) refl

  found_after :
      (n size : ℕ) (p : Port) (sys : Sys Dev) (dev : Dev) (r : Option (List ℕ) × Port × Dev)
      → find_port (pos n) sys.ports ≡ some p
      → input dev p.hcomm ≡ input sys.dev p.hcomm
      → Looped api io input law p size [] dev r
      → Gave (pos n) size sys (r.0, record { ports = update_from p.fd r.1 sys.ports; dev = r.2 })
  found_after n size p sys dev (none, p', dev') found kept same = tt
  found_after n size p sys dev (some bytes, p', dev') found kept (same, seq, short) =
      let sys' : Sys Dev = record { ports = update_from p.fd p' sys.ports; dev = dev' } in
      let found' = find_port-update_from n p p' sys.ports found same.same_fd in
      let before = waiting-found (pos n) p sys found in
      let after = waiting-found (pos n) p' sys' found' ∙ ap (input dev') same.same_hcomm in
      (before ∙ sym kept ∙ seq ∙ ap (λ l. bytes ++ l) (sym after), omega (arith, short))

  -- serial_read on any fd: the bytes that it returns are the first that waited there, in their order
  -- and no more than were asked for, and what waits next follows them.
  serial_read-Gave :
      (fuel stack : ℕ) (fd : ℤ) (size : ℕ) (sys : Sys Dev)
      → Ensures (Gave fd size sys) (serial_read api io fuel stack fd size sys)
  unfolding serial_read find_port
  serial_read-Gave fuel stack (negsuc n) size sys = (refl, omega arith)
  serial_read-Gave fuel stack (pos zero) size sys = (refl, omega arith)
  serial_read-Gave fuel stack (pos (suc n)) size sys =
      let (start, dev) = io.get_tick_count sys.dev in
      elim (Option-cases (find_port (pos (suc n)) sys.ports)) [
        | inl lost ↦ rw (serial_read, lost) tt
        | inr (p, found) ↦
            rw (serial_read, found)
              (Ensures->>= (Looped api io input law p size [] dev) (Gave (pos (suc n)) size sys)
                (read_port api io fuel start size stack p dev) _
                (read_port-Looped fuel start size stack p dev)
                (λ r looped.
                  found_after (suc n) size p sys dev r found (law.tick_keeps sys.dev p.hcomm)
                    looped))
      ]

  -- When serial_read returns bytes, they are the first of what waited at the fd, in their order and no
  -- more than were asked for, and what waits afterwards follows them: none is lost and none doubled.
  -- It needs ReadFile and GetOverlappedResult to take bytes from the front of the input, no more
  -- than were asked for, and every other call to leave the input alone.
  pub serial_read-in_order :
      (fuel stack : ℕ) (fd : ℤ) (size : ℕ) (sys sys' : Sys Dev) (bytes : List ℕ)
      → serial_read api io fuel stack fd size sys ≡ some (some bytes, sys')
      → (waiting fd sys ≡ bytes ++ waiting fd sys') × (length bytes ≤ size)
  serial_read-in_order fuel stack fd size sys sys' bytes e =
      Ensures-eq (Gave fd size sys) (serial_read api io fuel stack fd size sys) (some bytes, sys')
        (serial_read-Gave fuel stack fd size sys) e
