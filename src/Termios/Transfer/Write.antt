-- ===== src/Termios/Transfer/Write.antt =====
-- serial_write of src/termios.c sends the front of what it is given, and says how much.
use rxtx.Termios.Ioctl.{ev_txempty}
use rxtx.Termios.Ports.{update_from, find_port}
use rxtx.Termios.Transfer.{await_write, write_bytes, write_port, serial_write, count_or_error}
use rxtx.Termios.State.{Handle, Port}
use rxtx.Termios.Io.{
  WriteFile, IoApi, write_done, write_pending, write_failed, IoEvent, write_event, mask_tx,
  complete, incomplete,
}
use rxtx.Termios.Comm.{CommApi, Sys}
use rxtx.Base.{
  ℕ, zero, suc, ◌≡◌, ◌≤◌, refl, ◌∙◌, ap, none, some, inl, inr, take, ◌⊎◌, List, Option, Ensures,
  ◌++◌, length, subst, bit_or, Ensures->>=, Ensures-eq,
}
use rxtx.Base.Int.{pos, negsuc, ℤ}
use rxtx.Termios.Transfer.Rounds.{Overlapped-cases}

-- What was sent at each handle, and what a pending WriteFile holds: a call that says n sends the
-- first n bytes, the other calls send none.
pub record Sink {Dev : Type 0} (api : CommApi Dev) (io : IoApi Dev)
    (sent flight : Dev → Handle → List ℕ) : Type 0 where
  pub mask_sent : (d : Dev) (h : Handle) (m : ℕ) → sent (api.set_comm_mask d h m).1 h ≡ sent d h
  pub reset_sent : (d : Dev) (h : Handle) (e : IoEvent) → sent (io.reset_event d h e) h ≡ sent d h
  pub wait_sent : (d : Dev) (h : Handle) (e : IoEvent) → sent (io.wait_for d h e).1 h ≡ sent d h
  pub wait_flight :
      (d : Dev) (h : Handle) (e : IoEvent) → flight (io.wait_for d h e).1 h ≡ flight d h
  pub done_sends :
      (d : Dev) (h : Handle) (bytes : List ℕ) (n : ℕ)
      → (io.write_file d h bytes).0 ≡ write_done n
      → (sent (io.write_file d h bytes).1 h ≡ sent d h ++ take n bytes) × (n ≤ length bytes)
  pub pending_holds :
      (d : Dev) (h : Handle) (bytes : List ℕ)
      → (io.write_file d h bytes).0 ≡ write_pending
      → (sent (io.write_file d h bytes).1 h ≡ sent d h)
        × (flight (io.write_file d h bytes).1 h ≡ bytes)
  pub complete_sends :
      (d : Dev) (h : Handle) (n : ℕ)
      → (io.write_result d h).0 ≡ complete n
      → (sent (io.write_result d h).1 h ≡ sent d h ++ take n (flight d h))
        × (n ≤ length (flight d h))
  pub incomplete_holds :
      (d : Dev) (h : Handle)
      → (io.write_result d h).0 ≡ incomplete
      → (sent (io.write_result d h).1 h ≡ sent d h)
        × (flight (io.write_result d h).1 h ≡ flight d h)

WriteFile-cases :
    (w : WriteFile) → ((n : ℕ) × (w ≡ write_done n)) ⊎ ((w ≡ write_pending) ⊎ (w ≡ write_failed))
WriteFile-cases (write_done n) = inl (n, refl)
WriteFile-cases write_pending = inr (inl refl)
WriteFile-cases write_failed = inr (inr refl)

module _ {Dev : Type 0} (api : CommApi Dev) (io : IoApi Dev) (sent flight : Dev → Handle → List ℕ)
    (law : Sink api io sent flight) where
  -- A number of bytes is a number of those that were sent.
  abbrev Sent : Handle → List ℕ → Dev → Option ℕ × Dev → Type 0
  Sent h bytes dev (none, dev') = Unit
  Sent h bytes dev (some n, dev') = (sent dev' h ≡ sent dev h ++ take n bytes) × (n ≤ length bytes)

  Sent-after :
      (h : Handle) (bytes : List ℕ) (dev dev' : Dev)
      → sent dev' h ≡ sent dev h
      → (r : Option (Option ℕ × Dev)) → Ensures (Sent h bytes dev') r
      → Ensures (Sent h bytes dev) r
  Sent-after h bytes dev dev' same none s = tt
  Sent-after h bytes dev dev' same (some (none, dev'')) s = tt
  Sent-after h bytes dev dev' same (some (some n, dev'')) (out, fits) =
      (out ∙ ap (λ l. l ++ take n bytes) same, fits)

  await_write-Sent :
      (fuel : ℕ) (p : Port) (bytes : List ℕ) (dev : Dev)
      → flight dev p.hcomm ≡ bytes
      → Ensures (Sent p.hcomm bytes dev) (await_write api io fuel p dev)
  unfolding await_write
  await_write-Sent zero p bytes dev held = tt
  await_write-Sent (suc fuel) p bytes dev held =
      let h = p.hcomm in
      let (ret, dev') = io.write_result dev h in
      elim (Overlapped-cases ret) [
        | inl (n, e) ↦
            rw (Ensures, await_write, e)
              (subst (λ b. (sent dev' h ≡ sent dev h ++ take n b) × (n ≤ length b)) held
                (law.complete_sends dev h n e))
        | inr (inl e) ↦
            let (same, still) = law.incomplete_holds dev h e in
            rw (Ensures, await_write, e)
              (Sent-after h bytes dev dev' same (await_write api io fuel p dev')
                (await_write-Sent fuel p bytes dev' (still ∙ held)))
        | inr (inr e) ↦ rw (Ensures, await_write, e) tt
      ]

  write_bytes-Sent :
      (fuel : ℕ) (bytes : List ℕ) (p : Port) (dev : Dev)
      → Ensures (Sent p.hcomm bytes dev) (write_bytes api io fuel bytes p dev)
  unfolding write_bytes
  write_bytes-Sent fuel bytes p dev =
      let h = p.hcomm in
      let (ret, dev1) = io.write_file dev h bytes in
      let dev2 = (io.wait_for dev1 h write_event).1 in
      elim (WriteFile-cases ret) [
        | inl (n, e) ↦ rw (Ensures, write_bytes, e) (law.done_sends dev h bytes n e)
        | inr (inl e) ↦
            let (same, held) = law.pending_holds dev h bytes e in
            rw (Ensures, write_bytes, e)
              (Sent-after h bytes dev dev2 (law.wait_sent dev1 h write_event ∙ same)
                (await_write api io fuel p dev2)
                (await_write-Sent fuel p bytes dev2 (law.wait_flight dev1 h write_event ∙ held)))
        | inr (inr e) ↦ rw (Ensures, write_bytes, e) tt
      ]

  -- What a write leaves of the port, and what it sent.
  abbrev Written : Port → List ℕ → Dev → ℤ × Port × Dev → Type 0
  Written p bytes dev (negsuc n, p', dev') = p' ≡ record p { tx_happened = 1 }
  Written p bytes dev (pos n, p', dev') =
      (p' ≡ record p { tx_happened = 1 })
      × (sent dev' p.hcomm ≡ sent dev p.hcomm ++ take n bytes)
      × (n ≤ length bytes)

  masked :
      (p : Port) (bytes : List ℕ) (dev dev1 : Dev)
      → sent dev1 p.hcomm ≡ sent dev p.hcomm
      → (ret : Option ℕ) (dev2 : Dev) → Sent p.hcomm bytes dev1 (ret, dev2)
      → Written p bytes dev
          (count_or_error ret, record p { tx_happened = 1 }, mask_tx api io p dev2)
  masked p bytes dev dev1 same none dev2 out = refl
  masked p bytes dev dev1 same (some n) dev2 (out, fits) = (
    refl,
    law.mask_sent dev2 p.hcomm (bit_or p.event_flag ev_txempty)
        ∙ out
        ∙ ap (λ l. l ++ take n bytes) same,
    fits,
  )

  write_port-Written :
      (fuel : ℕ) (bytes : List ℕ) (p : Port) (dev : Dev)
      → Ensures (Written p bytes dev) (write_port api io fuel bytes p dev)
  unfolding write_port
  write_port-Written fuel bytes p dev =
      let h = p.hcomm in
      let dev1 = io.reset_event dev h write_event in
      Ensures->>= (Sent h bytes dev1) (Written p bytes dev) (write_bytes api io fuel bytes p dev1) _
        (write_bytes-Sent fuel bytes p dev1)
        (λ (ret, dev2) out. masked p bytes dev dev1 (law.reset_sent dev h write_event) ret dev2 out)

  abbrev Ended : Port → List ℕ → Sys Dev → ℤ × Sys Dev → Type 0
  Ended p bytes sys (negsuc n, sys') =
      sys'.ports ≡ update_from p.fd (record p { tx_happened = 1 }) sys.ports
  Ended p bytes sys (pos n, sys') =
      (sent sys'.dev p.hcomm ≡ sent sys.dev p.hcomm ++ take n bytes)
      × (n ≤ length bytes)
      × (sys'.ports ≡ update_from p.fd (record p { tx_happened = 1 }) sys.ports)

  Written-Ended :
      (p : Port) (bytes : List ℕ) (sys : Sys Dev) (r : ℤ × Port × Dev)
      → Written p bytes sys.dev r
      → Ended p bytes sys (r.0, record { ports = update_from p.fd r.1 sys.ports; dev = r.2 })
  Written-Ended p bytes sys (negsuc n, p', dev') same = ap (λ q. update_from p.fd q sys.ports) same
  Written-Ended p bytes sys (pos n, p', dev') (same, out, fits) =
      (out, fits, ap (λ q. update_from p.fd q sys.ports) same)

  -- When serial_write on the fd of an open port returns a number n of bytes, the first n of the
  -- bytes given were sent, after all that was sent before, and no others; n is no more than there
  -- were. The port's entry changes in nothing but tx_happened, which is 1. It needs a device that
  -- sends what it says, and nothing in other calls.
  pub serial_write-sent :
      (fuel m n : ℕ) (bytes : List ℕ) (p : Port) (sys sys' : Sys Dev)
      → find_port (pos (suc m)) sys.ports ≡ some p
      → serial_write api io fuel (pos (suc m)) bytes sys ≡ some (pos n, sys')
      → (sent sys'.dev p.hcomm ≡ sent sys.dev p.hcomm ++ take n bytes)
        × (n ≤ length bytes)
        × (sys'.ports ≡ update_from p.fd (record p { tx_happened = 1 }) sys.ports)
  unfolding serial_write
  serial_write-sent fuel m n bytes p sys sys' found e =
      Ensures-eq (Ended p bytes sys) (serial_write api io fuel (pos (suc m)) bytes sys)
        (pos n, sys')
        (rw (serial_write, found)
          (Ensures->>= (Written p bytes sys.dev) (Ended p bytes sys)
            (write_port api io fuel bytes p sys.dev) _ (write_port-Written fuel bytes p sys.dev)
            (λ r out. Written-Ended p bytes sys r out)))
        e
