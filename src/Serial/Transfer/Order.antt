-- ===== src/Serial/Transfer/Order.antt =====
-- read_byte_array of src/SerialImp.c delivers the bytes of the device in their order.
use rxtx.Base.{
  ℕ, zero, suc, ◌+◌, ◌-◌, ◌≤◌, ◌≡◌, refl, ◌∙◌, sym, ap, subst, ◌==◌, Option, some, none, List, [],
  ◌++◌, length, Bool-cases, Option-cases, inl, inr, arith, append_assoc, length-append, set-get_or,
}
use rxtx.Base.Int.{ℤ, pos, negsuc, pos_part}
use rxtx.Serial.Events.{EventInfo, spe_data_available}
use rxtx.Serial.Transfer.{
  FileApi, clock, after_select, read_round, read_loop, read_bytes, read_byte_array, expired,
  read_limit, time_left,
}

-- A device whose reads take bytes from the front of those that are pending, no more than were asked
-- for; a failed read takes none, and neither do the clock and select.
pub record Stream {Dev : Type 0} (api : FileApi Dev) (pending : Dev → List ℕ) : Type 0 where
  pub clock_keeps : (d : Dev) → pending (api.get_tick_count d).1 ≡ pending d
  pub select_keeps : (d : Dev) (t : Option ℕ) → pending (api.select d t).1 ≡ pending d
  pub read_gives :
      (d : Dev) (n : ℕ) (bytes : List ℕ)
      → (api.read d n).0 ≡ some bytes
      → pending d ≡ bytes ++ pending (api.read d n).1
  pub read_fits :
      (d : Dev) (n : ℕ) (bytes : List ℕ) → (api.read d n).0 ≡ some bytes → length bytes ≤ n

module _ {Dev : Type 0} (api : FileApi Dev) (pending : Dev → List ℕ)
    (stream : Stream api pending) where
  clock-keeps : (end : Option ℕ) (dev : Dev) → pending (clock api end dev).1 ≡ pending dev
  unfolding clock
  clock-keeps none dev = refl
  clock-keeps (some end) dev = stream.clock_keeps dev

  -- Bytes that leave the device in their order, at most `left` of them.
  abbrev Takes : ℕ → Dev → Option (List ℕ) × Dev → Type 0
  Takes left dev (ret, dev') =
      (bytes : List ℕ)
      → ret ≡ some bytes
      → (pending dev ≡ bytes ++ pending dev') × (length bytes ≤ left)

  after_select-Takes :
      (ret : ℤ) (left : ℕ) (dev : Dev) → Takes left dev (after_select api ret left dev)
  unfolding after_select
  after_select-Takes (pos zero) left dev bytes h =
      let e : [] ≡ bytes = cc in
      (ap (λ l. l ++ pending dev) e, subst (λ l. length l ≤ left) e (omega arith))
  after_select-Takes (pos (suc n)) left dev bytes h =
      (stream.read_gives dev left bytes h, stream.read_fits dev left bytes h)
  after_select-Takes (negsuc zero) left dev bytes h = absurd cc
  after_select-Takes (negsuc (suc n)) left dev bytes h =
      let e : [] ≡ bytes = cc in
      (ap (λ l. l ++ pending dev) e, subst (λ l. length l ≤ left) e (omega arith))

  read_round-Takes :
      (end : Option ℕ) (now left : ℕ) (dev : Dev) → Takes left dev (read_round api end now left dev)
  unfolding read_round
  read_round-Takes end now left dev bytes h =
      let (ret, dev') = api.select dev (time_left end now) in
      let (order, fits) = after_select-Takes ret left dev' bytes h in
      (sym (stream.select_keeps dev (time_left end now)) ∙ order, fits)

  -- The bytes so far, and then what the device still has, stay the same sequence.
  abbrev Goes : ℕ → List ℕ → Dev → Option (List ℕ) × Dev → Type 0
  Goes left got dev (ret, dev') =
      (bytes : List ℕ)
      → ret ≡ some bytes
      → (got ++ pending dev ≡ bytes ++ pending dev') × (length bytes ≤ length got + left)

  stops :
      (left : ℕ) (got : List ℕ) (dev dev' : Dev)
      → pending dev' ≡ pending dev
      → Goes left got dev (some got, dev')
  stops left got dev dev' same bytes h =
      let e : got ≡ bytes = cc in
      (
        ap (λ p. got ++ p) (sym same) ∙ ap (λ l. l ++ pending dev') e,
        subst (λ l. length l ≤ length got + left) e (omega arith),
      )

  read_loop-Goes :
      (rounds : ℕ) (end : Option ℕ) (left : ℕ) (got : List ℕ) (dev : Dev)
      → Goes left got dev (read_loop api rounds end left got dev)
  unfolding read_loop
  read_loop-Goes zero end left got dev = stops left got dev dev refl
  read_loop-Goes (suc rounds) end left got dev =
      let (now, dev1) = clock api end dev in
      let (ret, dev2) = read_round api end now left dev1 in
      let same = clock-keeps end dev in
      elim (Bool-cases (left == 0)) [
        | inl full ↦ rw full (stops left got dev dev refl)
        | inr some_left ↦ elim (Bool-cases (expired end now)) [
          | inl late ↦ rw (some_left, late) (stops left got dev dev1 same)
          | inr early ↦ elim (Option-cases ret) [
            | inl e ↦ rw (some_left, early, e) (λ bytes h. absurd cc)
            | inr (new, e) ↦
                let (order, fits) = read_round-Takes end now left dev1 new e in
                let next = read_loop-Goes rounds end (left - length new) (got ++ new) dev2 in
                rw (some_left, early, e)
                  (λ bytes h.
                    let (seq, short) = next bytes h in
                    (
                      ap (λ p. got ++ p) (sym same ∙ order)
                          ∙ sym (append_assoc got new (pending dev2))
                          ∙ seq,
                      omega (arith, length-append got new),
                    ))
          ]
        ]
      ]

  read_bytes-Takes :
      (len timeout : ℤ) (dev : Dev) → Takes (pos_part len) dev (read_bytes api len timeout dev)
  unfolding read_bytes
  read_bytes-Takes len (negsuc t) dev bytes h =
      let (order, fits) = read_loop-Goes read_limit none (pos_part len) [] dev bytes h in
      (order, omega (arith, fits))
  read_bytes-Takes len (pos t) dev bytes h =
      let (start, dev') = api.get_tick_count dev in
      let (order, fits) =
        read_loop-Goes read_limit (some (start + t)) (pos_part len) [] dev' bytes h in
      (sym (stream.clock_keeps dev) ∙ order, omega (arith, fits))

  -- The bytes that read_byte_array returns are the first of those the device has pending, in their
  -- order and no more than were asked for, and what is left pending is what follows them: none is
  -- lost and none is doubled, whatever select and the clock do. This is for a device whose reads
  -- take from the front of what is pending and whose failed reads take nothing.
  pub read_byte_array-in_order :
      (len timeout : ℤ) (eis : EventInfo) (dev : Dev) (bytes : List ℕ)
      → (read_byte_array api len timeout eis dev).0 ≡ some bytes
      → (pending dev ≡ bytes ++ pending (read_byte_array api len timeout eis dev).2)
        × (length bytes ≤ pos_part len)
  unfolding read_byte_array
  read_byte_array-in_order len timeout eis dev bytes h = read_bytes-Takes len timeout dev bytes h

module _ {Dev : Type 0} (api : FileApi Dev) where
  -- read_byte_array leaves the listener's flags as they were, whatever it returns: the flag of
  -- DATA_AVAILABLE that it takes down is put back.
  read_byte_array-flags :
      (len timeout : ℤ) (eis : EventInfo) (dev : Dev)
      → (read_byte_array api len timeout eis dev).1 ≡ eis
  unfolding read_byte_array
  read_byte_array-flags len timeout eis dev =
      ap (λ f. record eis { eventflags = f }) (set-get_or eis.eventflags spe_data_available 0 0)
