-- ===== src/Serial/Events/Counts.antt =====
-- The counting loops of check_cgi_count of src/SerialImp.c.
use rxtx.Termios.Ioctl.{ioctl, tiocgicount}
use rxtx.Base.Int.{pos, when_zero}
use rxtx.Termios.Comm.{CommApi}
use rxtx.Termios.State.{Counters}
use rxtx.Base.{
  ℕ, zero, suc, ◌+◌, ◌-◌, ◌%◌, ◌^◌, ◌<◌, ◌≤◌, ◌≡◌, ◌∙◌, sym, ap, ◌==◌, true, false, some, [], ◌∷◌,
  ◌++◌, List, replicate, Bool-cases, inl, inr, arith, Bool, ltb, ◌≢◌, append_nil, append_assoc,
  append_four,
}
use rxtx.Serial.Events.{
  Event, EventInfo, Loop, send_event, catch_up, spe_fe, spe_oe, spe_pe, spe_bi, catch_all, rounds,
  check_cgi_count, event_arg,
}

-- Events reach the listener: no interrupt was counted twice and the class is known.
pub record Listening (eis : EventInfo) : Type 0 where
  pub calm : eis.eventloop_interrupted ≤ 1
  pub known : eis.has_class ≡ true

-- How often a counter was incremented, modulo 2^32.
abbrev pub behind : ℕ → ℕ → ℕ
behind new old = (new + 2 ^ 32 - old) % 2 ^ 32

behind-same : (new old : ℕ) → (new == old) ≡ true → behind new old ≡ 0
behind-same new old same = grind arith

behind-step :
    (new old : ℕ)
    → new < 2 ^ 32
    → old < 2 ^ 32
    → (new == old) ≡ false
    → (behind new old ≡ suc (behind new ((old + 1) % 2 ^ 32))) × ((old + 1) % 2 ^ 32 < 2 ^ 32)
behind-step new old a b differ = let ne : new ≢ old = ground arith in (omega arith, omega arith)

module _ {Dev : Type 0} (answer : ℕ → Bool → Bool) where
  pub send_event-Listening :
      (type : ℕ) (on : Bool) (s : Loop Dev)
      → Listening s.eis
      → (send_event answer type on s).1 ≡ record s { sent = s.sent ++ (type, on) ∷ [] }
  unfolding send_event
  send_event-Listening type on s h =
      let calm : ltb 1 s.eis.eventloop_interrupted ≡ false = ground (arith, h.calm) in
      rw (send_event, calm, h.known)

  ended :
      (s : Loop Dev) (e : Event) (k : ℕ)
      → k ≡ 0
      → some s ≡ some (record s { sent = s.sent ++ replicate k e })
  ended s e k h = ap some (
      ap (λ l. record s { sent = l })
        (sym (append_nil s.sent) ∙ ap (λ k. s.sent ++ replicate k e) (sym h)))

  -- One loop of check_cgi_count: when the two counters are 32-bit numbers and the listener is
  -- reachable, the loop ends within `rounds` rounds, and it sends the event as often as the counter
  -- was incremented, modulo 2^32.
  pub catch_up_lem :
      (fuel type new old : ℕ) (s : Loop Dev)
      → new < 2 ^ 32
      → old < 2 ^ 32
      → behind new old ≤ fuel
      → Listening s.eis
      → catch_up answer fuel type new old s
        ≡ some (record s { sent = s.sent ++ replicate (behind new old) (type, true) })
  unfolding catch_up
  catch_up_lem zero type new old s a b enough h = elim (Bool-cases (new == old)) [
    | inl same ↦ rw same (ended s (type, true) (behind new old) (omega arith))
    | inr differ ↦ absurd (omega (arith, (behind-step new old a b differ).0))
  ]
  catch_up_lem (suc fuel) type new old s a b enough h = elim (Bool-cases (new == old)) [
    | inl same ↦ rw same (ended s (type, true) (behind new old) (behind-same new old same))
    | inr differ ↦
        let old' = (old + 1) % 2 ^ 32 in
        let e : Event = (type, true) in
        let (step, small) = behind-step new old a b differ in
        let sent : Loop Dev = record s { sent = s.sent ++ e ∷ [] } in
        let next = catch_up_lem fuel type new old' sent a small (omega arith) h in
        let run : catch_up answer (suc fuel) type new old s
            ≡ catch_up answer fuel type new old' (send_event answer type true s).1 =
          rw differ in
        run
        ∙ ap (catch_up answer fuel type new old') (send_event-Listening type true s h)
        ∙ next
        ∙ ap (λ l. some (record s { sent = l }))
            (append_assoc s.sent (e ∷ []) (replicate (behind new old') e)
              ∙ ap (λ k. s.sent ++ replicate k e) (sym step))
  ]

-- Counters that are 32-bit numbers.
pub record Words (c : Counters) : Type 0 where
  pub frame_word : c.frame < 2 ^ 32
  pub overrun_word : c.overrun < 2 ^ 32
  pub parity_word : c.parity < 2 ^ 32
  pub brk_word : c.brk < 2 ^ 32

-- The events for the counters that moved from `old` to `new`.
abbrev pub error_events : Counters → Counters → List Event
error_events new old =
    ((replicate (behind new.frame old.frame) (spe_fe, true)
        ++ replicate (behind new.overrun old.overrun) (spe_oe, true))
      ++ replicate (behind new.parity old.parity) (spe_pe, true))
    ++ replicate (behind new.brk old.brk) (spe_bi, true)

module _ {Dev : Type 0} (answer : ℕ → Bool → Bool) (fuel : ℕ)
    (enough : (x y : ℕ) → behind x y ≤ fuel) where
  catch_all_lem :
      (new old : Counters) (s : Loop Dev)
      → Words new
      → Words old
      → Listening s.eis
      → catch_all answer fuel new old s
        ≡ some
            (record s { eis = record s.eis { osis = new }; sent = s.sent ++ error_events new old })
  unfolding catch_all
  catch_all_lem new old s n o h =
      let fe = replicate (behind new.frame old.frame) (spe_fe, true) in
      let oe = replicate (behind new.overrun old.overrun) (spe_oe, true) in
      let pe = replicate (behind new.parity old.parity) (spe_pe, true) in
      let be = replicate (behind new.brk old.brk) (spe_bi, true) in
      let s1 : Loop Dev = record s { sent = s.sent ++ fe } in
      let s2 : Loop Dev = record s { sent = (s.sent ++ fe) ++ oe } in
      let s3 : Loop Dev = record s { sent = ((s.sent ++ fe) ++ oe) ++ pe } in
      rw
        (
          catch_up_lem answer fuel spe_fe new.frame old.frame s n.frame_word o.frame_word
              (enough _ _) h,
          catch_up_lem answer fuel spe_oe new.overrun old.overrun s1 n.overrun_word o.overrun_word
              (enough _ _) h,
          catch_up_lem answer fuel spe_pe new.parity old.parity s2 n.parity_word o.parity_word
              (enough _ _) h,
          catch_up_lem answer fuel spe_bi new.brk old.brk s3 n.brk_word o.brk_word (enough _ _) h,
        )
        (ap (λ l. some (record s { eis = record s.eis { osis = new }; sent = l }))
          (append_four s.sent fe oe pe be))

behind-rounds : (new old : ℕ) → behind new old ≤ rounds
behind-rounds new old = omega arith

module _ {Dev : Type 0} (api : CommApi Dev) (answer : ℕ → Bool → Bool) where
  -- When TIOCGICOUNT succeeds and the counters before and after are 32-bit numbers, check_cgi_count
  -- ends: it sends one event for each error that was counted since the last check, modulo 2^32,
  -- frame errors first, then overruns, parity errors and breaks, and it keeps the new counters.
  pub check_cgi_count_lem :
      (s : Loop Dev)
      → let (r, a, sys') = ioctl api (pos s.eis.fd) tiocgicount (event_arg 0 s.eis.osis) s.sys in
        r ≡ pos 0
        → Words s.eis.osis
        → Words a.counts
        → Listening s.eis
        → check_cgi_count api answer s
          ≡ some (record {
            eis = record s.eis { osis = a.counts };
            sys = sys';
            sent = s.sent ++ error_events a.counts s.eis.osis;
          })
  unfolding check_cgi_count
  check_cgi_count_lem s done old_words new_words h =
      let (r, a, sys') = ioctl api (pos s.eis.fd) tiocgicount (event_arg 0 s.eis.osis) s.sys in
      let s' : Loop Dev = record s { sys = sys' } in
      when_zero r (some s') (catch_all answer rounds a.counts s.eis.osis s') done
      ∙ catch_all_lem answer rounds behind-rounds a.counts s.eis.osis s' new_words old_words h
