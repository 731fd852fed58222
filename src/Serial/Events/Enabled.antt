-- ===== src/Serial/Events/Enabled.antt =====
-- The events of report_serial_events of src/SerialImp.c that the listener has to enable.
use rxtx.Termios.Ioctl.{ioctl, tiocgicount, tiocmget, tiocsergetlsr}
use rxtx.Termios.Flags.{has, tiocm_cts, tiocm_dsr, tiocm_rng, tiocm_car}
use rxtx.Serial.Events.Grows.{
  Grows, Allowed, bind_some, stays, Grows-trans, if_Grows, if_some, same-Grows, free, pair_Grows,
  enabled,
}
use rxtx.Base.{
  ℕ, zero, suc, ◌≡◌, refl, ◌∙◌, sym, Bool, true, false, List, [], ◌∷◌, ◌++◌, not, ◌==◌, some, none,
  Bool-cases, inl, inr, arith, subst, ltb, ◌<◌, ◌+◌, ◌%◌, ◌^◌,
}
use rxtx.Base.Int.{pos, ◌==ℤ◌}
use rxtx.Termios.State.{Counters}
use rxtx.Termios.Comm.{CommApi}
use rxtx.Serial.Events.{
  Loop, send_event, catch_up, catch_all, line_event, compare_lines, check_line_status_register,
  check_cgi_count, check_tiocmget_changes, port_has_changed_fionread, report_data,
  report_serial_events, flag_of, rounds, event_arg,
}

module _ {Dev : Type 0} (answer : ℕ → Bool → Bool) where
  send_event-Grows :
      (type : ℕ) (on : Bool) (s : Loop Dev)
      → Allowed s.eis.eventflags (type, on)
      → Grows s (send_event answer type on s).1
  unfolding send_event
  send_event-Grows type on s ok =
      let sends : Loop Dev = record s { sent = s.sent ++ (type, on) ∷ [] } in
      elim (Bool-cases (ltb 1 s.eis.eventloop_interrupted)) [
        | inl stop ↦
            let e : (send_event answer type on s).1 ≡ s = rw (send_event, stop) in
            subst (Grows s) (sym e) (stays s s refl refl)
        | inr go ↦ elim (Bool-cases s.eis.has_class) [
          | inr missing ↦
              let e : (send_event answer type on s).1 ≡ s = simp (send_event, go, missing) in
              subst (Grows s) (sym e) (stays s s refl refl)
          | inl known ↦
              let e : (send_event answer type on s).1 ≡ sends = simp (send_event, go, known) in
              subst (Grows s) (sym e)
                (record { new = (type, on) ∷ []; adds = refl; fine = (ok, tt); same_flags = refl })
        ]
      ]

  catch_up-Grows :
      (fuel type new old : ℕ) (s t : Loop Dev)
      → ((flags : List ℕ) → Allowed flags (type, true))
      → catch_up answer fuel type new old s ≡ some t
      → Grows s t
  unfolding catch_up
  catch_up-Grows zero type new old s t ok run = elim (Bool-cases (new == old)) [
    | inl same ↦
        let e : catch_up answer 0 type new old s ≡ some s = rw same in same-Grows s t (sym e ∙ run)
    | inr differ ↦ let e : catch_up answer 0 type new old s ≡ none = rw differ in absurd cc
  ]
  catch_up-Grows (suc fuel) type new old s t ok run = elim (Bool-cases (new == old)) [
    | inl same ↦
        let e : catch_up answer (suc fuel) type new old s ≡ some s = rw same in
        same-Grows s t (sym e ∙ run)
    | inr differ ↦
        let s' = (send_event answer type true s).1 in
        let e : catch_up answer (suc fuel) type new old s
            ≡ catch_up answer fuel type new ((old + 1) % 2 ^ 32) s' =
          rw differ in
        Grows-trans s s' t (send_event-Grows type true s (ok s.eis.eventflags))
          (catch_up-Grows fuel type new ((old + 1) % 2 ^ 32) s' t ok (sym e ∙ run))
  ]

  catch_all-Grows :
      (fuel : ℕ) (new old : Counters) (s t : Loop Dev)
      → catch_all answer fuel new old s ≡ some t
      → Grows s t
  unfolding catch_all
  catch_all-Grows fuel new old s t run =
      let (s1, e1, run1) = bind_some (catch_up answer fuel 9 new.frame old.frame s) _ t run in
      let (s2, e2, run2) = bind_some (catch_up answer fuel 7 new.overrun old.overrun s1) _ t run1 in
      let (s3, e3, run3) = bind_some (catch_up answer fuel 8 new.parity old.parity s2) _ t run2 in
      let (s4, e4, run4) = bind_some (catch_up answer fuel 10 new.brk old.brk s3) _ t run3 in
      let last : Loop Dev = record s4 { eis = record s4.eis { osis = new } } in
      Grows-trans s s1 t (catch_up-Grows fuel 9 _ _ s s1 (free 9 true (omega arith)) e1) (
        Grows-trans s1 s2 t (catch_up-Grows fuel 7 _ _ s1 s2 (free 7 true (omega arith)) e2) (
          Grows-trans s2 s3 t (catch_up-Grows fuel 8 _ _ s2 s3 (free 8 true (omega arith)) e3) (
            Grows-trans s3 s4 t (catch_up-Grows fuel 10 _ _ s3 s4 (free 10 true (omega arith)) e4)
              (Grows-trans s4 last t (stays s4 last refl refl) (same-Grows last t run4)))))

  line_event-Grows :
      (type : ℕ) (was is : Bool) (s : Loop Dev)
      → 2 < type
      → Grows s (line_event answer type was is s)
  unfolding line_event
  line_event-Grows type true true s h = stays s s refl refl
  line_event-Grows type false false s h = stays s s refl refl
  line_event-Grows type true false s h =
      send_event-Grows type false s (free type false h s.eis.eventflags)
  line_event-Grows type false true s h =
      send_event-Grows type true s (free type true h s.eis.eventflags)

  compare_lines-Grows : (old new : ℕ) (s : Loop Dev) → Grows s (compare_lines answer old new s)
  unfolding compare_lines
  compare_lines-Grows old new s =
      let s1 = line_event answer 3 (has old tiocm_cts) (has new tiocm_cts) s in
      let s2 = line_event answer 4 (has old tiocm_dsr) (has new tiocm_dsr) s1 in
      let s3 = line_event answer 5 (has old tiocm_rng) (has new tiocm_rng) s2 in
      let s4 = line_event answer 6 (has old tiocm_car) (has new tiocm_car) s3 in
      let last : Loop Dev = record s4 { eis = record s4.eis { omflags = new } } in
      Grows-trans s s1 last (line_event-Grows 3 _ _ s (omega arith)) (
        Grows-trans s1 s2 last (line_event-Grows 4 _ _ s1 (omega arith)) (
          Grows-trans s2 s3 last (line_event-Grows 5 _ _ s2 (omega arith)) (
            Grows-trans s3 s4 last (line_event-Grows 6 _ _ s3 (omega arith))
              (stays s4 last refl refl))))

module _ {Dev : Type 0} (api : CommApi Dev) (answer : ℕ → Bool → Bool) where
  check_line-Grows : (s : Loop Dev) → Grows s (check_line_status_register api answer s).1
  unfolding check_line_status_register
  check_line-Grows s =
      let (r, a, sys') =
        ioctl api (pos s.eis.fd) tiocsergetlsr (event_arg s.eis.change s.eis.osis) s.sys in
      let s' : Loop Dev = record s { eis = record s.eis { change = a.value }; sys = sys' } in
      let sent = send_event answer 2 true s' in
      let kept = stays s s' refl refl in
      pair_Grows s (not (flag_of s.eis 2)) (true, s) _ (λ off. stays s s refl refl)
        (λ on.
          pair_Grows s (not (r ==ℤ pos 0)) (false, s') _ (λ bad. kept)
            (λ ok.
              pair_Grows s (a.value == 0) (true, s') (true, sent.1) (λ z. kept)
                (λ nz.
                  Grows-trans s s' sent.1 kept
                    (send_event-Grows answer 2 true s' (enabled s.eis.eventflags 2 true on)))))

  check_cgi_count-Grows : (s t : Loop Dev) → check_cgi_count api answer s ≡ some t → Grows s t
  unfolding check_cgi_count
  check_cgi_count-Grows s t run =
      let (r, a, sys') = ioctl api (pos s.eis.fd) tiocgicount (event_arg 0 s.eis.osis) s.sys in
      let s' : Loop Dev = record s { sys = sys' } in
      let kept = stays s s' refl refl in
      elim (if_some (not (r ==ℤ pos 0)) (some s') (catch_all answer rounds a.counts s.eis.osis s') t
        run) [
          | inl e ↦ Grows-trans s s' t kept (same-Grows s' t e)
          | inr e ↦
              Grows-trans s s' t kept (catch_all-Grows answer rounds a.counts s.eis.osis s' t e)
        ]

  check_tiocmget-Grows : (s : Loop Dev) → Grows s (check_tiocmget_changes api answer s)
  unfolding check_tiocmget_changes
  check_tiocmget-Grows s =
      let (r, a, sys') = ioctl api (pos s.eis.fd) tiocmget (event_arg 0 s.eis.osis) s.sys in
      let s' : Loop Dev = record s { sys = sys' } in
      let after = compare_lines answer s.eis.omflags a.value s' in
      if_Grows s (not (r ==ℤ pos 0)) s' after (stays s s' refl refl) (
        Grows-trans s s' after (stays s s' refl refl)
          (compare_lines-Grows answer s.eis.omflags a.value s'))

  report_data-Grows : (stack : ℕ) (s : Loop Dev) → Grows s (report_data api answer stack s)
  unfolding report_data port_has_changed_fionread
  report_data-Grows stack s =
      let (changed, s') = port_has_changed_fionread api answer stack s in
      let sent = send_event answer 1 true s' in
      let kept = stays s s' refl refl in
      elim (Bool-cases (not (flag_of s'.eis 1))) [
        | inl off ↦ if_Grows s (not changed) s' _ kept (rw off kept)
        | inr on ↦ if_Grows s (not changed) s' _ kept (
            rw on (
              Grows-trans s s' sent.1 kept
                (send_event-Grows answer 1 true s' (enabled s'.eis.eventflags 1 true on))))
      ]

  -- Whatever report_serial_events sends between two states, DATA_AVAILABLE and OUTPUT_BUFFER_EMPTY
  -- are among it only if the listener enabled them, and no flag is changed.
  pub report_serial_events-Grows :
      (stack : ℕ) (s t : Loop Dev) → report_serial_events api answer stack s ≡ some t → Grows s t
  unfolding report_serial_events
  report_serial_events-Grows stack s t run =
      let (done, s1) = check_line_status_register api answer s in
      let first = check_line-Grows s in
      elim (if_some (not done) (some s1) _ t run) [
        | inl e ↦ Grows-trans s s1 t first (same-Grows s1 t e)
        | inr e ↦
            let (s2, e2, e3) = bind_some _ _ t e in
            let s3 = check_tiocmget_changes api answer s2 in
            let last = report_data api answer stack s3 in
            Grows-trans s s1 t first (
              Grows-trans s1 s2 t
                (elim (if_some s1.eis.has_tiocgicount (check_cgi_count api answer s1) (some s1) s2
                  e2) [ inl f ↦ check_cgi_count-Grows s1 s2 f | inr f ↦ same-Grows s1 s2 f ])
                (Grows-trans s2 s3 t (check_tiocmget-Grows s2)
                  (Grows-trans s3 last t (report_data-Grows stack s3) (same-Grows last t e3))))
      ]
