-- ===== src/Serial/Events/Changes.antt =====
-- check_tiocmget_changes of src/SerialImp.c: each change of a line is reported, once.
use rxtx.Base.{
  ℕ, ◌≡◌, refl, ◌∙◌, sym, ap, Bool, true, false, List, [], ◌∷◌, ◌++◌, append_nil, subst,
  append_four,
}
use rxtx.Base.Int.{pos, when_zero}
use rxtx.Termios.Flags.{has, tiocm_cts, tiocm_dsr, tiocm_rng, tiocm_car}
use rxtx.Termios.Comm.{CommApi}
use rxtx.Termios.Ioctl.{tiocmget, ioctl}
use rxtx.Serial.Events.{
  Event, Loop, line_event, check_tiocmget_changes, event_arg, spe_cts, spe_dsr, spe_ri, spe_cd,
  compare_lines,
}
use rxtx.Serial.Events.Counts.{Listening, send_event-Listening}

-- The event for a line, if it changed.
abbrev pub change_event : ℕ → Bool → Bool → List Event
change_event type true true = []
change_event type false false = []
change_event type true false = (type, false) ∷ []
change_event type false true = (type, true) ∷ []

-- The events for the four lines between two readings.
abbrev pub line_events : ℕ → ℕ → List Event
line_events old new =
    ((change_event spe_cts (has old tiocm_cts) (has new tiocm_cts)
        ++ change_event spe_dsr (has old tiocm_dsr) (has new tiocm_dsr))
      ++ change_event spe_ri (has old tiocm_rng) (has new tiocm_rng))
    ++ change_event spe_cd (has old tiocm_car) (has new tiocm_car)

change_event-same : (type : ℕ) (b : Bool) → change_event type b b ≡ []
change_event-same type true = refl
change_event-same type false = refl

-- Two readings that are alike give no event.
line_events-same : (m : ℕ) → line_events m m ≡ []
line_events-same m = rw (
  change_event-same spe_cts (has m tiocm_cts),
  change_event-same spe_dsr (has m tiocm_dsr),
  change_event-same spe_ri (has m tiocm_rng),
  change_event-same spe_cd (has m tiocm_car),
)

module _ {Dev : Type 0} (answer : ℕ → Bool → Bool) where
  line_event_lem :
      (type : ℕ) (was is : Bool) (s : Loop Dev)
      → Listening s.eis
      → line_event answer type was is s ≡ record s { sent = s.sent ++ change_event type was is }
  unfolding line_event
  line_event_lem type true true s h = ap (λ l. record s { sent = l }) (sym (append_nil s.sent))
  line_event_lem type false false s h = ap (λ l. record s { sent = l }) (sym (append_nil s.sent))
  line_event_lem type true false s h = send_event-Listening answer type false s h
  line_event_lem type false true s h = send_event-Listening answer type true s h

  compare_lines_lem :
      (old new : ℕ) (s : Loop Dev)
      → Listening s.eis
      → compare_lines answer old new s
        ≡ record s { eis = record s.eis { omflags = new }; sent = s.sent ++ line_events old new }
  unfolding compare_lines
  compare_lines_lem old new s h =
      let cts = change_event spe_cts (has old tiocm_cts) (has new tiocm_cts) in
      let dsr = change_event spe_dsr (has old tiocm_dsr) (has new tiocm_dsr) in
      let ri = change_event spe_ri (has old tiocm_rng) (has new tiocm_rng) in
      let cd = change_event spe_cd (has old tiocm_car) (has new tiocm_car) in
      let s1 : Loop Dev = record s { sent = s.sent ++ cts } in
      let s2 : Loop Dev = record s { sent = (s.sent ++ cts) ++ dsr } in
      let s3 : Loop Dev = record s { sent = ((s.sent ++ cts) ++ dsr) ++ ri } in
      let keep : Loop Dev → Loop Dev = λ x. record x { eis = record x.eis { omflags = new } } in
      ap
        (λ x. keep (
          line_event answer spe_cd (has old tiocm_car) (has new tiocm_car) (
            line_event answer spe_ri (has old tiocm_rng) (has new tiocm_rng)
              (line_event answer spe_dsr (has old tiocm_dsr) (has new tiocm_dsr) x))))
        (line_event_lem spe_cts _ _ s h)
      ∙ ap
          (λ x. keep (
            line_event answer spe_cd (has old tiocm_car) (has new tiocm_car)
              (line_event answer spe_ri (has old tiocm_rng) (has new tiocm_rng) x)))
          (line_event_lem spe_dsr _ _ s1 h)
      ∙ ap (λ x. keep (line_event answer spe_cd (has old tiocm_car) (has new tiocm_car) x))
          (line_event_lem spe_ri _ _ s2 h)
      ∙ ap keep (line_event_lem spe_cd _ _ s3 h)
      ∙ ap (λ l. record s { eis = record s.eis { omflags = new }; sent = l })
          (append_four s.sent cts dsr ri cd)

module _ {Dev : Type 0} (api : CommApi Dev) (answer : ℕ → Bool → Bool) where
  -- When TIOCMGET succeeds, check_tiocmget_changes sends, for each of CTS, DSR, RI and CD that
  -- differs from the last reading, one event with the new state, in this order, and keeps the
  -- reading.
  pub check_tiocmget_changes_lem :
      (s : Loop Dev)
      → let (r, a, sys') = ioctl api (pos s.eis.fd) tiocmget (event_arg 0 s.eis.osis) s.sys in
        r ≡ pos 0
        → Listening s.eis
        → check_tiocmget_changes api answer s ≡ record {
          eis = record s.eis { omflags = a.value };
          sys = sys';
          sent = s.sent ++ line_events s.eis.omflags a.value;
        }
  unfolding check_tiocmget_changes
  check_tiocmget_changes_lem s done h =
      let (r, a, sys') = ioctl api (pos s.eis.fd) tiocmget (event_arg 0 s.eis.osis) s.sys in
      let s' : Loop Dev = record s { sys = sys' } in
      when_zero r s' (compare_lines answer s.eis.omflags a.value s') done
      ∙ compare_lines_lem answer s.eis.omflags a.value s' h

  -- A line that does not change is reported once: when TIOCMGET succeeds twice and reads the same,
  -- the second check sends nothing.
  check_tiocmget_changes_once :
      (s : Loop Dev)
      → Listening s.eis
      → let s' = check_tiocmget_changes api answer s in
        let first = ioctl api (pos s.eis.fd) tiocmget (event_arg 0 s.eis.osis) s.sys in
        let second = ioctl api (pos s'.eis.fd) tiocmget (event_arg 0 s'.eis.osis) s'.sys in
        first.0 ≡ pos 0
        → second.0 ≡ pos 0
        → second.1.value ≡ first.1.value
        → (check_tiocmget_changes api answer s').sent ≡ s'.sent
  check_tiocmget_changes_once s h done done' same =
      let s' = check_tiocmget_changes api answer s in
      let e = check_tiocmget_changes_lem s done h in
      let h' : Listening s'.eis =
        subst (λ x. Listening x.eis) (sym e) (record { calm = h.calm; known = h.known }) in
      let v = (ioctl api (pos s.eis.fd) tiocmget (event_arg 0 s.eis.osis) s.sys).1.value in
      let v' = (ioctl api (pos s'.eis.fd) tiocmget (event_arg 0 s'.eis.osis) s'.sys).1.value in
      ap (λ x. x.sent) (check_tiocmget_changes_lem s' done' h')
      ∙ ap (λ l. s'.sent ++ l)
          (ap (λ m. line_events m v') (ap (λ x. x.eis.omflags) e)
            ∙ ap (line_events v) same
            ∙ line_events-same v)
      ∙ append_nil s'.sent
