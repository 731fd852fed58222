-- ===== src/Serial/Loop/Silent.antt =====
-- The events of an event loop of src/SerialImp.c after interruptEventLoop.
use rxtx.Base.Int.{pos}
use rxtx.Base.{
  ℕ, ◌+◌, ◌<◌, ◌≡◌, ◌≢◌, refl, sym, ap, ◌∙◌, Bool, true, Bool-cases, Option, Option-cases, some,
  none, ◌++◌, inl, inr, arith, append_nil, subst,
}
use rxtx.Termios.Comm.{CommApi}
use rxtx.Termios.Io.{IoApi, termios_interrupt_event_loop}
use rxtx.Serial.Events.{EventInfo, Loop}
use rxtx.Serial.Loop.{
  Thread, World, find_tid, update_tid, finalize_event_info_struct, update_fd, flags_from, closed,
  with_flag, tagged, initialise_event_info_struct, look, look_at, report, report_at, end_turn,
  poll_and_report, interrupt_event_loop, native_set_event_flag,
}
use rxtx.Serial.Loop.Quiet.{
  events_of, Quiet, Silenced, events_of-append, events_of-other, update_tid-Quiet, finalize-Quiet,
  update_fd-Quiet, append-Quiet, find_tid-Quiet,
}

-- The thread stays silenced, and sends nothing.
abbrev pub Stays : {Dev : Type 0} → ℕ → World Dev → World Dev → Type 0
Stays tid w w' = Silenced tid w' × (events_of tid w'.sent ≡ events_of tid w.sent)

module _ {Dev : Type 0} (tid : ℕ) where
  pub look-Stays : (k : ℕ) (w w' : World Dev) → look k w ≡ some w' → Silenced tid w → Stays tid w w'
  unfolding look look_at
  look-Stays k w w' e (below, quiet) = elim (Option-cases (find_tid k w.threads)) [
    | inl lost ↦ let out : none ≡ some w' = (rw (look, lost) at e) in absurd cc
    | inr (t, found) ↦
        let (at_k, mine) = find_tid-Quiet tid k t w.threads found quiet in
        let out : look_at k w t ≡ some w' = (rw (look, found) at e) in
        elim (Bool-cases t.looked) [
          | inl on ↦ let no_step : none ≡ some w' = (rw (look_at, on) at out) in absurd cc
          | inr off ↦ elim (Bool-cases t.eis.closing) [
            | inl ends ↦
                let here : some (record w { threads = finalize_event_info_struct k w.threads })
                    ≡ some w' =
                  (rw (look_at, off, ends) at out) in
                let now : record w { threads = finalize_event_info_struct k w.threads } ≡ w' = cc in
                subst (Stays tid w) now ((below, finalize-Quiet tid k w.threads quiet), refl)
            | inr goes ↦
                let seen : World Dev = record w {
                  threads = update_tid k (λ u. record u { looked = true }) w.threads;
                } in
                let here : some seen ≡ some w' = (rw (look_at, off, goes) at out) in
                let now : seen ≡ w' = cc in
                let apart : k ≢ tid = λ same. (let shut = (mine (at_k ∙ same)).0 in absurd cc) in
                subst (Stays tid w) now (
                  (
                    below,
                    update_tid-Quiet tid k _ w.threads
                        (λ u at_u q is. absurd (apart (sym at_u ∙ is))) quiet,
                  ),
                  refl,
                )
          ]
        ]
  ]

  report_at-Stays :
      (k : ℕ) (w w' : World Dev) (t : Thread) (ran : Option (Loop Dev))
      → t.tid ≡ k
      → Quiet tid t
      → report_at k w t ran ≡ some w'
      → Silenced tid w
      → Stays tid w w'
  unfolding report_at
  report_at-Stays k w w' t none at_k mine e silenced = absurd cc
  report_at-Stays k w w' t (some s) at_k mine e (below, quiet) = elim (Bool-cases t.looked) [
    | inr off ↦ let out : none ≡ some w' = (rw (report_at, off) at e) in absurd cc
    | inl on ↦
        let here : some (end_turn k w s) ≡ some w' = (rw (report_at, on) at e) in
        let now : end_turn k w s ≡ w' = cc in
        let apart : k ≢ tid = λ same. (let off = (mine (at_k ∙ same)).1 in absurd cc) in
        subst (Stays tid w) now (
          (
            below,
            update_tid-Quiet tid k _ w.threads (λ u at_u q is. absurd (apart (sym at_u ∙ is)))
                quiet,
          ),
          events_of-append tid w.sent (tagged k s.sent)
              ∙ ap (λ l. events_of tid w.sent ++ l) (events_of-other tid k s.sent apart)
              ∙ append_nil (events_of tid w.sent),
        )
  ]

  module _ (api : CommApi Dev) (io : IoApi Dev) (answer : ℕ → Bool → Bool) where
    pub report-Stays :
        (stack k : ℕ) (w w' : World Dev)
        → report api answer stack k w ≡ some w'
        → Silenced tid w
        → Stays tid w w'
    unfolding report
    report-Stays stack k w w' e (below, quiet) = elim (Option-cases (find_tid k w.threads)) [
      | inl lost ↦ let out : none ≡ some w' = (rw (report, lost) at e) in absurd cc
      | inr (t, found) ↦
          let (at_k, mine) = find_tid-Quiet tid k t w.threads found quiet in
          report_at-Stays k w w' t (poll_and_report api answer stack t.eis w.sys) at_k mine
            (rw (report, found) at e) (below, quiet)
    ]

    pub interrupt-Stays :
        (fd : ℕ) (w w' : World Dev)
        → interrupt_event_loop fd w ≡ some w'
        → Silenced tid w
        → Stays tid w w'
    unfolding interrupt_event_loop
    interrupt-Stays fd w w' e (below, quiet) = elim (Option-cases (update_fd fd closed w.threads)) [
      | inl lost ↦ let out : none ≡ some w' = (rw (interrupt_event_loop, lost) at e) in absurd cc
      | inr (threads, found) ↦
          let now : record w {
            threads = threads;
            sys = termios_interrupt_event_loop (pos fd) 1 w.sys;
          }
              ≡ w' =
            (let here : some (record w {
              threads = threads;
              sys = termios_interrupt_event_loop (pos fd) 1 w.sys;
            })
                  ≡ some w' =
                (rw (interrupt_event_loop, found) at e) in
              cc) in
          subst (Stays tid w) now (
            (below, update_fd-Quiet tid fd closed w.threads threads (λ eis on. refl) found quiet),
            refl,
          )
    ]

    pub set_flag-Stays :
        (fd event : ℕ) (flag : Bool) (w : World Dev)
        → Silenced tid w
        → Stays tid w (native_set_event_flag api io fd event flag w)
    unfolding native_set_event_flag
    set_flag-Stays fd event flag w (below, quiet) =
        elim (Option-cases (update_fd fd (with_flag event flag) w.threads)) [
          | inl lost ↦ rw (native_set_event_flag, lost) ((below, quiet), refl)
          | inr (threads, found) ↦ elim (Option-cases (flags_from fd threads)) [
            | inl no_flags ↦ rw (native_set_event_flag, found, no_flags) ((below, quiet), refl)
            | inr (flags, there) ↦
                rw (native_set_event_flag, found, there)
                  (
                    (
                      below,
                      update_fd-Quiet tid fd (with_flag event flag) w.threads threads (λ eis on. on)
                          found quiet,
                    ),
                    refl,
                  )
          ]
        ]

    pub start-Stays :
        (has_method : Bool) (fd : ℕ) (stack : EventInfo) (w : World Dev)
        → Silenced tid w
        → Stays tid w (initialise_event_info_struct api has_method fd stack w).1
    unfolding initialise_event_info_struct
    start-Stays has_method fd stack w (below, quiet) =
        let next : tid < w.next + 1 = omega arith in
        elim (Bool-cases has_method) [
          | inl has ↦
              rw (initialise_event_info_struct, has)
                (
                  (
                    next,
                    append-Quiet tid w.threads _
                        (λ same. (let bad : w.next ≡ tid = same in absurd (omega arith))) quiet,
                  ),
                  refl,
                )
          | inr lacks ↦ rw (initialise_event_info_struct, lacks) ((next, quiet), refl)
        ]
