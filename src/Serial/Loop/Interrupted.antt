-- ===== src/Serial/Loop/Interrupted.antt =====
-- What interruptEventLoop of src/SerialImp.c does to a loop, whatever the other threads do.
use rxtx.Base.Int.{pos}
use rxtx.Base.{
  ℕ, ◌<◌, ◌==◌, ◌≡◌, ◌≢◌, refl, sym, ap, ◌∙◌, Bool, false, some, List, [], ◌∷◌, ◌++◌, All, arith,
  subst, ==_refl,
}
use rxtx.Termios.Comm.{CommApi}
use rxtx.Termios.Io.{IoApi, termios_interrupt_event_loop}
use rxtx.Serial.Loop.{Thread, World, update_fd, closed, interrupt_event_loop}
use rxtx.Serial.Loop.Steps.{Step, looks, reports, interrupts, sets_flag, Run, here, next, begins}
use rxtx.Serial.Loop.Quiet.{events_of, Quiet, Silenced}
use rxtx.Serial.Loop.Silent.{
  Stays, look-Stays, report-Stays, interrupt-Stays, set_flag-Stays, start-Stays,
}

-- The walk of interruptEventLoop passes the entries with other fds.
pub closes :
    (before after : List Thread) (t : Thread)
    → All (λ u. u.eis.fd ≢ t.eis.fd) before
    → update_fd t.eis.fd closed (before ++ t ∷ after)
      ≡ some (before ++ record t { eis = closed t.eis } ∷ after)
unfolding update_fd
closes [] after t passed = rw (update_fd, ==_refl t.eis.fd) refl
closes (u ∷ before) after t (other, passed) =
    let differ : (u.eis.fd == t.eis.fd) ≡ false = ground arith in
    rw (update_fd, differ, closes before after t passed) refl

module _ {Dev : Type 0} (api : CommApi Dev) (io : IoApi Dev) (answer : ℕ → Bool → Bool) where
  Step-Stays :
      (tid : ℕ) {w w' : World Dev} → Step api io answer w w' → Silenced tid w → Stays tid w w'
  Step-Stays tid (begins has_method fd stack w) h =
      start-Stays tid api io answer has_method fd stack w h
  Step-Stays tid (looks k w w' e) h = look-Stays tid k w w' e h
  Step-Stays tid (reports stack k w w' e) h = report-Stays tid api io answer stack k w w' e h
  Step-Stays tid (interrupts fd w w' e) h = interrupt-Stays tid api io answer fd w w' e h
  Step-Stays tid (sets_flag fd event flag w) h = set_flag-Stays tid api io answer fd event flag w h

  Run-Stays :
      (tid : ℕ) {w w' : World Dev} → Run api io answer w w' → Silenced tid w → Stays tid w w'
  Run-Stays tid here h = (h, refl)
  Run-Stays tid (next run step) h =
      let (silenced, same) = Run-Stays tid run h in
      let (still, same') = Step-Stays tid step silenced in (still, same' ∙ same)

  others-Quiet : (tid : ℕ) (ts : List Thread) → All (λ u. u.tid ≢ tid) ts → All (Quiet tid) ts
  others-Quiet tid [] h = tt
  others-Quiet tid (u ∷ ts) (other, others) =
      ((λ mine. absurd (other mine)), others-Quiet tid ts others)

  around-Quiet :
      (tid : ℕ) (before after : List Thread) (t : Thread)
      → All (Quiet tid) before
      → Quiet tid t
      → All (Quiet tid) after
      → All (Quiet tid) (before ++ t ∷ after)
  around-Quiet tid [] after t b q a = (q, a)
  around-Quiet tid (u ∷ before) after t (p, b) q a = (p, around-Quiet tid before after t b q a)

  -- After interruptEventLoop for a loop at the start of a turn, the thread of that loop calls the
  -- listener no more, in any order of the steps of all threads. It needs an entry that is the
  -- first with its fd and the only one of its thread.
  pub interrupted-silent :
      (before after : List Thread) (t : Thread) (w w' w'' : World Dev)
      → w.threads ≡ before ++ t ∷ after
      → All (λ u. u.eis.fd ≢ t.eis.fd) before
      → All (λ u. u.tid ≢ t.tid) before
      → All (λ u. u.tid ≢ t.tid) after
      → t.tid < w.next
      → t.looked ≡ false
      → interrupt_event_loop t.eis.fd w ≡ some w'
      → Run api io answer w' w''
      → events_of t.tid w''.sent ≡ events_of t.tid w.sent
  unfolding interrupt_event_loop
  interrupted-silent before after t w w' w'' at passed others others' below rests e run =
      let tid = t.tid in
      let found : update_fd t.eis.fd closed w.threads
          ≡ some (before ++ record t { eis = closed t.eis } ∷ after) =
        ap (λ ts. update_fd t.eis.fd closed ts) at ∙ closes before after t passed in
      let stopped : World Dev = record w {
        threads = before ++ record t { eis = closed t.eis } ∷ after;
        sys = termios_interrupt_event_loop (pos t.eis.fd) 1 w.sys;
      } in
      let out : some stopped ≡ some w' = (rw (interrupt_event_loop, found) at e) in
      let now : stopped ≡ w' = cc in
      let silenced : Silenced tid stopped = (
        below,
        around-Quiet tid before after (record t { eis = closed t.eis })
            (others-Quiet tid before others) (λ mine. (refl, rests))
            (others-Quiet tid after others'),
      ) in
      (Run-Stays tid run (subst (Silenced tid) now silenced)).1
      ∙ ap (λ v. events_of tid v.sent) (sym now)
