-- ===== src/Serial/Loop/Ends.antt =====
-- The end of an event loop of src/SerialImp.c after interruptEventLoop.
use rxtx.Base.{
  ℕ, ◌==◌, ◌≡◌, ◌≢◌, refl, ap, ◌∙◌, false, some, List, [], ◌∷◌, ◌++◌, All, arith, ==_refl,
}
use rxtx.Base.Int.{pos}
use rxtx.Termios.Io.{termios_interrupt_event_loop}
use rxtx.Serial.Loop.{
  Thread, World, update_fd, closed, find_tid, look, look_at, interrupt_event_loop,
  finalize_event_info_struct,
}
use rxtx.Serial.Loop.Interrupted.{closes}

finds :
    (before after : List Thread) (t : Thread)
    → All (λ u. u.tid ≢ t.tid) before
    → find_tid t.tid (before ++ t ∷ after) ≡ some t
unfolding find_tid
finds [] after t others = rw (find_tid, ==_refl t.tid) refl
finds (u ∷ before) after t (other, others) =
    let differ : (u.tid == t.tid) ≡ false = ground arith in
    rw (find_tid, differ) (finds before after t others)

keeps :
    (tid : ℕ) (ts : List Thread)
    → All (λ u. u.tid ≢ tid) ts
    → finalize_event_info_struct tid ts ≡ ts
unfolding finalize_event_info_struct
keeps tid [] others = refl
keeps tid (u ∷ ts) (other, others) =
    let differ : (u.tid == tid) ≡ false = ground arith in
    rw (finalize_event_info_struct, differ) (ap (λ l. u ∷ l) (keeps tid ts others))

takes_out :
    (before after : List Thread) (t : Thread)
    → All (λ u. u.tid ≢ t.tid) before
    → All (λ u. u.tid ≢ t.tid) after
    → finalize_event_info_struct t.tid (before ++ t ∷ after) ≡ before ++ after
unfolding finalize_event_info_struct
takes_out [] after t others others' =
    rw (finalize_event_info_struct, ==_refl t.tid) (keeps t.tid after others')
takes_out (u ∷ before) after t (other, others) others' =
    let differ : (u.tid == t.tid) ≡ false = ground arith in
    rw (finalize_event_info_struct, differ)
      (ap (λ l. u ∷ l) (takes_out before after t others others'))

-- interruptEventLoop finds the entry of a loop, and the loop ends at its next test: its entry is
-- taken out, all others stay as they are, and the listener is not called. It needs an entry that
-- is the first with its fd and the only one of its thread, at the start of a turn.
pub interrupted-ends :
    {Dev : Type 0} (before after : List Thread) (t : Thread) (w : World Dev)
    → w.threads ≡ before ++ t ∷ after
    → All (λ u. u.eis.fd ≢ t.eis.fd) before
    → All (λ u. u.tid ≢ t.tid) before
    → All (λ u. u.tid ≢ t.tid) after
    → t.looked ≡ false
    → (w' : World Dev) × (w'' : World Dev) × (interrupt_event_loop t.eis.fd w ≡ some w')
      × (look t.tid w' ≡ some w'')
      × (w''.threads ≡ before ++ after)
      × (w''.sent ≡ w.sent)
unfolding interrupt_event_loop look look_at
interrupted-ends {Dev} before after t w at passed others others' rests =
    let t' : Thread = record t { eis = closed t.eis } in
    let found : update_fd t.eis.fd closed w.threads ≡ some (before ++ t' ∷ after) =
      ap (λ ts. update_fd t.eis.fd closed ts) at ∙ closes before after t passed in
    let w' : World Dev = record w {
      threads = before ++ t' ∷ after;
      sys = termios_interrupt_event_loop (pos t.eis.fd) 1 w.sys;
    } in
    let w'' : World Dev = record w' { threads = before ++ after } in
    (
      w',
      w'',
      rw (interrupt_event_loop, found) refl,
      rw
          (
            look,
            finds before after t' others,
            look_at,
            takes_out before after t' others others',
            rests,
          )
          refl,
      refl,
      refl,
    )
