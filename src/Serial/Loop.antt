-- ===== src/Serial/Loop.antt =====
-- The event loops of src/SerialImp.c in the Windows build: eventLoop, initialise_event_info_struct,
-- finalize_event_info_struct, has_line_status_register_access, driver_has_tiocgicount,
-- interruptEventLoop and nativeSetEventFlag. A thread runs each loop; its event_info_struct is an
-- entry of the list master_index, the sequence `threads`, which all threads share. The turn of a
-- loop is two steps: `look`, the test of `closing`, and `report`, what follows it. Other threads
-- move in between; the steps themselves are taken to be atomic.
pub mod Steps
pub mod Quiet
pub mod Silent
pub mod Interrupted
pub mod Ends
use rxtx.Base.{
  ◌>>=◌, ℕ, zero, suc, ◌+◌, ◌==◌, if◌then◌else◌, not, ◌&&◌, Bool, true, false, Option, some, none,
  List, [], ◌∷◌, ◌++◌, map, set, replicate,
}
use rxtx.Base.Int.{ℤ, pos, is_neg, ◌==ℤ◌}
use rxtx.Termios.State.{Counters}
use rxtx.Termios.Comm.{CommApi, Sys}
use rxtx.Termios.Ioctl.{tiocmget, tiocsergetlsr, tiocgicount, ioctl}
use rxtx.Termios.Io.{IoApi, termios_setflags, termios_interrupt_event_loop}
use rxtx.Serial.Events.{
  EventInfo, Event, Loop, event_arg, flag_of, spe_data_available, send_event,
  port_has_changed_fionread, report_serial_events,
}

-- `looked`: the test of `closing` is done, and the report comes next.
pub record Thread : Type 0 where
  pub tid : ℕ
  pub looked : Bool
  pub eis : EventInfo

-- `sent` has the calls of sendEvent with the thread that made them, the latest last; `next` is the
-- number of the next thread.
pub record World (Dev : Type 0) : Type 0 where
  pub threads : List Thread
  pub sys : Sys Dev
  pub sent : List (ℕ × Event)
  pub next : ℕ

unfoldable pub find_tid : ℕ → List Thread → Option Thread
find_tid tid [] = none
find_tid tid (t ∷ ts) = if t.tid == tid then some t else find_tid tid ts

unfoldable pub update_tid : ℕ → (Thread → Thread) → List Thread → List Thread
update_tid tid f [] = []
update_tid tid f (t ∷ ts) = (if t.tid == tid then f t else t) ∷ update_tid tid f ts

-- finalize_event_info_struct: the entry of a thread is taken out.
unfoldable pub finalize_event_info_struct : ℕ → List Thread → List Thread
finalize_event_info_struct tid [] = []
finalize_event_info_struct tid (t ∷ ts) =
    let rest = finalize_event_info_struct tid ts in if t.tid == tid then rest else t ∷ rest

-- The walk to the first entry with an fd, and a change of that entry; `none` without one.
unfoldable pub update_fd : ℕ → (EventInfo → EventInfo) → List Thread → Option (List Thread)
update_fd fd f [] = none
update_fd fd f (t ∷ ts) =
    let rest = update_fd fd f ts in
    if t.eis.fd == fd then some (record t { eis = f t.eis } ∷ ts) else do ts' ← rest; some (t ∷ ts')

unfoldable pub flags_from : ℕ → List Thread → Option (List ℕ)
flags_from fd [] = none
flags_from fd (t ∷ ts) = if t.eis.fd == fd then some t.eis.eventflags else flags_from fd ts

abbrev pub no_counters : Counters
no_counters = record { frame = 0; overrun = 0; parity = 0; brk = 0 }

-- What initialise_event_info_struct sets; the rest is as it was on the stack.
abbrev pub reset : ℕ → EventInfo → EventInfo
reset fd stack = record stack {
  fd = fd;
  eventflags = replicate 11 0;
  eventloop_interrupted = 0;
  closing = false;
  has_class = true;
  osis = no_counters;
}

abbrev pub closed : EventInfo → EventInfo
closed eis = record eis { eventloop_interrupted = 1; closing = true }

abbrev pub with_flag : ℕ → Bool → EventInfo → EventInfo
with_flag event flag eis = record eis {
  eventflags = set eis.eventflags event (if flag then 1 else 0);
}

abbrev pub tagged : ℕ → List Event → List (ℕ × Event)
tagged tid events = map (λ e. (tid, e)) events

module _ {Dev : Type 0} (api : CommApi Dev) where
  unfoldable pub has_line_status_register_access : ℕ → Sys Dev → Bool × Sys Dev
  has_line_status_register_access fd sys =
      let (r, a, sys') = ioctl api (pos fd) tiocsergetlsr (event_arg 0 no_counters) sys in
      (r ==ℤ pos 0, sys')

  unfoldable pub driver_has_tiocgicount : EventInfo → Sys Dev → Bool × EventInfo × Sys Dev
  driver_has_tiocgicount eis sys =
      let (r, a, sys') = ioctl api (pos eis.fd) tiocgicount (event_arg 0 eis.osis) sys in
      if is_neg r then (false, eis, sys') else (true, record eis { osis = a.counts }, sys')

  -- With whether the Java class has the method sendEvent.
  unfoldable pub initialise_event_info_struct : Bool → ℕ → EventInfo → World Dev → Bool × World Dev
  unfolding has_line_status_register_access driver_has_tiocgicount
  initialise_event_info_struct has_method fd stack w =
      let (lsr, sys1) = has_line_status_register_access fd w.sys in
      let (counts, eis, sys2) = driver_has_tiocgicount (reset fd stack) sys1 in
      let (r, a, sys3) = ioctl api (pos fd) tiocmget (event_arg eis.omflags no_counters) sys2 in
      let made : Thread = record {
        tid = w.next;
        looked = false;
        eis = record eis { has_tiocgicount = counts; omflags = a.value };
      } in
      if has_method
      then (true, record w { threads = w.threads ++ made ∷ []; sys = sys3; next = w.next + 1 })
      else (false, record w { sys = sys3; next = w.next + 1 })

  -- `while( i++ < 5 )` of the loop.
  unfoldable pub poll_data : (ℕ → Bool → Bool) → ℕ → ℕ → Loop Dev → Loop Dev
  unfolding port_has_changed_fionread send_event
  poll_data answer zero stack s = s
  poll_data answer (suc n) stack s =
      let (changed, s1) = port_has_changed_fionread api answer stack s in
      let s2 = if changed then (send_event answer spe_data_available true s1).1 else s1 in
      poll_data answer n stack (if flag_of s.eis spe_data_available then s2 else s)

unfoldable pub look_at : {Dev : Type 0} → ℕ → World Dev → Thread → Option (World Dev)
unfolding update_tid finalize_event_info_struct
look_at tid w t =
    let ended = record w { threads = finalize_event_info_struct tid w.threads } in
    let seen = record w { threads = update_tid tid (λ u. record u { looked = true }) w.threads } in
    if t.looked then none else if t.eis.closing then some ended else some seen

-- The test of `closing`, which ends the loop; `none`: there is no such thread at this point.
unfoldable pub look : {Dev : Type 0} → ℕ → World Dev → Option (World Dev)
unfolding find_tid look_at
look tid w = do t ← find_tid tid w.threads; look_at tid w t

-- From the polling to the end of the turn: what it does with the entry, and then with the rest.
unfoldable pub poll_and_report :
    {Dev : Type 0} → CommApi Dev → (ℕ → Bool → Bool) → ℕ → EventInfo → Sys Dev → Option (Loop Dev)
unfolding poll_data report_serial_events
poll_and_report api answer stack eis sys =
    report_serial_events api answer stack
      (poll_data api answer 5 stack (record { eis = eis; sys = sys; sent = [] }))

abbrev pub end_turn : {Dev : Type 0} → ℕ → World Dev → Loop Dev → World Dev
end_turn tid w s = record w {
  threads = update_tid tid (λ u. record u { looked = false; eis = s.eis }) w.threads;
  sys = s.sys;
  sent = w.sent ++ tagged tid s.sent;
}

unfoldable pub report_at :
    {Dev : Type 0} → ℕ → World Dev → Thread → Option (Loop Dev) → Option (World Dev)
unfolding update_tid
report_at tid w t ran = do s ← ran; if t.looked then some (end_turn tid w s) else none

unfoldable pub report :
    {Dev : Type 0} → CommApi Dev → (ℕ → Bool → Bool) → ℕ → ℕ → World Dev → Option (World Dev)
unfolding find_tid report_at
report api answer stack tid w = do
  t ← find_tid tid w.threads
  report_at tid w t (poll_and_report api answer stack t.eis w.sys)

-- `none`: there is no entry with the fd, and the caller goes on searching.
unfoldable pub interrupt_event_loop : {Dev : Type 0} → ℕ → World Dev → Option (World Dev)
unfolding update_fd termios_interrupt_event_loop
interrupt_event_loop fd w = do
  threads ← update_fd fd closed w.threads
  some (record w { threads = threads; sys = termios_interrupt_event_loop (pos fd) 1 w.sys })

-- For an event below 11, the length of the array; nothing without an entry.
unfoldable pub native_set_event_flag :
    {Dev : Type 0} → CommApi Dev → IoApi Dev → ℕ → ℕ → Bool → World Dev → World Dev
unfolding update_fd flags_from termios_setflags
native_set_event_flag api io fd event flag w =
    elim (update_fd fd (with_flag event flag) w.threads) [
      | none ↦ w
      | some threads ↦ elim (flags_from fd threads) [
        | none ↦ w
        | some flags ↦ record w {
          threads = threads;
          sys = termios_setflags api io (pos fd) (map (λ n. not (n == 0)) flags) w.sys;
        }
      ]
    ]
