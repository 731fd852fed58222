-- ===== src/Serial/Events.antt =====
-- The checks of the event loop of src/SerialImp.c, in the build with TIOCSERGETLSR and TIOCGICOUNT:
-- send_event, check_line_status_register, check_cgi_count, check_tiocmget_changes,
-- port_has_changed_fionread and report_serial_events. fstat of src/termios.c always returns 0.
-- `sent` lists the calls of the Java method sendEvent, the latest last; `answer` is what that method
-- returns. The pauses are left out.
pub mod Counts
pub mod Changes
pub mod Grows
pub mod Enabled
use rxtx.Base.{
  ◌>>=◌, ℕ, zero, suc, ◌+◌, ◌%◌, ◌^◌, ◌==◌, if◌then◌else◌, not, ◌&&◌, Bool, true, false, ltb,
  Option, some, none, List, [], ◌∷◌, ◌++◌, get_or,
}
use rxtx.Base.Int.{pos, ◌==ℤ◌}
use rxtx.Termios.Flags.{has, tiocm_cts, tiocm_dsr, tiocm_rng, tiocm_car}
use rxtx.Termios.State.{Counters}
use rxtx.Termios.Comm.{CommApi, Sys}
use rxtx.Termios.Ioctl.{Arg, tiocmget, tiocsergetlsr, tiocgicount, fionread, ioctl}

abbrev pub spe_data_available : ℕ
spe_data_available = 1

abbrev pub spe_output_buffer_empty : ℕ
spe_output_buffer_empty = 2

abbrev pub spe_cts : ℕ
spe_cts = 3

abbrev pub spe_dsr : ℕ
spe_dsr = 4

abbrev pub spe_ri : ℕ
spe_ri = 5

abbrev pub spe_cd : ℕ
spe_cd = 6

abbrev pub spe_oe : ℕ
spe_oe = 7

abbrev pub spe_pe : ℕ
spe_pe = 8

abbrev pub spe_fe : ℕ
spe_fe = 9

abbrev pub spe_bi : ℕ
spe_bi = 10

-- The fields of struct event_info_struct that the checks use; `has_class` is whether jclazz is set.
pub record EventInfo : Type 0 where
  pub fd : ℕ
  pub eventflags : List ℕ
  pub change : ℕ
  pub omflags : ℕ
  pub has_tiocgicount : Bool
  pub eventloop_interrupted : ℕ
  pub closing : Bool
  pub has_class : Bool
  pub osis : Counters

abbrev pub Event : Type 0
Event = ℕ × Bool

pub record Loop (Dev : Type 0) : Type 0 where
  pub eis : EventInfo
  pub sys : Sys Dev
  pub sent : List Event

abbrev pub event_arg : ℕ → Counters → Arg
event_arg v counts = record { value = v; counts = counts }

abbrev pub flag_of : EventInfo → ℕ → Bool
flag_of eis type = not (get_or eis.eventflags type 0 == 0)

module _ {Dev : Type 0} (answer : ℕ → Bool → Bool) where
  unfoldable pub send_event : ℕ → Bool → Loop Dev → Bool × Loop Dev
  send_event type on s =
      if ltb 1 s.eis.eventloop_interrupted
      then (true, s)
      else if not s.eis.has_class
      then (true, s)
      else (answer type on, record s { sent = s.sent ++ (type, on) ∷ [] })

  -- `while( new != old ) { send_event( type, 1 ); old++; }`, on fuel: the number of rounds left.
  unfoldable pub catch_up : ℕ → ℕ → ℕ → ℕ → Loop Dev → Option (Loop Dev)
  unfolding send_event
  catch_up zero type new old s = if new == old then some s else none
  catch_up (suc fuel) type new old s =
      let next = catch_up fuel type new ((old + 1) % 2 ^ 32) (send_event type true s).1 in
      if new == old then some s else next

  -- The four loops of check_cgi_count and what follows them, each loop with the same fuel.
  unfoldable pub catch_all : ℕ → Counters → Counters → Loop Dev → Option (Loop Dev)
  unfolding catch_up
  catch_all fuel new old s = do
    s1 ← catch_up fuel spe_fe new.frame old.frame s
    s2 ← catch_up fuel spe_oe new.overrun old.overrun s1
    s3 ← catch_up fuel spe_pe new.parity old.parity s2
    s4 ← catch_up fuel spe_bi new.brk old.brk s3
    some (record s4 { eis = record s4.eis { osis = new } })

  -- One line of check_tiocmget_changes: `was` and `is` are the line before and now.
  unfoldable pub line_event : ℕ → Bool → Bool → Loop Dev → Loop Dev
  unfolding send_event
  line_event type true true s = s
  line_event type false false s = s
  line_event type was is s = (send_event type is s).1

  -- The four comparisons of check_tiocmget_changes, and what follows them.
  unfoldable pub compare_lines : ℕ → ℕ → Loop Dev → Loop Dev
  unfolding line_event
  compare_lines old new s =
      let s1 = line_event spe_cts (has old tiocm_cts) (has new tiocm_cts) s in
      let s2 = line_event spe_dsr (has old tiocm_dsr) (has new tiocm_dsr) s1 in
      let s3 = line_event spe_ri (has old tiocm_rng) (has new tiocm_rng) s2 in
      let s4 = line_event spe_cd (has old tiocm_car) (has new tiocm_car) s3 in
      record s4 { eis = record s4.eis { omflags = new } }

-- The rounds of one of the loops: it ends before the counter wraps around to its start.
abbrev pub rounds : ℕ
rounds = 2 ^ 32

module _ {Dev : Type 0} (api : CommApi Dev) (answer : ℕ → Bool → Bool) where
  -- Whether it returns 0.
  unfoldable pub check_line_status_register : Loop Dev → Bool × Loop Dev
  check_line_status_register s =
      if not (flag_of s.eis spe_output_buffer_empty)
      then (true, s)
      else let (r, a, sys') =
          ioctl api (pos s.eis.fd) tiocsergetlsr (event_arg s.eis.change s.eis.osis) s.sys in
        let s' = record s { eis = record s.eis { change = a.value }; sys = sys' } in
        if not (r ==ℤ pos 0)
        then (false, s')
        else if a.value == 0
        then (true, s')
        else (true, (send_event answer spe_output_buffer_empty true s').1)

  unfoldable pub check_cgi_count : Loop Dev → Option (Loop Dev)
  unfolding catch_all
  check_cgi_count s =
      let (r, a, sys') = ioctl api (pos s.eis.fd) tiocgicount (event_arg 0 s.eis.osis) s.sys in
      let s' = record s { sys = sys' } in
      if not (r ==ℤ pos 0) then some s' else catch_all answer rounds a.counts s.eis.osis s'

  unfoldable pub check_tiocmget_changes : Loop Dev → Loop Dev
  unfolding compare_lines
  check_tiocmget_changes s =
      let (r, a, sys') = ioctl api (pos s.eis.fd) tiocmget (event_arg 0 s.eis.osis) s.sys in
      let s' = record s { sys = sys' } in
      if not (r ==ℤ pos 0) then s' else compare_lines answer s.eis.omflags a.value s'

  -- `stack` is what the local int holds, which is tested also when the ioctl has failed.
  unfoldable pub port_has_changed_fionread : ℕ → Loop Dev → Bool × Loop Dev
  port_has_changed_fionread stack s =
      let (r, a, sys') = ioctl api (pos s.eis.fd) fionread (event_arg stack s.eis.osis) s.sys in
      (not (a.value == 0), record s { sys = sys' })

  unfoldable pub report_data : ℕ → Loop Dev → Loop Dev
  unfolding port_has_changed_fionread
  report_data stack s =
      let (changed, s') = port_has_changed_fionread stack s in
      if not changed
      then s'
      else if not (flag_of s'.eis spe_data_available)
      then s'
      else (send_event answer spe_data_available true s').1

  unfoldable pub report_serial_events : ℕ → Loop Dev → Option (Loop Dev)
  unfolding check_line_status_register check_cgi_count check_tiocmget_changes report_data
  report_serial_events stack s =
      let (done, s1) = check_line_status_register s in
      if not done then some s1 else do
        s2 ← (if s1.eis.has_tiocgicount then check_cgi_count s1 else some s1)
        some (report_data stack (check_tiocmget_changes s2))
