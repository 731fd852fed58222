-- ===== src/Tests/Events.antt =====
-- The checks of the event loop, on the loopback device.
use rxtx.Base.{ℕ, ◌≡◌, refl, some, Bool, true, [], ◌∷◌, ◌++◌, arith, false}
use rxtx.Base.Int.{pos}
use rxtx.Termios.Comm.{Sys}
use rxtx.Termios.Ports.{find_port, find_from, update_from}
use rxtx.Termios.Ioctl.{
  tiocmget, tiocgicount, ioctl, ioctl_port, clear_errors, count_errors, serve, copy_counts,
  modem_bits,
}
use rxtx.Serial.Events.{
  EventInfo, Loop, event_arg, send_event, check_cgi_count, check_tiocmget_changes,
  check_line_status_register, report_serial_events, report_data, compare_lines, line_event,
}
use rxtx.Serial.Events.Counts.{Listening, Words, error_events, check_cgi_count_lem}
use rxtx.Serial.Events.Changes.{line_events, check_tiocmget_changes_lem}
use rxtx.Serial.Events.Grows.{Grows}
use rxtx.Serial.Events.Enabled.{report_serial_events-Grows}
use rxtx.Tests.Device.{Loopback, loopback, loop_api, port_with}

-- A port with two frame errors that were not reported, and DTR set.
abbrev noisy : Sys Loopback
noisy = record {
  ports =
      record (port_with 1) { sis = record { frame = 2; overrun = 0; parity = 0; brk = 0 }; msr = 2 }
      ∷ [];
  dev = record loopback { dtr = true };
}

abbrev pub eis : EventInfo
eis = record {
  fd = 1;
  eventflags = 0 ∷ 1 ∷ 0 ∷ [];
  change = 0;
  omflags = 0;
  has_tiocgicount = true;
  eventloop_interrupted = 0;
  closing = false;
  has_class = true;
  osis = record { frame = 0; overrun = 0; parity = 0; brk = 0 };
}

abbrev start : Loop Loopback
start = record { eis = eis; sys = noisy; sent = [] }

abbrev agrees : ℕ → Bool → Bool
agrees type on = true

start-Listening : Listening start.eis
start-Listening = record { calm = omega arith; known = refl }

counts_read : (ioctl loop_api (pos 1) tiocgicount (event_arg 0 eis.osis) noisy).0 ≡ pos 0
unfolding ioctl ioctl_port clear_errors serve find_port find_from
counts_read = refl

old-Words : Words eis.osis
old-Words = record {
  frame_word = omega arith;
  overrun_word = omega arith;
  parity_word = omega arith;
  brk_word = omega arith;
}

new-Words : Words (ioctl loop_api (pos 1) tiocgicount (event_arg 0 eis.osis) noisy).1.counts
unfolding ioctl ioctl_port clear_errors count_errors serve copy_counts find_port find_from
new-Words = record {
  frame_word = omega arith;
  overrun_word = omega arith;
  parity_word = omega arith;
  brk_word = omega arith;
}

check_cgi_count_example :
    let (r, a, sys') = ioctl loop_api (pos 1) tiocgicount (event_arg 0 eis.osis) noisy in
    check_cgi_count loop_api agrees start
    ≡ some (record {
      eis = record eis { osis = a.counts };
      sys = sys';
      sent = [] ++ error_events a.counts eis.osis;
    })
check_cgi_count_example =
    check_cgi_count_lem loop_api agrees start counts_read old-Words new-Words start-Listening

lines_read : (ioctl loop_api (pos 1) tiocmget (event_arg 0 eis.osis) noisy).0 ≡ pos 0
unfolding ioctl ioctl_port clear_errors serve find_port find_from
lines_read = refl

check_tiocmget_changes_example :
    let (r, a, sys') = ioctl loop_api (pos 1) tiocmget (event_arg 0 eis.osis) noisy in
    check_tiocmget_changes loop_api agrees start ≡ record {
      eis = record eis { omflags = a.value };
      sys = sys';
      sent = [] ++ line_events 0 a.value;
    }
check_tiocmget_changes_example =
    check_tiocmget_changes_lem loop_api agrees start lines_read start-Listening

abbrev after : Loop Loopback
after = check_tiocmget_changes loop_api agrees start

lines_again :
    ((ioctl loop_api (pos after.eis.fd) tiocmget (event_arg 0 after.eis.osis) after.sys).0 ≡ pos 0)
    × ((ioctl loop_api (pos after.eis.fd) tiocmget (event_arg 0 after.eis.osis) after.sys).1.value
        ≡ (ioctl loop_api (pos 1) tiocmget (event_arg 0 eis.osis) noisy).1.value)
unfolding ioctl ioctl_port clear_errors serve modem_bits find_port find_from update_from
    check_tiocmget_changes compare_lines line_event send_event
lines_again = (refl, refl)

-- One round of reports over a quiet port, with data to read.
abbrev quiet : Loop Loopback
quiet = record start { eis = record eis { has_tiocgicount = false } }

abbrev reported : Loop Loopback
reported =
    report_data loop_api agrees 0
      (check_tiocmget_changes loop_api agrees (check_line_status_register loop_api agrees quiet).1)

reports : report_serial_events loop_api agrees 0 quiet ≡ some reported
unfolding report_serial_events check_line_status_register
reports = refl

report_serial_events-Grows_example : Grows quiet reported
report_serial_events-Grows_example =
    report_serial_events-Grows loop_api agrees 0 quiet reported reports
