-- ===== src/Tests/Loop.antt =====
-- Two event loops, one of which is interrupted, on the line device.
use rxtx.Base.{ℕ, ◌≡◌, refl, some, Bool, true, false, [], ◌∷◌, arith}
use rxtx.Base.Int.{pos}
use rxtx.Termios.Ports.{find_port, find_from, update_from}
use rxtx.Termios.Ioctl.{ioctl, ioctl_port, clear_errors, count_errors, serve, modem_bits}
use rxtx.Termios.Io.{termios_interrupt_event_loop}
use rxtx.Serial.Events.{
  send_event, check_tiocmget_changes, check_line_status_register, port_has_changed_fionread,
  report_serial_events, report_data, compare_lines, line_event,
}
use rxtx.Serial.Loop.{
  Thread, World, find_tid, update_tid, finalize_event_info_struct, update_fd, closed, look, look_at,
  report, report_at, poll_and_report, poll_data, interrupt_event_loop,
}
use rxtx.Serial.Loop.Steps.{looks, reports, Run, here, next}
use rxtx.Serial.Loop.Quiet.{events_of}
use rxtx.Serial.Loop.Interrupted.{interrupted-silent}
use rxtx.Serial.Loop.Ends.{interrupted-ends}
use rxtx.Tests.Device.{port_with}
use rxtx.Tests.Events.{eis}
use rxtx.Tests.Line.{Line, line, line_api, line_io}

abbrev loop_of : ℕ → ℕ → Thread
loop_of tid fd = record {
  tid = tid;
  looked = false;
  eis = record eis { fd = fd; has_tiocgicount = false };
}

-- The first loop has sent one event.
abbrev two_loops : World Line
two_loops = record {
  threads = loop_of 0 1 ∷ loop_of 1 2 ∷ [];
  sys = record { ports = port_with 1 ∷ port_with 2 ∷ []; dev = line };
  sent = (0, (1, true)) ∷ [];
  next = 2;
}

abbrev stopped : World Line
stopped = record two_loops {
  threads = record { tid = 0; looked = false; eis = closed (loop_of 0 1).eis } ∷ loop_of 1 2 ∷ [];
  sys = termios_interrupt_event_loop (pos 1) 1 two_loops.sys;
}

interrupt_run : interrupt_event_loop 1 two_loops ≡ some stopped
unfolding interrupt_event_loop update_fd
interrupt_run = refl

abbrev agrees : ℕ → Bool → Bool
agrees type on = true

-- The second loop makes a turn, in which it sends DATA_AVAILABLE, before the first one ends.
turn : (w : World Line) × Run line_api line_io agrees stopped w
unfolding look look_at report report_at poll_and_report poll_data port_has_changed_fionread
    send_event find_tid update_tid finalize_event_info_struct report_serial_events report_data
    check_line_status_register check_tiocmget_changes compare_lines line_event ioctl ioctl_port
    clear_errors count_errors serve modem_bits find_port find_from update_from
    termios_interrupt_event_loop
turn =
    (_, next (next (next here (looks 1 stopped _ refl)) (reports 0 1 _ _ refl)) (looks 0 _ _ refl))

interrupted-silent_example : events_of 0 turn.0.sent ≡ events_of 0 two_loops.sent
interrupted-silent_example =
    interrupted-silent line_api line_io agrees [] (loop_of 1 2 ∷ []) (loop_of 0 1) two_loops stopped
      turn.0 refl tt tt ((λ e. absurd (omega arith)), tt) (omega arith) refl interrupt_run turn.1

interrupted-ends_example :
    (w' : World Line) × (w'' : World Line) × (interrupt_event_loop 1 two_loops ≡ some w')
    × (look 0 w' ≡ some w'')
    × (w''.threads ≡ loop_of 1 2 ∷ [])
    × (w''.sent ≡ two_loops.sent)
interrupted-ends_example =
    interrupted-ends [] (loop_of 1 2 ∷ []) (loop_of 0 1) two_loops refl tt tt
      ((λ e. absurd (omega arith)), tt) refl
