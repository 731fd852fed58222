-- ===== src/Tests/Io.antt =====
-- The checks of input and output, on a line in memory.
use rxtx.Termios.Ioctl.{clear_errors, count_errors}
use rxtx.Serial.Transfer.Win.{win_api, read_byte_array-serial_read}
use rxtx.Termios.Transfer.Select.{serial_select-interrupted}
use rxtx.Termios.Transfer.Write.{serial_write-sent}
use rxtx.Termios.Transfer.Returns.{serial_read-broken_pipe}
use rxtx.Serial.Transfer.{read_byte_array, read_bytes, read_loop, read_round, after_select, clock}
use rxtx.Termios.Transfer.Order.{waiting, serial_read-in_order}
use rxtx.Termios.Transfer.{
  serial_read, serial_write, serial_select, read_port, write_port, select_port, read_rounds,
  write_bytes, select_wait, read_step, wait_input, wait_queue, wait_clock, after_await, await_read,
  end_round,
}
use rxtx.Termios.Ports.{find_port, update_from, find_from}
use rxtx.Termios.Comm.{Sys}
use rxtx.Termios.State.{Port}
use rxtx.Base.{◌≡◌, ◌≤◌, refl, ◌++◌, [], ◌∷◌, true, false, some, none, arith}
use rxtx.Base.Int.{pos, negsuc}
use rxtx.Termios.Io.{
  termios_interrupt_event_loop, tcflush, tciflush, get_fd, flush_port, fd_from, purge,
}
use rxtx.Tests.Line.{Line, line, line_api, line_io, broken_io, line-Input, line-Sink}
use rxtx.Tests.Device.{port_with}
use rxtx.Tests.Events.{eis}

abbrev listening : Port
listening = record (port_with 1) { event_flag = 5 }

abbrev sys : Sys Line
sys = record { ports = listening ∷ []; dev = line }

finds_1 : find_port (pos 1) sys.ports ≡ some listening
unfolding find_port find_from
finds_1 = refl

abbrev after_read : Sys Line
after_read = record { ports = listening ∷ []; dev = record line { bytes = 4 ∷ 5 ∷ [] } }

three_read :
    serial_read line_api line_io 9 0 (pos 1) 3 sys ≡ some (some (1 ∷ 2 ∷ 3 ∷ []), after_read)
unfolding serial_read read_port read_rounds read_step wait_input wait_queue wait_clock clear_errors
    count_errors after_await await_read find_port find_from update_from end_round
three_read = refl

serial_read-in_order_example :
    (waiting line_api line_io (λ d h. d.bytes) line-Input (pos 1) sys
      ≡ (1 ∷ 2 ∷ 3 ∷ []) ++ waiting line_api line_io (λ d h. d.bytes) line-Input (pos 1) after_read)
    × (3 ≤ 3)
serial_read-in_order_example =
    serial_read-in_order line_api line_io (λ d h. d.bytes) line-Input 9 0 (pos 1) 3 sys after_read
      (1 ∷ 2 ∷ 3 ∷ []) three_read

serial_read-broken_pipe_example : serial_read line_api broken_io 100 0 (pos 1) 3 sys ≡ none
serial_read-broken_pipe_example =
    serial_read-broken_pipe line_api broken_io 100 0 0 3 listening sys finds_1 refl (λ d h k. refl)
      (omega arith)

abbrev after_write : Sys Line
after_write = record {
  ports = record listening { tx_happened = 1 } ∷ [];
  dev = record line { output = 9 ∷ 6 ∷ 7 ∷ [] };
}

two_written :
    serial_write line_api line_io 1 (pos 1) (6 ∷ 7 ∷ 8 ∷ []) sys ≡ some (pos 2, after_write)
unfolding serial_write write_port write_bytes find_port find_from update_from
two_written = refl

serial_write-sent_example :
    (after_write.dev.output ≡ (9 ∷ []) ++ 6 ∷ 7 ∷ [])
    × (2 ≤ 3)
    × (after_write.ports ≡ update_from 1 (record listening { tx_happened = 1 }) sys.ports)
serial_write-sent_example =
    serial_write-sent line_api line_io (λ d h. d.output) (λ d h. []) line-Sink 1 0 2
      (6 ∷ 7 ∷ 8 ∷ []) listening sys after_write finds_1 two_written

serial_select-interrupted_example :
    let (ret, sys') =
      serial_select line_api line_io (pos 1) (termios_interrupt_event_loop (pos 1) 1 sys) in
    (ret ≡ true) × (sys'.dev ≡ line)
serial_select-interrupted_example =
    serial_select-interrupted line_api line_io 0 listening sys finds_1 (omega arith)

-- Without the interruption the line is waited for.
times_out : (serial_select line_api line_io (pos 1) sys).0 ≡ false
unfolding serial_select select_port select_wait clear_errors find_port find_from
times_out = refl

purged : (tcflush line_api line_io (pos 1) tciflush sys).1.dev.bytes ≡ []
unfolding tcflush flush_port purge find_port find_from
purged = refl

-- Of two entries get_fd finds the first only.
second_lost :
    get_fd "COM2"
      (record listening { filename = "COM1" } ∷ record (port_with 2) { filename = "COM2" } ∷ [])
    ≡ some (negsuc 0)
unfolding get_fd fd_from
second_lost = refl

two_bytes :
    (read_byte_array (win_api line_api line_io 9 0 (pos 1)) (pos 2) (negsuc 0) eis sys).0
    ≡ some (1 ∷ 2 ∷ [])
unfolding read_byte_array read_bytes read_loop read_round after_select clock serial_read read_port
    read_rounds read_step wait_input wait_queue wait_clock clear_errors count_errors after_await
    await_read find_port find_from update_from end_round
two_bytes = refl

read_byte_array-serial_read_example :
    (waiting line_api line_io (λ d h. d.bytes) line-Input (pos 1) sys
      ≡ (1 ∷ 2 ∷ [])
        ++ waiting line_api line_io
            (λ d h. d.bytes)
            line-Input
            (pos 1)
            (read_byte_array (win_api line_api line_io 9 0 (pos 1)) (pos 2) (negsuc 0) eis sys).2)
    × (2 ≤ 2)
read_byte_array-serial_read_example =
    read_byte_array-serial_read line_api line_io (λ d h. d.bytes) line-Input 9 0 (pos 1) (pos 2)
      (negsuc 0) eis sys (1 ∷ 2 ∷ []) two_bytes
