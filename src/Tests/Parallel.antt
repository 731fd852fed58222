-- ===== src/Tests/Parallel.antt =====
-- The checks of the parallel port: a printer that takes three bytes of a write and fails once, one
-- that refuses every write, one that takes nothing, and a device that gives two bytes of a read.
use rxtx.Base.{
  ℕ, zero, suc, ap, ◌∙◌, ◌≤◌, append-take-drop, length-take_le, ◌-◌, ◌≡◌, refl, Bool, true, false,
  some, none, List, [], ◌∷◌, ◌++◌, take, drop, length, arith, suc, ◌≤◌,
}
use rxtx.Base.Int.{pos}
use rxtx.Termios.Comm.{Sys}
use rxtx.Termios.Ports.{find_port, find_from}
use rxtx.Termios.Transfer.{serial_select}
use rxtx.Tests.Line.{Line, line, line_api, line_io}
use rxtx.Parallel.{
  ParApi, par_write_array, par_write_loop, par_read_byte_array, par_read_loop, par_wait,
  is_printer_busy, par_events, get_win32_parallel_status, get_win32_parallel_status_flags,
}
use rxtx.Parallel.Write.{Printer, par_write_array-printed}
use rxtx.Parallel.Loop.{par_event_loop, par_rounds}
use rxtx.Parallel.Gives.{par_write_array-gives_up, par_write_array-endless}
use rxtx.Parallel.Read.{Source, par_read_byte_array-in_order}

-- The bytes on the paper, the bytes to be read, and the writes before the first that succeeds.
record Paper : Type 0 where
  printed : List ℕ
  pending : List ℕ
  jams : ℕ

abbrev taken : ℕ → ℕ
taken zero = 3
taken (suc n) = 0

-- The bytes of a read of `n`.
abbrev few : ℕ → ℕ
few zero = 0
few (suc zero) = 1
few (suc (suc n)) = 2

few_le : (n : ℕ) → few n ≤ n
few_le zero = omega arith
few_le (suc zero) = omega arith
few_le (suc (suc n)) = omega arith

abbrev goes : ℕ → Bool
goes zero = true
goes (suc n) = false

abbrev api : ParApi Paper
api = record {
  create_file = λ d. (pos 1, d);
  close_handle = λ d. d;
  query = λ d. record { ok = true; count = 0; status = 0x40 };
  set_timeouts = λ d. d;
  write_file = λ d bytes. (
    goes d.jams,
    taken d.jams,
    record d { printed = d.printed ++ take (taken d.jams) bytes; jams = d.jams - 1 },
  );
  read_file = λ d n. (some (take (few n) d.pending), record d { pending = drop (few n) d.pending });
  fionread = λ d. some (pos (length d.pending));
}

abbrev start : Paper
start = record { printed = []; pending = 7 ∷ 8 ∷ 9 ∷ []; jams = 1 }

-- A device whose writes all end the same way, with no bytes.
abbrev stuck : Bool → ParApi Paper
stuck done = record api { write_file = λ d bytes. (done, 0, d) }

abbrev five : List ℕ
five = 1 ∷ 2 ∷ 3 ∷ 4 ∷ 5 ∷ []

prints : Printer api (λ d. d.printed)
prints = record { quiet = λ d. refl; prints = λ d bytes. refl }

writes :
    par_write_array api 4 five 1 4 start
    ≡ some (false, record start { printed = 2 ∷ 3 ∷ 4 ∷ 5 ∷ []; jams = 0 })
unfolding par_write_array par_write_loop
writes = refl

par_write_array-printed_example : (2 ∷ 3 ∷ 4 ∷ 5 ∷ []) ≡ take 4 (drop 1 five)
par_write_array-printed_example =
    par_write_array-printed api (λ d. d.printed) prints 4 five 1 4 start
      (record start { printed = 2 ∷ 3 ∷ 4 ∷ 5 ∷ []; jams = 0 }) writes

par_write_array-gives_up_example :
    (d : Paper) × (par_write_array (stuck false) 21 five 1 4 start ≡ some (true, d))
par_write_array-gives_up_example =
    par_write_array-gives_up (stuck false) 21 five 1 4 start (λ d l. (refl, refl)) refl
      (omega arith)

par_write_array-endless_example : par_write_array (stuck true) 1000 five 1 4 start ≡ none
par_write_array-endless_example =
    par_write_array-endless (stuck true) 1000 five 1 4 start (λ d l. (refl, refl)) refl

gives_few :
    (d : Paper) (n : ℕ) (bytes : List ℕ)
    → (api.read_file d n).0 ≡ some bytes
    → (d.pending ≡ bytes ++ (api.read_file d n).1.pending) × (length bytes ≤ n)
gives_few d n bytes e =
    let now : take (few n) d.pending ≡ bytes = cc in
    let bound : length (take (few n) d.pending) ≤ n =
      omega (arith, length-take_le (few n) d.pending, few_le n) in
    (
      append-take-drop (few n) d.pending ∙ ap (λ l. l ++ drop (few n) d.pending) now,
      (rw now at bound),
    )

source : Source api (λ d. d.pending)
source = record { gives = gives_few }

-- No serial port is open.
abbrev no_serial : Sys Line
no_serial = record { ports = []; dev = line }

reads :
    (par_read_byte_array line_api line_io api (pos 9) 3 2 (pos 0) start no_serial).0
    ≡ some (7 ∷ 8 ∷ [])
unfolding par_read_byte_array par_read_loop par_wait
reads = refl

par_read_byte_array-in_order_example :
    ((7 ∷ 8 ∷ 9 ∷ [])
      ≡ (7 ∷ 8 ∷ [])
        ++ (par_read_byte_array line_api line_io api (pos 9) 3 2 (pos 0) start no_serial).1.pending)
    × (2 ≤ 3)
par_read_byte_array-in_order_example =
    par_read_byte_array-in_order line_api line_io api (λ d. d.pending) source (pos 9) 3 2 (pos 0)
      start no_serial (7 ∷ 8 ∷ []) reads

times_out :
    (par_read_byte_array line_api line_io api (pos 9) 3 2 (pos 10) start no_serial).0 ≡ some []
unfolding par_read_byte_array par_read_loop par_wait serial_select find_port find_from
times_out = refl

busy : is_printer_busy api start ≡ true
unfolding is_printer_busy get_win32_parallel_status get_win32_parallel_status_flags
busy = refl

loops :
    par_event_loop line_api line_io api
      (pos 9)
      false
      ((false, start) ∷ (false, start) ∷ (true, start) ∷ [])
      no_serial
    ≡ ((1, true) ∷ (1, true) ∷ [], no_serial)
unfolding par_event_loop par_rounds par_events get_win32_parallel_status_flags serial_select
    find_port find_from
loops = refl
