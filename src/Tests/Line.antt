-- ===== src/Tests/Line.antt =====
-- A line in memory with bytes to read and bytes sent, an instance of the two parameters of
-- src/termios.c.
use rxtx.Base.{
  zero, suc, ℕ, ◌≡◌, ◌≤◌, refl, subst, ◌++◌, List, [], ◌∷◌, true, false, some, take, drop, length,
  append-take-drop, length-take_le, arith, suc,
}
use rxtx.Termios.State.{handle}
use rxtx.Termios.Comm.{CommApi}
use rxtx.Termios.Io.{IoApi, read_done, broken_pipe, write_done, broken, wait_timeout}
use rxtx.Termios.Transfer.Input.{Input}
use rxtx.Termios.Transfer.Write.{Sink}
use rxtx.Termios.Transfer.Returns.{Progress}
use rxtx.Tests.Device.{plain_dcb, no_timeouts}

pub record Line : Type 0 where
  pub bytes : List ℕ
  pub output : List ℕ

abbrev pub line : Line
line = record { bytes = 1 ∷ 2 ∷ 3 ∷ 4 ∷ 5 ∷ []; output = 9 ∷ [] }

abbrev pub line_api : CommApi Line
line_api = record {
  create_file = λ d name. (handle 3, d);
  close_handle = λ d h. d;
  setup_comm = λ d h. (true, d);
  create_event = λ d. (true, d);
  get_comm_state = λ d h. some plain_dcb;
  set_comm_state = λ d h b. (true, d);
  get_comm_timeouts = λ d h. some no_timeouts;
  set_comm_timeouts = λ d h t. (true, d);
  clear_comm_error = λ d h. (
    some (record {
      ce_frame = false;
      ce_rxparity = false;
      ce_break = false;
      cb_in_que = length d.bytes;
      cb_out_que = 0;
    }),
    d,
  );
  get_comm_modem_status =
      λ d h. some (record { rlsd_on = false; ring_on = false; dsr_on = true; cts_on = true });
  escape_dtr = λ d h on. d;
  escape_rts = λ d h on. d;
  set_comm_mask = λ d h m. (true, d);
}

-- A read gets all there is; a write sends two bytes.
abbrev pub line_io : IoApi Line
line_io = record {
  reset_event = λ d h e. d;
  read_file = λ d h n. (read_done (take n d.bytes), record d { bytes = drop n d.bytes });
  read_result = λ d h n. (broken, d);
  write_file = λ d h out. (
    write_done (length (take 2 out)),
    record d { output = d.output ++ take (length (take 2 out)) out },
  );
  write_result = λ d h. (broken, d);
  wait_comm_event = λ d h. (true, d);
  wait_for = λ d h e. (wait_timeout, d);
  get_tick_count = λ d. (7, d);
  clock = λ d. (0, d);
  flush_file_buffers = λ d h. (true, d);
  last_error = λ d. 0;
  purge_rx = λ d h. (true, record d { bytes = [] });
  purge_tx = λ d h. (true, d);
  set_comm_break = λ d h. (true, d);
  clear_comm_break = λ d h. (true, d);
}

-- The same line on a broken pipe.
abbrev pub broken_io : IoApi Line
broken_io = record line_io { read_file = λ d h n. (broken_pipe [], d) }

pub line-Input : Input line_api line_io (λ d h. d.bytes)
line-Input = record {
  errors_keep = λ d g h. refl;
  reset_keeps = λ d g h e. refl;
  tick_keeps = λ d h. refl;
  clock_keeps = λ d h. refl;
  done_gives = λ d h n bytes e.
      let same : take n d.bytes ≡ bytes = cc in
      subst (λ b. (d.bytes ≡ b ++ drop n d.bytes) × (length b ≤ n)) same
        (append-take-drop n d.bytes, length-take_le n d.bytes);
  more_gives = λ d h n bytes e. absurd cc;
  broken_gives = λ d h n bytes e. absurd cc;
  pending_keeps = λ d h n e. absurd cc;
  complete_gives = λ d h n bytes e. absurd cc;
  incomplete_keeps = λ d h n e. absurd cc;
  result_keeps = λ d h n e. refl;
}

pub line-Progress : Progress line_api line_io
line-Progress = record {
  clock_goes = λ d h. omega arith;
  more_moves = λ d h n bytes e. absurd cc;
  broken_moves = λ d h n bytes e. absurd cc;
  result_waits = λ d h n e. cc;
  result_moves = λ d h n bytes e. absurd cc;
}

length-take_le_length : (n : ℕ) (xs : List ℕ) → length (take n xs) ≤ length xs
length-take_le_length zero xs = omega arith
length-take_le_length (suc n) [] = omega arith
length-take_le_length (suc n) (x ∷ xs) = omega (arith, length-take_le_length n xs)

pub line-Sink : Sink line_api line_io (λ d h. d.output) (λ d h. [])
line-Sink = record {
  mask_sent = λ d h m. refl;
  reset_sent = λ d h e. refl;
  wait_sent = λ d h e. refl;
  wait_flight = λ d h e. refl;
  done_sends = λ d h out n e.
      let same : length (take 2 out) ≡ n = cc in
      subst
        (λ k.
          (d.output ++ take (length (take 2 out)) out ≡ d.output ++ take k out) × (k ≤ length out))
        same (refl, length-take_le_length 2 out);
  pending_holds = λ d h out e. absurd cc;
  complete_sends = λ d h n e. absurd cc;
  incomplete_holds = λ d h e. absurd cc;
}
