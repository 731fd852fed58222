-- ===== src/Tests/Device.antt =====
-- One serial device in memory, an instance of the Win32 comm API of src/termios.c.
use rxtx.Base.{ℕ, refl, Bool, true, false, some, replicate}
use rxtx.Termios.Rates.{b9600}
use rxtx.Termios.State.{
  handle, Dcb, CommTimeouts, Termios, Port, no_parity, one_stop_bit, dtr_enable, rts_disable,
}
use rxtx.Termios.Comm.{CommApi, CommLaws}

-- The DCB, the timeouts, and the lines DTR and RTS, which are wired back to DSR and CTS.
pub record Loopback : Type 0 where
  pub dcb : Dcb
  pub timeouts : CommTimeouts
  pub dtr : Bool
  pub rts : Bool

abbrev pub plain_dcb : Dcb
plain_dcb = record {
  baud_rate = 9600;
  byte_size = 8;
  parity = no_parity;
  stop_bits = one_stop_bit;
  f_binary = true;
  f_parity = false;
  f_outx_cts_flow = false;
  f_outx_dsr_flow = false;
  f_dtr_control = dtr_enable;
  f_dsr_sensitivity = false;
  f_tx_continue_on_xoff = false;
  f_out_x = false;
  f_in_x = false;
  f_rts_control = rts_disable;
  xon_lim = 0;
  xoff_lim = 0;
  xon_char = 17;
  xoff_char = 19;
  error_char = 0;
  eof_char = 0;
  evt_char = 10;
}

abbrev pub no_timeouts : CommTimeouts
no_timeouts = record {
  read_interval_timeout = 0;
  read_total_timeout_multiplier = 0;
  read_total_timeout_constant = 0;
  write_total_timeout_multiplier = 0;
  write_total_timeout_constant = 0;
}

abbrev pub loopback : Loopback
loopback = record { dcb = plain_dcb; timeouts = no_timeouts; dtr = false; rts = false }

abbrev pub loop_api : CommApi Loopback
loop_api = record {
  create_file = λ d name. (handle 3, d);
  close_handle = λ d h. d;
  setup_comm = λ d h. (true, d);
  create_event = λ d. (true, d);
  get_comm_state = λ d h. some d.dcb;
  set_comm_state = λ d h b. (true, record d { dcb = b });
  get_comm_timeouts = λ d h. some d.timeouts;
  set_comm_timeouts = λ d h t. (true, record d { timeouts = t });
  clear_comm_error = λ d h. (
    some (record {
      ce_frame = false;
      ce_rxparity = false;
      ce_break = false;
      cb_in_que = 5;
      cb_out_que = 0;
    }),
    d,
  );
  get_comm_modem_status =
      λ d h. some (record { rlsd_on = false; ring_on = false; dsr_on = d.dtr; cts_on = d.rts });
  escape_dtr = λ d h on. record d { dtr = on };
  escape_rts = λ d h on. record d { rts = on };
  set_comm_mask = λ d h m. (true, d);
}

pub loop_laws : CommLaws loop_api
loop_laws = record {
  state_kept = λ d h b ok. refl;
  timeouts_kept = λ d h t ok. refl;
  timeouts_apart = λ d h t. refl;
}

abbrev pub raw_termios : Termios
raw_termios = record {
  c_iflag = 0;
  c_oflag = 0;
  c_cflag = 0xbd;
  c_lflag = 0;
  c_cc = replicate 32 0;
  c_ispeed = b9600;
  c_ospeed = b9600;
}

abbrev pub port_with : ℕ → Port
port_with n = record {
  filename = "COM1";
  fd = n;
  interrupt = 0;
  event_flag = 0;
  tx_happened = 0;
  hcomm = handle 3;
  ttyset = raw_termios;
  sstruct = record { custom_divisor = 0; baud_base = 115200 };
  msr = 0;
  sis = record { frame = 0; overrun = 0; parity = 0; brk = 0 };
  open_flags = 0;
}
