-- ===== src/Termios/State.antt =====
-- The state of src/termios.c: struct termios, the part of the DCB that the code reads or writes,
-- the timeouts, the counters, and an entry of the list of open ports.
use Prim.Native.String.{String}
use rxtx.Base.{ℕ, Bool, List}

-- struct termios; `c_cc` holds NCCS = 32 bytes
pub record Termios : Type 0 where
  pub c_iflag : ℕ
  pub c_oflag : ℕ
  pub c_cflag : ℕ
  pub c_lflag : ℕ
  pub c_cc : List ℕ
  pub c_ispeed : ℕ
  pub c_ospeed : ℕ

-- The constants of the Windows SDK that a DCB holds, by name.
pub data Parity : Type 0 where
  no_parity odd_parity even_parity mark_parity space_parity : Parity

pub data StopBits : Type 0 where
  one_stop_bit one5_stop_bits two_stop_bits : StopBits

pub data RtsControl : Type 0 where
  rts_disable rts_enable rts_handshake rts_toggle : RtsControl

pub data DtrControl : Type 0 where
  dtr_disable dtr_enable dtr_handshake : DtrControl

pub record Dcb : Type 0 where
  pub baud_rate : ℕ
  pub byte_size : ℕ
  pub parity : Parity
  pub stop_bits : StopBits
  pub f_binary : Bool
  pub f_parity : Bool
  pub f_outx_cts_flow : Bool
  pub f_outx_dsr_flow : Bool
  pub f_dtr_control : DtrControl
  pub f_dsr_sensitivity : Bool
  pub f_tx_continue_on_xoff : Bool
  pub f_out_x : Bool
  pub f_in_x : Bool
  pub f_rts_control : RtsControl
  pub xon_lim : ℕ
  pub xoff_lim : ℕ
  pub xon_char : ℕ
  pub xoff_char : ℕ
  pub error_char : ℕ
  pub eof_char : ℕ
  pub evt_char : ℕ

pub record CommTimeouts : Type 0 where
  pub read_interval_timeout : ℕ
  pub read_total_timeout_multiplier : ℕ
  pub read_total_timeout_constant : ℕ
  pub write_total_timeout_multiplier : ℕ
  pub write_total_timeout_constant : ℕ

-- struct serial_icounter_struct, the counters that the code touches
pub record Counters : Type 0 where
  pub frame : ℕ
  pub overrun : ℕ
  pub parity : ℕ
  pub brk : ℕ

-- struct serial_struct, the two fields that are set to other values than 0
pub record SerialStruct : Type 0 where
  pub custom_divisor : ℕ
  pub baud_base : ℕ

-- A Win32 HANDLE, with the two values that the code tells apart from the others.
pub data Handle : Type 0 where
  null_handle invalid_handle : Handle
  handle : ℕ → Handle

-- struct termios_list. The list itself is the order of the entries; `msr` holds TIOCM_DTR and TIOCM_RTS as last set.
pub record Port : Type 0 where
  pub filename : String
  pub fd : ℕ
  pub interrupt : ℕ
  pub event_flag : ℕ
  pub tx_happened : ℕ
  pub hcomm : Handle
  pub ttyset : Termios
  pub sstruct : SerialStruct
  pub msr : ℕ
  pub sis : Counters
  pub open_flags : ℕ
