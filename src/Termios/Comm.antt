-- ===== src/Termios/Comm.antt =====
-- The Win32 comm API as src/termios.c calls it: a parameter, over an abstract state `Dev` of all
-- devices. A call that returns a BOOL returns it with the new state; a call that fills a structure
-- returns `none` when it fails.
use Prim.Native.String.{String}
use rxtx.Base.{ℕ, ◌≡◌, Bool, true, Option, some, List}
use rxtx.Termios.State.{Handle, Dcb, CommTimeouts, Port}

-- The bits of the modem status that the code reads: MS_RLSD_ON, MS_RING_ON, MS_DSR_ON, MS_CTS_ON.
pub record ModemStatus : Type 0 where
  pub rlsd_on : Bool
  pub ring_on : Bool
  pub dsr_on : Bool
  pub cts_on : Bool

-- What ClearCommError reports: CE_FRAME, CE_RXPARITY and CE_BREAK, and the two queue lengths.
pub record CommError : Type 0 where
  pub ce_frame : Bool
  pub ce_rxparity : Bool
  pub ce_break : Bool
  pub cb_in_que : ℕ
  pub cb_out_que : ℕ

pub record CommApi (Dev : Type 0) : Type 0 where
  pub create_file : Dev → String → Handle × Dev
  pub close_handle : Dev → Handle → Dev
  pub setup_comm : Dev → Handle → Bool × Dev
  pub create_event : Dev → Bool × Dev
  pub get_comm_state : Dev → Handle → Option Dcb
  pub set_comm_state : Dev → Handle → Dcb → Bool × Dev
  pub get_comm_timeouts : Dev → Handle → Option CommTimeouts
  pub set_comm_timeouts : Dev → Handle → CommTimeouts → Bool × Dev
  pub clear_comm_error : Dev → Handle → Option CommError × Dev
  pub get_comm_modem_status : Dev → Handle → Option ModemStatus
  pub escape_dtr : Dev → Handle → Bool → Dev
  pub escape_rts : Dev → Handle → Bool → Dev
  pub set_comm_mask : Dev → Handle → ℕ → Bool × Dev

-- The documented behaviour that the theorems use: what a successful Set call stored, the Get call
-- returns, and setting the timeouts leaves the control settings alone.
pub record CommLaws {Dev : Type 0} (api : CommApi Dev) : Type 0 where
  pub state_kept :
      (d : Dev) (h : Handle) (b : Dcb)
      → (api.set_comm_state d h b).0 ≡ true
      → api.get_comm_state (api.set_comm_state d h b).1 h ≡ some b
  pub timeouts_kept :
      (d : Dev) (h : Handle) (t : CommTimeouts)
      → (api.set_comm_timeouts d h t).0 ≡ true
      → api.get_comm_timeouts (api.set_comm_timeouts d h t).1 h ≡ some t
  pub timeouts_apart :
      (d : Dev) (h : Handle) (t : CommTimeouts)
      → api.get_comm_state (api.set_comm_timeouts d h t).1 h ≡ api.get_comm_state d h

-- The state of the library: the list of ports, and the devices.
pub record Sys (Dev : Type 0) : Type 0 where
  pub ports : List Port
  pub dev : Dev
