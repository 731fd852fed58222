-- ===== src/Serial/Params/Flow.antt =====
-- The flow control mode that setflowcontrol of src/SerialImp.c sets, as nativeGetFlowControlMode
-- reads it.
use rxtx.Termios.Attr.{put}
use rxtx.Base.{ℕ, ◌≡◌, refl, ◌∙◌, if◌then◌else◌, Bool, bit_or}
use rxtx.Base.Bits.{bit_and_pow}
use rxtx.Termios.Flags.{has, clear, crtscts, ixon, ixoff, ixany}
use rxtx.Termios.State.{Termios}
use rxtx.Termios.Attr.Parts.{has-put_self, has-put_other}
use rxtx.Serial.Params.{
  set_flow, get_flow, flowcontrol_rtscts_in, flowcontrol_rtscts_out, flowcontrol_xonxoff_in,
  flowcontrol_xonxoff_out,
}

-- A mode by its three switches.
abbrev pub flow_mode : Bool → Bool → Bool → ℕ
flow_mode hard input output =
    let h = if hard then bit_or flowcontrol_rtscts_in flowcontrol_rtscts_out else 0 in
    let i = if input then bit_or h flowcontrol_xonxoff_in else h in
    if output then bit_or i flowcontrol_xonxoff_out else i

-- The mode that can be read after `mode` was set: RTS/CTS has both directions or none.
abbrev pub normal_mode : ℕ → ℕ
normal_mode mode =
    flow_mode (has mode (bit_or flowcontrol_rtscts_in flowcontrol_rtscts_out))
      (has mode flowcontrol_xonxoff_in) (has mode flowcontrol_xonxoff_out)

-- The mode is read as it was set, but that either direction of RTS/CTS stands for both.
pub get_flow-set_flow : (mode : ℕ) (t : Termios) → get_flow (set_flow mode t) ≡ normal_mode mode
unfolding get_flow set_flow
get_flow-set_flow mode t =
    let hard = has-put_self t.c_cflag crtscts (has mode 3) (bit_and_pow 31 _) refl refl refl in
    let cleared = put (clear t.c_iflag ixany) ixoff (has mode flowcontrol_xonxoff_in) in
    let output =
      has-put_self cleared ixon (has mode flowcontrol_xonxoff_out) (bit_and_pow 10 _) refl refl
        refl in
    let input =
      has-put_other cleared ixon ixoff (has mode flowcontrol_xonxoff_out) refl refl
      ∙ has-put_self (clear t.c_iflag ixany) ixoff (has mode flowcontrol_xonxoff_in)
          (bit_and_pow 12 _) refl refl refl in
    rw (hard, output, input)
