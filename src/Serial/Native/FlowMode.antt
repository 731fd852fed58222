-- ===== src/Serial/Native/FlowMode.antt =====
-- What nativeGetFlowControlMode of src/SerialImp.c reads after setflowcontrol.
use rxtx.Termios.Attr.Fields.{put-keeps}
use rxtx.Base.{
  ℕ, ◌≡◌, refl, ◌∙◌, sym, ap, ◌==◌, not, true, false, Bool-cases, bit_and, some, length, get_or,
  ◌<◌, inl, inr, arith,
}
use rxtx.Base.Int.{ℤ, pos, ◌==ℤ◌, negsuc}
use rxtx.Termios.Flags.{has, cbaud, crtscts, cignore, vtime}
use rxtx.Termios.State.{Termios, Port}
use rxtx.Termios.Comm.{CommApi, CommLaws, Sys}
use rxtx.Termios.Ports.{find_port}
use rxtx.Termios.Speed.{b_to_cbr}
use rxtx.Termios.Attr.{tcgetattr, tcsetattr}
use rxtx.Termios.Attr.Parts.{has-put_other}
use rxtx.Termios.Attr.RoundTrip.{ReadsBack}
use rxtx.Termios.Attr.Calls.{tcgetattr-tcsetattr}
use rxtx.Serial.Params.{set_flow, get_flow}
use rxtx.Serial.Params.Flow.{normal_mode, get_flow-set_flow}
use rxtx.Serial.Native.{setflowcontrol, native_get_flow_control_mode}

get_flow-back : (t v : Termios) → ReadsBack t v → get_flow v ≡ get_flow t
unfolding get_flow
get_flow-back t v back =
    let hard : has v.c_cflag crtscts ≡ has t.c_cflag crtscts = ap (λ x. not (x == 0)) back.flow in
    rw (hard, back.in_x, back.out_x)

is_zero : (r : ℤ) → (r ==ℤ pos 0) ≡ true → r ≡ pos 0
is_zero (pos n) h = ground arith
is_zero (negsuc n) h = absurd cc

module _ {Dev : Type 0} (api : CommApi Dev) (laws : CommLaws api) where
  -- When setflowcontrol ends without an exception for an open port, and tcgetattr gave it a structure
  -- with CIGNORE clear, 32 control characters, a byte in c_cc[VTIME] and a rate that B_to_CBR knows,
  -- then nativeGetFlowControlMode returns the mode that was set, with both directions of RTS/CTS
  -- for either.
  pub native_get_flow_control_mode-setflowcontrol :
      (fd mode rate : ℕ) (p : Port) (sys : Sys Dev) (stack stack' : Termios)
      → find_port (pos fd) sys.ports ≡ some p
      → (setflowcontrol api (pos fd) mode stack sys).0 ≡ true
      → has (tcgetattr api (pos fd) sys stack).1.c_cflag cignore ≡ false
      → length (tcgetattr api (pos fd) sys stack).1.c_cc ≡ 32
      → get_or (tcgetattr api (pos fd) sys stack).1.c_cc vtime 0 < 256
      → b_to_cbr (bit_and (tcgetattr api (pos fd) sys stack).1.c_cflag cbaud) ≡ some rate
      → native_get_flow_control_mode api
          (pos fd)
          stack'
          (setflowcontrol api (pos fd) mode stack sys).1
        ≡ normal_mode mode
  unfolding setflowcontrol native_get_flow_control_mode set_flow
  native_get_flow_control_mode-setflowcontrol fd mode rate p sys stack stack' found done heeds len
        byte known =
      let (r, t) = tcgetattr api (pos fd) sys stack in
      let on = has mode 3 in
      elim (Bool-cases (r ==ℤ pos 0)) [
        | inr bad ↦
            let fails : (setflowcontrol api (pos fd) mode stack sys).0 ≡ false =
              rw (setflowcontrol, bad) in
            absurd cc
        | inl ok ↦
            let set = tcsetattr api (pos fd) (set_flow mode t) sys in
            let run : setflowcontrol api (pos fd) mode stack sys ≡ (set.0 ==ℤ pos 0, set.2) =
              rw (setflowcontrol, ok) in
            let zero = is_zero set.0 (ap (λ x. x.0) (sym run) ∙ done) in
            let (v, read, back) =
              tcgetattr-tcsetattr api laws fd p sys (set_flow mode t) stack' rate found zero
                (has-put_other t.c_cflag crtscts cignore on refl refl ∙ heeds) len byte
                (ap b_to_cbr (put-keeps t.c_cflag crtscts cbaud on refl refl) ∙ known) in
            ap (λ x. native_get_flow_control_mode api (pos fd) stack' x.1) run
            ∙ ap (λ x. get_flow x.1) read
            ∙ get_flow-back (set_flow mode t) v back
            ∙ get_flow-set_flow mode t
      ]
