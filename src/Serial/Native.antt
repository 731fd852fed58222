-- ===== src/Serial/Native.antt =====
-- The native methods of src/SerialImp.c that set and read the settings of a port, over tcgetattr,
-- tcsetattr and ioctl of src/termios.c. `stack` is what a local struct termios holds before it is
-- filled. cfsetispeed and cfsetospeed never return a negative number (Termios.Raw), so the block
-- of set_port_params for a speed that they refuse, which reads an unset structure, is never
-- entered and is left out.
pub mod Speeds
pub mod Settings
pub mod FlowMode
use rxtx.Base.{ℕ, ◌==◌, if◌then◌else◌, not, bit_and, bit_or, Option, some, none, set, false, Bool}
use rxtx.Base.Int.{ℤ, pos, is_neg, ◌==ℤ◌}
use rxtx.Termios.Flags.{clear, has, inpck, cread, clocal, cs8, cbaud, vmin, vtime, tiocm_dtr}
use rxtx.Termios.Rates.{b9600}
use rxtx.Termios.State.{Termios}
use rxtx.Termios.Comm.{CommApi, Sys}
use rxtx.Termios.Raw.{cfsetospeed, cfsetispeed}
use rxtx.Termios.Attr.{tcgetattr, tcsetattr}
use rxtx.Serial.Speed.{translate_speed, get_java_baudrate}
use rxtx.Serial.Params.{
  translate_all, or_minus_one, get_data_bits, get_java_parity, get_stop_bits, native_get_parity,
  set_flow, get_flow,
}
use rxtx.Serial.Lines.{set_line}

-- The four fields of the Java object.
pub record JavaVars : Type 0 where
  pub speed : ℤ
  pub data_bits : ℤ
  pub stop_bits : ℕ
  pub parity : ℤ

-- The two calls that set the speed.
unfoldable pub set_speeds : Termios → ℕ → Termios
unfolding cfsetispeed cfsetospeed
set_speeds t cspeed = (cfsetospeed (cfsetispeed t cspeed).1 cspeed).1

-- The settings of configure_port.
unfoldable pub sane : Termios → Termios
unfolding set_speeds
sane t =
    set_speeds
      (record t {
        c_iflag = inpck;
        c_lflag = 0;
        c_oflag = 0;
        c_cflag = bit_or cread (bit_or cs8 clocal);
        c_cc = set (set t.c_cc vmin 0) vtime 0;
      })
      b9600

unfoldable pub java_vars : Termios → JavaVars
unfolding get_data_bits get_java_parity get_stop_bits
java_vars t = record {
  speed = or_minus_one (get_java_baudrate (bit_and t.c_cflag cbaud));
  data_bits = get_data_bits t.c_cflag;
  stop_bits = get_stop_bits t.c_cflag;
  parity = get_java_parity t.c_cflag;
}

module _ {Dev : Type 0} (api : CommApi Dev) where
  unfoldable pub configure_port : ℤ → Termios → Sys Dev → ℕ × Sys Dev
  unfolding sane
  configure_port fd stack sys =
      if is_neg fd
      then (1, sys)
      else let (r, t) = tcgetattr api fd sys stack in
        if is_neg r
        then (1, sys)
        else let (r', t', sys') = tcsetattr api fd (sane t) sys in
          (if is_neg r' then 1 else 0, sys')

  -- The speed 0 also drops DTR.
  unfoldable pub set_port_params : ℤ → ℕ → ℤ → ℤ → ℤ → Termios → Sys Dev → ℕ × Sys Dev
  unfolding set_speeds translate_all
  set_port_params fd cspeed bits stop parity stack sys =
      let (r, t) = tcgetattr api fd sys stack in
      if is_neg r then (1, sys) else elim (translate_all t.c_cflag bits stop parity) [
        | none ↦ (1, sys)
        | some cflag ↦
            let sys' = if cspeed == 0 then set_line api tiocm_dtr fd false sys else sys in
            let t' = set_speeds (record t { c_cflag = cflag }) cspeed in
            let (r', t'', sys'') = tcsetattr api fd t' sys' in (if is_neg r' then 1 else 0, sys'')
      ]

  unfoldable pub native_set_serial_port_params : ℤ → ℤ → ℤ → ℤ → ℤ → Termios → Sys Dev → ℕ × Sys Dev
  unfolding set_port_params translate_speed
  native_set_serial_port_params fd speed bits stop parity stack sys = elim (translate_speed speed) [
    | none ↦ (1, sys)
    | some cspeed ↦ set_port_params fd cspeed bits stop parity stack sys
  ]

  -- `none`: the fields are left as they are.
  unfoldable pub set_java_vars : ℤ → Termios → Sys Dev → Option JavaVars
  unfolding java_vars
  set_java_vars fd stack sys =
      let (r, t) = tcgetattr api fd sys stack in if is_neg r then none else some (java_vars t)

  -- The parity, -1 when tcgetattr fails.
  unfoldable pub get_parity_of : ℤ → Termios → Sys Dev → ℤ
  unfolding native_get_parity
  get_parity_of fd stack sys =
      let (r, t) = tcgetattr api fd sys stack in
      if is_neg r then or_minus_one none else pos (native_get_parity t.c_cflag)

  -- Whether it ends without an exception, and the state.
  unfoldable pub setflowcontrol : ℤ → ℕ → Termios → Sys Dev → Bool × Sys Dev
  unfolding set_flow
  setflowcontrol fd mode stack sys =
      let (r, t) = tcgetattr api fd sys stack in
      if not (r ==ℤ pos 0)
      then (false, sys)
      else let (r', t', sys') = tcsetattr api fd (set_flow mode t) sys in (r' ==ℤ pos 0, sys')

  -- The result of tcgetattr is not tested.
  unfoldable pub native_get_flow_control_mode : ℤ → Termios → Sys Dev → ℕ
  unfolding get_flow
  native_get_flow_control_mode fd stack sys = get_flow (tcgetattr api fd sys stack).1
