-- ===== src/Serial/Static.antt =====
-- The calls of src/SerialImp.c on ports that are not open in Java: nativeStaticSetDSR,
-- nativeStaticSetRTS, nativeStaticSetDTR, nativeStaticSetSerialPortParams, nativeStaticIs... and
-- nativeStaticGet..., over the list of preopened ports and src/termios.c. LOCK and UNLOCK do
-- nothing on Windows, and serial_open is never interrupted there. `ints` and `stack` are what the
-- locals hold before a call writes them; exceptions are the result `false`.
pub mod Kept
use Prim.Native.String.{String}
use rxtx.Base.{ℕ, ◌==◌, if◌then◌else◌, not, Bool, true, false, Option, some, none, bit_and, bit_or}
use rxtx.Base.Int.{ℤ, pos, negsuc, minus_one, is_neg}
use rxtx.Termios.Flags.{
  o_nonblock, o_noctty, cbaud, tiocm_dtr, tiocm_rts, tiocm_dsr, tiocm_car, tiocm_cts, tiocm_rng,
}
use rxtx.Termios.State.{Termios}
use rxtx.Termios.Comm.{CommApi, Sys}
use rxtx.Termios.Attr.{put, tcgetattr}
use rxtx.Termios.Open.{serial_open}
use rxtx.Termios.Ioctl.{Arg, tiocmget, tiocmset, ioctl}
use rxtx.Serial.Speed.{translate_speed, get_java_baudrate}
use rxtx.Serial.Params.{or_minus_one, get_data_bits, get_java_parity, get_stop_bits}
use rxtx.Serial.Lines.{int_arg, is_line}
use rxtx.Serial.Native.{configure_port, set_port_params}
use rxtx.Serial.Preopened.{Store, Outcome, done, ◌>>=◌, find_preopened_ports, static_add_filename}

-- O_RDWR of the C library is 2.
abbrev pub open_mode : ℕ
open_mode = bit_or 2 (bit_or o_noctty o_nonblock)

-- The fd that was opened, unless configure_port failed.
abbrev pub opened : ℕ → ℤ → Option ℕ
opened r (pos fd) = if r == 0 then some fd else none
opened r (negsuc n) = none

abbrev pub code_or_zero : Option ℕ → ℕ
code_or_zero none = 0
code_or_zero (some code) = code

abbrev pub none_left : Option ℕ → Bool
none_left none = true
none_left (some code) = false

module _ {Dev : Type 0} (api : CommApi Dev) where
  unfoldable pub set_line_from : ℕ → ℕ → ℤ → Bool → Sys Dev → Sys Dev
  set_line_from m ints fd flag sys =
      let (r, a, sys') = ioctl api fd tiocmget (int_arg ints) sys in
      (ioctl api fd tiocmset (int_arg (put a.value m flag)) sys').2

module _ {Dev : Type 0} (api : CommApi Dev) (fuel : ℕ) where
  -- The fd in the list, which leaves it, or a new one.
  unfoldable pub static_fd :
      String → Termios → Store → Sys Dev → Outcome (Option ℕ × Store × Sys Dev)
  unfolding find_preopened_ports serial_open configure_port
  static_fd name stack s sys = find_preopened_ports fuel name s >>= λ (fd, s').
      let (fd', sys1) = serial_open api name open_mode sys in
      let (r, sys2) = configure_port api fd' stack sys1 in
      if fd == 0 then done (opened r fd', s', sys2) else done (some fd, s', sys)

  -- With the bit of the line.
  unfoldable pub native_static_set_line :
      ℕ → ℕ → Termios → String → Bool → Store → Sys Dev → Outcome (Bool × Store × Sys Dev)
  unfolding static_fd set_line_from static_add_filename
  native_static_set_line m ints stack name flag s sys =
      static_fd name stack s sys >>= λ (found, s', sys'). elim found [
        | none ↦ done (false, s', sys')
        | some fd ↦ static_add_filename fuel name fd s' >>= λ s''.
            done (true, s'', set_line_from api m ints (pos fd) flag sys')
      ]

  unfoldable pub native_static_set_dsr :
      ℕ → Termios → String → Bool → Store → Sys Dev → Outcome (Bool × Store × Sys Dev)
  unfolding native_static_set_line
  native_static_set_dsr ints stack name flag s sys =
      native_static_set_line tiocm_dsr ints stack name flag s sys

  unfoldable pub native_static_set_rts :
      ℕ → Termios → String → Bool → Store → Sys Dev → Outcome (Bool × Store × Sys Dev)
  unfolding native_static_set_line
  native_static_set_rts ints stack name flag s sys =
      native_static_set_line tiocm_rts ints stack name flag s sys

  unfoldable pub native_static_set_dtr :
      ℕ → Termios → String → Bool → Store → Sys Dev → Outcome (Bool × Store × Sys Dev)
  unfolding native_static_set_line
  native_static_set_dtr ints stack name flag s sys =
      native_static_set_line tiocm_dtr ints stack name flag s sys

  -- The speed is tested after the port was opened; `stack2` is for the structure of
  -- set_port_params.
  unfoldable pub native_static_set_serial_port_params :
      String
      → ℤ
      → ℤ
      → ℤ
      → ℤ
      → Termios
      → Termios
      → Store
      → Sys Dev
      → Outcome (Bool × Store × Sys Dev)
  unfolding static_fd set_port_params translate_speed static_add_filename
  native_static_set_serial_port_params name speed bits stop parity stack stack2 s sys =
      static_fd name stack s sys >>= λ (found, s', sys').
      let cspeed = translate_speed speed in
      elim found [
        | none ↦ done (false, s', sys')
        | some fd ↦
            let (r, sys'') =
              set_port_params api (pos fd) (code_or_zero cspeed) bits stop parity stack2 sys' in
            if none_left cspeed
            then done (false, s', sys')
            else if not (r == 0)
            then done (false, s', sys'')
            else (static_add_filename fuel name fd s' >>= λ s''. done (true, s'', sys''))
      ]

  -- nativeStaticIsRTS and its like, with the bit of the line.
  unfoldable pub native_static_is_line :
      ℕ → String → Store → Sys Dev → Outcome (Bool × Store × Sys Dev)
  unfolding find_preopened_ports is_line
  native_static_is_line m name s sys = find_preopened_ports fuel name s >>= λ (fd, s').
      let (on, sys') = is_line api m (pos fd) sys in
      if fd == 0 then done (false, s', sys) else done (on, s', sys')

  unfoldable pub native_static_is_rts : String → Store → Sys Dev → Outcome (Bool × Store × Sys Dev)
  unfolding native_static_is_line
  native_static_is_rts name s sys = native_static_is_line tiocm_rts name s sys

  unfoldable pub native_static_is_dsr : String → Store → Sys Dev → Outcome (Bool × Store × Sys Dev)
  unfolding native_static_is_line
  native_static_is_dsr name s sys = native_static_is_line tiocm_dsr name s sys

  unfoldable pub native_static_is_dtr : String → Store → Sys Dev → Outcome (Bool × Store × Sys Dev)
  unfolding native_static_is_line
  native_static_is_dtr name s sys = native_static_is_line tiocm_dtr name s sys

  unfoldable pub native_static_is_cd : String → Store → Sys Dev → Outcome (Bool × Store × Sys Dev)
  unfolding native_static_is_line
  native_static_is_cd name s sys = native_static_is_line tiocm_car name s sys

  unfoldable pub native_static_is_cts : String → Store → Sys Dev → Outcome (Bool × Store × Sys Dev)
  unfolding native_static_is_line
  native_static_is_cts name s sys = native_static_is_line tiocm_cts name s sys

  unfoldable pub native_static_is_ri : String → Store → Sys Dev → Outcome (Bool × Store × Sys Dev)
  unfolding native_static_is_line
  native_static_is_ri name s sys = native_static_is_line tiocm_rng name s sys

  -- What the four nativeStaticGet... share: -1 without the port or its settings.
  unfoldable pub native_static_get :
      (Termios → ℤ) → String → Termios → Store → Sys Dev → Outcome (ℤ × Store)
  unfolding find_preopened_ports tcgetattr
  native_static_get setting name stack s sys = find_preopened_ports fuel name s >>= λ (fd, s').
      let (r, t) = tcgetattr api (pos fd) sys stack in
      if fd == 0
      then done (minus_one, s')
      else if is_neg r
      then done (minus_one, s')
      else done (setting t, s')

  unfoldable pub native_static_get_baud_rate :
      String → Termios → Store → Sys Dev → Outcome (ℤ × Store)
  unfolding native_static_get get_java_baudrate
  native_static_get_baud_rate name stack s sys =
      native_static_get (λ t. or_minus_one (get_java_baudrate (bit_and t.c_cflag cbaud))) name stack
        s sys

  unfoldable pub native_static_get_data_bits :
      String → Termios → Store → Sys Dev → Outcome (ℤ × Store)
  unfolding native_static_get get_data_bits
  native_static_get_data_bits name stack s sys =
      native_static_get (λ t. get_data_bits t.c_cflag) name stack s sys

  unfoldable pub native_static_get_parity : String → Termios → Store → Sys Dev → Outcome (ℤ × Store)
  unfolding native_static_get get_java_parity
  native_static_get_parity name stack s sys =
      native_static_get (λ t. get_java_parity t.c_cflag) name stack s sys

  unfoldable pub native_static_get_stop_bits :
      String → Termios → Store → Sys Dev → Outcome (ℤ × Store)
  unfolding native_static_get get_stop_bits
  native_static_get_stop_bits name stack s sys =
      native_static_get (λ t. pos (get_stop_bits t.c_cflag)) name stack s sys
