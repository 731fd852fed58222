-- ===== src/Serial/Custom.antt =====
-- The native methods of src/SerialImp.c for special characters, the parity error character and the
-- end of input character, over tcgetattr and tcsetattr of src/termios.c. `stack` is what a local
-- holds before a call writes it. The baud base and the divisor, which the Windows build refuses, are
-- in Serial.Custom.Speeds.
pub mod Speeds
pub mod EndOfInput
use rxtx.Base.{ℕ, ltb, if◌then◌else◌, Bool, true, false, get_or, set, ◌||◌}
use rxtx.Base.Int.{ℤ, pos, negsuc, minus_one, is_neg, pos_part, signed_char, byte_of}
use rxtx.Termios.Flags.{veof}
use rxtx.Termios.State.{Termios, Dcb, SerialStruct}
use rxtx.Termios.Comm.{CommApi, Sys}
use rxtx.Termios.Attr.{tcgetattr, tcsetattr}
use rxtx.Termios.Io.{termios_get_parity_error_char, termios_set_parity_error}
use rxtx.Termios.Ioctl.{Arg, ioctl}

module _ {Dev : Type 0} (api : CommApi Dev) where
  unfoldable pub native_get_parity_error_char : Dcb → ℤ → Sys Dev → ℤ
  unfolding termios_get_parity_error_char
  native_get_parity_error_char stack fd sys = termios_get_parity_error_char api stack fd sys

  unfoldable pub native_set_parity_error_char : Dcb → ℤ → ℤ → Sys Dev → Bool × Sys Dev
  unfolding termios_set_parity_error
  native_set_parity_error_char stack fd value sys =
      (true, termios_set_parity_error api stack fd (byte_of value) sys)

  unfoldable pub native_get_end_of_input_char : ℤ → Termios → Sys Dev → ℤ
  native_get_end_of_input_char fd stack sys =
      let (r, t) = tcgetattr api fd sys stack in
      if is_neg r then minus_one else signed_char (get_or t.c_cc veof 0)

  -- Whether it ends without an exception.
  unfoldable pub native_set_end_of_input_char : ℤ → ℤ → Termios → Sys Dev → Bool × Sys Dev
  native_set_end_of_input_char fd value stack sys =
      let (r, t) = tcgetattr api fd sys stack in
      let (r', t', sys') =
        tcsetattr api fd (record t { c_cc = set t.c_cc veof (byte_of value) }) sys in
      if is_neg r then (false, sys) else if is_neg r' then (false, sys') else (true, sys')
