-- ===== src/Serial/Custom/EndOfInput.antt =====
-- What nativeGetEndOfInputChar of src/SerialImp.c returns after nativeSetEndOfInputChar.
use rxtx.Base.{
  ℕ, ◌-◌, ◌%◌, ltb, ◌≡◌, ◌<◌, refl, ◌∙◌, ap, some, true, false, Bool-cases, inl, inr, arith, length,
  get_or, set, bit_and, get_or-set_self, get_or-set_ne, length-set,
}
use rxtx.Base.Int.{ℤ, pos, negsuc, is_neg, signed_char, byte_of, IsJbyte}
use rxtx.Termios.Flags.{has, cbaud, cignore, vtime, veof}
use rxtx.Termios.State.{Termios, Port}
use rxtx.Termios.Comm.{CommApi, CommLaws, Sys}
use rxtx.Termios.Ports.{find_port}
use rxtx.Termios.Speed.{b_to_cbr}
use rxtx.Termios.Attr.{tcgetattr, tcsetattr}
use rxtx.Termios.Attr.Results.{tcsetattr_results}
use rxtx.Termios.Attr.Calls.{tcgetattr-tcsetattr}
use rxtx.Serial.Custom.{native_set_end_of_input_char, native_get_end_of_input_char}

signed_char-byte_of : (v : ℤ) → IsJbyte v → signed_char (byte_of v) ≡ v
signed_char-byte_of (pos n) h =
    let low : ltb (n % 256) 128 ≡ true = ground arith in
    let same : n % 256 ≡ n = omega arith in rw (signed_char, low) (ap pos same)
signed_char-byte_of (negsuc n) h =
    let high : ltb (255 - n % 256) 128 ≡ false = ground arith in
    let same : 255 - (255 - n % 256) ≡ n = omega arith in rw (signed_char, high) (ap negsuc same)

module _ {Dev : Type 0} (api : CommApi Dev) (laws : CommLaws api) where
  -- The end of input character is read as it was set: when nativeSetEndOfInputChar ends without an
  -- exception for an open port, and tcgetattr gave it a structure with CIGNORE clear, 32 control
  -- characters, a byte in c_cc[VTIME] and a rate that B_to_CBR knows, then nativeGetEndOfInputChar
  -- returns the Java byte that was set, also a negative one.
  native_get_end_of_input_char-set :
      (fd rate : ℕ) (value : ℤ) (p : Port) (sys : Sys Dev) (stack stack' : Termios)
      → IsJbyte value
      → find_port (pos fd) sys.ports ≡ some p
      → (native_set_end_of_input_char api (pos fd) value stack sys).0 ≡ true
      → has (tcgetattr api (pos fd) sys stack).1.c_cflag cignore ≡ false
      → length (tcgetattr api (pos fd) sys stack).1.c_cc ≡ 32
      → get_or (tcgetattr api (pos fd) sys stack).1.c_cc vtime 0 < 256
      → b_to_cbr (bit_and (tcgetattr api (pos fd) sys stack).1.c_cflag cbaud) ≡ some rate
      → native_get_end_of_input_char api
          (pos fd)
          stack'
          (native_set_end_of_input_char api (pos fd) value stack sys).1
        ≡ value
  unfolding native_set_end_of_input_char native_get_end_of_input_char
  native_get_end_of_input_char-set fd rate value p sys stack stack' byte found done heeds len time
        known =
      let (r, t) = tcgetattr api (pos fd) sys stack in
      let wanted : Termios = record t { c_cc = set t.c_cc veof (byte_of value) } in
      let (r', t', sys') = tcsetattr api (pos fd) wanted sys in
      elim (Bool-cases (is_neg r)) [
        | inl bad ↦
            let fails : (native_set_end_of_input_char api (pos fd) value stack sys).0 ≡ false =
              rw (native_set_end_of_input_char, bad) refl in
            absurd cc
        | inr ok ↦ elim (tcsetattr_results api (pos fd) wanted sys) [
          | inr bad ↦
              let fails : (native_set_end_of_input_char api (pos fd) value stack sys).0 ≡ false =
                rw (native_set_end_of_input_char, ok, bad) refl in
              absurd cc
          | inl zero_r ↦
              let run : native_set_end_of_input_char api (pos fd) value stack sys ≡ (true, sys') =
                rw (native_set_end_of_input_char, ok, zero_r) refl in
              let (v, read, back) =
                tcgetattr-tcsetattr api laws fd p sys wanted stack' rate found zero_r heeds
                  (length-set t.c_cc veof (byte_of value) ∙ len)
                  (rw (get_or-set_ne t.c_cc veof vtime (byte_of value) 0 (omega arith)) time)
                  known in
              let kept : get_or v.c_cc veof 0 ≡ byte_of value =
                back.eof ∙ get_or-set_self t.c_cc veof (byte_of value) 0 (rw len (omega arith)) in
              ap (λ x. native_get_end_of_input_char api (pos fd) stack' x.1) run
              ∙ (rw (native_get_end_of_input_char, read)
                  (ap signed_char kept ∙ signed_char-byte_of value byte))
        ]
      ]
