-- ===== src/Serial/Session/Timeout.antt =====
-- The receive timeout of src/SerialImp.c, as it is read after it was set.
use rxtx.Base.{
  ℕ, suc, ◌*◌, ◌/◌, ◌%◌, ◌<◌, ◌==◌, ◌≡◌, refl, ◌∙◌, ap, not, leb, Bool-cases, true, false, some,
  length, get_or, set, inl, inr, arith, bit_and, get_or-set_self, length-set,
}
use rxtx.Base.Int.{pos, is_neg}
use rxtx.Termios.Flags.{has, cbaud, cignore, vmin, vtime}
use rxtx.Termios.State.{Termios, Port}
use rxtx.Termios.Comm.{CommApi, CommLaws, Sys}
use rxtx.Termios.Ports.{find_port}
use rxtx.Termios.Speed.{b_to_cbr}
use rxtx.Termios.Attr.{tcgetattr, tcsetattr}
use rxtx.Termios.Attr.Calls.{tcgetattr-tcsetattr}
use rxtx.Termios.Attr.Results.{tcsetattr_results}
use rxtx.Serial.Session.{
  timeout_of, native_enable_receive_timeout_threshold, native_get_receive_timeout,
  native_is_receive_timeout_enabled,
}

enabled : (n : ℕ) → not (suc n / 100 == 0) ≡ leb 100 (suc n)
enabled n = ground arith

module _ {Dev : Type 0} (api : CommApi Dev) (laws : CommLaws api) where
  -- A timeout of n milliseconds, below 25600, is read back rounded down to a tenth of a second, and
  -- is enabled only from 100 ms on: when NativeEnableReceiveTimeoutThreshold ends without an
  -- exception for an open port, and tcgetattr gave it a structure with CIGNORE clear, 32 control
  -- characters and a rate that B_to_CBR knows.
  pub get_receive_timeout-enable :
      (fd n rate : ℕ) (p : Port) (sys : Sys Dev) (stack stack' : Termios)
      → suc n < 25600
      → find_port (pos fd) sys.ports ≡ some p
      → (native_enable_receive_timeout_threshold api (pos fd) (pos (suc n)) stack sys).0 ≡ true
      → has (tcgetattr api (pos fd) sys stack).1.c_cflag cignore ≡ false
      → length (tcgetattr api (pos fd) sys stack).1.c_cc ≡ 32
      → b_to_cbr (bit_and (tcgetattr api (pos fd) sys stack).1.c_cflag cbaud) ≡ some rate
      → let sys' =
          (native_enable_receive_timeout_threshold api (pos fd) (pos (suc n)) stack sys).1 in
        (native_get_receive_timeout api (pos fd) stack' sys' ≡ some (suc n / 100 * 100))
        × (native_is_receive_timeout_enabled api (pos fd) stack' sys' ≡ some (leb 100 (suc n)))
  unfolding native_enable_receive_timeout_threshold native_get_receive_timeout
      native_is_receive_timeout_enabled
  get_receive_timeout-enable fd n rate p sys stack stack' short found done heeds len known =
      let (r, t) = tcgetattr api (pos fd) sys stack in
      let tenths = timeout_of (pos (suc n)) / 100 % 256 in
      let chars = set (set t.c_cc vmin 0) vtime tenths in
      let wanted : Termios = record t { c_cc = chars } in
      let (r', t', sys') = tcsetattr api (pos fd) wanted sys in
      let enable = native_enable_receive_timeout_threshold api (pos fd) (pos (suc n)) stack sys in
      elim (Bool-cases (is_neg r)) [
        | inl bad ↦
            let fails : enable.0 ≡ false = rw (native_enable_receive_timeout_threshold, bad) refl in
            absurd cc
        | inr ok ↦ elim (tcsetattr_results api (pos fd) wanted sys) [
          | inr bad ↦
              let fails : enable.0 ≡ false =
                rw (native_enable_receive_timeout_threshold, ok, bad) refl in
              absurd cc
          | inl zero_r ↦
              let run : enable ≡ (true, sys') =
                rw (native_enable_receive_timeout_threshold, ok, zero_r) refl in
              let whole : length chars ≡ 32 =
                length-set (set t.c_cc vmin 0) vtime tenths ∙ length-set t.c_cc vmin 0 ∙ len in
              let stored : get_or chars vtime 0 ≡ tenths =
                get_or-set_self (set t.c_cc vmin 0) vtime tenths 0
                  (rw (length-set t.c_cc vmin 0, len) (omega arith)) in
              let (v, read, back) =
                tcgetattr-tcsetattr api laws fd p sys wanted stack' rate found zero_r heeds whole
                  (rw stored (omega arith)) known in
              let same : get_or v.c_cc vtime 0 ≡ tenths = back.time ∙ stored in
              let exact : tenths ≡ suc n / 100 = ground arith in
              (
                ap (λ x. native_get_receive_timeout api (pos fd) stack' x.1) run
                    ∙ (rw (native_get_receive_timeout, read)
                        (ap (λ x. some (x * 100)) (same ∙ exact))),
                ap (λ x. native_is_receive_timeout_enabled api (pos fd) stack' x.1) run
                    ∙ (rw (native_is_receive_timeout_enabled, read)
                        (ap (λ x. some (not (x == 0))) (same ∙ exact) ∙ ap some (enabled n))),
              )
        ]
      ]
