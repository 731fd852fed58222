-- ===== src/Serial/Native/Settings.antt =====
-- What set_java_vars of src/SerialImp.c reads after set_port_params.
use rxtx.Termios.Attr.Results.{tcsetattr_results}
use rxtx.Serial.Native.Speeds.{set_speeds-kept, set_speeds-cbaud, set_speeds-cc}
use rxtx.Base.Tables.{assoc}
use rxtx.Base.{
  ℕ, ◌≡◌, ◌≢◌, inl, inr, refl, ◌∙◌, sym, ap, ◌==◌, if◌then◌else◌, not, false, Bool-cases,
  Option-cases, bit_and, some, arith, length, get_or, ◌<◌, subst,
}
use rxtx.Base.Int.{pos, is_neg}
use rxtx.Termios.Flags.{has, complement, cbaud, csize, cstopb, parenb, cignore, vtime}
use rxtx.Termios.State.{Termios, Port}
use rxtx.Termios.Comm.{CommApi, CommLaws, Sys}
use rxtx.Termios.Ports.{find_port}
use rxtx.Termios.Speed.{b_to_cbr}
use rxtx.Termios.Attr.{tcgetattr, tcsetattr}
use rxtx.Termios.Attr.RoundTrip.{ReadsBack}
use rxtx.Termios.Attr.Calls.{tcgetattr-tcsetattr}
use rxtx.Serial.Speed.{get_java_baudrate}
use rxtx.Serial.Params.{
  translate_all, get_data_bits, get_java_parity, get_stop_bits, size_cases, flags_cases, mark_flags,
  or_minus_one, stopbits_1, stopbits_2, stopbits_1_5,
}
use rxtx.Serial.Params.Laws.{Translated, translate_all-Translated}
use rxtx.Serial.Native.{set_speeds, java_vars, set_port_params, set_java_vars}

-- A structure that came out of the hardware as `v` after `t'` was set, where `t'` is the translated
-- flags with a speed.
module _ (t v : Termios) (c cflag code speed n s p : ℕ) (fits : bit_and code cbaud ≡ code)
    (some_rate : (code == 0) ≡ false) (listed : get_java_baudrate code ≡ some speed)
    (done : Translated c cflag n s p)
    (back : ReadsBack (set_speeds (record t { c_cflag = cflag }) code) v) where
  abbrev goes :
      (m : ℕ)
      → bit_and (complement cbaud) m ≡ m
      → bit_and cbaud m ≡ 0
      → bit_and (set_speeds (record t { c_cflag = cflag }) code).c_cflag m ≡ bit_and cflag m
  goes = set_speeds-kept (record t { c_cflag = cflag }) code fits some_rate

  read_speed : get_java_baudrate (bit_and v.c_cflag cbaud) ≡ some speed
  read_speed =
      ap get_java_baudrate
        (back.baud ∙ set_speeds-cbaud (record t { c_cflag = cflag }) code fits some_rate)
      ∙ listed

  read_size : get_data_bits v.c_cflag ≡ pos n
  unfolding get_data_bits
  read_size =
      ap (λ x. or_minus_one (assoc x size_cases)) (back.size ∙ goes csize refl refl) ∙ done.size

  read_stop : get_stop_bits v.c_cflag ≡ s
  unfolding get_stop_bits
  read_stop =
      ap (λ x. if x == 0 then stopbits_1 else if x == cstopb then stopbits_2 else stopbits_1_5)
        (back.stop ∙ goes cstopb refl refl)
      ∙ done.stop

  read_parity : get_java_parity v.c_cflag ≡ pos p
  unfolding get_java_parity
  read_parity =
      let marks : bit_and v.c_cflag mark_flags ≡ bit_and cflag mark_flags =
        back.parity
        ∙ ap
            (λ x.
              if not (x == 0)
              then bit_and (set_speeds (record t { c_cflag = cflag }) code).c_cflag mark_flags
              else 0)
            (goes parenb refl refl)
        ∙ ap (λ x. if has cflag parenb then x else 0) (goes mark_flags refl refl)
        ∙ done.no_parity in
      ap (λ x. or_minus_one (assoc x flags_cases)) marks ∙ done.parity

  java_vars-back :
      java_vars v ≡ record { speed = pos speed; data_bits = pos n; stop_bits = s; parity = pos p }
  unfolding java_vars
  java_vars-back = rw (read_speed, read_size, read_stop, read_parity)

module _ {Dev : Type 0} (api : CommApi Dev) (laws : CommLaws api) where
  -- The settings survive the way to the device and back: when set_port_params returns 0 for an open
  -- port, with one or two stop bits, a listed speed that fits CBAUD, is not 0 and has a code that
  -- B_to_CBR knows, and tcgetattr gave a structure with CIGNORE clear, 32 control characters and a
  -- byte in c_cc[VTIME], then set_java_vars reads the speed, the data bits, the stop bits and the
  -- parity that were asked for.
  pub set_java_vars-set_port_params :
      (fd n s par code speed rate : ℕ) (p : Port) (sys : Sys Dev) (stack stack' : Termios)
      → find_port (pos fd) sys.ports ≡ some p
      → (set_port_params api (pos fd) code (pos n) (pos s) (pos par) stack sys).0 ≡ 0
      → s ≢ 3
      → get_java_baudrate code ≡ some speed
      → b_to_cbr code ≡ some rate
      → bit_and code cbaud ≡ code
      → (code == 0) ≡ false
      → has (tcgetattr api (pos fd) sys stack).1.c_cflag cignore ≡ false
      → length (tcgetattr api (pos fd) sys stack).1.c_cc ≡ 32
      → get_or (tcgetattr api (pos fd) sys stack).1.c_cc vtime 0 < 256
      → set_java_vars api
          (pos fd)
          stack'
          (set_port_params api (pos fd) code (pos n) (pos s) (pos par) stack sys).1
        ≡ some (record { speed = pos speed; data_bits = pos n; stop_bits = s; parity = pos par })
  unfolding set_port_params set_java_vars
  set_java_vars-set_port_params fd n s par code speed rate p sys stack stack' found done two listed
        known fits some_rate heeds len byte =
      let (r, t) = tcgetattr api (pos fd) sys stack in
      elim (Bool-cases (is_neg r)) [
        | inl bad ↦
            let fails : (set_port_params api (pos fd) code (pos n) (pos s) (pos par) stack sys).0
                ≡ 1 =
              rw (set_port_params, bad) in
            absurd (omega arith)
        | inr ok ↦ elim (Option-cases (translate_all t.c_cflag (pos n) (pos s) (pos par))) [
          | inl e ↦
              let fails : (set_port_params api (pos fd) code (pos n) (pos s) (pos par) stack sys).0
                  ≡ 1 =
                rw (set_port_params, ok, e) in
              absurd (omega arith)
          | inr (cflag, e) ↦
              let t' = set_speeds (record t { c_cflag = cflag }) code in
              let run : set_port_params api (pos fd) code (pos n) (pos s) (pos par) stack sys ≡ (
                (if is_neg (tcsetattr api (pos fd) t' sys).0 then 1 else 0),
                (tcsetattr api (pos fd) t' sys).2,
              ) =
                rw (set_port_params, ok, e, some_rate) in
              let flags = record t { c_cflag = cflag } in
              let good = translate_all-Translated t.c_cflag cflag n s par two e in
              elim (tcsetattr_results api (pos fd) t' sys) [
                | inr minus ↦
                    let fails : (set_port_params api (pos fd) code (pos n) (pos s) (pos par) stack
                          sys).0
                        ≡ 1 =
                      ap (λ x. x.0) run ∙ ap (λ x. if is_neg x then 1 else 0) minus in
                    absurd (omega arith)
                | inl zero ↦
                    let (v, read, back) =
                      tcgetattr-tcsetattr api laws fd p sys t' stack' rate found zero
                        (ap (λ x. not (x == 0))
                            (set_speeds-kept flags code fits some_rate cignore refl refl)
                          ∙ good.others
                          ∙ heeds)
                        (ap length (set_speeds-cc flags code fits some_rate) ∙ len)
                        (subst (λ cc. get_or cc vtime 0 < 256)
                          (sym (set_speeds-cc flags code fits some_rate)) byte)
                        (ap b_to_cbr (set_speeds-cbaud flags code fits some_rate) ∙ known) in
                    ap (λ x. set_java_vars api (pos fd) stack' x.1) run
                    ∙ rw (set_java_vars, read)
                        (ap some (
                          java_vars-back t v t.c_cflag cflag code speed n s par fits some_rate
                            listed good back))
              ]
        ]
      ]
