-- ===== src/Serial/Native/Speeds.antt =====
-- What setting a speed in set_port_params of src/SerialImp.c leaves in the structure.
-- A rate code with no bit outside CBAUD, and the structure it is set in.
use rxtx.Base.Bits.{and_assoc, bit_and-zero}
use rxtx.Termios.Masks.{replaced, kept}
use rxtx.Termios.Raw.{cfsetispeed, cfsetospeed}
use rxtx.Serial.Native.{set_speeds}
use rxtx.Termios.Flags.{cbaud, complement, clear}
use rxtx.Base.{refl, ℕ, bit_and, ◌≡◌, ◌==◌, false, ap, sym, ◌∙◌, bit_or}
use rxtx.Termios.State.{Termios}

module _ (t : Termios) (code : ℕ) (fits : bit_and code cbaud ≡ code)
    (some_rate : (code == 0) ≡ false) where
  outside : (m : ℕ) → bit_and cbaud m ≡ 0 → bit_and code m ≡ 0
  outside m h =
      ap (λ x. bit_and x m) (sym fits)
      ∙ and_assoc code cbaud m
      ∙ ap (bit_and code) h
      ∙ bit_and-zero code

  set_speeds_cflag :
      (set_speeds t code).c_cflag ≡ bit_or (clear (bit_or (clear t.c_cflag cbaud) code) cbaud) code
  unfolding set_speeds cfsetispeed cfsetospeed
  set_speeds_cflag = rw (set_speeds, outside (complement cbaud) refl, some_rate)

  pub set_speeds-cc : (set_speeds t code).c_cc ≡ t.c_cc
  unfolding set_speeds cfsetispeed cfsetospeed
  set_speeds-cc = rw (set_speeds, outside (complement cbaud) refl)

  pub set_speeds-cbaud : bit_and (set_speeds t code).c_cflag cbaud ≡ code
  set_speeds-cbaud =
      rw (set_speeds_cflag, replaced (bit_or (clear t.c_cflag cbaud) code) code cbaud cbaud refl)
        fits

  pub set_speeds-kept :
      (m : ℕ)
      → bit_and (complement cbaud) m ≡ m
      → bit_and cbaud m ≡ 0
      → bit_and (set_speeds t code).c_cflag m ≡ bit_and t.c_cflag m
  set_speeds-kept m h k =
      rw (set_speeds_cflag, kept (bit_or (clear t.c_cflag cbaud) code) code cbaud m h (outside m k))
        (kept t.c_cflag code cbaud m h (outside m k))
