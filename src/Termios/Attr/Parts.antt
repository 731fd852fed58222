-- ===== src/Termios/Attr/Parts.antt =====
-- Each part of struct termios through the DCB, of src/termios.c: the parity bits, the flags of
-- c_iflag, and the control characters.
use rxtx.Base.{
  ℕ, ◌≡◌, refl, ◌⊎◌, inl, inr, Bool, true, false, bit_and, bit_or, arith, ◌==◌, if◌then◌else◌, ◌∙◌,
  ap, ◌||◌, not, length-set, length, get_or, set, List, get_or-set_self, get_or-set_ne, ◌/◌, ◌%◌,
  ◌-◌,
}
use rxtx.Base.Bits.{bit_and_pow, and_or_left, and_or, and_assoc, zero-bit_or, bit_and-zero, or_self}
use rxtx.Termios.Flags.{
  has, cstopb, parenb, parodd, cmspar, crtscts, ixon, ixoff, ixany, vtime, vstart, vstop, veof,
}
use rxtx.Termios.State.{Dcb, CommTimeouts, two_stop_bits, one_stop_bit, rts_handshake, rts_disable}
use rxtx.Termios.Attr.{put, is_handshake, dcb_parity, get_iflag, get_cc}
use rxtx.Termios.Attr.Fields.{parity_bits, parity_field, stop_field, put-keeps}

parity_parts :
    (c : ℕ)
    → bit_and c parity_bits
      ≡ bit_or (bit_and c parenb) (bit_or (bit_and c parodd) (bit_and c cmspar))
parity_parts c =
    and_or_left c parenb (bit_or parodd cmspar)
    ∙ ap (bit_or (bit_and c parenb)) (and_or_left c parodd cmspar)

pub parity_field-dcb_parity :
    (c : ℕ) → parity_field (dcb_parity c) ≡ (if has c parenb then bit_and c parity_bits else 0)
parity_field-dcb_parity c =
    rw (parity_parts c) (split (bit_and_pow 8 c) (bit_and_pow 9 c) (bit_and_pow 30 c))
  where
    split :
        (bit_and c 0x100 ≡ 0) ⊎ (bit_and c 0x100 ≡ 0x100)
        → (bit_and c 0x200 ≡ 0) ⊎ (bit_and c 0x200 ≡ 0x200)
        → (bit_and c 0x40000000 ≡ 0) ⊎ (bit_and c 0x40000000 ≡ 0x40000000)
        → parity_field (dcb_parity c) ≡ (
            if has c parenb
            then bit_or (bit_and c parenb) (bit_or (bit_and c parodd) (bit_and c cmspar))
            else 0)
    split (inl e) o m = rw e
    split (inr e) (inl o) (inl m) = rw (e, o, m)
    split (inr e) (inl o) (inr m) = rw (e, o, m)
    split (inr e) (inr o) (inl m) = rw (e, o, m)
    split (inr e) (inr o) (inr m) = rw (e, o, m)

pub stop_field-has :
    (c : ℕ) → stop_field (if has c cstopb then two_stop_bits else one_stop_bit) c ≡ bit_and c cstopb
stop_field-has c = elim (bit_and_pow 6 c) [ inl e ↦ rw e | inr e ↦ rw e ]

pub flow_field-has :
    (c : ℕ)
    → (if has c crtscts || is_handshake (if has c crtscts then rts_handshake else rts_disable)
        then crtscts
        else 0)
      ≡ bit_and c crtscts
flow_field-has c = elim (bit_and_pow 31 c) [ inl e ↦ rw e | inr e ↦ rw e ]

-- A flag that was put reads as it was put.
pub has-put_self :
    (c b : ℕ) (on : Bool)
    → (bit_and c b ≡ 0) ⊎ (bit_and c b ≡ b)
    → bit_and b b ≡ b
    → bit_and (0xffffffff - b) b ≡ 0
    → (b == 0) ≡ false
    → has (put c b on) b ≡ on
has-put_self c b true (inl off) h k n = rw (and_or c b b, off, h, zero-bit_or b, n)
has-put_self c b true (inr on) h k n = rw (and_or c b b, on, h, or_self b, n)
has-put_self c b false d h k n = rw (and_assoc c (0xffffffff - b) b, k, bit_and-zero c)

pub has-put_other :
    (c b m : ℕ) (on : Bool)
    → bit_and b m ≡ 0
    → bit_and (0xffffffff - b) m ≡ m
    → has (put c b on) m ≡ has c m
has-put_other c b m on h k = ap (λ (x : ℕ). not (x == 0)) (put-keeps c b m on h k)

module _ (dcb : Dcb) (iflag : ℕ) where
  pub get_iflag-ixon : has (get_iflag dcb iflag) ixon ≡ dcb.f_out_x
  unfolding get_iflag
  get_iflag-ixon =
      has-put_other _ ixany ixon _ refl refl
      ∙ has-put_other _ ixoff ixon _ refl refl
      ∙ has-put_self _ ixon _ (bit_and_pow 10 _) refl refl refl

  pub get_iflag-ixoff : has (get_iflag dcb iflag) ixoff ≡ dcb.f_in_x
  unfolding get_iflag
  get_iflag-ixoff =
      has-put_other _ ixany ixoff _ refl refl
      ∙ has-put_self _ ixoff _ (bit_and_pow 12 _) refl refl refl

  pub get_iflag-ixany : has (get_iflag dcb iflag) ixany ≡ dcb.f_tx_continue_on_xoff
  unfolding get_iflag
  get_iflag-ixany = has-put_self _ ixany _ (bit_and_pow 11 _) refl refl refl

-- The four control characters after tcgetattr.
module _ (dcb : Dcb) (timeouts : CommTimeouts) (cc : List ℕ) (n : length cc ≡ 32) where
  abbrev after_time : List ℕ
  after_time = set cc vtime (timeouts.read_total_timeout_constant / 100 % 256)

  abbrev after_start : List ℕ
  after_start = set after_time vstart dcb.xon_char

  abbrev after_stop : List ℕ
  after_stop = set after_start vstop dcb.xoff_char

  pub get_cc-vtime :
      get_or (get_cc dcb timeouts cc) vtime 0 ≡ timeouts.read_total_timeout_constant / 100 % 256
  unfolding get_cc
  get_cc-vtime =
      get_or-set_ne after_stop veof vtime dcb.eof_char 0 (omega arith)
      ∙ get_or-set_ne after_start vstop vtime dcb.xoff_char 0 (omega arith)
      ∙ get_or-set_ne after_time vstart vtime dcb.xon_char 0 (omega arith)
      ∙ get_or-set_self cc vtime _ 0 (omega arith)

  pub get_cc-vstart : get_or (get_cc dcb timeouts cc) vstart 0 ≡ dcb.xon_char
  unfolding get_cc
  get_cc-vstart =
      get_or-set_ne after_stop veof vstart dcb.eof_char 0 (omega arith)
      ∙ get_or-set_ne after_start vstop vstart dcb.xoff_char 0 (omega arith)
      ∙ get_or-set_self after_time vstart dcb.xon_char 0 (omega (arith, length-set {0}, n))

  pub get_cc-vstop : get_or (get_cc dcb timeouts cc) vstop 0 ≡ dcb.xoff_char
  unfolding get_cc
  get_cc-vstop =
      get_or-set_ne after_stop veof vstop dcb.eof_char 0 (omega arith)
      ∙ get_or-set_self after_start vstop dcb.xoff_char 0 (omega (arith, length-set {0}, n))

  pub get_cc-veof : get_or (get_cc dcb timeouts cc) veof 0 ≡ dcb.eof_char
  unfolding get_cc
  get_cc-veof = get_or-set_self after_stop veof dcb.eof_char 0 (omega (arith, length-set {0}, n))
