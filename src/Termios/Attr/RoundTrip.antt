-- ===== src/Termios/Attr/RoundTrip.antt =====
-- What fill_attr makes of the DCB that make_dcb made, of src/termios.c.
use rxtx.Base.{
  ℕ, ◌≡◌, refl, true, false, bit_and, bit_or, arith, if◌then◌else◌, ◌∙◌, ap, some, ◌<◌, length,
  get_or,
}
use rxtx.Base.Bits.{masks, and_or, and_assoc, bit_and-zero, bit_or-zero, or_self}
use rxtx.Termios.Flags.{
  has, cbaud, csize, cstopb, parenb, crtscts, ixon, ixoff, ixany, vtime, vstart, vstop, veof,
  cignore,
}
use rxtx.Termios.Speed.{cbr_to_b, b_to_cbr, termios_to_bytesize}
use rxtx.Termios.Speed.Laws.{cbr_to_b-b_to_cbr}
use rxtx.Termios.State.{Termios, Dcb, CommTimeouts}
use rxtx.Termios.Attr.{
  dword, get_cflag, dcb_to_termios, termios_to_dcb, set_input, set_timeouts, make_dcb, fill_flags,
  fill_attr,
}
use rxtx.Termios.Attr.Fields.{
  parity_bits, bytesize_returns, get_cflag-cbaud, get_cflag-csize, get_cflag-cstopb,
  get_cflag-parity, get_cflag-crtscts,
}
use rxtx.Termios.Attr.Parts.{
  parity_field-dcb_parity, stop_field-has, flow_field-has, get_iflag-ixon, get_iflag-ixoff,
  get_iflag-ixany, get_cc-vtime, get_cc-vstart, get_cc-vstop, get_cc-veof,
}

-- c_cflag as DCB_to_termios leaves it, field by field, for a DCB that was made from the same
-- c_cflag `c` and gives the rate code of `c`.
module _ (dcb : Dcb) (c code : ℕ) (same : code ≡ bit_and c cbaud) where
  abbrev final : ℕ
  final = bit_or (get_cflag dcb c) (bit_and code cbaud)

  final-apart : (m : ℕ) → bit_and cbaud m ≡ 0 → bit_and final m ≡ bit_and (get_cflag dcb c) m
  final-apart m h = rw (
    and_or (get_cflag dcb c) (bit_and code cbaud) m,
    and_assoc code cbaud m,
    h,
    bit_and-zero,
    bit_or-zero,
  )

  final-csize : dcb.byte_size ≡ termios_to_bytesize c → bit_and final csize ≡ bit_and c csize
  final-csize e =
      final-apart csize refl
      ∙ get_cflag-csize dcb c
      ∙ rw (e, bytesize_returns c) (or_self (bit_and c csize))

  final-cbaud : bit_and final cbaud ≡ bit_and c cbaud
  final-cbaud =
      and_or (get_cflag dcb c) (bit_and code cbaud) cbaud
      ∙ rw (get_cflag-cbaud dcb c, same)
          (ap (bit_or (bit_and c cbaud)) (simp masks) ∙ or_self (bit_and c cbaud))

-- The settings that survive the way to the DCB and back: `u` is read after `t` was set.
pub record ReadsBack (t u : Termios) : Type 0 where
  pub size : bit_and u.c_cflag csize ≡ bit_and t.c_cflag csize
  pub stop : bit_and u.c_cflag cstopb ≡ bit_and t.c_cflag cstopb
  pub parity :
      bit_and u.c_cflag parity_bits
      ≡ (if has t.c_cflag parenb then bit_and t.c_cflag parity_bits else 0)
  pub flow : bit_and u.c_cflag crtscts ≡ bit_and t.c_cflag crtscts
  pub baud : bit_and u.c_cflag cbaud ≡ bit_and t.c_cflag cbaud
  pub ispeed : u.c_ispeed ≡ bit_and t.c_cflag cbaud
  pub ospeed : u.c_ospeed ≡ bit_and t.c_cflag cbaud
  pub out_x : has u.c_iflag ixon ≡ has t.c_iflag ixon
  pub in_x : has u.c_iflag ixoff ≡ has t.c_iflag ixoff
  pub any_x : has u.c_iflag ixany ≡ has t.c_iflag ixany
  pub time : get_or u.c_cc vtime 0 ≡ get_or t.c_cc vtime 0
  pub start : get_or u.c_cc vstart 0 ≡ get_or t.c_cc vstart 0
  pub halt : get_or u.c_cc vstop 0 ≡ get_or t.c_cc vstop 0
  pub eof : get_or u.c_cc veof 0 ≡ get_or t.c_cc veof 0

-- The DCB that was made from `t`, and what `t` then holds.
module _ (t : Termios) (dcb : Dcb) where
  abbrev pub speeds : Termios
  speeds = record t { c_ispeed = bit_and t.c_cflag cbaud; c_ospeed = bit_and t.c_cflag cbaud }

  abbrev pub sent : Dcb
  sent = set_input speeds (termios_to_dcb t (record dcb { f_parity = true })).1

  pub made-sent : has t.c_cflag cignore ≡ false → make_dcb t dcb ≡ (speeds, sent)
  unfolding make_dcb termios_to_dcb
  made-sent heeds = rw heeds

-- Reading with that DCB and the timeouts made from `t`, over the `ttyset` that tcsetattr left.
module _ (t : Termios) (dcb : Dcb) (old : CommTimeouts) (rate : ℕ) (n : length t.c_cc ≡ 32)
    (byte : get_or t.c_cc vtime 0 < 256)
    (known : b_to_cbr (bit_and t.c_cflag cbaud) ≡ some rate) where
  abbrev s : Dcb
  s = sent t dcb

  abbrev millis : CommTimeouts
  millis = set_timeouts (speeds t dcb) old

  code-same : dword (cbr_to_b s.baud_rate) ≡ bit_and t.c_cflag cbaud
  unfolding termios_to_dcb set_input
  code-same = rw (known, cbr_to_b-b_to_cbr _ rate known)

  pub fill_attr-ReadsBack : ReadsBack t (fill_attr s millis (speeds t dcb))
  unfolding fill_attr fill_flags dcb_to_termios termios_to_dcb set_input set_timeouts
  fill_attr-ReadsBack = record {
    size = final-csize s t.c_cflag _ code-same refl;
    stop =
        final-apart s t.c_cflag _ code-same cstopb refl
        ∙ get_cflag-cstopb s t.c_cflag
        ∙ stop_field-has t.c_cflag;
    parity =
        final-apart s t.c_cflag _ code-same parity_bits refl
        ∙ get_cflag-parity s t.c_cflag
        ∙ parity_field-dcb_parity t.c_cflag;
    flow =
        final-apart s t.c_cflag _ code-same crtscts refl
        ∙ get_cflag-crtscts s t.c_cflag
        ∙ flow_field-has t.c_cflag;
    baud = final-cbaud s t.c_cflag _ code-same;
    ispeed = code-same;
    ospeed = code-same;
    out_x = get_iflag-ixon s t.c_iflag;
    in_x = get_iflag-ixoff s t.c_iflag;
    any_x = get_iflag-ixany s t.c_iflag;
    time = get_cc-vtime s millis t.c_cc n ∙ omega arith;
    start = get_cc-vstart s millis t.c_cc n;
    halt = get_cc-vstop s millis t.c_cc n;
    eof = get_cc-veof s millis t.c_cc n;
  }
