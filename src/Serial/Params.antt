-- ===== src/Serial/Params.antt =====
-- The Java constants against the flags of c_cflag, of src/SerialImp.c: the functions that translate
-- data bits, stop bits and parity, the switches that read them, and the flow control mode. A switch
-- is a table that is searched from the top; the result of a translation is 0, or 1 on an error.
pub mod Laws
pub mod Flow
pub mod Space
use rxtx.Base.{
  ℕ, zero, ◌==◌, if◌then◌else◌, not, ◌&&◌, Bool, true, false, bit_and, bit_or, Option, some, none,
  List, [], ◌∷◌, ◌||◌,
}
use rxtx.Base.Int.{ℤ, pos, negsuc, minus_one}
use rxtx.Base.Tables.{assoc}
use rxtx.Termios.Flags.{
  clear, has, csize, cs5, cs6, cs7, cs8, cstopb, parenb, parodd, cmspar, crtscts, ixon, ixoff,
  ixany,
}
use rxtx.Termios.State.{Termios}
use rxtx.Termios.Attr.{put}

abbrev pub jdatabits_5 : ℕ
jdatabits_5 = 5

abbrev pub jdatabits_6 : ℕ
jdatabits_6 = 6

abbrev pub jdatabits_7 : ℕ
jdatabits_7 = 7

abbrev pub jdatabits_8 : ℕ
jdatabits_8 = 8

abbrev pub jparity_none : ℕ
jparity_none = 0

abbrev pub jparity_odd : ℕ
jparity_odd = 1

abbrev pub jparity_even : ℕ
jparity_even = 2

abbrev pub jparity_mark : ℕ
jparity_mark = 3

abbrev pub jparity_space : ℕ
jparity_space = 4

abbrev pub stopbits_1 : ℕ
stopbits_1 = 1

abbrev pub stopbits_2 : ℕ
stopbits_2 = 2

abbrev pub stopbits_1_5 : ℕ
stopbits_1_5 = 3

abbrev pub flowcontrol_rtscts_in : ℕ
flowcontrol_rtscts_in = 1

abbrev pub flowcontrol_rtscts_out : ℕ
flowcontrol_rtscts_out = 2

abbrev pub flowcontrol_xonxoff_in : ℕ
flowcontrol_xonxoff_in = 4

abbrev pub flowcontrol_xonxoff_out : ℕ
flowcontrol_xonxoff_out = 8

-- A switch on a C int: no case is negative.
abbrev pub assoc_int : ℤ → List (ℕ × ℕ) → Option ℕ
assoc_int (pos n) cases = assoc n cases
assoc_int (negsuc n) cases = none

-- The flags of the translation

abbrev pub data_cases : List (ℕ × ℕ)
data_cases = (jdatabits_5, cs5) ∷ (jdatabits_6, cs6) ∷ (jdatabits_7, cs7) ∷ (jdatabits_8, cs8) ∷ []

abbrev pub mark_flags : ℕ
mark_flags = bit_or parenb (bit_or parodd cmspar)

abbrev pub parity_cases : List (ℕ × ℕ)
parity_cases =
    (jparity_none, 0)
    ∷ (jparity_even, parenb)
    ∷ (jparity_odd, bit_or parenb parodd)
    ∷ (jparity_mark, mark_flags)
    ∷ (jparity_space, bit_or parenb cmspar)
    ∷ []

unfoldable pub translate_data_bits : ℕ → ℤ → ℕ × ℕ
translate_data_bits cflag bits = elim (assoc_int bits data_cases) [
  | none ↦ (1, cflag)
  | some flags ↦ (0, bit_or (clear cflag csize) flags)
]

unfoldable pub translate_stop_bits : ℕ → ℤ → ℕ × ℕ
unfolding translate_data_bits
translate_stop_bits cflag (pos n) =
    if n == stopbits_1
    then (0, clear cflag cstopb)
    else if n == stopbits_1_5
    then translate_data_bits cflag (pos jdatabits_5)
    else if n == stopbits_2
    then (0, bit_or cflag cstopb)
    else (1, cflag)
translate_stop_bits cflag (negsuc n) = (1, cflag)

-- A parity that is not known clears the flags all the same.
unfoldable pub translate_parity : ℕ → ℤ → ℕ × ℕ
translate_parity cflag parity = elim (assoc_int parity parity_cases) [
  | none ↦ (1, clear cflag mark_flags)
  | some flags ↦ (0, bit_or (clear cflag mark_flags) flags)
]

-- The switches of set_java_vars, nativeStaticGetDataBits, nativeStaticGetParity and
-- nativeStaticGetStopBits; -1 where no case fits.

abbrev pub size_cases : List (ℕ × ℕ)
size_cases = (cs5, jdatabits_5) ∷ (cs6, jdatabits_6) ∷ (cs7, jdatabits_7) ∷ (cs8, jdatabits_8) ∷ []

abbrev pub flags_cases : List (ℕ × ℕ)
flags_cases =
    (0, jparity_none)
    ∷ (parenb, jparity_even)
    ∷ (bit_or parenb parodd, jparity_odd)
    ∷ (mark_flags, jparity_mark)
    ∷ (bit_or parenb cmspar, jparity_space)
    ∷ []

abbrev pub or_minus_one : Option ℕ → ℤ
or_minus_one none = minus_one
or_minus_one (some n) = pos n

unfoldable pub get_data_bits : ℕ → ℤ
get_data_bits cflag = or_minus_one (assoc (bit_and cflag csize) size_cases)

unfoldable pub get_java_parity : ℕ → ℤ
get_java_parity cflag = or_minus_one (assoc (bit_and cflag mark_flags) flags_cases)

unfoldable pub get_stop_bits : ℕ → ℕ
get_stop_bits cflag =
    let stop = bit_and cflag cstopb in
    if stop == 0 then stopbits_1 else if stop == cstopb then stopbits_2 else stopbits_1_5

-- nativeGetParity, of the flags that tcgetattr gave. The second test is written
-- `c_cflag & ( PARENB && c_cflag & CMSPAR )`: the parenthesis is 0 or 1, so bit 0 is tested.
unfoldable pub native_get_parity : ℕ → ℕ
native_get_parity cflag =
    let both = if has cflag cmspar then 1 else 0 in
    if has cflag parenb && has cflag parodd && has cflag cmspar
    then jparity_mark
    else if has cflag both
    then jparity_space
    else if has cflag parenb && has cflag parodd
    then jparity_odd
    else if has cflag parenb
    then jparity_even
    else jparity_none

-- setflowcontrol, on the structure that tcgetattr gave
unfoldable pub set_flow : ℕ → Termios → Termios
set_flow mode t =
    let rtscts = has mode (bit_or flowcontrol_rtscts_in flowcontrol_rtscts_out) in
    let cleared = clear t.c_iflag ixany in
    let input = put cleared ixoff (has mode flowcontrol_xonxoff_in) in
    record t {
      c_cflag = put t.c_cflag crtscts rtscts;
      c_iflag = put input ixon (has mode flowcontrol_xonxoff_out);
    }

-- nativeGetFlowControlMode, of the structure that tcgetattr gave
unfoldable pub get_flow : Termios → ℕ
get_flow t =
    let hard =
      if has t.c_cflag crtscts then bit_or flowcontrol_rtscts_in flowcontrol_rtscts_out else 0 in
    let input = if has t.c_iflag ixoff then bit_or hard flowcontrol_xonxoff_in else hard in
    if has t.c_iflag ixon then bit_or input flowcontrol_xonxoff_out else input

-- The rest of set_port_params after a translation: the result 1 ends it.
abbrev pub when_done : ℕ × ℕ → (ℕ → Option ℕ) → Option ℕ
when_done (r, cflag) rest = if r == 0 then rest cflag else none

-- The three translations of set_port_params, in its order; `none` is an error.
unfoldable pub translate_all : ℕ → ℤ → ℤ → ℤ → Option ℕ
unfolding translate_data_bits translate_stop_bits translate_parity
translate_all cflag bits stop parity = when_done (translate_data_bits cflag bits) (λ sized.
    when_done (translate_stop_bits sized stop)
      (λ stopped. when_done (translate_parity stopped parity) some))
