-- ===== src/Termios/Raw.antt =====
-- cfsetospeed and its variants, cfmakeraw, and the settings that a port starts with, of
-- src/termios.c.
pub mod Laws
use rxtx.Base.{ℕ, ◌==◌, if◌then◌else◌, not, bit_and, bit_or, List, [], ◌∷◌, replicate, set}
use rxtx.Termios.Flags.{
  complement, clear, ignbrk, brkint, parmrk, istrip, inlcr, igncr, icrnl, ixon, opost, echo, echonl,
  icanon, isig, iexten, csize, cs8, parenb, cbaud, vintr, vquit, verase, vkill, veof, vtime, vmin,
  vsusp, veol, vreprint, vwerase, vlnext, veol2,
}
use rxtx.Termios.Rates.{b9600}
use rxtx.Termios.State.{Termios, SerialStruct}

-- The result, and the structure. A speed with a bit outside CBAUD is refused by the result 0.
unfoldable pub cfsetospeed : Termios → ℕ → ℕ × Termios
cfsetospeed t speed = if not (bit_and speed (complement cbaud) == 0) then (0, t) else (
  1,
  record t {
    c_ispeed = speed;
    c_ospeed = speed;
    c_cflag = bit_or (clear t.c_cflag cbaud) (if not (speed == 0) then speed else b9600);
  },
)

unfoldable pub cfsetispeed : Termios → ℕ → ℕ × Termios
unfolding cfsetospeed
cfsetispeed t speed = cfsetospeed t speed

unfoldable pub cfsetspeed : Termios → ℕ → ℕ × Termios
unfolding cfsetospeed
cfsetspeed t speed = cfsetospeed t speed

unfoldable pub cfgetospeed : Termios → ℕ
cfgetospeed t = t.c_ospeed

unfoldable pub cfgetispeed : Termios → ℕ
cfgetispeed t = t.c_ispeed

-- The bitwise or of several flags.
abbrev flags : List ℕ → ℕ
flags [] = 0
flags (m ∷ ms) = bit_or m (flags ms)

unfoldable pub cfmakeraw : Termios → Termios
cfmakeraw t = record t {
  c_iflag =
      clear t.c_iflag
        (flags (ignbrk ∷ brkint ∷ parmrk ∷ istrip ∷ inlcr ∷ igncr ∷ icrnl ∷ ixon ∷ []));
  c_oflag = clear t.c_oflag opost;
  c_lflag = clear t.c_lflag (flags (echo ∷ echonl ∷ icanon ∷ isig ∷ iexten ∷ []));
  c_cflag = bit_or (clear t.c_cflag (flags (csize ∷ parenb ∷ []))) cs8;
}

-- memset( ttyset, 0, sizeof( struct termios ) )
abbrev pub zeroed : Termios
zeroed = record {
  c_iflag = 0;
  c_oflag = 0;
  c_cflag = 0;
  c_lflag = 0;
  c_cc = replicate 32 0;
  c_ispeed = 0;
  c_ospeed = 0;
}

-- Assignments to elements, the first one first.
abbrev assign : List ℕ → List (ℕ × ℕ) → List ℕ
assign cc [] = cc
assign cc ((i, v) ∷ rest) = assign (set cc i v) rest

-- The structure that init_termios leaves, whatever it held.
unfoldable pub init_termios : Termios
unfolding cfsetospeed cfmakeraw
init_termios =
    let raw = cfmakeraw (cfsetospeed zeroed b9600).1 in
    record raw {
      c_cc = assign raw.c_cc (
          (vintr, 0x03)
          ∷ (vquit, 0x1c)
          ∷ (verase, 0x7f)
          ∷ (vkill, 0x15)
          ∷ (veof, 0x04)
          ∷ (vtime, 0)
          ∷ (vmin, 1)
          ∷ (vsusp, 0x1a)
          ∷ (veol, b'\r')
          ∷ (vreprint, 0x12)
          ∷ (vwerase, 0x17)
          ∷ (vlnext, 0x16)
          ∷ (veol2, b'\n')
          ∷ []);
    }

abbrev pub init_serial_struct : SerialStruct
init_serial_struct = record { custom_divisor = 0; baud_base = 115200 }
