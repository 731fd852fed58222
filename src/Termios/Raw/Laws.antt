-- ===== src/Termios/Raw/Laws.antt =====
-- What cfsetospeed and cfmakeraw of src/termios.c set and keep.
use rxtx.Termios.Masks.{replaced, kept}
use rxtx.Base.{ℕ, ◌≡◌, refl, bit_and, ◌==◌, false, Bool-cases, inl, inr, if◌then◌else◌}
use rxtx.Base.Bits.{and_assoc, bit_and-zero}
use rxtx.Termios.Flags.{complement, has, cbaud, csize, cs8, parenb, icanon, ixon}
use rxtx.Termios.Rates.{b9600}
use rxtx.Termios.State.{Termios}
use rxtx.Termios.Raw.{cfsetospeed, cfmakeraw}

-- The rate code that is stored for a speed: 9600 baud for the speed 0.
abbrev pub stored_code : ℕ → ℕ
stored_code speed = if speed == 0 then b9600 else bit_and speed cbaud

-- An accepted speed, one without bits outside CBAUD, is stored in both speed fields and, with B9600
-- in place of 0, in the CBAUD bits, and every other flag of c_cflag is kept; any other speed gives
-- the result 0 and leaves the structure as it was.
cfsetospeed_lem :
    (t : Termios) (speed : ℕ)
    → let (r, u) = cfsetospeed t speed in
      if bit_and speed (complement cbaud) == 0
      then ((r ≡ 1)
          × (u.c_ospeed ≡ speed)
          × (u.c_ispeed ≡ speed)
          × (bit_and u.c_cflag cbaud ≡ stored_code speed)
          × ((m : ℕ)
              → bit_and (complement cbaud) m ≡ m
              → bit_and speed m ≡ 0
              → bit_and b9600 m ≡ 0
              → bit_and u.c_cflag m ≡ bit_and t.c_cflag m))
      else ((r ≡ 0) × (u ≡ t))
unfolding cfsetospeed
cfsetospeed_lem t speed = elim (Bool-cases (bit_and speed (complement cbaud) == 0)) [
  | inl fits ↦ elim (Bool-cases (speed == 0)) [
    | inl z ↦
        rw (fits, z)
          (
            refl,
            refl,
            refl,
            replaced t.c_cflag b9600 cbaud cbaud refl,
            λ m h k l. kept t.c_cflag b9600 cbaud m h l,
          )
    | inr n ↦
        rw (fits, n)
          (
            refl,
            refl,
            refl,
            replaced t.c_cflag speed cbaud cbaud refl,
            λ m h k l. kept t.c_cflag speed cbaud m h k,
          )
  ]
  | inr wide ↦ rw wide (refl, refl)
]

-- After cfmakeraw the port is raw: 8 data bits, no parity, no canonical mode and no IXON, and the
-- rate is kept.
cfmakeraw_lem :
    (t : Termios)
    → let u = cfmakeraw t in
      (bit_and u.c_cflag csize ≡ cs8)
      × (bit_and u.c_cflag parenb ≡ 0)
      × (has u.c_lflag icanon ≡ false)
      × (has u.c_iflag ixon ≡ false)
      × (bit_and u.c_cflag cbaud ≡ bit_and t.c_cflag cbaud)
unfolding cfmakeraw
cfmakeraw_lem t = (
  replaced t.c_cflag cs8 0o460 csize refl,
  replaced t.c_cflag cs8 0o460 parenb refl,
  rw (and_assoc t.c_lflag _ icanon, bit_and-zero),
  rw (and_assoc t.c_iflag _ ixon, bit_and-zero),
  kept t.c_cflag cs8 0o460 cbaud refl refl,
)
