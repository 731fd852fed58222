-- ===== src/Serial/Lines.antt =====
-- The modem lines of src/SerialImp.c: isDSR, isCD, isCTS, isRI, isRTS, isDTR and setRTS, setDSR,
-- setDTR, over the ioctl of src/termios.c. Their int starts at 0 and the result of ioctl is not
-- tested. An is... function returns the devices as its ioctl leaves them, too.
pub mod Laws
use rxtx.Base.{ℕ, Bool}
use rxtx.Base.Int.{ℤ}
use rxtx.Termios.Flags.{has, tiocm_dtr, tiocm_rts, tiocm_cts, tiocm_car, tiocm_rng, tiocm_dsr}
use rxtx.Termios.Comm.{CommApi, Sys}
use rxtx.Termios.Attr.{put}
use rxtx.Termios.Ioctl.{Arg, tiocmget, tiocmset, ioctl}

abbrev pub int_arg : ℕ → Arg
int_arg v = record { value = v; counts = record { frame = 0; overrun = 0; parity = 0; brk = 0 } }

module _ {Dev : Type 0} (api : CommApi Dev) where
  unfoldable pub read_lines : ℤ → Sys Dev → ℕ × Sys Dev
  read_lines fd sys = let (r, a, sys') = ioctl api fd tiocmget (int_arg 0) sys in (a.value, sys')

  unfoldable pub is_line : ℕ → ℤ → Sys Dev → Bool × Sys Dev
  unfolding read_lines
  is_line m fd sys = let (v, sys') = read_lines fd sys in (has v m, sys')

  unfoldable pub set_line : ℕ → ℤ → Bool → Sys Dev → Sys Dev
  unfolding read_lines
  set_line m fd state sys =
      let (v, sys') = read_lines fd sys in (ioctl api fd tiocmset (int_arg (put v m state)) sys').2

  unfoldable pub is_dsr : ℤ → Sys Dev → Bool × Sys Dev
  unfolding is_line
  is_dsr fd sys = is_line tiocm_dsr fd sys

  unfoldable pub is_cd : ℤ → Sys Dev → Bool × Sys Dev
  unfolding is_line
  is_cd fd sys = is_line tiocm_car fd sys

  unfoldable pub is_cts : ℤ → Sys Dev → Bool × Sys Dev
  unfolding is_line
  is_cts fd sys = is_line tiocm_cts fd sys

  unfoldable pub is_ri : ℤ → Sys Dev → Bool × Sys Dev
  unfolding is_line
  is_ri fd sys = is_line tiocm_rng fd sys

  unfoldable pub is_rts : ℤ → Sys Dev → Bool × Sys Dev
  unfolding is_line
  is_rts fd sys = is_line tiocm_rts fd sys

  unfoldable pub is_dtr : ℤ → Sys Dev → Bool × Sys Dev
  unfolding is_line
  is_dtr fd sys = is_line tiocm_dtr fd sys

  unfoldable pub set_rts : ℤ → Bool → Sys Dev → Sys Dev
  unfolding set_line
  set_rts fd state sys = set_line tiocm_rts fd state sys

  unfoldable pub set_dsr : ℤ → Bool → Sys Dev → Sys Dev
  unfolding set_line
  set_dsr fd state sys = set_line tiocm_dsr fd state sys

  unfoldable pub set_dtr : ℤ → Bool → Sys Dev → Sys Dev
  unfolding set_line
  set_dtr fd state sys = set_line tiocm_dtr fd state sys
