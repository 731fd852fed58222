-- ===== src/Serial/Static/Kept.antt =====
-- What nativeStaticIsDTR and nativeStaticIsRTS of src/SerialImp.c return after nativeStaticSetDTR.
use Prim.Native.String.{String}
use rxtx.Base.{ℕ, suc, ◌==◌, arith, ◌≡◌, ◌≢◌, refl, ◌∙◌, Bool, true, false, some}
use rxtx.Base.Int.{pos}
use rxtx.Base.Bits.{bit_and_pow}
use rxtx.Termios.Flags.{tiocm_dtr}
use rxtx.Termios.State.{Port, Termios}
use rxtx.Termios.Comm.{CommApi, Sys}
use rxtx.Termios.Ports.{find_port}
use rxtx.Termios.Attr.{put}
use rxtx.Termios.Attr.Parts.{has-put_self}
use rxtx.Termios.Ioctl.{tiocmget, tiocmset, ioctl}
use rxtx.Serial.Lines.{int_arg, is_line}
use rxtx.Serial.Lines.Laws.{Answers, mget_found, mset_found, read_lines-found}
use rxtx.Serial.Preopened.{Store, done, find_preopened_ports}
use rxtx.Serial.Preopened.Once.{alone, emptied, find-add_alone}
use rxtx.Serial.Static.{
  static_fd, set_line_from, native_static_set_line, native_static_set_dtr, native_static_is_line,
  native_static_is_dtr,
}

module _ {Dev : Type 0} (api : CommApi Dev) (answers : Answers api) where
  pub line_kept :
      (ints fd : ℕ) (p : Port) (sys : Sys Dev) (flag : Bool)
      → find_port (pos (suc fd)) sys.ports ≡ some p
      → (is_line api tiocm_dtr
          (pos (suc fd))
          (set_line_from api tiocm_dtr ints (pos (suc fd)) flag sys)).0
        ≡ flag
  unfolding set_line_from is_line
  line_kept ints fd p sys flag found =
      let (dtr, rts, (q, then, same)) = mget_found api answers ints fd p sys found in
      let (r, a, sys1) = ioctl api (pos (suc fd)) tiocmget (int_arg ints) sys in
      let arg = int_arg (put a.value tiocm_dtr flag) in
      let (p', after, dtr', rts') = mset_found api answers fd arg q sys1 then in
      let (dtr'', rts'', _) =
        read_lines-found api answers fd p' (ioctl api (pos (suc fd)) tiocmset arg sys1).2 after in
      dtr'' ∙ dtr' ∙ has-put_self a.value tiocm_dtr flag (bit_and_pow 1 a.value) refl refl refl

  -- A DTR that is set before the port is open stays, and can be asked for once: with no preopened
  -- port, when static_fd opens the port and its device answers, nativeStaticSetDTR succeeds, the
  -- next nativeStaticIsDTR of the name returns what was set and empties the list, and one more
  -- returns false without asking any device. It needs a malloc that gives no null pointer.
  pub native_static_is_dtr-set_dtr :
      (fuel later ints n : ℕ) (name : String) (flag : Bool) (stack : Termios) (p : Port) (s : Store)
      (sys sys1 : Sys Dev)
      → s.head ≡ 0
      → s.fresh ≢ 0
      → static_fd api fuel name stack s sys ≡ done (some (suc n), s, sys1)
      → find_port (pos (suc n)) sys1.ports ≡ some p
      → (s1 : Store) × (s2 : Store) × (sys2 : Sys Dev) × (sys3 : Sys Dev) × (native_static_set_dtr
            api fuel ints stack name flag s sys
          ≡ done (true, s1, sys2))
        × (native_static_is_dtr api (suc later) name s1 sys2 ≡ done (flag, s2, sys3))
        × (native_static_is_dtr api later name s2 sys3 ≡ done (false, s2, sys3))
  unfolding native_static_set_dtr native_static_set_line native_static_is_dtr native_static_is_line
      find_preopened_ports
  native_static_is_dtr-set_dtr fuel later ints n name flag stack p s sys sys1 empty made fresh
        found =
      let s1 = alone name (suc n) s in
      let s2 = emptied name (suc n) s in
      let sys2 = set_line_from api tiocm_dtr ints (pos (suc n)) flag sys1 in
      let (on, sys3) = is_line api tiocm_dtr (pos (suc n)) sys2 in
      let kept = line_kept ints n p sys1 flag found in
      let (added, once) = find-add_alone fuel later (suc n) name s empty made in
      let some_fd : (suc n == 0) ≡ false = ground arith in
      (
        s1,
        s2,
        sys2,
        sys3,
        rw (native_static_set_dtr, native_static_set_line, fresh, added) refl,
        rw (native_static_is_dtr, native_static_is_line, once, some_fd, kept) refl,
        refl,
      )
