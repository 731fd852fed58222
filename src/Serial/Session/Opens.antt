-- ===== src/Serial/Session/Opens.antt =====
-- open of src/SerialImp.c for a port that nativeStaticSetDTR has opened before.
use Prim.Native.String.{String}
use rxtx.Base.{ℕ, suc, ◌==◌, ◌≡◌, ◌≢◌, refl, Bool, true, false, some, arith}
use rxtx.Base.Int.{pos}
use rxtx.Termios.Flags.{tiocm_dtr}
use rxtx.Termios.State.{Port, Termios}
use rxtx.Termios.Comm.{CommApi, Sys}
use rxtx.Termios.Ports.{find_port}
use rxtx.Serial.Lines.{is_dtr}
use rxtx.Serial.Lines.Laws.{Answers}
use rxtx.Serial.Native.{set_java_vars}
use rxtx.Serial.Preopened.{Store, done}
use rxtx.Serial.Preopened.Once.{alone, emptied, find-add_alone}
use rxtx.Serial.Static.{static_fd, set_line_from, native_static_set_line, native_static_set_dtr}
use rxtx.Serial.Static.Kept.{line_kept}
use rxtx.Serial.Session.{Opened, java_open}

module _ {Dev : Type 0} (api : CommApi Dev) (answers : Answers api) where
  -- A DTR that is set before open is there after it: with no preopened port, when static_fd opens
  -- the port and its device answers, nativeStaticSetDTR succeeds, and the open that follows returns
  -- the same fd, takes it out of the list, gives Java the settings that tcgetattr reads from the
  -- port then, and isDTR returns what was set. It needs a malloc that gives no null pointer.
  pub java_open-static_set_dtr :
      (fuel later ints n : ℕ) (name : String) (flag : Bool) (stack stack' : Termios) (p : Port)
      (s : Store) (sys sys1 : Sys Dev)
      → s.head ≡ 0
      → s.fresh ≢ 0
      → static_fd api fuel name stack s sys ≡ done (some (suc n), s, sys1)
      → find_port (pos (suc n)) sys1.ports ≡ some p
      → (s1 : Store) × (sys2 : Sys Dev) × (o : Opened Dev) × (native_static_set_dtr api fuel ints
            stack name flag s sys
          ≡ done (true, s1, sys2))
        × (java_open api (suc later) name stack' s1 sys2 ≡ done o)
        × (o.fd ≡ pos (suc n))
        × (o.vars ≡ set_java_vars api (pos (suc n)) stack' sys2)
        × (o.preopened.head ≡ 0)
        × ((is_dtr api (pos (suc n)) o.sys).0 ≡ flag)
  unfolding native_static_set_dtr native_static_set_line java_open is_dtr
  java_open-static_set_dtr fuel later ints n name flag stack stack' p s sys sys1 empty made fresh
        found =
      let s1 = alone name (suc n) s in
      let sys2 = set_line_from api tiocm_dtr ints (pos (suc n)) flag sys1 in
      let o : Opened Dev = record {
        fd = pos (suc n);
        vars = set_java_vars api (pos (suc n)) stack' sys2;
        preopened = emptied name (suc n) s;
        sys = sys2;
      } in
      let (added, once) = find-add_alone fuel later (suc n) name s empty made in
      let some_fd : (suc n == 0) ≡ false = ground arith in
      (
        s1,
        sys2,
        o,
        rw (native_static_set_dtr, native_static_set_line, fresh, added) refl,
        rw (java_open, once, some_fd) refl,
        refl,
        refl,
        refl,
        line_kept api answers ints n p sys1 flag found,
      )
