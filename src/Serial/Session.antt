-- ===== src/Serial/Session.antt =====
-- The native methods open, nativeClose, sendBreak, nativeClearCommInput, nativeavailable and those of
-- the receive timeout, of src/SerialImp.c, in the Windows build, where LOCK and UNLOCK do nothing
-- and no call is interrupted. The fields of the Java object are parameters and results.
pub mod Opens
pub mod Closes
pub mod Timeout
use Prim.Native.String.{String}
use rxtx.Base.{
  ℕ, ◌*◌, ◌/◌, ◌%◌, ◌==◌, if◌then◌else◌, not, Bool, true, false, Option, some, none, get_or, set,
}
use rxtx.Base.Int.{ℤ, pos, negsuc, minus_one, is_neg, is_nonpos, ◌==ℤ◌}
use rxtx.Termios.Flags.{vmin, vtime}
use rxtx.Termios.State.{Termios}
use rxtx.Termios.Comm.{CommApi, Sys}
use rxtx.Termios.Attr.{tcgetattr, tcsetattr}
use rxtx.Termios.Open.{serial_open, serial_close}
use rxtx.Termios.Ioctl.{fionread, ioctl}
use rxtx.Termios.Io.{IoApi, tcflush, tcioflush, tciflush, tcsendbreak}
use rxtx.Serial.Lines.{int_arg}
use rxtx.Serial.Native.{JavaVars, configure_port, set_java_vars}
use rxtx.Serial.Preopened.{Store, Outcome, done, ◌>>=◌, find_preopened_ports}
use rxtx.Serial.Static.{open_mode}

-- What open returns and leaves behind: the fd, or -1 with an exception; the Java fields that it
-- sets, `none` when it sets none.
pub record Opened (Dev : Type 0) : Type 0 where
  pub fd : ℤ
  pub vars : Option JavaVars
  pub preopened : Store
  pub sys : Sys Dev

-- The milliseconds that are set for the argument vtime.
abbrev pub timeout_of : ℤ → ℕ
timeout_of (pos n) = if n == 0 then 1 else n
timeout_of (negsuc n) = 0

module _ {Dev : Type 0} (api : CommApi Dev) where
  -- A port that is opened here stays open when configure_port fails.
  unfoldable pub open_new : String → Termios → Store → Sys Dev → Opened Dev
  unfolding serial_open configure_port
  open_new name stack s sys =
      let (fd, sys1) = serial_open api name open_mode sys in
      let (r, sys2) = configure_port api fd stack sys1 in
      record { fd = if r == 0 then fd else minus_one; vars = none; preopened = s; sys = sys2 }

  -- `open` of the Java class.
  unfoldable pub java_open : ℕ → String → Termios → Store → Sys Dev → Outcome (Opened Dev)
  unfolding find_preopened_ports set_java_vars open_new
  java_open fuel name stack s sys = find_preopened_ports fuel name s >>= λ (fd, s').
      if fd == 0
      then done (open_new name stack s' sys)
      else done (record {
        fd = pos fd;
        vars = set_java_vars api (pos fd) stack sys;
        preopened = s';
        sys = sys;
      })

  -- With the field pid of the Java object, 0 when it is not set.
  unfoldable pub native_close : IoApi Dev → ℤ → ℤ → Sys Dev → Sys Dev
  unfolding tcflush serial_close
  native_close io pid fd sys =
      let flushed = (tcflush api io fd tcioflush sys).1 in
      if pid ==ℤ pos 0 then sys else if is_nonpos fd then sys else (serial_close api fd flushed).1

  unfoldable pub send_break : IoApi Dev → ℤ → Sys Dev → Sys Dev
  unfolding tcsendbreak
  send_break io fd sys = (tcsendbreak api io fd sys).1

  unfoldable pub native_clear_comm_input : IoApi Dev → ℤ → Sys Dev → Bool × Sys Dev
  unfolding tcflush
  native_clear_comm_input io fd sys =
      let (r, sys') = tcflush api io fd tciflush sys in (r ==ℤ pos 0, sys')

  -- The number of bytes; `none` is the exception. `stack` is what the local int holds.
  unfoldable pub native_available : ℤ → ℕ → Sys Dev → Option ℕ × Sys Dev
  native_available fd stack sys =
      let (r, a, sys') = ioctl api fd fionread (int_arg stack) sys in
      if is_neg r
      then (none, sys')
      else if a.value == 0xffffffff
      then (none, sys')
      else (some a.value, sys')

  -- Whether it ends without an exception. c_cc holds bytes.
  unfoldable pub native_enable_receive_timeout_threshold :
      ℤ → ℤ → Termios → Sys Dev → Bool × Sys Dev
  native_enable_receive_timeout_threshold fd time stack sys =
      let (r, t) = tcgetattr api fd sys stack in
      let slow = set (set t.c_cc vmin 0) vtime (timeout_of time / 100 % 256) in
      let (r', t', sys') = tcsetattr api fd (record t { c_cc = slow }) sys in
      if is_neg r then (false, sys) else if is_neg r' then (false, sys') else (true, sys')

  -- `none` is the exception.
  unfoldable pub native_get_receive_timeout : ℤ → Termios → Sys Dev → Option ℕ
  native_get_receive_timeout fd stack sys =
      let (r, t) = tcgetattr api fd sys stack in
      if is_neg r then none else some (get_or t.c_cc vtime 0 * 100)

  unfoldable pub native_is_receive_timeout_enabled : ℤ → Termios → Sys Dev → Option Bool
  native_is_receive_timeout_enabled fd stack sys =
      let (r, t) = tcgetattr api fd sys stack in
      if is_neg r then none else some (not (get_or t.c_cc vtime 0 == 0))
