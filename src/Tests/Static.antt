-- ===== src/Tests/Static.antt =====
-- The list of preopened ports, the calls on them and the custom settings, on the loopback device.
use rxtx.Termios.Raw.{init_termios}
use rxtx.Termios.Attr.{
  tcgetattr, tcsetattr, get_port_attr, set_port_attr, send_attr, make_dcb, fill_flags, fill_attr,
  termios_to_dcb, set_timeouts,
}
use rxtx.Base.{◌≡◌, refl, some, none, true, false, [], ◌∷◌, if◌then◌else◌, ◌==◌, arith, ◌+◌}
use rxtx.Base.Int.{pos, negsuc}
use rxtx.Termios.State.{Port}
use rxtx.Termios.Comm.{Sys}
use rxtx.Termios.Ports.{
  find_port, find_from, port_opened, get_free_fd, add_port, gap_after, update_from,
}
use rxtx.Termios.Open.{serial_open, open_port, create_events, new_port, write_last, set_up}
use rxtx.Serial.Native.{configure_port, sane, set_speeds}
use rxtx.Serial.Lines.Laws.{Answers}
use rxtx.Serial.Preopened.{Node, Store, done, fault, find_preopened_ports, static_add_filename}
use rxtx.Serial.Preopened.Walk.{Chain, Absent, last_at, new_node}
use rxtx.Serial.Preopened.Forgets.{static_add_filename-forgets}
use rxtx.Serial.Preopened.Dangling.{find_preopened_ports-dangling}
use rxtx.Serial.Static.{open_mode, static_fd, native_static_set_dtr, native_static_is_dtr}
use rxtx.Serial.Static.Kept.{native_static_is_dtr-set_dtr}
use rxtx.Serial.Custom.{native_set_end_of_input_char}
use rxtx.Serial.Custom.Speeds.{
  SpeedSettings, SerialApi, native_set_baud_base, native_get_baud_base, native_set_divisor,
  native_get_divisor, native_get_divisor-set_divisor,
}
use rxtx.Tests.Settings.{two_ports}
use rxtx.Tests.Device.{Loopback, loopback, loop_api, raw_termios}

abbrev first : Node
first = record { filename = "COM1"; fd = 1; next = 20; prev = 0 }

abbrev second : Node
second = record { filename = "COM2"; fd = 2; next = 0; prev = 10 }

-- Two ports, at the addresses 10 and 20.
abbrev two : Store
two = record {
  head = 10;
  cell = λ p. if p == 10 then some first else if p == 20 then some second else none;
  fresh = 30;
  later = λ i. 31 + i;
}

two-Chain : Chain two.cell two.head (first ∷ second ∷ [])
unfolding Chain
two-Chain = ((λ e. absurd (omega arith)), refl, ((λ e. absurd (omega arith)), refl, refl))

com3-Absent : Absent "COM3" (first ∷ second ∷ [])
unfolding Absent
com3-Absent = (refl, (refl, tt))

com1-Absent : Absent "COM1" (record second { next = 30 } ∷ new_node "COM3" 3 20 ∷ [])
unfolding Absent
com1-Absent = (refl, (refl, tt))

static_add_filename-forgets_example :
    (s' : Store) × (static_add_filename 2 "COM3" 3 two ≡ done s')
    × Chain s'.cell s'.head (record second { next = 30 } ∷ new_node "COM3" 3 20 ∷ [])
    × (find_preopened_ports 2 "COM1" s' ≡ done (0, s'))
unfolding last_at
static_add_filename-forgets_example =
    static_add_filename-forgets 2 2 "COM3" "COM1" 3 first (second ∷ []) two two-Chain com3-Absent
      (λ e. absurd (omega arith)) refl (omega arith) (omega arith) com1-Absent

find_preopened_ports-dangling_example :
    (s' : Store) × (find_preopened_ports 1 "COM1" two ≡ done (1, s'))
    × (find_preopened_ports 9 "COM2" s' ≡ fault)
    × (static_add_filename 9 "COM2" 2 s' ≡ fault)
find_preopened_ports-dangling_example =
    find_preopened_ports-dangling 0 8 "COM1" "COM2" 2 first second [] two two-Chain refl refl
      (λ e. absurd (omega arith))

abbrev pub no_ports : Store
no_ports = record { head = 0; cell = λ p. none; fresh = 30; later = λ i. 31 + i }

abbrev pub closed : Sys Loopback
closed = record { ports = []; dev = loopback }

abbrev pub configured : Sys Loopback
configured =
    (configure_port loop_api (pos 1) raw_termios (serial_open loop_api "COM1" open_mode closed).1).1

pub loop-Answers : Answers loop_api
loop-Answers = λ d h. (_, refl)

pub opens :
    (static_fd loop_api 3 "COM1" raw_termios no_ports closed ≡ done (some 1, no_ports, configured))
    × ((p : Port) × (find_port (pos 1) configured.ports ≡ some p))
unfolding static_fd find_preopened_ports serial_open open_port create_events new_port write_last
    set_up port_opened get_free_fd add_port gap_after find_port find_from configure_port sane
    set_speeds tcgetattr tcsetattr get_port_attr set_port_attr send_attr make_dcb fill_flags
    fill_attr update_from termios_to_dcb set_timeouts init_termios
opens = (refl, (_, refl))

native_static_is_dtr-set_dtr_example :
    (s1 : Store) × (s2 : Store) × (sys2 : Sys Loopback) × (sys3 : Sys Loopback)
    × (native_static_set_dtr loop_api 3 255 raw_termios "COM1" true no_ports closed
        ≡ done (true, s1, sys2))
    × (native_static_is_dtr loop_api 1 "COM1" s1 sys2 ≡ done (true, s2, sys3))
    × (native_static_is_dtr loop_api 0 "COM1" s2 sys3 ≡ done (false, s2, sys3))
native_static_is_dtr-set_dtr_example =
    native_static_is_dtr-set_dtr loop_api loop-Answers 3 0 255 0 "COM1" true raw_termios opens.1.0
      no_ports closed configured refl (λ e. absurd (omega arith)) opens.0 opens.1.1

-- A device that holds the structure.
abbrev serial_api : SerialApi SpeedSettings
serial_api = record { tiocgserial = λ d. some d; tiocsserial = λ s d. (false, s) }

abbrev three : SpeedSettings
three = record { custom_divisor = pos 3; baud_base = pos 115200 }

divisor_set :
    ((native_set_baud_base serial_api (pos 9600) three).0 ≡ false)
    × ((native_set_divisor serial_api
          (pos 24)
          (native_set_baud_base serial_api (pos 9600) three).1).0
        ≡ false)
unfolding native_set_baud_base native_set_divisor
divisor_set = (refl, refl)

native_get_divisor-set_divisor_example :
    let dev =
      (native_set_divisor serial_api
        (pos 24)
        (native_set_baud_base serial_api (pos 9600) three).1).1 in
    (native_get_baud_base serial_api dev ≡ pos 9600)
    × (native_get_divisor serial_api dev ≡ native_get_divisor serial_api three)
native_get_divisor-set_divisor_example =
    native_get_divisor-set_divisor serial_api (record { reads = λ s d e. refl }) (pos 9600) (pos 24)
      three divisor_set.0 divisor_set.1

eof_set : (native_set_end_of_input_char loop_api (pos 2) (negsuc 2) raw_termios two_ports).0 ≡ true
unfolding native_set_end_of_input_char tcgetattr tcsetattr find_port find_from get_port_attr
    set_port_attr send_attr make_dcb fill_flags fill_attr
eof_set = refl
