-- ===== src/Tests/Settings.antt =====
-- The settings of a port, from the Java side, on the loopback device.
use rxtx.Base.{
  ℕ, ◌≡◌, refl, some, true, if◌then◌else◌, ◌==◌, not, ◌&&◌, [], ◌∷◌, arith, false, length, get_or,
  ◌<◌, bit_and,
}
use rxtx.Base.Int.{pos}
use rxtx.Base.Tables.{assoc}
use rxtx.Termios.Flags.{has}
use rxtx.Termios.Comm.{Sys}
use rxtx.Termios.Ports.{find_port, find_from}
use rxtx.Termios.Speed.{b_to_cbr, cbr_to_b, bytesize_to_termios}
use rxtx.Termios.Raw.{cfsetospeed, cfsetispeed}
use rxtx.Termios.Attr.{
  tcgetattr, tcsetattr, get_port_attr, set_port_attr, send_attr, make_dcb, fill_flags, fill_attr,
  get_cc, dcb_to_termios, get_cflag, get_iflag, get_stop, get_parity,
}
use rxtx.Serial.Speed.{get_java_baudrate}
use rxtx.Serial.Params.{
  translate_all, translate_data_bits, translate_stop_bits, translate_parity, native_get_parity,
  set_flow, jparity_space, jparity_even,
}
use rxtx.Serial.Params.Space.{native_get_parity-translate_parity}
use rxtx.Serial.Params.Flow.{normal_mode}
use rxtx.Serial.Native.{
  set_port_params, set_speeds, set_java_vars, setflowcontrol, native_get_flow_control_mode,
}
use rxtx.Serial.Native.Settings.{set_java_vars-set_port_params}
use rxtx.Serial.Native.FlowMode.{native_get_flow_control_mode-setflowcontrol}
use rxtx.Tests.Device.{Loopback, loopback, loop_api, loop_laws, port_with, raw_termios}

abbrev pub two_ports : Sys Loopback
two_ports = record { ports = port_with 1 ∷ port_with 2 ∷ []; dev = loopback }

-- 7 data bits, 2 stop bits and odd parity, over 8 data bits
abbrev flags_7o2 : ℕ
flags_7o2 = 0x3ed

translated_7o2 : translate_all 0xbd (pos 7) (pos 2) (pos 1) ≡ some flags_7o2
unfolding translate_all translate_data_bits translate_stop_bits translate_parity assoc
translated_7o2 = refl

space_done : (translate_parity 0xbd (pos 4)).0 ≡ 0
unfolding translate_parity assoc
space_done = refl

native_get_parity-translate_parity_example :
    native_get_parity (translate_parity 0xbd (pos 4)).1
    ≡ (if 4 == jparity_space && not (has 0xbd 1) then jparity_even else 4)
native_get_parity-translate_parity_example = native_get_parity-translate_parity 0xbd 4 space_done

pub finds_2 : find_port (pos 2) two_ports.ports ≡ some (port_with 2)
unfolding find_port find_from
finds_2 = refl

params_set :
    (set_port_params loop_api (pos 2) 13 (pos 7) (pos 2) (pos 1) raw_termios two_ports).0 ≡ 0
unfolding set_port_params tcgetattr tcsetattr find_port find_from get_port_attr set_port_attr
    send_attr make_dcb fill_flags fill_attr translate_all translate_data_bits translate_stop_bits
    translate_parity assoc set_speeds cfsetospeed cfsetispeed dcb_to_termios get_cflag get_stop
    get_parity bytesize_to_termios cbr_to_b
params_set = refl

java_13 : get_java_baudrate 13 ≡ some 9600
unfolding get_java_baudrate assoc
java_13 = refl

code_13 : b_to_cbr 13 ≡ some 9600
unfolding b_to_cbr assoc
code_13 = refl

pub read_ready :
    (has (tcgetattr loop_api (pos 2) two_ports raw_termios).1.c_cflag 0x20000 ≡ false)
    × (length (tcgetattr loop_api (pos 2) two_ports raw_termios).1.c_cc ≡ 32)
    × (get_or (tcgetattr loop_api (pos 2) two_ports raw_termios).1.c_cc 5 0 < 256)
    × (b_to_cbr (bit_and (tcgetattr loop_api (pos 2) two_ports raw_termios).1.c_cflag 0o10017)
        ≡ some 9600)
unfolding tcgetattr find_port find_from get_port_attr fill_flags fill_attr get_cc dcb_to_termios
    get_cflag get_iflag get_stop get_parity bytesize_to_termios cbr_to_b assoc b_to_cbr
read_ready = (refl, refl, omega arith, refl)

set_java_vars-set_port_params_example :
    set_java_vars loop_api
      (pos 2)
      raw_termios
      (set_port_params loop_api (pos 2) 13 (pos 7) (pos 2) (pos 1) raw_termios two_ports).1
    ≡ some (record { speed = pos 9600; data_bits = pos 7; stop_bits = 2; parity = pos 1 })
set_java_vars-set_port_params_example =
    set_java_vars-set_port_params loop_api loop_laws 2 7 2 1 13 9600 9600 (port_with 2) two_ports
      raw_termios raw_termios finds_2 params_set (λ e. absurd (omega arith)) java_13 code_13 refl
      refl read_ready.0 read_ready.1 read_ready.2

flow_set : (setflowcontrol loop_api (pos 2) 5 raw_termios two_ports).0 ≡ true
unfolding setflowcontrol set_flow tcgetattr tcsetattr find_port find_from get_port_attr
    set_port_attr send_attr make_dcb fill_flags fill_attr
flow_set = refl

native_get_flow_control_mode-setflowcontrol_example :
    native_get_flow_control_mode loop_api
      (pos 2)
      raw_termios
      (setflowcontrol loop_api (pos 2) 5 raw_termios two_ports).1
    ≡ normal_mode 5
native_get_flow_control_mode-setflowcontrol_example =
    native_get_flow_control_mode-setflowcontrol loop_api loop_laws 2 5 9600 (port_with 2) two_ports
      raw_termios raw_termios finds_2 flow_set read_ready.0 read_ready.1 read_ready.2 read_ready.3
