-- ===== src/Tests/Rates.antt =====
-- Rates and their codes, on examples.
use rxtx.Base.{◌≡◌, refl, some, none}
use rxtx.Base.Int.{pos}
use rxtx.Termios.Rates.{b9600}
use rxtx.Termios.Speed.{cbr_to_b, b_to_cbr}
use rxtx.Serial.Speed.{translate_speed, get_java_baudrate, speed_cases}
use rxtx.Base.Tables.{assoc}

cbr_9600 : cbr_to_b 9600 ≡ some b9600
unfolding cbr_to_b assoc
cbr_9600 = refl

code_9600 : b_to_cbr b9600 ≡ some 9600
unfolding b_to_cbr assoc
code_9600 = refl

speed_9600 : translate_speed (pos 9600) ≡ some b9600
unfolding translate_speed assoc
speed_9600 = refl

java_9600 : get_java_baudrate b9600 ≡ some 9600
unfolding get_java_baudrate assoc
java_9600 = refl

no_speed_13 : assoc b9600 speed_cases ≡ none
unfolding assoc
no_speed_13 = refl
