-- ===== src/Serial/Speed.antt =====
-- translate_speed and get_java_baudrate of src/SerialImp.c, with every rate of win32termios.h
-- defined. A Java speed is an `int`; `none` is the result -1.
pub mod Laws
use rxtx.Base.{ℕ, Option, some, none, List, [], ◌∷◌}
use rxtx.Base.Int.{ℤ, pos, negsuc}
use rxtx.Base.Tables.{assoc, or_else}
use rxtx.Termios.Rates.{
  b0, b50, b75, b110, b134, b150, b200, b300, b600, b1200, b1800, b2400, b4800, b9600, b14400,
  b19200, b28800, b38400, b57600, b115200, b128000, b230400, b256000, b460800, b500000, b576000,
  b921600, b1000000, b1152000, b1500000, b2000000, b2500000, b3000000, b3500000, b4000000,
}

abbrev pub speed_cases : List (ℕ × ℕ)
speed_cases =
    (0, b0)
    ∷ (50, b50)
    ∷ (75, b75)
    ∷ (110, b110)
    ∷ (134, b134)
    ∷ (150, b150)
    ∷ (200, b200)
    ∷ (300, b300)
    ∷ (600, b600)
    ∷ (1200, b1200)
    ∷ (1800, b1800)
    ∷ (2400, b2400)
    ∷ (4800, b4800)
    ∷ (9600, b9600)
    ∷ (14400, b14400)
    ∷ (19200, b19200)
    ∷ (28800, b28800)
    ∷ (38400, b38400)
    ∷ (57600, b57600)
    ∷ (115200, b115200)
    ∷ (128000, b128000)
    ∷ (230400, b230400)
    ∷ (256000, b256000)
    ∷ (460800, b460800)
    ∷ (500000, b500000)
    ∷ (576000, b576000)
    ∷ (921600, b921600)
    ∷ (1000000, b1000000)
    ∷ (1152000, b1152000)
    ∷ (1500000, b1500000)
    ∷ (2000000, b2000000)
    ∷ (2500000, b2500000)
    ∷ (3000000, b3000000)
    ∷ (3500000, b3500000)
    ∷ (4000000, b4000000)
    ∷ []

unfoldable pub translate_speed : ℤ → Option ℕ
translate_speed (pos speed) = or_else (assoc speed speed_cases) (some speed)
translate_speed (negsuc n) = none

abbrev pub java_cases : List (ℕ × ℕ)
java_cases =
    (b0, 0)
    ∷ (b50, 50)
    ∷ (b75, 75)
    ∷ (b110, 110)
    ∷ (b134, 134)
    ∷ (b150, 150)
    ∷ (b200, 200)
    ∷ (b300, 300)
    ∷ (b600, 600)
    ∷ (b1200, 1200)
    ∷ (b1800, 1800)
    ∷ (b2400, 2400)
    ∷ (b4800, 4800)
    ∷ (b9600, 9600)
    ∷ (b14400, 14400)
    ∷ (b19200, 19200)
    ∷ (b28800, 28800)
    ∷ (b38400, 38400)
    ∷ (b57600, 57600)
    ∷ (b115200, 115200)
    ∷ (b128000, 128000)
    ∷ (b230400, 230400)
    ∷ (b256000, 256000)
    ∷ (b460800, 460800)
    ∷ (b500000, 500000)
    ∷ (b576000, 576000)
    ∷ (b921600, 921600)
    ∷ (b1000000, 1000000)
    ∷ (b1152000, 1152000)
    ∷ (b1500000, 1500000)
    ∷ (b2000000, 2000000)
    ∷ (b2500000, 2500000)
    ∷ (b3000000, 3000000)
    ∷ (b3500000, 3500000)
    ∷ (b4000000, 4000000)
    ∷ []

unfoldable pub get_java_baudrate : ℕ → Option ℕ
get_java_baudrate native_speed = assoc native_speed java_cases
