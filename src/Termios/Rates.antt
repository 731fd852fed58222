-- ===== src/Termios/Rates.antt =====
-- The `B...` rate codes of src/win32termios.h, in octal there but for the last four, which are
-- written in decimal.
use rxtx.Base.{ℕ}

abbrev pub b0 : ℕ
b0 = 0

abbrev pub b50 : ℕ
b50 = 0o1

abbrev pub b75 : ℕ
b75 = 0o2

abbrev pub b110 : ℕ
b110 = 0o3

abbrev pub b134 : ℕ
b134 = 0o4

abbrev pub b150 : ℕ
b150 = 0o5

abbrev pub b200 : ℕ
b200 = 0o6

abbrev pub b300 : ℕ
b300 = 0o7

abbrev pub b600 : ℕ
b600 = 0o10

abbrev pub b1200 : ℕ
b1200 = 0o11

abbrev pub b1800 : ℕ
b1800 = 0o12

abbrev pub b2400 : ℕ
b2400 = 0o13

abbrev pub b4800 : ℕ
b4800 = 0o14

abbrev pub b9600 : ℕ
b9600 = 0o15

abbrev pub b19200 : ℕ
b19200 = 0o16

abbrev pub b38400 : ℕ
b38400 = 0o17

abbrev pub b57600 : ℕ
b57600 = 0o10001

abbrev pub b115200 : ℕ
b115200 = 0o10002

abbrev pub b230400 : ℕ
b230400 = 0o10003

abbrev pub b460800 : ℕ
b460800 = 0o10004

abbrev pub b500000 : ℕ
b500000 = 0o10005

abbrev pub b576000 : ℕ
b576000 = 0o10006

abbrev pub b921600 : ℕ
b921600 = 0o10007

abbrev pub b1000000 : ℕ
b1000000 = 0o10010

abbrev pub b1152000 : ℕ
b1152000 = 0o10011

abbrev pub b1500000 : ℕ
b1500000 = 0o10012

abbrev pub b2000000 : ℕ
b2000000 = 0o10013

abbrev pub b2500000 : ℕ
b2500000 = 0o10014

abbrev pub b3000000 : ℕ
b3000000 = 0o10015

abbrev pub b3500000 : ℕ
b3500000 = 0o10016

abbrev pub b4000000 : ℕ
b4000000 = 0o10017

abbrev pub b14400 : ℕ
b14400 = 1010001

abbrev pub b28800 : ℕ
b28800 = 1010002

abbrev pub b128000 : ℕ
b128000 = 1010003

abbrev pub b256000 : ℕ
b256000 = 1010004
