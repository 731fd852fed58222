-- ===== src/Termios/Flags.antt =====
-- The flag bits of src/win32termios.h. The header writes them in octal. A `tcflag_t` is an
-- `unsigned int` of 32 bits.
use rxtx.Base.{ℕ, ◌-◌, ◌==◌, Bool, not, bit_and}

-- `~m`, at 32 bits
abbrev pub complement : ℕ → ℕ
complement m = 0xffffffff - m

-- `x &= ~m`
abbrev pub clear : ℕ → ℕ → ℕ
clear x m = bit_and x (complement m)

-- `x & m` as a condition
abbrev pub has : ℕ → ℕ → Bool
has x m = not (bit_and x m == 0)

abbrev pub ignbrk : ℕ
ignbrk = 0o1

abbrev pub brkint : ℕ
brkint = 0o2

abbrev pub ignpar : ℕ
ignpar = 0o4

abbrev pub parmrk : ℕ
parmrk = 0o10

abbrev pub inpck : ℕ
inpck = 0o20

abbrev pub istrip : ℕ
istrip = 0o40

abbrev pub inlcr : ℕ
inlcr = 0o100

abbrev pub igncr : ℕ
igncr = 0o200

abbrev pub icrnl : ℕ
icrnl = 0o400

abbrev pub ixon : ℕ
ixon = 0o2000

abbrev pub ixany : ℕ
ixany = 0o4000

abbrev pub ixoff : ℕ
ixoff = 0o10000

abbrev pub cignore : ℕ
cignore = 0o400000

abbrev pub opost : ℕ
opost = 0o1

abbrev pub cbaud : ℕ
cbaud = 0o10017

abbrev pub csize : ℕ
csize = 0o60

abbrev pub cs5 : ℕ
cs5 = 0

abbrev pub cs6 : ℕ
cs6 = 0o20

abbrev pub cs7 : ℕ
cs7 = 0o40

abbrev pub cs8 : ℕ
cs8 = 0o60

abbrev pub cstopb : ℕ
cstopb = 0o100

abbrev pub cread : ℕ
cread = 0o200

abbrev pub parenb : ℕ
parenb = 0o400

abbrev pub parodd : ℕ
parodd = 0o1000

abbrev pub clocal : ℕ
clocal = 0o4000

abbrev pub crtscts : ℕ
crtscts = 0o20000000000

abbrev pub isig : ℕ
isig = 0o1

abbrev pub icanon : ℕ
icanon = 0o2

abbrev pub echo : ℕ
echo = 0o10

abbrev pub echonl : ℕ
echonl = 0o100

abbrev pub iexten : ℕ
iexten = 0o100000

abbrev pub cmspar : ℕ
cmspar = 0o10000000000

abbrev pub tiocm_dtr : ℕ
tiocm_dtr = 0x002

abbrev pub tiocm_rts : ℕ
tiocm_rts = 0x004

abbrev pub tiocm_cts : ℕ
tiocm_cts = 0x020

abbrev pub tiocm_car : ℕ
tiocm_car = 0x040

abbrev pub tiocm_rng : ℕ
tiocm_rng = 0x080

abbrev pub tiocm_dsr : ℕ
tiocm_dsr = 0x100

abbrev pub vintr : ℕ
vintr = 0

abbrev pub vquit : ℕ
vquit = 1

abbrev pub verase : ℕ
verase = 2

abbrev pub vkill : ℕ
vkill = 3

abbrev pub veof : ℕ
veof = 4

abbrev pub vtime : ℕ
vtime = 5

abbrev pub vmin : ℕ
vmin = 6

abbrev pub vstart : ℕ
vstart = 8

abbrev pub vstop : ℕ
vstop = 9

abbrev pub vsusp : ℕ
vsusp = 10

abbrev pub veol : ℕ
veol = 11

abbrev pub vreprint : ℕ
vreprint = 12

abbrev pub vwerase : ℕ
vwerase = 14

abbrev pub vlnext : ℕ
vlnext = 15

abbrev pub veol2 : ℕ
veol2 = 16

abbrev pub o_noctty : ℕ
o_noctty = 0o400

abbrev pub o_nonblock : ℕ
o_nonblock = 0o4

abbrev pub f_setown : ℕ
f_setown = 5

abbrev pub f_setfl : ℕ
f_setfl = 4

abbrev pub f_getfl : ℕ
f_getfl = 3

abbrev pub tciflush : ℕ
tciflush = 0

abbrev pub tcoflush : ℕ
tcoflush = 1

abbrev pub tcioflush : ℕ
tcioflush = 2
