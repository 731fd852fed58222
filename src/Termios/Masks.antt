-- ===== src/Termios/Masks.antt =====
-- Flags under a mask that are replaced, as the functions of src/termios.c and src/SerialImp.c do it.
-- A bit mask read back after the flags under another mask were replaced.
use rxtx.Base.Bits.{and_or, and_assoc, bit_and-zero, bit_or-zero, zero-bit_or}
use rxtx.Termios.Flags.{complement, clear}
use rxtx.Base.{ℕ, bit_and, ◌≡◌, bit_or}

pub replaced :
    (c v mask m : ℕ)
    → bit_and (complement mask) m ≡ 0
    → bit_and (bit_or (clear c mask) v) m ≡ bit_and v m
replaced c v mask m h =
    rw (and_or (clear c mask) v m, and_assoc c (complement mask) m, h, bit_and-zero, zero-bit_or)

pub kept :
    (c v mask m : ℕ)
    → bit_and (complement mask) m ≡ m
    → bit_and v m ≡ 0
    → bit_and (bit_or (clear c mask) v) m ≡ bit_and c m
kept c v mask m h k =
    rw (and_or (clear c mask) v m, and_assoc c (complement mask) m, h, k, bit_or-zero)
