-- ===== src/Termios/Attr/Fields.antt =====
-- The fields of c_cflag that tcgetattr reads back from the DCB that tcsetattr made.
use rxtx.Base.{
  ℕ, ◌≡◌, refl, ◌⊎◌, inl, inr, Bool, true, false, bit_and, bit_or, arith, if◌then◌else◌, ◌∙◌, ◌||◌,
  ◌-◌,
}
use mathlib.Core.Path.{ap₂}
use rxtx.Base.Bits.{masks, and_or, bit_or-zero, zero-bit_and, bit_and_pow, and_or_left}
use rxtx.Termios.Flags.{clear, cbaud, csize, cstopb, parenb, parodd, cmspar, crtscts}
use rxtx.Termios.Speed.{bytesize_to_termios, termios_to_bytesize}
use rxtx.Termios.State.{
  Dcb, Parity, no_parity, odd_parity, even_parity, mark_parity, space_parity, StopBits,
  one_stop_bit, one5_stop_bits, two_stop_bits,
}
use rxtx.Termios.Attr.{put, get_stop, get_parity, get_cflag, is_handshake}

abbrev pub parity_bits : ℕ
parity_bits = bit_or parenb (bit_or parodd cmspar)

-- The four sizes.
csize_cases :
    (c : ℕ)
    → (bit_and c csize ≡ 0)
      ⊎ (bit_and c csize ≡ 0x10)
      ⊎ (bit_and c csize ≡ 0x20)
      ⊎ (bit_and c csize ≡ 0x30)
csize_cases c = split (bit_and_pow 4 c) (bit_and_pow 5 c)
  where
    parts : bit_and c csize ≡ bit_or (bit_and c 0x10) (bit_and c 0x20)
    parts = and_or_left c 0x10 0x20

    split :
        (bit_and c 0x10 ≡ 0) ⊎ (bit_and c 0x10 ≡ 0x10)
        → (bit_and c 0x20 ≡ 0) ⊎ (bit_and c 0x20 ≡ 0x20)
        → (bit_and c csize ≡ 0)
          ⊎ (bit_and c csize ≡ 0x10)
          ⊎ (bit_and c csize ≡ 0x20)
          ⊎ (bit_and c csize ≡ 0x30)
    split (inl a) (inl b) = inl (parts ∙ rw (a, b))
    split (inr a) (inl b) = inr (inl (parts ∙ rw (a, b)))
    split (inl a) (inr b) = inr (inr (inl (parts ∙ rw (a, b))))
    split (inr a) (inr b) = inr (inr (inr (parts ∙ rw (a, b))))

-- The byte size goes to the DCB and back.
pub bytesize_returns : (c : ℕ) → bytesize_to_termios (termios_to_bytesize c) ≡ bit_and c csize
unfolding bytesize_to_termios termios_to_bytesize
bytesize_returns c = elim (csize_cases c) [
  | inl e ↦ rw e
  | inr (inl e) ↦ rw e
  | inr (inr (inl e)) ↦ rw e
  | inr (inr (inr e)) ↦ rw e
]

-- What each step leaves alone.

get_stop-keeps :
    (s : StopBits) (c m : ℕ)
    → bit_and cstopb m ≡ 0
    → bit_and 0xffffffbf m ≡ m
    → bit_and (get_stop s c) m ≡ bit_and c m
unfolding get_stop
get_stop-keeps two_stop_bits c m h k = simp (masks, h)
get_stop-keeps one_stop_bit c m h k = simp (masks, k)
get_stop-keeps one5_stop_bits c m h k = refl

pub put-keeps :
    (c b m : ℕ) (on : Bool)
    → bit_and b m ≡ 0
    → bit_and (0xffffffff - b) m ≡ m
    → bit_and (put c b on) m ≡ bit_and c m
put-keeps c b m true h k = simp (masks, h)
put-keeps c b m false h k = simp (masks, k)

-- The parity steps of tcgetattr together.
abbrev parity_chain : Parity → ℕ → ℕ
parity_chain p c = get_parity p (bit_or (clear c parity_bits) parenb)

parity_chain-keeps :
    (p : Parity) (c m : ℕ)
    → bit_and 0x100 m ≡ 0
    → bit_and 0x200 m ≡ 0
    → bit_and 0x40000000 m ≡ 0
    → bit_and 0xbffffcff m ≡ m
    → bit_and 0xfffffdff m ≡ m
    → bit_and (parity_chain p c) m ≡ bit_and c m
unfolding get_parity
parity_chain-keeps mark_parity c m e o s k l = simp (masks, e, o, s, k)
parity_chain-keeps space_parity c m e o s k l = simp (masks, e, s, k)
parity_chain-keeps odd_parity c m e o s k l = simp (masks, e, o, k)
parity_chain-keeps even_parity c m e o s k l = simp (masks, l, e, k)
parity_chain-keeps no_parity c m e o s k l = simp (masks, k)

-- The parity bits that each parity is written as.
abbrev pub parity_field : Parity → ℕ
parity_field no_parity = 0
parity_field odd_parity = bit_or parenb parodd
parity_field even_parity = parenb
parity_field mark_parity = parity_bits
parity_field space_parity = bit_or parenb cmspar

parity_chain-field : (p : Parity) (c : ℕ) → bit_and (parity_chain p c) parity_bits ≡ parity_field p
unfolding get_parity
parity_chain-field no_parity c = simp masks
parity_chain-field odd_parity c = simp masks
parity_chain-field even_parity c = simp masks
parity_chain-field mark_parity c = simp masks
parity_chain-field space_parity c = simp masks

size-apart :
    (n m : ℕ)
    → bit_and 0x10 m ≡ 0
    → bit_and 0x20 m ≡ 0
    → bit_and 0x30 m ≡ 0
    → bit_and (bytesize_to_termios n) m ≡ 0
unfolding bytesize_to_termios
size-apart n m a b c = ground (arith, zero-bit_and m)

size-within : (n : ℕ) → bit_and (bytesize_to_termios n) csize ≡ bytesize_to_termios n
unfolding bytesize_to_termios
size-within n = ground arith

abbrev pub stop_field : StopBits → ℕ → ℕ
stop_field two_stop_bits c = cstopb
stop_field one_stop_bit c = 0
stop_field one5_stop_bits c = bit_and c cstopb

get_stop-field : (s : StopBits) (c : ℕ) → bit_and (get_stop s c) cstopb ≡ stop_field s c
unfolding get_stop
get_stop-field two_stop_bits c = elim (bit_and_pow 6 c) [
  | inl off ↦ simp (masks, off)
  | inr on ↦ simp (masks, on)
]
get_stop-field one_stop_bit c = simp masks
get_stop-field one5_stop_bits c = refl

put-field : (c : ℕ) (on : Bool) → bit_and (put c crtscts on) crtscts ≡ (if on then crtscts else 0)
put-field c true = elim (bit_and_pow 31 c) [
  | inl off ↦ simp (masks, off)
  | inr on ↦ simp (masks, on)
]
put-field c false = simp masks

module _ (dcb : Dcb) (c : ℕ) where
  pub get_cflag-cbaud : bit_and (get_cflag dcb c) cbaud ≡ bit_and c cbaud
  unfolding get_cflag
  get_cflag-cbaud =
      put-keeps _ crtscts cbaud _ refl refl
      ∙ and_or _ _ cbaud
      ∙ rw (size-apart dcb.byte_size cbaud refl refl refl, bit_or-zero)
          (parity_chain-keeps dcb.parity _ cbaud refl refl refl refl refl
            ∙ get_stop-keeps dcb.stop_bits c cbaud refl refl)

  pub get_cflag-csize :
      bit_and (get_cflag dcb c) csize ≡ bit_or (bit_and c csize) (bytesize_to_termios dcb.byte_size)
  unfolding get_cflag
  get_cflag-csize =
      put-keeps _ crtscts csize _ refl refl
      ∙ and_or _ _ csize
      ∙ ap₂ bit_or
          (parity_chain-keeps dcb.parity _ csize refl refl refl refl refl
            ∙ get_stop-keeps dcb.stop_bits c csize refl refl)
          (size-within dcb.byte_size)

  pub get_cflag-cstopb : bit_and (get_cflag dcb c) cstopb ≡ stop_field dcb.stop_bits c
  unfolding get_cflag
  get_cflag-cstopb =
      put-keeps _ crtscts cstopb _ refl refl
      ∙ and_or _ _ cstopb
      ∙ rw (size-apart dcb.byte_size cstopb refl refl refl, bit_or-zero)
          (parity_chain-keeps dcb.parity _ cstopb refl refl refl refl refl
            ∙ get_stop-field dcb.stop_bits c)

  pub get_cflag-parity : bit_and (get_cflag dcb c) parity_bits ≡ parity_field dcb.parity
  unfolding get_cflag
  get_cflag-parity =
      put-keeps _ crtscts parity_bits _ refl refl
      ∙ and_or _ _ parity_bits
      ∙ rw (size-apart dcb.byte_size parity_bits refl refl refl, bit_or-zero)
          (parity_chain-field dcb.parity _)

  pub get_cflag-crtscts :
      bit_and (get_cflag dcb c) crtscts
      ≡ (if dcb.f_outx_cts_flow || is_handshake dcb.f_rts_control then crtscts else 0)
  unfolding get_cflag
  get_cflag-crtscts = put-field _ _
