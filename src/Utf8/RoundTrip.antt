-- ===== src/Utf8/RoundTrip.antt =====
-- What `utf8_seq` writes, in plain arithmetic, and what `utf8_char` reads back from it.
use wrutil.Common.{
  ℕ, suc, ◌+◌, ◌*◌, ◌/◌, ◌%◌, ◌^◌, ◌<◌, ltb, ◌≡◌, refl, ◌∙◌, arith, if◌then◌else◌, List, [], ◌∷◌,
  ◌++◌, length, ◌↔◌,
}
use Prim.Native.Nat.{bit_and, bit_or}
use native.Mathlib.Nat.{mod-eq_of_lt}
use wrutil.Utf8.{
  invalid_char, continue_char, utf8_char, utf8_seq, utf8_seq_size, utf8_seq_size_at, utf8_inc,
}
use wrutil.Utf8.Bytes.{
  is_continuation_lem, low_three, low_four, low_five, low_six_bits, set_80, set_c0, set_e0, set_f0,
  add_bits_lem, top_bit,
}

abbrev two : ℕ → ℕ → List ℕ
two h l = (192 + h) ∷ (128 + l) ∷ []

abbrev three : ℕ → ℕ → ℕ → List ℕ
three h m l = (224 + h) ∷ (128 + m) ∷ (128 + l) ∷ []

abbrev four : ℕ → ℕ → ℕ → ℕ → List ℕ
four h m n l = (240 + h) ∷ (128 + m) ∷ (128 + n) ∷ (128 + l) ∷ []

abbrev three_of : ℕ → List ℕ
three_of c = three (c / 4096 % 16) (c / 64 % 64) (c % 64)

-- The sequence for `c`, without masks.
abbrev pub sequence : ℕ → List ℕ
sequence c =
    if ltb c 0x80
    then c ∷ []
    else if ltb c 0x800
    then two (c / 64) (c % 64)
    else if ltb c 0x200000
    then three_of c
    else if ltb c 0x4000000
    then four (c / 262144 % 8) (c / 4096 % 64) (c / 64 % 64) (c % 64)
    else three 15 63 61

-- Each byte, from the masks to arithmetic: the cast to `uint8_t` loses nothing.
continuation_byte : (c : ℕ) → bit_or 0x80 (bit_and c 0x3f % 256) ≡ 128 + c % 64
continuation_byte c = rw (low_six_bits c, mod-eq_of_lt in_byte) (set_80 (c % 64) (omega arith))
  where
    in_byte : c % 64 < 256
    in_byte = omega arith

lead_two : (c : ℕ) → bit_or 0xc0 (bit_and c 0x1f % 256) ≡ 192 + c % 32
lead_two c = rw (low_five c, mod-eq_of_lt in_byte) (set_c0 (c % 32) (omega arith))
  where
    in_byte : c % 32 < 256
    in_byte = omega arith

lead_three : (c : ℕ) → bit_or 0xe0 (bit_and c 0xf % 256) ≡ 224 + c % 16
lead_three c = rw (low_four c, mod-eq_of_lt in_byte) (set_e0 (c % 16) (omega arith))
  where
    in_byte : c % 16 < 256
    in_byte = omega arith

lead_four : (c : ℕ) → bit_or 0xf0 (bit_and c 0x7 % 256) ≡ 240 + c % 8
lead_four c = rw (low_three c, mod-eq_of_lt in_byte) (set_f0 (c % 8) (omega arith))
  where
    in_byte : c % 8 < 256
    in_byte = omega arith

pub utf8_seq-sequence : (c : ℕ) → utf8_seq c ≡ sequence c
unfolding utf8_seq
utf8_seq-sequence c = ground (
  arith,
  continuation_byte c,
  continuation_byte (c / 64),
  continuation_byte (c / 64 / 64),
  lead_two (c / 64),
  lead_three (c / 64 / 64),
  lead_four (c / 64 / 64 / 64),
)

-- One block of the decoder on a continuation byte.
pub continue_char_step :
    (n r l : ℕ) (p : List ℕ)
    → r < 2 ^ 26
    → l < 64
    → continue_char (suc n) r ((128 + l) ∷ p) ≡ continue_char n (r * 64 + l) p
unfolding continue_char
continue_char_step n r l p hr hl =
    rw (is_continuation_lem (128 + l) (omega arith))
      (rw (add_bits_lem r (128 + l) hr) (ground arith))

pub utf8_char_one : (b : ℕ) (p : List ℕ) → b < 128 → utf8_char (b ∷ p) ≡ (b, p)
unfolding utf8_char
utf8_char_one b p h = ground arith

pub utf8_char_two : (h : ℕ) (p : List ℕ) → h < 32 → utf8_char ((192 + h) ∷ p) ≡ continue_char 1 h p
unfolding utf8_char
utf8_char_two h p lt = ground (arith, low_five (192 + h))

pub utf8_char_three :
    (h : ℕ) (p : List ℕ) → h < 16 → utf8_char ((224 + h) ∷ p) ≡ continue_char 2 h p
unfolding utf8_char
utf8_char_three h p lt = ground (arith, low_four (224 + h))

pub utf8_char_four : (h : ℕ) (p : List ℕ) → h < 8 → utf8_char ((240 + h) ∷ p) ≡ continue_char 3 h p
unfolding utf8_char
utf8_char_four h p lt = ground (arith, low_three (240 + h))

read_two : (h l : ℕ) (p : List ℕ) → h < 32 → l < 64 → utf8_char (two h l ++ p) ≡ (h * 64 + l, p)
read_two h l p hh hl =
    utf8_char_two h _ hh
    ∙ continue_char_step 0 h l p (omega arith) hl
    ∙ unfold continue_char in refl

read_three :
    (h m l : ℕ) (p : List ℕ)
    → h < 16
    → m < 64
    → l < 64
    → utf8_char (three h m l ++ p) ≡ ((h * 64 + m) * 64 + l, p)
read_three h m l p hh hm hl =
    utf8_char_three h _ hh
    ∙ continue_char_step 1 h m _ (omega arith) hm
    ∙ continue_char_step 0 (h * 64 + m) l p (omega arith) hl
    ∙ unfold continue_char in refl

read_four :
    (h m n l : ℕ) (p : List ℕ)
    → h < 8
    → m < 64
    → n < 64
    → l < 64
    → utf8_char (four h m n l ++ p) ≡ (((h * 64 + m) * 64 + n) * 64 + l, p)
read_four h m n l p hh hm hn hl =
    utf8_char_four h _ hh
    ∙ continue_char_step 2 h m _ (omega arith) hm
    ∙ continue_char_step 1 (h * 64 + m) n _ (omega arith) hn
    ∙ continue_char_step 0 ((h * 64 + m) * 64 + n) l p (omega arith) hl
    ∙ unfold continue_char in refl

-- What is left of a code point that is encoded and decoded.
abbrev pub survives : ℕ → ℕ
survives c =
    if ltb c 0x200000 then c % 0x10000 else if ltb c 0x4000000 then c % 0x200000 else invalid_char

-- Decoding the bytes written for any number gives what survives of it, and the input behind them.
pub utf8_char-utf8_seq : (c : ℕ) (p : List ℕ) → utf8_char (utf8_seq c ++ p) ≡ (survives c, p)
utf8_char-utf8_seq c p = rw utf8_seq-sequence (
    ground (
      arith,
      utf8_char_one c p,
      read_two (c / 64) (c % 64) p,
      read_three (c / 4096 % 16) (c / 64 % 64) (c % 64) p,
      read_four (c / 262144 % 8) (c / 4096 % 64) (c / 64 % 64) (c % 64) p,
      read_three 15 63 61 p,
    ))

-- A code point survives encoding and decoding exactly when it is below 0x10000.
pub utf8_char-utf8_seq_iff :
    (c : ℕ) (p : List ℕ) → (utf8_char (utf8_seq c ++ p) ≡ (c, p)) ↔ (c < 0x10000)
utf8_char-utf8_seq_iff c p = rw utf8_char-utf8_seq (λ e. ground arith, λ h. ground arith)

utf8_inc-first :
    (b : ℕ)
    → b < 256
    → utf8_inc b ≡ (if ltb b 192 then 1 else if ltb b 224 then 2 else if ltb b 240 then 3 else 4)
unfolding utf8_inc utf8_seq_size_at
utf8_inc-first b h = ground (arith, top_bit b h)

-- The number of bytes written is the size that `utf8_seq_size` announces, and the distance that
-- `utf8_inc` moves from the first of them, for every code point below 0x200000.
pub utf8_inc-utf8_seq :
    (c b : ℕ) (tail : List ℕ)
    → c < 0x200000
    → utf8_seq c ≡ b ∷ tail
    → (suc (length tail) ≡ utf8_seq_size c) × (utf8_inc b ≡ utf8_seq_size c)
unfolding utf8_seq_size
utf8_inc-utf8_seq c b tail h e =
    let written : sequence c ≡ b ∷ tail = rw utf8_seq-sequence at e in
    ground (arith, written, utf8_inc-first b)
