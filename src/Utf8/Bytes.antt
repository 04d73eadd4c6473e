-- ===== src/Utf8/Bytes.antt =====
-- The masks that the coder uses, as arithmetic.
use wrutil.Common.{
  ℕ, zero, suc, ◌+◌, ◌*◌, ◌/◌, ◌%◌, ◌^◌, ◌<◌, bit_and, bit_or, ltb, leb, ◌==◌, ◌≡◌, refl, arith,
  Bool, true, ◌&&◌, bit_and-low, bit_or-fields,
}
use wrutil.Utf8.{IsByte, is_continuation, add_bits}

-- Two functions that agree at every byte, checked by evaluation.
agree_below : (ℕ → ℕ) → (ℕ → ℕ) → ℕ → Bool
agree_below f g zero = true
agree_below f g (suc n) = f n == g n && agree_below f g n

agree_below_sound : (f g : ℕ → ℕ) (n : ℕ) → agree_below f g n ≡ true → (b : ℕ) → b < n → f b ≡ g b
unfolding agree_below
agree_below_sound f g zero e b h = absurd (omega arith)
agree_below_sound f g (suc n) e b h = ground (arith, agree_below_sound f g n (ground arith) b)

top_two : (b : ℕ) → b < 256 → bit_and b 0xc0 ≡ b / 64 * 64
unfolding agree_below
top_two = agree_below_sound _ _ 256 refl

pub top_bit : (b : ℕ) → b < 256 → bit_and b 0x80 ≡ b / 128 * 128
unfolding agree_below
top_bit = agree_below_sound _ _ 256 refl

pub is_continuation_lem : (b : ℕ) → IsByte b → is_continuation b ≡ (leb 128 b && ltb b 192)
unfolding is_continuation
is_continuation_lem b h = rw (top_two b h) (ground arith)

pub low_three : (a : ℕ) → bit_and a 0x7 ≡ a % 8
low_three = bit_and-low 3

pub low_four : (a : ℕ) → bit_and a 0xf ≡ a % 16
low_four = bit_and-low 4

pub low_five : (a : ℕ) → bit_and a 0x1f ≡ a % 32
low_five = bit_and-low 5

pub low_six_bits : (a : ℕ) → bit_and a 0x3f ≡ a % 64
low_six_bits = bit_and-low 6

pub set_80 : (r : ℕ) → r < 64 → bit_or 0x80 r ≡ 128 + r
set_80 = bit_or-fields 6 2

pub set_c0 : (r : ℕ) → r < 32 → bit_or 0xc0 r ≡ 192 + r
set_c0 = bit_or-fields 5 6

pub set_e0 : (r : ℕ) → r < 16 → bit_or 0xe0 r ≡ 224 + r
set_e0 = bit_or-fields 4 14

pub set_f0 : (r : ℕ) → r < 8 → bit_or 0xf0 r ≡ 240 + r
set_f0 = bit_or-fields 3 30

pub add_bits_lem : (r b : ℕ) → r < 2 ^ 26 → add_bits r b ≡ r * 64 + b % 64
unfolding add_bits
add_bits_lem r b h = rw (low_six_bits b, no_wrap) (bit_or-fields 6 r (b % 64) (omega arith))
  where
    no_wrap : r * 2 ^ 6 % 2 ^ 32 ≡ r * 2 ^ 6
    no_wrap = omega arith
