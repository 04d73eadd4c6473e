-- ===== src/Sha256/Hex.antt =====
-- `toHash` on a text of eight hexadecimal digits for each word, and the test for a long message.
use wrutil.Common.{
  ℕ, ◌+◌, ◌-◌, ◌*◌, ◌%◌, ◌^◌, ◌≤◌, ◌<◌, ltb, le→ltb, if◌then◌else◌, ◌≡◌, ◌≢◌, arith, false, none,
}
use wrutil.Sha256.{Sha256, digit_bits, finish}

-- The lower-case digit for a number below 16.
abbrev pub hex_digit : ℕ → ℕ
hex_digit d = if ltb d 10 then b'0' + d else b'a' + (d - 10)

-- A digit from `a` on is read as its place in the alphabet, not as ten more.
pub digit_bits-hex_digit :
    (d : ℕ) → d < 16 → digit_bits (hex_digit d) ≡ (if ltb d 10 then d else d - 10)
digit_bits-hex_digit d h = ground arith

-- From a length of 2^64 / 7 bytes on, the size in bits does not fit 64 bits, and the test for
-- overflow_error misses it up to 2^62: the padding is written with the size modulo 2^64.
pub finish_undetected :
    (s : Sha256)
    → 2 ^ 64 ≤ s.total_length * 7
    → s.total_length < 2 ^ 62
    → (2 ^ 64 ≤ s.total_length * 8) × (finish s ≢ none)
finish_undetected s lo hi = (omega arith, λ e. missed e)
  where
    passes : ltb (s.total_length * 8 % 2 ^ 64) s.total_length ≡ false
    passes = le→ltb _ _ (omega arith)

    missed : finish s ≢ none
    missed = unfold finish in rw passes (λ e. cc)
