-- ===== src/Utf8.antt =====
-- src/utf8.cxx and include/wrutil/utf8.h: the UTF-8 encoder, decoder and the moves by one
-- sequence. A pointer into a buffer is the list of the bytes from it to the end; where the code
-- walks backwards, it is the list of the bytes before it, nearest first.
pub mod Bytes
pub mod RoundTrip
pub mod Decode
pub mod Back
mod Runs
use wrutil.Common.{
  ℕ, zero, suc, ◌+◌, ◌*◌, ◌/◌, ◌%◌, ◌^◌, ◌<◌, bit_and, bit_or, ltb, ◌==◌, if◌then◌else◌, ◌>>=◌,
  Bool, Option, none, some, List, [], ◌∷◌, ◌++◌,
}

abbrev pub invalid_char : ℕ
invalid_char = 0xfffd

abbrev pub IsByte : ℕ → Type 0
IsByte b = b < 256

-- `((*p) & 0xc0) == 0x80`
unfoldable pub is_continuation : ℕ → Bool
is_continuation b = bit_and b 0xc0 == 0x80

-- `(result << 6) | (b & 0x3f)` on char32_t
unfoldable pub add_bits : ℕ → ℕ → ℕ
add_bits result b = bit_or (result * 2 ^ 6 % 2 ^ 32) (bit_and b 0x3f)

-- The blocks that each read one continuation byte: `n` of them stand one below the other. A block
-- that finds the end or another byte leaves `p` there and the result is INVALID_CHAR.
unfoldable pub continue_char : ℕ → ℕ → List ℕ → ℕ × List ℕ
continue_char zero result p = (result, p)
continue_char (suc n) result [] = (invalid_char, [])
continue_char (suc n) result (b ∷ p) =
    if is_continuation b then continue_char n (add_bits result b) p else (invalid_char, b ∷ p)

-- The code point at `p` and the pointer behind it.
unfoldable pub utf8_char : List ℕ → ℕ × List ℕ
utf8_char [] = (invalid_char, [])
utf8_char (b ∷ p) =
    if ltb (b / 16) 8
    then (b, p)
    else if ltb (b / 16) 12
    then (invalid_char, p)
    else if ltb (b / 16) 14
    then continue_char 1 (bit_and b 0x1f) p
    else if b / 16 == 14
    then continue_char 2 (bit_and b 0xf) p
    else continue_char 3 (bit_and b 0x7) p

-- The overload on a pointer: the table SIZE, indexed by the upper half of the first byte.
unfoldable pub utf8_seq_size_at : ℕ → ℕ
utf8_seq_size_at b =
    if ltb (b / 16) 12 then 1 else if ltb (b / 16) 14 then 2 else if b / 16 == 14 then 3 else 4

-- The overload on a code point.
pub utf8_seq_size : ℕ → ℕ
utf8_seq_size c =
    if ltb c 0x80 then 1 else if ltb c 0x800 then 2 else if ltb c 0x200000 then 3 else 4

-- How far `utf8_inc` moves from a first byte `b`.
unfoldable pub utf8_inc : ℕ → ℕ
utf8_inc b = if bit_and b 0x80 == 0 then 1 else utf8_seq_size_at b

-- `static_cast<uint8_t>(in & 0x3f)` behind 0x80
abbrev low_six : ℕ → ℕ
low_six c = bit_or 0x80 (bit_and c 0x3f % 256)

-- The three-byte form, which the code also writes for INVALID_CHAR in its last branch.
abbrev seq_three : ℕ → List ℕ
seq_three c =
    bit_or 0xe0 (bit_and (c / 2 ^ 6 / 2 ^ 6) 0xf % 256) ∷ low_six (c / 2 ^ 6) ∷ low_six c ∷ []

-- The bytes that are written to `out`; their number is what the function returns.
unfoldable pub utf8_seq : ℕ → List ℕ
utf8_seq c =
    if ltb c 0x80
    then c % 256 ∷ []
    else if ltb c 0x800
    then bit_or 0xc0 (bit_and (c / 2 ^ 6) 0x1f % 256) ∷ low_six c ∷ []
    else if ltb c 0x200000
    then seq_three c
    else if ltb c 0x4000000
    then bit_or 0xf0 (bit_and (c / 2 ^ 6 / 2 ^ 6 / 2 ^ 6) 0x7 % 256)
      ∷ low_six (c / 2 ^ 6 / 2 ^ 6)
      ∷ low_six (c / 2 ^ 6)
      ∷ low_six c
      ∷ []
    else seq_three invalid_char

pub utf8_append : List ℕ → ℕ → List ℕ
utf8_append str c = if ltb c 0x80 then str ++ (c % 256 ∷ []) else str ++ utf8_seq c

-- `--p`: the byte that `p` then points at, with what stands before it; `none` is `begin - 1`.
abbrev step_back : List ℕ → Option (ℕ × List ℕ)
step_back [] = none
step_back (b ∷ before) = some (b, before)

abbrev skip_continuation : ℕ × List ℕ → Option (ℕ × List ℕ)
skip_continuation (b, before) = if is_continuation b then step_back before else some (b, before)

-- `utf8_dec(p, begin)`: one step back, and up to three more over continuation bytes.
pub utf8_dec : List ℕ → Option (ℕ × List ℕ)
utf8_dec before = step_back before >>= skip_continuation >>= skip_continuation >>= skip_continuation
