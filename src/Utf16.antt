-- ===== src/Utf16.antt =====
-- src/utf16.cxx and include/wrutil/utf16.h: the UTF-16 coder. A pointer into a buffer is the list
-- of the 16-bit units from it on; `utf16_char` reads the first unit with no test of `end`, so it
-- takes that unit and the list behind it. A walk backwards has the units before the pointer,
-- nearest first.
pub mod Decode
pub mod Encode
pub mod Standard
mod Runs
use wrutil.Common.{
  ℕ, suc, ◌+◌, ◌-◌, ◌*◌, ◌/◌, ◌%◌, ◌^◌, ◌<◌, bit_and, ltb, leb, if◌then◌else◌, Bool, true, false,
  ◌&&◌, List, [], ◌∷◌, ◌++◌,
}
use wrutil.Utf8.{invalid_char}

abbrev pub IsUnit : ℕ → Type 0
IsUnit u = u < 2 ^ 16

unfoldable pub is_surrogate : ℕ → Bool
is_surrogate c = leb 0xd800 c && leb c 0xdfff

unfoldable pub is_high_surrogate : ℕ → Bool
is_high_surrogate c = leb 0xd800 c && leb c 0xdbff

unfoldable pub is_low_surrogate : ℕ → Bool
is_low_surrogate c = leb 0xdc00 c && leb c 0xdfff

-- The branch behind a high surrogate: `result` is the unit less 0xd800. The arithmetic is that of
-- char32_t; `u - 0xd800` and `*p - 0xdc00` are not negative on this branch.
join_surrogates : ℕ → List ℕ → ℕ × List ℕ
unfolding is_low_surrogate
join_surrogates result [] = (invalid_char, [])
join_surrogates result (u ∷ p) =
    if is_low_surrogate u
    then ((result * 2 ^ 10 % 2 ^ 32 + (u - 0xdc00) + 0x10000) % 2 ^ 32, p)
    else (invalid_char, u ∷ p)

pub utf16_char : ℕ → List ℕ → ℕ × List ℕ
unfolding is_surrogate is_low_surrogate join_surrogates
utf16_char u p =
    if is_surrogate u
    then (if is_low_surrogate u then (invalid_char, p) else join_surrogates (u - 0xd800) p)
    else (u, p)

-- How far `utf16_inc` moves, which is also the overload of `utf16_seq_size` on a pointer.
pub utf16_inc : ℕ → ℕ
unfolding is_high_surrogate
utf16_inc u = if is_high_surrogate u then 2 else 1

-- The overload of `utf16_seq_size` on a code point.
pub utf16_seq_size : ℕ → ℕ
utf16_seq_size c = if ltb 0xffff c then 2 else 1

-- `utf16_dec(p, begin)`: the units that stand before the new pointer.
pub utf16_dec : List ℕ → List ℕ
unfolding is_low_surrogate
utf16_dec [] = []
utf16_dec (u ∷ []) = []
utf16_dec (u ∷ v ∷ before) = if is_low_surrogate u then before else v ∷ before

-- The units written to `out`; their number is what the function returns.
pub utf16_seq : ℕ → List ℕ
utf16_seq c =
    if leb c 0xffff
    then c % 2 ^ 16 ∷ []
    else bit_and ((c - 0x10000) / 2 ^ 10) 0x3ff % 2 ^ 16 ∷ bit_and (c - 0x10000) 0x3ff % 2 ^ 16 ∷ []

pub utf16_append : List ℕ → ℕ → List ℕ
utf16_append str c =
    if leb c 0xffff
    then str ++ (c % 2 ^ 16 ∷ [])
    else (str ++ (bit_and (c - 0x10000) 0x3ff % 2 ^ 16 ∷ []))
      ++ (bit_and ((c - 0x10000) / 2 ^ 10) 0x3ff % 2 ^ 16 ∷ [])

-- `narrow` is WR_SIZEOF_WCHAR_T == 2, which the build decides; otherwise wchar_t has 32 bits.
pub wstr_append : Bool → List ℕ → ℕ → List ℕ
unfolding utf16_append
wstr_append true str c = utf16_append str c
wstr_append false str c = str ++ (c % 2 ^ 32 ∷ [])
