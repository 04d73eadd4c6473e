-- ===== src/Format/Layout.antt =====
-- The end of Target::format: the width, the fill character and the alignment. Both overloads of put are
-- kept apart, since a target may treat them differently.
pub mod Widths
pub mod Lengths
use wrutil.Common.{
  ℕ, ◌-◌, ◌+◌, ◌/◌, ◌==◌, ltb, leb, if◌then◌else◌, Bool, true, false, not, ◌&&◌, ◌||◌, List, [],
  ◌∷◌, ◌++◌, length, replicate,
}
use wrutil.Format.{Text, Flags, Params, Field}

-- A call of `put(char)` or of `put(const char *, uintmax_t)`.
pub data Chunk : Type 0 where
  one : ℕ → Chunk
  many : Text → Chunk

abbrev pub flatten : List Chunk → Text
flatten [] = []
flatten (one c ∷ cs) = c ∷ flatten cs
flatten (many t ∷ cs) = t ++ flatten cs

abbrev pub mem_char : ℕ → Text → Bool
mem_char c [] = false
mem_char c (x ∷ xs) = (x == c) || mem_char c xs

-- The conversions that may be padded with zeros.
abbrev pub is_numeric : ℕ → Bool
is_numeric c = mem_char c (
    b'd' ∷ b'i' ∷ b'o' ∷ b'u' ∷ b'x' ∷ b'X' ∷ b'e' ∷ b'E' ∷ b'f' ∷ b'F' ∷ b'g' ∷ b'G' ∷ b'a' ∷ b'A'
    ∷ [])

unfoldable pub fill_char : Flags → ℕ → ℕ
fill_char flags conv =
    if is_numeric conv
      && (not (flags.have_precis || (flags.centre_align || flags.left_align)) && flags.zero_pad)
    then b'0'
    else b' '

abbrev pub size_of : Field → ℕ
size_of f = length f.prefix + length f.body

unfoldable pub gap_of : Flags → ℕ → Field → ℕ
gap_of flags width f = if flags.have_width && ltb (size_of f) width then width - size_of f else 0

abbrev pub is_empty : Text → Bool
is_empty [] = true
is_empty (c ∷ cs) = false

-- The calls of `put` for a field.
unfoldable pub layout : Flags → ℕ → ℕ → Field → List Chunk
unfolding fill_char gap_of
layout flags width conv f =
    let fill = fill_char flags conv in
    let gap = gap_of flags width f in
    let left_gap = if flags.centre_align then gap / 2 else gap in
    let split = fill == b'0' && not (is_empty f.prefix) in
    if ltb 0 gap && not flags.left_align
    then (if split then many f.prefix ∷ [] else [])
      ++ (replicate left_gap (one fill)
          ++ (many (if split then f.body else f.prefix ++ f.body)
              ∷ replicate (gap - left_gap) (one fill)))
    else many (f.prefix ++ f.body) ∷ replicate gap (one fill)
