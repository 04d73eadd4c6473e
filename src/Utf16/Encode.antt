-- ===== src/Utf16/Encode.antt =====
-- What `utf16_seq` and the functions that append write.
use wrutil.Common.{
  ℕ, ◌-◌, ◌/◌, ◌%◌, ◌^◌, ◌≤◌, ◌<◌, leb, if◌then◌else◌, ◌≡◌, sym, ap, ◌∙◌, arith, false, List, [],
  ◌∷◌, ◌++◌, append_assoc, ◌↔◌, length, bit_and, bit_and-low, Bool-cases, inl, inr,
}
use mathlib.Core.List.{reverse}
use native.Mathlib.Nat.{mod-eq_of_lt}
use wrutil.Utf16.Decode.{utf16_char_scalar}
use wrutil.Utf16.{is_surrogate, utf16_char, utf16_seq, utf16_seq_size, utf16_append}

low_ten : (a : ℕ) → bit_and a 0x3ff % 2 ^ 16 ≡ a % 1024
low_ten a = rw (bit_and-low 10 a) (mod-eq_of_lt in_unit)
  where
    in_unit : a % 1024 < 2 ^ 16
    in_unit = omega arith

-- The units without masks.
abbrev units : ℕ → List ℕ
units c = if leb c 0xffff then c ∷ [] else (c - 0x10000) / 1024 % 1024 ∷ (c - 0x10000) % 1024 ∷ []

utf16_seq-units : (c : ℕ) → utf16_seq c ≡ units c
unfolding utf16_seq
utf16_seq-units c = ground (arith, low_ten (c - 0x10000), low_ten ((c - 0x10000) / 1024))

-- The number of units is the announced size.
pub length-utf16_seq : (c : ℕ) → length (utf16_seq c) ≡ utf16_seq_size c
unfolding utf16_seq utf16_seq_size
length-utf16_seq c = ground arith

plain_unit : (u : ℕ) (p : List ℕ) → is_surrogate u ≡ false → utf16_char u p ≡ (u, p)
unfolding utf16_char
plain_unit u p h = rw h

scalar_only : (c : ℕ) (p : List ℕ) → c ≤ 0xffff → utf16_char c p ≡ (c, p) → is_surrogate c ≡ false
scalar_only c p h e =
    ap (λ (t : ℕ × List ℕ). is_surrogate t.0) (sym e) ∙ (utf16_char_scalar c p (omega arith)).1

half_plain : (a : ℕ) → a < 1024 → is_surrogate a ≡ false
unfolding is_surrogate
half_plain a h = ground arith

-- Decoding what `utf16_seq` wrote gives the code point back exactly when it is at most 0xffff and
-- no surrogate: the halves of a larger one are written without the surrogate bases.
pub utf16_char-utf16_seq_iff :
    (c u : ℕ) (p q : List ℕ)
    → utf16_seq c ++ p ≡ u ∷ q
    → (utf16_char u q ≡ (c, p)) ↔ ((c ≤ 0xffff) × (is_surrogate c ≡ false))
utf16_char-utf16_seq_iff c u p q e = elim (Bool-cases (leb c 0xffff)) [
  | inl small ↦
      let same : (u ≡ c) × (q ≡ p) = (ground (arith, written), ground (arith, written)) in
      rw (same.0, same.1)
        (λ back. (ground arith, scalar_only c p (ground arith) back), λ h. plain_unit c p h.1)
  | inr large ↦ (
    λ back.
        absurd
          (ground (arith, plain_unit u q (half_plain u (ground (arith, written))), back, written)),
    λ h. absurd (ground arith),
  )
]
  where
    written : units c ++ p ≡ u ∷ q
    written = rw utf16_seq-units at e

-- `utf16_append` appends the units of a code point above 0xffff in the reverse of the order in
-- which `utf16_seq` writes them, and agrees with it up to 0xffff.
utf16_append-utf16_seq : (str : List ℕ) (c : ℕ) → utf16_append str c ≡ str ++ reverse (utf16_seq c)
unfolding utf16_append utf16_seq
utf16_append-utf16_seq str c = elim (Bool-cases (leb c 0xffff)) [
  | inl h ↦ rw h
  | inr h ↦ rw (h, append_assoc)
]
