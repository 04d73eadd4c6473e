-- ===== src/Utf16/Decode.antt =====
-- `utf16_char` and `utf16_dec` on any units.
use wrutil.Common.{
  ℕ, ◌+◌, ◌-◌, ◌/◌, ◌%◌, ◌≤◌, ◌<◌, ◌≡◌, refl, arith, true, false, List, [], ◌∷◌, ◌⊎◌, inl, inr,
}
use wrutil.Utf8.{invalid_char}
use wrutil.Utf16.{IsUnit, is_surrogate, is_low_surrogate, utf16_char, utf16_dec}

-- A pair of surrogates, high then low, is read as the code point that UTF-16 gives it.
pub utf16_char_pair :
    (c : ℕ) (p : List ℕ)
    → 0x10000 ≤ c
    → c < 0x110000
    → utf16_char (0xd800 + (c - 0x10000) / 1024) ((0xdc00 + (c - 0x10000) % 1024) ∷ p) ≡ (c, p)
unfolding utf16_char
utf16_char_pair c p lo hi = ground arith

-- Whatever units follow, the result is a code point of Unicode and no surrogate.
pub utf16_char_scalar :
    (u : ℕ) (p : List ℕ)
    → IsUnit u
    → ((utf16_char u p).0 < 0x110000) × (is_surrogate (utf16_char u p).0 ≡ false)
unfolding utf16_char
utf16_char_scalar u [] h = ground arith
utf16_char_scalar u (v ∷ p) h = ground arith

-- Where the unit behind a high surrogate is missing or no low surrogate, and at a low surrogate
-- that stands first, one unit is used up and the result is INVALID_CHAR.
utf16_char_unpaired :
    (u v : ℕ) (p : List ℕ)
    → is_surrogate u ≡ true
    → (is_low_surrogate u ≡ true) ⊎ (is_low_surrogate v ≡ false)
    → (utf16_char u (v ∷ p) ≡ (invalid_char, v ∷ p)) × (utf16_char u [] ≡ (invalid_char, []))
unfolding utf16_char
utf16_char_unpaired u v p h (inl low) = (ground arith, ground arith)
utf16_char_unpaired u v p h (inr high) = (ground arith, ground arith)

-- `utf16_dec` undoes the move of `utf16_char` over a valid sequence: behind a unit that is no low
-- surrogate it moves over that unit, and behind a low surrogate that follows it over both.
pub utf16_dec_back :
    (u v : ℕ) (before : List ℕ)
    → is_low_surrogate u ≡ false
    → is_low_surrogate v ≡ true
    → (utf16_dec (u ∷ before) ≡ before) × (utf16_dec (v ∷ u ∷ before) ≡ before)
unfolding utf16_dec
utf16_dec_back u v [] h k = (refl, ground arith)
utf16_dec_back u v (w ∷ before) h k = (ground arith, ground arith)
