-- ===== src/Utf8/Runs.antt =====
-- Concrete runs of the coder, and the theorems at concrete inputs.
use wrutil.Common.{ℕ, ◌<◌, ◌≡◌, ◌↔◌, refl, arith, some, true, List, [], ◌∷◌, ◌++◌}
use wrutil.Utf8.{
  is_continuation, add_bits, continue_char, utf8_char, utf8_seq, utf8_dec, utf8_append,
}
use wrutil.Utf8.RoundTrip.{utf8_char-utf8_seq, utf8_char-utf8_seq_iff}
use wrutil.Utf8.Decode.{Moves, utf8_char-Moves}
use wrutil.Utf8.Back.{utf8_dec-utf8_seq}

abbrev euro : List ℕ
euro = 0xe2 ∷ 0x82 ∷ 0xac ∷ []

seq_euro : utf8_seq 0x20ac ≡ euro
unfolding utf8_seq
seq_euro = refl

char_euro : utf8_char (0xe2 ∷ 0x82 ∷ 0xac ∷ 0x41 ∷ []) ≡ (0x20ac, 0x41 ∷ [])
unfolding utf8_char continue_char add_bits is_continuation
char_euro = refl

-- A well-formed sequence of four bytes is read as it should be.
char_emoji : utf8_char (0xf0 ∷ 0x9f ∷ 0x98 ∷ 0x80 ∷ []) ≡ (0x1f600, [])
unfolding utf8_char continue_char add_bits is_continuation
char_emoji = refl

append_euro : utf8_append (0x41 ∷ []) 0x20ac ≡ 0x41 ∷ euro
unfolding utf8_append utf8_seq
append_euro = refl

utf8_char-utf8_seq_example : utf8_char (utf8_seq 0x1f600 ++ (0x41 ∷ [])) ≡ (0xf600, 0x41 ∷ [])
utf8_char-utf8_seq_example = utf8_char-utf8_seq 0x1f600 (0x41 ∷ [])

utf8_char-utf8_seq_iff_example :
    (utf8_char (utf8_seq 0x20ac ++ []) ≡ (0x20ac, [])) ↔ (0x20ac < 0x10000)
utf8_char-utf8_seq_iff_example = utf8_char-utf8_seq_iff 0x20ac []

utf8_char-Moves_example : Moves 3 (0x82 ∷ 0x41 ∷ []) (utf8_char (0xe2 ∷ 0x82 ∷ 0x41 ∷ []))
utf8_char-Moves_example = utf8_char-Moves 0xe2 (0x82 ∷ 0x41 ∷ []) (omega arith)

utf8_dec-utf8_seq_example : utf8_dec (0xac ∷ 0x82 ∷ 0xe2 ∷ 0x41 ∷ []) ≡ some (0xe2, 0x41 ∷ [])
utf8_dec-utf8_seq_example = utf8_dec-utf8_seq 0x20ac 0xe2 (0x82 ∷ 0xac ∷ []) (0x41 ∷ []) seq_euro

two_tails : (is_continuation 0x80 ≡ true) × ((is_continuation 0xbf ≡ true) × Unit {0})
unfolding is_continuation
two_tails = (refl, (refl, tt))
