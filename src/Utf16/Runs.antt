-- ===== src/Utf16/Runs.antt =====
-- Concrete runs of the coder, and the theorems at concrete inputs.
use wrutil.Common.{◌≤◌, ◌≡◌, ◌↔◌, refl, false, [], ◌∷◌, ◌++◌, arith}
use wrutil.Utf16.{is_surrogate, utf16_char, utf16_seq, wstr_append}
use wrutil.Utf16.Standard.{Scalar, encoded, utf16_char-encoded_iff}
use wrutil.Utf16.Encode.{utf16_char-utf16_seq_iff}

seq_emoji : utf16_seq 0x1f600 ≡ 0x3d ∷ 0x200 ∷ []
unfolding utf16_seq
seq_emoji = refl

wide_append : wstr_append false [] 0x1f600 ≡ 0x1f600 ∷ []
unfolding wstr_append
wide_append = refl

emoji : Scalar 0x1f600
unfolding is_surrogate
emoji = record { below = omega arith; plain = refl; proper = λ e. omega (arith, e) }

utf16_char-encoded_iff_example :
    (utf16_char 0xd83d (0xde00 ∷ 7 ∷ []) ≡ (0x1f600, 7 ∷ []))
    ↔ (0xd83d ∷ 0xde00 ∷ 7 ∷ [] ≡ encoded 0x1f600 ++ (7 ∷ []))
utf16_char-encoded_iff_example =
    utf16_char-encoded_iff 0x1f600 0xd83d (0xde00 ∷ 7 ∷ []) (7 ∷ []) emoji (omega arith)

utf16_char-utf16_seq_iff_example :
    (utf16_char 0x3d (0x200 ∷ 7 ∷ []) ≡ (0x1f600, 7 ∷ []))
    ↔ ((0x1f600 ≤ 0xffff) × (is_surrogate 0x1f600 ≡ false))
unfolding utf16_seq
utf16_char-utf16_seq_iff_example =
    utf16_char-utf16_seq_iff 0x1f600 0x3d (7 ∷ []) (0x200 ∷ 7 ∷ []) refl
