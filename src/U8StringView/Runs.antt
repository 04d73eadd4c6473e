-- ===== src/U8StringView/Runs.antt =====
-- Views of a short text at the addresses from 1 on: a space, U+00E9, a colon, b and a space. Behind it
-- stand a, two colons and b.
use Prim.Native.Nat.{Ordering}
use wrutil.Common.{ℕ, zero, suc, ◌==◌, ◌≡◌, refl, arith, some, List, [], ◌∷◌}
use wrutil.Utf8.{
  utf8_seq, utf8_char, continue_char, is_continuation, add_bits, utf8_inc, utf8_seq_size_at,
}
use wrutil.U8StringView.{
  Memory, View, code_at, next_at, back_at, distance, search_from, match_at, size, trim, find, rfind,
  split, compare_view,
}
use wrutil.U8StringView.Text.{Text, encode-Text}
use wrutil.U8StringView.Views.{compare_view-Text}
use wrutil.U8StringView.Trim.{trim-Text}

abbrev from_list : List ℕ → ℕ → ℕ
from_list [] i = 0
from_list (b ∷ bs) zero = b
from_list (b ∷ bs) (suc i) = from_list bs i

abbrev mem : Memory
mem = from_list (0 ∷ 0x20 ∷ 0xc3 ∷ 0xa9 ∷ 0x3a ∷ 0x62 ∷ 0x20 ∷ 0 ∷ 0x61 ∷ 0x3a ∷ 0x3a ∷ 0x62 ∷ [])

abbrev view : ℕ → ℕ → View
view b e = record { begin = b; end = e }

encode-Text_example : Text mem 1 (0x20 ∷ 0xe9 ∷ 0x3a ∷ 0x62 ∷ 0x20 ∷ []) 7
unfolding utf8_seq
encode-Text_example =
    encode-Text mem 1 (0x20 ∷ 0xe9 ∷ 0x3a ∷ 0x62 ∷ 0x20 ∷ [])
      (omega arith, (omega arith, (omega arith, (omega arith, (omega arith, tt)))))
      (refl, (refl, (refl, (refl, (refl, (refl, tt))))))

space-Text : Text mem 1 (0x20 ∷ []) 2
unfolding utf8_seq
space-Text = encode-Text mem 1 (0x20 ∷ []) (omega arith, tt) (refl, tt)

letter-Text : Text mem 2 (0xe9 ∷ []) 4
unfolding utf8_seq
letter-Text = encode-Text mem 2 (0xe9 ∷ []) (omega arith, tt) (refl, (refl, tt))

rest-Text : Text mem 4 (0x3a ∷ 0x62 ∷ []) 6
unfolding utf8_seq
rest-Text = encode-Text mem 4 (0x3a ∷ 0x62 ∷ []) (omega arith, (omega arith, tt)) (refl, (refl, tt))

word-Text : Text mem 2 (0xe9 ∷ 0x3a ∷ 0x62 ∷ []) 6
unfolding utf8_seq
word-Text =
    encode-Text mem 2 (0xe9 ∷ 0x3a ∷ 0x62 ∷ []) (omega arith, (omega arith, (omega arith, tt)))
      (refl, (refl, (refl, (refl, tt))))

last-Text : Text mem 6 (0x20 ∷ []) 7
unfolding utf8_seq
last-Text = encode-Text mem 6 (0x20 ∷ []) (omega arith, tt) (refl, tt)

trim-Text_example : trim mem (λ c. c == 0x20) (view 1 7) ≡ view 2 6
trim-Text_example =
    trim-Text mem (λ c. c == 0x20) 1 (0x20 ∷ []) 2 0xe9 (0x3a ∷ 0x62 ∷ []) 6 (0x20 ∷ []) 7
      space-Text word-Text last-Text (refl, tt) (refl, tt) refl refl

compare_view-Text_example : compare_view mem (view 2 4) (view 4 6) ≡ some Ordering.gt
compare_view-Text_example =
    compare_view-Text mem 2 (0xe9 ∷ []) 4 4 (0x3a ∷ 0x62 ∷ []) 6 letter-Text rest-Text

-- The separator has two code points, and the second one stays.
split_two : split mem (view 9 11) (view 8 12) ≡ some (view 8 9, view 10 12)
unfolding split find search_from match_at code_at next_at utf8_char continue_char is_continuation
    add_bits utf8_inc utf8_seq_size_at
split_two = refl

-- The occurrence starts at 11, and the result is the place before it.
rfind_before : rfind mem (view 11 12) 0 (view 8 12) ≡ some 10
unfolding rfind size distance search_from match_at code_at next_at back_at utf8_char continue_char
    is_continuation add_bits utf8_inc utf8_seq_size_at
rfind_before = refl
