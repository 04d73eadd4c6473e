-- ===== src/Utf8/Decode.antt =====
-- `utf8_char` on any bytes, well formed or not.
use wrutil.Common.{
  ℕ, zero, suc, ◌/◌, ◌^◌, ◌≤◌, ◌<◌, ltb, ◌==◌, ◌≡◌, refl, sym, ap, ◌∙◌, arith, bit_and, List, [],
  ◌∷◌, ◌++◌, append-nil, drop, length, length-append, ◌⊎◌, inl, inr, Bool-cases,
}
use wrutil.Utf8.{
  invalid_char, IsByte, is_continuation, add_bits, continue_char, utf8_char, utf8_seq,
}
use wrutil.Utf8.Bytes.{low_three, low_four, low_five, add_bits_lem}
use wrutil.Utf8.RoundTrip.{survives, utf8_char-utf8_seq}

-- What the result may be before `n` blocks so that it stays below 2^21.
abbrev room : ℕ → ℕ
room zero = 2 ^ 21
room (suc n) = room n / 64

room-le : (n : ℕ) → room n ≤ 2 ^ 21
room-le zero = omega arith
room-le (suc n) = omega (arith, room-le n)

-- A code point of 21 bits, and a pointer that moved over `n` bytes at most.
abbrev pub Moves : ℕ → List ℕ → ℕ × List ℕ → Type 0
Moves n p r = (r.0 < 2 ^ 21) × ((k : ℕ) × (k ≤ n) × (r.1 ≡ drop k p))

continue_char-Moves : (n r : ℕ) (p : List ℕ) → r < room n → Moves n p (continue_char n r p)
unfolding continue_char
continue_char-Moves zero r p h = (h, (0, omega arith, refl))
continue_char-Moves (suc n) r [] h = (omega arith, (0, omega arith, refl))
continue_char-Moves (suc n) r (b ∷ p) h = elim (Bool-cases (is_continuation b)) [
  | inl e ↦
      let (v, (k, hk, rest)) = continue_char-Moves n (add_bits r b) p next in
      rw e (v, (suc k, omega arith, rest))
  | inr e ↦ rw e (omega arith, (0, omega arith, refl))
]
  where
    next : add_bits r b < room n
    next = omega (arith, add_bits_lem r b (omega (arith, room-le n)), room-le n)

Moves-weaken : (m n : ℕ) (p : List ℕ) (r : ℕ × List ℕ) → m ≤ n → Moves m p r → Moves n p r
Moves-weaken m n p r h (v, (k, hk, rest)) = (v, (k, omega arith, rest))

-- Whatever bytes follow, the code point read has 21 bits at most, and the pointer moves over the
-- first byte and at most three more.
pub utf8_char-Moves : (b : ℕ) (p : List ℕ) → IsByte b → Moves 3 p (utf8_char (b ∷ p))
unfolding utf8_char
utf8_char-Moves b p h = elim (Bool-cases (ltb (b / 16) 8)) [
  | inl e ↦ rw e (omega arith, (0, omega arith, refl))
  | inr e ↦ rw e (elim (Bool-cases (ltb (b / 16) 12)) [
    | inl f ↦ rw f (omega arith, (0, omega arith, refl))
    | inr f ↦ rw f (elim (Bool-cases (ltb (b / 16) 14)) [
      | inl g ↦ rw g (
          Moves-weaken 1 3 p _ (omega arith)
            (continue_char-Moves 1 _ p (omega (arith, low_five b))))
      | inr g ↦ rw g (elim (Bool-cases (b / 16 == 14)) [
        | inl k ↦ rw k (
            Moves-weaken 2 3 p _ (omega arith)
              (continue_char-Moves 2 _ p (omega (arith, low_four b))))
        | inr k ↦ rw k (continue_char-Moves 3 _ p (omega (arith, low_three b)))
      ])
    ])
  ])
]

continue_char-append :
    (n r : ℕ) (p more : List ℕ)
    → (continue_char n r p ≡ (invalid_char, []))
      ⊎ (continue_char n r (p ++ more) ≡ ((continue_char n r p).0, (continue_char n r p).1 ++ more))
unfolding continue_char
continue_char-append zero r p more = inr refl
continue_char-append (suc n) r [] more = inl refl
continue_char-append (suc n) r (b ∷ p) more = elim (Bool-cases (is_continuation b)) [
  | inl e ↦ rw e (continue_char-append n (add_bits r b) p more)
  | inr e ↦ inr (rw e)
]

-- The decoder reads no further than it moves: either the input ended inside a sequence, or bytes
-- added behind the input leave the result alone and join the rest.
utf8_char-append :
    (p more : List ℕ)
    → (utf8_char p ≡ (invalid_char, []))
      ⊎ (utf8_char (p ++ more) ≡ ((utf8_char p).0, (utf8_char p).1 ++ more))
unfolding utf8_char
utf8_char-append [] more = inl refl
utf8_char-append (b ∷ p) more = ground (
  arith,
  continue_char-append 1 (bit_and b 0x1f) p more,
  continue_char-append 2 (bit_and b 0xf) p more,
  continue_char-append 3 (bit_and b 0x7) p more,
)

-- A sequence that is cut short decodes to INVALID_CHAR and uses the input up.
utf8_char_truncated :
    (c x : ℕ) (front back : List ℕ)
    → utf8_seq c ≡ front ++ (x ∷ back)
    → utf8_char front ≡ (invalid_char, [])
utf8_char_truncated c x front back e = elim (utf8_char-append front (x ∷ back)) [
  | inl cut ↦ cut
  | inr whole ↦ absurd (
      omega (
        arith,
        length-append (utf8_char front).1 (x ∷ back),
        ap (λ (t : ℕ × List ℕ). length t.1) (sym whole ∙ all_read),
      ))
]
  where
    all_read : utf8_char (front ++ (x ∷ back)) ≡ (survives c, [])
    all_read = rw (append-nil, e) at (utf8_char-utf8_seq c [])
