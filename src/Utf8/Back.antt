-- ===== src/Utf8/Back.antt =====
-- `utf8_dec`, the step backwards.
use wrutil.Common.{
  ℕ, ◌+◌, ◌/◌, ◌%◌, ◌≤◌, ◌<◌, ltb, ◌≡◌, refl, arith, true, false, none, some, List, [], ◌∷◌, ◌++◌,
  All, length, Bool-cases, inl, inr,
}
use mathlib.Core.List.{reverse}
use mathlib.Core.Path.{subst}
use wrutil.Utf8.{is_continuation, utf8_dec, utf8_seq}
use wrutil.Utf8.Bytes.{is_continuation_lem}
use wrutil.Utf8.RoundTrip.{sequence, utf8_seq-sequence}

is_tail : (l : ℕ) → l < 64 → is_continuation (128 + l) ≡ true
is_tail l h = rw (is_continuation_lem (128 + l) (omega arith)) (ground arith)

is_lead : (b : ℕ) → b < 128 → is_continuation b ≡ false
is_lead b h = rw (is_continuation_lem b (omega arith)) (ground arith)

is_lead_multi : (b : ℕ) → 192 ≤ b → b < 256 → is_continuation b ≡ false
is_lead_multi b h k = rw (is_continuation_lem b k) (ground arith)

-- A first byte with at most three continuation bytes behind it.
abbrev pub Shape : List ℕ → Type 0
Shape [] = ⊥
Shape (b ∷ tail) =
    (is_continuation b ≡ false) × All (λ x. is_continuation x ≡ true) tail × (length tail ≤ 3)

pub sequence-Shape : (c : ℕ) → Shape (sequence c)
sequence-Shape c = elim (Bool-cases (ltb c 0x80)) [
  | inl p ↦ rw p (is_lead c (ground arith), tt, omega arith)
  | inr p ↦ rw p (elim (Bool-cases (ltb c 0x800)) [
    | inl q ↦
        rw q (is_lead_multi (192 + c / 64) (omega arith) (ground arith), (tail c, tt), omega arith)
    | inr q ↦ rw q (elim (Bool-cases (ltb c 0x200000)) [
      | inl r ↦ rw r (
        is_lead_multi (224 + c / 4096 % 16) (omega arith) (omega arith),
        (tail (c / 64), (tail c, tt)),
        omega arith,
      )
      | inr r ↦ rw r (elim (Bool-cases (ltb c 0x4000000)) [
        | inl t ↦ rw t (
          is_lead_multi (240 + c / 262144 % 8) (omega arith) (omega arith),
          (tail (c / 4096), (tail (c / 64), (tail c, tt))),
          omega arith,
        )
        | inr t ↦ rw t (
          is_lead_multi 239 (omega arith) (omega arith),
          (is_tail 63 (omega arith), (is_tail 61 (omega arith), tt)),
          omega arith,
        )
      ])
    ])
  ])
]
  where
    tail : (a : ℕ) → is_continuation (128 + a % 64) ≡ true
    tail a = is_tail (a % 64) (omega arith)

dec-Shape :
    (b : ℕ) (tail before : List ℕ)
    → Shape (b ∷ tail)
    → utf8_dec (reverse tail ++ (b ∷ before)) ≡ some (b, before)
unfolding utf8_dec
dec-Shape b [] before (h, _, n) = simp h
dec-Shape b (x ∷ []) before (h, (hx, _), n) = simp (h, hx)
dec-Shape b (x ∷ y ∷ []) before (h, (hx, (hy, _)), n) = simp (h, hx, hy)
dec-Shape b (x ∷ y ∷ z ∷ []) before (h, (hx, (hy, (hz, _))), n) = simp (hx, hy, hz)
dec-Shape b (x ∷ y ∷ z ∷ w ∷ tail) before (h, _, n) = absurd (omega arith)

-- From the end of any sequence that `utf8_seq` writes, `utf8_dec` moves to its first byte.
pub utf8_dec-utf8_seq :
    (c b : ℕ) (tail before : List ℕ)
    → utf8_seq c ≡ b ∷ tail
    → utf8_dec (reverse tail ++ (b ∷ before)) ≡ some (b, before)
utf8_dec-utf8_seq c b tail before e =
    dec-Shape b tail before (subst Shape e (rw utf8_seq-sequence (sequence-Shape c)))

-- Where the buffer holds one to three continuation bytes before `p` and nothing else, the bounded
-- `utf8_dec` does not stop at the start of the buffer: it returns the address before it.
pub utf8_dec_underrun :
    (before : List ℕ)
    → All (λ x. is_continuation x ≡ true) before
    → length before ≤ 3
    → utf8_dec before ≡ none
unfolding utf8_dec
utf8_dec_underrun [] h n = refl
utf8_dec_underrun (x ∷ []) (hx, _) n = simp hx
utf8_dec_underrun (x ∷ y ∷ []) (hx, (hy, _)) n = simp (hx, hy)
utf8_dec_underrun (x ∷ y ∷ z ∷ []) (hx, (hy, (hz, _))) n = simp (hx, hy, hz)
utf8_dec_underrun (x ∷ y ∷ z ∷ w ∷ r) h n = absurd (omega arith)
