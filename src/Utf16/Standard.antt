-- ===== src/Utf16/Standard.antt =====
-- `utf16_char` and the encoding form UTF-16 of the Unicode standard.
use wrutil.Common.{
  ℕ, ◌+◌, ◌-◌, ◌*◌, ◌/◌, ◌%◌, ◌≤◌, ◌<◌, leb, if◌then◌else◌, ◌≡◌, ◌≢◌, refl, sym, ap, ◌∙◌, arith,
  true, false, List, [], ◌∷◌, ◌++◌, ◌↔◌, ◌⊎◌, drop, get_or, Bool-cases, inl, inr,
}
use mathlib.Core.Path.{ap₂}
use wrutil.Utf8.{invalid_char}
use wrutil.Utf16.{IsUnit, is_surrogate, is_low_surrogate, utf16_char, join_surrogates}
use wrutil.Utf16.Decode.{utf16_char_pair}

-- The units of a scalar value.
abbrev pub encoded : ℕ → List ℕ
encoded c =
    if leb c 0xffff
    then c ∷ []
    else (0xd800 + (c - 0x10000) / 1024) ∷ (0xdc00 + (c - 0x10000) % 1024) ∷ []

-- A scalar value that is not the replacement character
pub record Scalar (c : ℕ) : Type 0 where
  pub below : c < 0x110000
  pub plain : is_surrogate c ≡ false
  pub proper : c ≢ invalid_char

tail_eq : (u c : ℕ) (p q : List ℕ) → u ∷ p ≡ c ∷ q → (u ≡ c) × (p ≡ q)
tail_eq u c p q e = (ap (λ (l : List ℕ). get_or l 0 0) e, ap (drop 1) e)

pair_eq : (u c : ℕ) (p q : List ℕ) → ◌≡◌ {A = ℕ × List ℕ} (u, p) (c, q) → (u ≡ c) × (p ≡ q)
pair_eq u c p q e = (ap (λ (r : ℕ × List ℕ). r.0) e, ap (λ (r : ℕ × List ℕ). r.1) e)

plain_char : (u : ℕ) (p : List ℕ) → is_surrogate u ≡ false → utf16_char u p ≡ (u, p)
unfolding utf16_char
plain_char u p h = rw h

decode_encoded :
    (c u : ℕ) (p q : List ℕ) → Scalar c → u ∷ p ≡ encoded c ++ q → utf16_char u p ≡ (c, q)
decode_encoded c u p q s e = elim (Bool-cases (leb c 0xffff)) [
  | inl small ↦
      let (h, t) = tail_eq u c p q (
        e
        ∙ ap
            (λ b.
              (if b
                then c ∷ []
                else (0xd800 + (c - 0x10000) / 1024) ∷ (0xdc00 + (c - 0x10000) % 1024) ∷ [])
              ++ q)
            small) in
      plain_char u p (ap is_surrogate h ∙ s.plain) ∙ ap₂ (λ (a : ℕ) (b : List ℕ). (a, b)) h t
  | inr large ↦
      let (h, t) =
        tail_eq u (0xd800 + (c - 0x10000) / 1024) p ((0xdc00 + (c - 0x10000) % 1024) ∷ q) (
          e
          ∙ ap
              (λ b.
                (if b
                  then c ∷ []
                  else (0xd800 + (c - 0x10000) / 1024) ∷ (0xdc00 + (c - 0x10000) % 1024) ∷ [])
                ++ q)
              large) in
      let above : 0x10000 ≤ c = ground (arith, large) in
      ap₂ utf16_char h t ∙ utf16_char_pair c q above s.below
]

-- A high surrogate and a low one, and the code point of the two.
record Pair (u : ℕ) (p : List ℕ) : Type 0 where
  v : ℕ
  rest : List ℕ
  behind : p ≡ v ∷ rest
  high : (0xd800 ≤ u) × (u < 0xdc00)
  low : (0xdc00 ≤ v) × (v < 0xe000)
  result : utf16_char u p ≡ (0x10000 + (u - 0xd800) * 1024 + (v - 0xdc00), rest)

join_surrogates-Pair :
    (u v : ℕ) (p : List ℕ)
    → is_surrogate u ≡ true
    → is_low_surrogate u ≡ false
    → is_low_surrogate v ≡ true
    → Pair u (v ∷ p)
unfolding is_surrogate is_low_surrogate
join_surrogates-Pair u v p h k l = record {
  v = v;
  rest = p;
  behind = refl;
  high = (ground (arith, h), ground (arith, h, k));
  low = (ground (arith, l), ground (arith, l));
  result = unfold utf16_char in ground (arith, h, k, l);
}

utf16_char_cases :
    (u : ℕ) (p : List ℕ) → (is_surrogate u ≡ false) ⊎ Pair u p ⊎ ((utf16_char u p).0 ≡ invalid_char)
unfolding utf16_char join_surrogates
utf16_char_cases u p = elim (Bool-cases (is_surrogate u)) [
  | inr h ↦ inl h
  | inl h ↦ elim (Bool-cases (is_low_surrogate u)) [
    | inl k ↦ inr (inr (rw (h, k)))
    | inr k ↦ behind_high p h k
  ]
]
  where
    behind_high :
        (p : List ℕ)
        → is_surrogate u ≡ true
        → is_low_surrogate u ≡ false
        → (is_surrogate u ≡ false) ⊎ Pair u p ⊎ ((utf16_char u p).0 ≡ invalid_char)
    behind_high [] h k = inr (inr (rw (h, k)))
    behind_high (v ∷ p) h k = elim (Bool-cases (is_low_surrogate v)) [
      | inl l ↦ inr (inl (join_surrogates-Pair u v p h k l))
      | inr l ↦ inr (inr (rw (h, k, l)))
    ]

encoded_pair :
    (c u v : ℕ)
    → c ≡ 0x10000 + (u - 0xd800) * 1024 + (v - 0xdc00)
    → (0xd800 ≤ u) × (u < 0xdc00)
    → (0xdc00 ≤ v) × (v < 0xe000)
    → encoded c ≡ u ∷ v ∷ []
encoded_pair c u v e (a, b) (m, n) =
    let large : leb c 0xffff ≡ false = ground (arith, e) in
    let high : 0xd800 + (c - 0x10000) / 1024 ≡ u = omega (arith, e, a, b, m, n) in
    let low : 0xdc00 + (c - 0x10000) % 1024 ≡ v = omega (arith, e, a, b, m, n) in
    ap
      (λ b.
        if b
        then c ∷ []
        else (0xd800 + (c - 0x10000) / 1024) ∷ (0xdc00 + (c - 0x10000) % 1024) ∷ [])
      large
    ∙ ap₂ (λ (x y : ℕ). x ∷ y ∷ []) high low

encode_decoded :
    (c u : ℕ) (p q : List ℕ)
    → Scalar c
    → IsUnit u
    → utf16_char u p ≡ (c, q)
    → u ∷ p ≡ encoded c ++ q
encode_decoded c u p q s k e = elim (utf16_char_cases u p) [
  | inl h ↦
      let (i, j) = pair_eq u c p q (sym (plain_char u p h) ∙ e) in
      let small : leb c 0xffff ≡ true = ground (arith, i, k) in
      ap₂ (λ (a : ℕ) (b : List ℕ). a ∷ b) i j
      ∙ sym (
          ap
            (λ b.
              (if b
                then c ∷ []
                else (0xd800 + (c - 0x10000) / 1024) ∷ (0xdc00 + (c - 0x10000) % 1024) ∷ [])
              ++ q)
            small)
  | inr (inl w) ↦
      let (i, j) = pair_eq _ c w.rest q (sym w.result ∙ e) in
      ap (λ (t : List ℕ). u ∷ t) (w.behind ∙ ap (λ (t : List ℕ). w.v ∷ t) j)
      ∙ sym (ap (λ (t : List ℕ). t ++ q) (encoded_pair c u w.v (sym i) w.high w.low))
  | inr (inr bad) ↦ absurd (s.proper (sym (ap (λ (r : ℕ × List ℕ). r.0) e) ∙ bad))
]

-- For a scalar value other than U+FFFD, utf16_char gives it and stands in front of some units exactly where the
-- units are its UTF-16 form, with these behind it.
pub utf16_char-encoded_iff :
    (c u : ℕ) (p q : List ℕ)
    → Scalar c
    → IsUnit u
    → (utf16_char u p ≡ (c, q)) ↔ (u ∷ p ≡ encoded c ++ q)
utf16_char-encoded_iff c u p q s k = (encode_decoded c u p q s k, decode_encoded c u p q s)
