-- ===== src/TaggedPtr/Order.antt =====
-- The comparisons of tagged pointers.
use wrutil.Common.{ℕ, ltb, ◌==◌, ◌≡◌, ◌≢◌, refl, ap, arith, true, false, ◌||◌, Bool-cases, inl, inr}
use wrutil.TaggedPtr.{ptr, less, at_most, at_least, greater}

one_is_less : (x y : ℕ) → x ≢ y → ((ltb x y || false) || (ltb y x || false)) ≡ true
one_is_less x y h = elim (Bool-cases (ltb x y)) [
  | inl k ↦ rw k refl
  | inr k ↦ elim (Bool-cases (ltb y x)) [
    | inl l ↦ rw (k, l) refl
    | inr l ↦ absurd (ground (arith, h, k, l))
  ]
]

-- Of two tagged pointers with different pointers, one is less and the other one greater, but neither
-- `<=` nor `>=` holds between them in either order.
pub at_most_apart :
    (n a b : ℕ)
    → ptr n a ≢ ptr n b
    → ((less n a b || less n b a) ≡ true)
      × (less n a b ≡ greater n b a)
      × (at_most n a b ≡ false)
      × (at_least n a b ≡ false)
unfolding less at_most at_least greater
at_most_apart n a b h =
    let apart : (ptr n a == ptr n b) ≡ false = ground (arith, h) in
    let apart' : (ptr n b == ptr n a) ≡ false = ground (arith, h) in
    let words : (a == b) ≡ false = elim (Bool-cases (a == b)) [
      | inl e ↦ let same : a ≡ b = ground (arith, e) in absurd (h (ap (ptr n) same))
      | inr e ↦ e
    ] in
    (
      rw (apart, apart') (one_is_less _ _ h),
      rw (apart, apart') refl,
      rw (words, apart) refl,
      rw (words, apart) refl,
    )
