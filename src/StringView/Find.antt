-- ===== src/StringView/Find.antt =====
-- What the searches for one unit answer: forwards from the start and backwards from the end.
use wrutil.Common.{
  ℕ, suc, ◌+◌, ◌%◌, ◌^◌, ◌<◌, min, leb, ◌≡◌, refl, ap, ◌∙◌, sym, arith, Bool, true, false, ◌⊎◌, inl,
  inr, List, [], ◌∷◌, ◌++◌, append_assoc, length, length-append, length-reverse, take_all, All,
  All-reverse,
}
use mathlib.Core.List.{reverse, reverse-append, reverse-reverse, reverse-cons}
use mathlib.Core.Path.{subst}
use wrutil.Algorithm.{find_if_cases}
use wrutil.StringView.{
  npos, sub_size, find_unit, find_last_unit, is_unit, not_occurs, find_char, rfind_char,
  find_first_not_of, find_last_not_of,
}

module _ (p : ℕ → Bool) (v : List ℕ) where
  -- The answer `r` is the place of the first unit that passes, or npos where none does.
  abbrev pub First : ℕ → Type 0
  First r =
      (All (λ x. p x ≡ false) v × (r ≡ npos))
      ⊎ ((a : List ℕ) × (x : ℕ) × (b : List ℕ) × (v ≡ a ++ (x ∷ b))
          × All (λ y. p y ≡ false) a
          × (p x ≡ true)
          × (r ≡ length a))

  -- The same of the last such unit.
  abbrev pub Last : ℕ → Type 0
  Last r =
      (All (λ x. p x ≡ false) v × (r ≡ npos))
      ⊎ ((a : List ℕ) × (x : ℕ) × (b : List ℕ) × (v ≡ a ++ (x ∷ b))
          × All (λ y. p y ≡ false) b
          × (p x ≡ true)
          × (r ≡ length a))

pub find_unit-First : (p : ℕ → Bool) (v : List ℕ) → First p v (find_unit p 0 v)
find_unit-First p v = elim (find_if_cases p v) [
  | inl (n, e) ↦ inl (n, rw e (ground arith))
  | inr (a, x, b, s, n, t, e) ↦
      inr (a, x, b, s, n, t, rw e (ground (arith, ap length s, length-append a (x ∷ b))))
]

window : (n : ℕ) → n < npos → (min npos (sub_size n 1) + 1) % 2 ^ 64 ≡ n
window n h = omega arith

unreverse : (v a b : List ℕ) (x : ℕ) → reverse v ≡ a ++ (x ∷ b) → v ≡ reverse b ++ (x ∷ reverse a)
unreverse v a b x e =
    sym (reverse-reverse v)
    ∙ ap reverse e
    ∙ reverse-append a (x ∷ b)
    ∙ ap (λ (t : List ℕ). t ++ reverse a) (reverse-cons x b)
    ∙ append_assoc (reverse b) (x ∷ []) (reverse a)

pub find_last_unit-Last :
    (p : ℕ → Bool) (v : List ℕ) → length v < npos → Last p v (find_last_unit p npos v)
find_last_unit-Last p v h =
    rw (window (length v) h, take_all (length v) v (omega arith))
      (elim (find_if_cases p (reverse v)) [
        | inl (n, e) ↦ inl (
          subst (All (λ x. p x ≡ false)) (reverse-reverse v) (All-reverse _ _ n),
          ground (arith, e, length-reverse v),
        )
        | inr (a, x, b, s, n, t, e) ↦ inr (
          reverse b,
          x,
          reverse a,
          unreverse v a b x s,
          All-reverse _ a n,
          t,
          ground
              (arith, e, length-reverse b, length-reverse v, ap length s, length-append a (x ∷ b)),
        )
      ])

-- `find(c)` gives the place of the first unit `c`, or npos where there is none.
pub find_char-First : (c : ℕ) (v : List ℕ) → First (is_unit c) v (find_char c 0 v)
unfolding find_char
find_char-First c v = find_unit-First (is_unit c) v

-- `rfind(c)` gives the place of the last unit `c`, or npos where there is none.
pub rfind_char-Last :
    (c : ℕ) (v : List ℕ) → length v < npos → Last (is_unit c) v (rfind_char c npos v)
unfolding rfind_char
rfind_char-Last c v h = find_last_unit-Last (is_unit c) v h

pub not_at_end : (n : ℕ) → leb (suc n) 0 ≡ false
not_at_end n = ground arith

-- `find_first_not_of` and `find_last_not_of` answer with the first and the last unit that the set
-- does not hold, and with npos where it holds all of them.
pub find_not_of_lem :
    (set v : List ℕ)
    → length v < npos
    → First (not_occurs set) v (find_first_not_of set 0 v)
      × Last (not_occurs set) v (find_last_not_of set npos v)
unfolding find_first_not_of find_last_not_of
find_not_of_lem set [] h = (inl (tt, refl), find_last_unit-Last (not_occurs set) [] h)
find_not_of_lem set (x ∷ v) h = (
  rw (not_at_end (length v)) (find_unit-First (not_occurs set) (x ∷ v)),
  find_last_unit-Last (not_occurs set) (x ∷ v) h,
)
