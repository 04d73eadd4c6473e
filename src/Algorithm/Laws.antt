-- ===== src/Algorithm/Laws.antt =====
-- What the algorithms find.
use wrutil.Common.{
  ℕ, zero, suc, ◌<◌, ==_self, ◌≡◌, refl, ap, arith, Bool, true, false, none, some, List, [], ◌∷◌,
  ◌++◌, ◌⊎◌, inl, inr, Bool-cases, length, All,
}
use wrutil.Algorithm.Defs.{find_if, is_prefix, search_first, search_last}

module _ {ℓ} {A : Type ℓ} (p : A → Bool) where
  abbrev pub None : List A → Type 0
  None = All (λ x. p x ≡ false)

  -- Either no element passes, or the offset is that of the first one that does.
  pub find_if_cases :
      (xs : List A)
      → (None xs × (find_if p xs ≡ length xs))
        ⊎ ((a : List A) × (x : A) × (b : List A) × (xs ≡ a ++ (x ∷ b))
            × None a
            × (p x ≡ true)
            × (find_if p xs ≡ length a))
  unfolding find_if
  find_if_cases [] = inl (tt, refl)
  find_if_cases (x ∷ xs) = elim (Bool-cases (p x)) [
    | inl h ↦ inr ([], x, xs, refl, tt, h, rw h)
    | inr h ↦ elim (find_if_cases xs) [
      | inl (n, e) ↦ inl ((h, n), rw h (ap suc e))
      | inr (a, y, b, s, n, t, e) ↦ inr (x ∷ a, y, b, ap (λ t. x ∷ t) s, (h, n), t, rw h (ap suc e))
    ]
  ]

pub is_prefix-append : (ys rest : List ℕ) → is_prefix ys (ys ++ rest) ≡ true
unfolding is_prefix
is_prefix-append [] rest = refl
is_prefix-append (y ∷ ys) rest = rw (==_self y) (is_prefix-append ys rest)

pub is_prefix→append :
    (ys xs : List ℕ) → is_prefix ys xs ≡ true → (rest : List ℕ) × (xs ≡ ys ++ rest)
unfolding is_prefix
is_prefix→append [] xs h = (xs, refl)
is_prefix→append (y ∷ ys) [] h = cc
is_prefix→append (y ∷ ys) (x ∷ xs) h =
    let (rest, e) = is_prefix→append ys xs (ground (arith, h)) in (rest, ground (arith, h, e))

-- `needle` stands nowhere in the range.
abbrev pub Nowhere : List ℕ → List ℕ → Type 0
Nowhere needle [] = Unit
Nowhere needle (x ∷ xs) = (is_prefix needle (x ∷ xs) ≡ false) × Nowhere needle xs

-- It does not stand before the offset `n`.
abbrev pub NotBefore : List ℕ → ℕ → List ℕ → Type 0
NotBefore needle zero xs = Unit
NotBefore needle (suc n) [] = Unit
NotBefore needle (suc n) (x ∷ xs) = (is_prefix needle (x ∷ xs) ≡ false) × NotBefore needle n xs

pub search_first_cases :
    (needle xs : List ℕ)
    → (Nowhere needle xs × (search_first needle xs ≡ length xs))
      ⊎ ((a b : List ℕ) × (xs ≡ a ++ (needle ++ b))
          × NotBefore needle (length a) xs
          × (search_first needle xs ≡ length a)
          × (length a < length xs))
unfolding search_first
search_first_cases needle [] = inl (tt, refl)
search_first_cases needle (x ∷ xs) = elim (Bool-cases (is_prefix needle (x ∷ xs))) [
  | inl h ↦ let (b, e) = is_prefix→append needle (x ∷ xs) h in inr ([], b, e, tt, rw h, omega arith)
  | inr h ↦ elim (search_first_cases needle xs) [
    | inl (n, e) ↦ inl ((h, n), rw h (ap suc e))
    | inr (a, b, s, n, e, lt) ↦
        inr (x ∷ a, b, ap (λ t. x ∷ t) s, (h, n), rw h (ap suc e), omega arith)
  ]
]

-- The last place, or none at all.
pub search_last_cases :
    (needle xs : List ℕ)
    → (Nowhere needle xs × (search_last needle xs ≡ none))
      ⊎ ((a : List ℕ) × (x : ℕ) × (b : List ℕ) × (xs ≡ a ++ (x ∷ b))
          × (is_prefix needle (x ∷ b) ≡ true)
          × Nowhere needle b
          × (search_last needle xs ≡ some (length a)))
unfolding search_last
search_last_cases needle [] = inl (tt, refl)
search_last_cases needle (x ∷ xs) = elim (search_last_cases needle xs) [
  | inr (a, y, b, s, p, n, e) ↦ inr (x ∷ a, y, b, ap (λ t. x ∷ t) s, p, n, rw e)
  | inl (n, e) ↦ elim (Bool-cases (is_prefix needle (x ∷ xs))) [
    | inl h ↦ inr ([], x, xs, refl, h, n, rw (e, h))
    | inr h ↦ inl ((h, n), rw (e, h))
  ]
]
