-- ===== src/Algorithm/Defs.antt =====
-- std::find_if, std::search, std::find_end and the prefix test that they share, over lists.
use wrutil.Common.{
  ℕ, suc, ◌==◌, if◌then◌else◌, Bool, true, false, ◌&&◌, Option, none, some, List, [], ◌∷◌,
}

module _ {ℓ} {A : Type ℓ} where
  -- std::find_if; std::find_if_not and the others pass another test.
  unfoldable pub find_if : (A → Bool) → List A → ℕ
  find_if p [] = 0
  find_if p (x ∷ xs) = if p x then 0 else suc (find_if p xs)

unfoldable pub is_prefix : List ℕ → List ℕ → Bool
is_prefix [] xs = true
is_prefix (y ∷ ys) [] = false
is_prefix (y ∷ ys) (x ∷ xs) = y == x && is_prefix ys xs

-- std::search: the first place where `needle` stands.
unfoldable pub search_first : List ℕ → List ℕ → ℕ
unfolding is_prefix
search_first needle [] = 0
search_first needle (x ∷ xs) = if is_prefix needle (x ∷ xs) then 0 else suc (search_first needle xs)

-- std::find_end: the last place where `needle` stands, for a needle that is not empty.
unfoldable pub search_last : List ℕ → List ℕ → Option ℕ
unfolding is_prefix
search_last needle [] = none
search_last needle (x ∷ xs) = elim (search_last needle xs) [
  | some i ↦ some (suc i)
  | none ↦ if is_prefix needle (x ∷ xs) then some 0 else none
]
