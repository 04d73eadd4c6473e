-- ===== src/Option/Progress/Texts.antt =====
-- The sizes of the texts and of the list of arguments that a round of Option::parse works on.
use wrutil.Common.{
  ℕ, zero, suc, ◌+◌, ◌-◌, ◌≤◌, ◌<◌, min, ◌==◌, if◌then◌else◌, ◌≡◌, refl, arith, Bool, true, false,
  Bool-cases, ◌⊎◌, inl, inr, List, [], ◌∷◌, length, length-drop, length-take, drop, get_or,
}
use wrutil.StringView.{
  spaces, find_first_not_of, trim_left, trim_right, remove_suffix, part, trim, remove_prefix,
}

-- What is left to read: a unit for each argument and one for each of its characters.
abbrev pub weight : List (List ℕ) → ℕ
weight [] = 0
weight (a ∷ args) = suc (length a + weight args)

pub weight_step :
    (pos : ℕ) (args : List (List ℕ))
    → pos < length args
    → weight (drop pos args) ≡ suc (length (get_or args pos []) + weight (drop (suc pos) args))
weight_step pos [] h = absurd (omega arith)
weight_step zero (a ∷ args) h = refl
weight_step (suc pos) (a ∷ args) h = weight_step pos args (omega arith)

drop-nil : (k : ℕ) → drop {A = List ℕ} k [] ≡ []
drop-nil zero = refl
drop-nil (suc k) = refl

zero_add : (k : ℕ) → 0 + k ≡ k
zero_add k = omega arith

pub add_one : (k : ℕ) → suc k ≡ k + 1
add_one k = omega arith

pub reach : (a b : ℕ) → a ≤ b → a + (b - a) ≡ b
reach a b h = omega arith

suc_add : (pos k : ℕ) → suc pos + k ≡ suc (pos + k)
suc_add pos k = omega arith

pub weight-drop_front : (k : ℕ) (args : List (List ℕ)) → weight (drop k args) ≤ weight args
weight-drop_front zero args = omega arith
weight-drop_front (suc k) [] = omega arith
weight-drop_front (suc k) (a ∷ args) = let inner = weight-drop_front k args in omega arith

pub weight-drop_le :
    (k pos : ℕ) (args : List (List ℕ)) → weight (drop (pos + k) args) ≤ weight (drop pos args)
weight-drop_le k pos [] = rw (drop-nil (pos + k), drop-nil pos) (omega arith)
weight-drop_le k zero (a ∷ args) = rw (zero_add k) (weight-drop_front k (a ∷ args))
weight-drop_le k (suc pos) (a ∷ args) = rw (suc_add pos k) (weight-drop_le k pos args)

pub length-nil : {A : Type 0} → (xs : List A) → length xs ≡ 0 → xs ≡ []
length-nil [] h = refl
length-nil (x ∷ xs) h = absurd (omega arith)

-- The text `rest` is empty, or it is shorter than `text`.
abbrev pub Shorter : List ℕ → List ℕ → Type 0
Shorter rest text = (rest ≡ []) ⊎ (length rest < length text)

pub length-remove_prefix : (n : ℕ) (v : List ℕ) → length (remove_prefix n v) ≡ length v - n
unfolding remove_prefix
length-remove_prefix n v = omega (arith, length-drop (min n (length v)) v)

length-trim_right_le : (v : List ℕ) → length (trim_right v) ≤ length v
unfolding trim_right remove_suffix
length-trim_right_le v = omega (arith, length-take _ v)

length-trim_left_le : (v : List ℕ) → length (trim_left v) ≤ length v
unfolding trim_left
length-trim_left_le v = omega (arith, length-remove_prefix (find_first_not_of spaces 0 v) v)

pub length-trim_le : (v : List ℕ) → length (trim v) ≤ length v
unfolding trim
length-trim_le v = omega (arith, length-trim_left_le v, length-trim_right_le (trim_left v))

needle_size :
    (short : Bool) (opt stem : List ℕ)
    → length (if short then part 0 1 opt else opt) ≡ length stem
    → length stem < length opt
    → 0 < length stem
needle_size false opt stem h l = omega arith
needle_size true opt stem h l = omega (arith, length-take (min 1 (length opt - 0)) (drop 0 opt))

pub behind_needle :
    (short : Bool) (opt stem : List ℕ)
    → length (if short then part 0 1 opt else opt) ≡ length stem
    → Shorter (remove_prefix (length stem) opt) opt
behind_needle short opt stem h =
    let rest = length-remove_prefix (length stem) opt in
    elim (Bool-cases (length (remove_prefix (length stem) opt) == 0)) [
      | inl z ↦ inl (length-nil _ (ground (arith, z)))
      | inr z ↦
          let some_left : 0 < length (remove_prefix (length stem) opt) = ground (arith, z) in
          let named = needle_size short opt stem h (omega (arith, rest)) in
          inr (omega (arith, rest))
    ]
