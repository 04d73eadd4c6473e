-- ===== src/StringView/Compare.antt =====
-- `compare` and the lexicographic order, and what rests on it.
use Prim.Native.Nat.{compare, Ordering}
use wrutil.Common.{
  ℕ, zero, suc, ◌+◌, ◌-◌, min, leb, ◌≡◌, refl, ap, ◌∙◌, sym, arith, true, ◌↔◌, List, [], ◌∷◌, ◌++◌,
  length, length-append, take, take_all, drop, length-drop, leb→le, and_true, true_and,
  take-append-drop,
}
use wrutil.StringView.Split.{part_front, part_back}
use wrutil.StringView.{
  part, traits_compare, settle, compare_views, no_difference, has_prefix, has_suffix,
  compare_nocase, lower_case,
}

-- The order of a dictionary: the first difference decides, and a proper prefix comes first.
abbrev pub lexicographic : List ℕ → List ℕ → Ordering
lexicographic [] [] = Ordering.eq
lexicographic [] (y ∷ w) = Ordering.lt
lexicographic (x ∷ v) [] = Ordering.gt
lexicographic (x ∷ v) (y ∷ w) = elim (compare x y) [
  | Ordering.eq ↦ lexicographic v w
  | Ordering.lt ↦ Ordering.lt
  | Ordering.gt ↦ Ordering.gt
]

settle-lexicographic :
    (n : ℕ) (v w : List ℕ)
    → n ≡ min (length v) (length w)
    → settle (traits_compare n v w) (length v) (length w) ≡ lexicographic v w
unfolding traits_compare
settle-lexicographic zero [] [] h = ground arith
settle-lexicographic zero [] (y ∷ w) h = ground arith
settle-lexicographic zero (x ∷ v) [] h = ground arith
settle-lexicographic zero (x ∷ v) (y ∷ w) h = absurd (omega arith)
settle-lexicographic (suc n) [] w h = absurd (omega arith)
settle-lexicographic (suc n) (x ∷ v) [] h = absurd (omega arith)
settle-lexicographic (suc n) (x ∷ v) (y ∷ w) h =
    ground (arith, settle-lexicographic n v w (omega arith))

-- `compare` over the common length and then over the sizes is the lexicographic order.
pub compare_views-lexicographic : (v w : List ℕ) → compare_views v w ≡ lexicographic v w
unfolding compare_views
compare_views-lexicographic v w = settle-lexicographic _ v w refl

abbrev pub opposite : Ordering → Ordering
opposite Ordering.lt = Ordering.gt
opposite Ordering.eq = Ordering.eq
opposite Ordering.gt = Ordering.lt

lexicographic_eq : (v w : List ℕ) → lexicographic v w ≡ Ordering.eq → v ≡ w
lexicographic_eq [] [] h = refl
lexicographic_eq [] (y ∷ w) h = cc
lexicographic_eq (x ∷ v) [] h = cc
lexicographic_eq (x ∷ v) (y ∷ w) h = ground (arith, lexicographic_eq v w)

lexicographic_self : (v : List ℕ) → lexicographic v v ≡ Ordering.eq
lexicographic_self [] = refl
lexicographic_self (x ∷ v) = ground (arith, lexicographic_self v)

lexicographic-opposite : (v w : List ℕ) → lexicographic w v ≡ opposite (lexicographic v w)
lexicographic-opposite [] [] = refl
lexicographic-opposite [] (y ∷ w) = refl
lexicographic-opposite (x ∷ v) [] = refl
lexicographic-opposite (x ∷ v) (y ∷ w) = ground (arith, lexicographic-opposite v w)

lexicographic_trans :
    (u v w : List ℕ)
    → lexicographic u v ≡ Ordering.lt
    → lexicographic v w ≡ Ordering.lt
    → lexicographic u w ≡ Ordering.lt
lexicographic_trans [] [] w h k = cc
lexicographic_trans (x ∷ u) [] w h k = cc
lexicographic_trans [] (y ∷ v) [] h k = cc
lexicographic_trans (x ∷ u) (y ∷ v) [] h k = cc
lexicographic_trans [] (y ∷ v) (z ∷ w) h k = refl
lexicographic_trans (x ∷ u) (y ∷ v) (z ∷ w) h k = ground (arith, lexicographic_trans u v w)

-- `compare` is zero exactly on equal views, and changes its sign with the order of its arguments.
pub compare_views_sign :
    (v w : List ℕ)
    → ((compare_views v w ≡ Ordering.eq) ↔ (v ≡ w))
      × (compare_views w v ≡ opposite (compare_views v w))
compare_views_sign v w =
    rw (compare_views-lexicographic v w, compare_views-lexicographic w v)
      (
        (lexicographic_eq v w, λ e. ap (lexicographic v) (sym e) ∙ lexicographic_self v),
        lexicographic-opposite v w,
      )

-- The order that `compare` gives is transitive.
pub compare_views_trans :
    (u v w : List ℕ)
    → compare_views u v ≡ Ordering.lt
    → compare_views v w ≡ Ordering.lt
    → compare_views u w ≡ Ordering.lt
compare_views_trans u v w h k =
    compare_views-lexicographic u w
    ∙ lexicographic_trans u v w (sym (compare_views-lexicographic u v) ∙ h)
        (sym (compare_views-lexicographic v w) ∙ k)

same_units : (a b : List ℕ) → (no_difference (compare_views a b) ≡ true) ↔ (a ≡ b)
same_units a b = (
  λ h. (compare_views_sign a b).0.0 (ground (arith, h)),
  λ e. ap no_difference ((compare_views_sign a b).0.1 e),
)

-- `has_prefix` holds exactly where the view is the prefix and something behind it.
pub has_prefix_iff : (v w : List ℕ) → (has_prefix v w ≡ true) ↔ ((rest : List ℕ) × (v ≡ w ++ rest))
has_prefix_iff v w = (
  λ h.
      let parts : (leb (length w) (length v) ≡ true)
          × (no_difference (compare_views (part 0 (length w) v) w) ≡ true) =
        unfold has_prefix in and_true _ _ h in
      let (fits, same) = parts in
      let e : part 0 (length w) v ≡ w = (same_units _ w).0 same in
      let n : min (length w) (length v - 0) ≡ length w = omega (arith, leb→le _ _ fits) in
      (
        drop (length w) v,
        sym (take-append-drop (length w) v)
            ∙ ap (λ (t : List ℕ). t ++ drop (length w) v) (ap (λ (m : ℕ). take m v) (sym n) ∙ e),
      ),
  λ (rest, e).
      unfold has_prefix in
      true_and (leb (length w) (length v)) (no_difference (compare_views (part 0 (length w) v) w))
        (ground (arith, ap length e, length-append w rest))
        ((same_units _ w).1 (ap (part 0 (length w)) e ∙ part_front (length w) w rest refl)),
)

-- `has_suffix` holds exactly where the view is something and the suffix behind it.
pub has_suffix_iff :
    (v w : List ℕ) → (has_suffix v w ≡ true) ↔ ((front : List ℕ) × (v ≡ front ++ w))
has_suffix_iff v w = (
  λ h.
      let parts : (leb (length w) (length v) ≡ true)
          × (no_difference (compare_views (part (length v - length w) (length w) v) w) ≡ true) =
        unfold has_suffix in and_true _ _ h in
      let (fits, same) = parts in
      let k = length v - length w in
      let e : part k (length w) v ≡ w = (same_units _ w).0 same in
      let all : part k (length w) v ≡ drop k v =
        take_all _ (drop k v) (omega (arith, length-drop k v, leb→le _ _ fits)) in
      (take k v, sym (take-append-drop k v) ∙ ap (λ (t : List ℕ). take k v ++ t) (sym all ∙ e)),
  λ (front, e).
      let size : length v ≡ length front + length w = ap length e ∙ length-append front w in
      unfold has_suffix in
      true_and (leb (length w) (length v))
        (no_difference (compare_views (part (length v - length w) (length w) v) w))
        (ground (arith, size))
        ((same_units _ w).1 (
          ap (part (length v - length w) (length w)) e
          ∙ part_back (length v - length w) (length w) front w (omega (arith, size))
              (omega arith))),
)

module _ (to_lower : ℕ → ℕ) where
  -- `compare_nocase` is the lexicographic order of the views in lower case.
  pub compare_nocase-lexicographic :
      (v w : List ℕ)
      → compare_nocase to_lower v w ≡ lexicographic (lower_case to_lower v) (lower_case to_lower w)
  unfolding compare_nocase lower_case
  compare_nocase-lexicographic [] [] = refl
  compare_nocase-lexicographic [] (y ∷ w) = refl
  compare_nocase-lexicographic (x ∷ v) [] = refl
  compare_nocase-lexicographic (x ∷ v) (y ∷ w) = ground (arith, compare_nocase-lexicographic v w)
