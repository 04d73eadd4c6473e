-- ===== src/StringView/Trim.antt =====
-- `trim_left`, `trim_right` and `trim`, and the spaces that they take off.
use wrutil.Common.{
  ℕ, suc, ◌+◌, ◌-◌, ◌<◌, min, ◌≡◌, refl, ap, ◌∙◌, sym, arith, true, false, inl, inr, List, [], ◌∷◌,
  ◌++◌, append_assoc, append-nil, length, length-append, take, take-length, drop, drop-length,
  drop_all, All, All-reverse,
}
use mathlib.Core.List.{reverse, reverse-append, reverse-reverse}
use mathlib.Core.Path.{subst}
use wrutil.StringView.{
  npos, sub_size, not_occurs, find_first_not_of, find_last_not_of, spaces, trim_left, trim_right,
  trim,
}
use wrutil.StringView.Find.{find_not_of_lem}

abbrev pub IsSpace : ℕ → Type 0
IsSpace c = not_occurs spaces c ≡ false

-- The view is empty or begins with a unit that is no space.
abbrev pub NoSpaceAtFront : List ℕ → Type 0
NoSpaceAtFront [] = Unit
NoSpaceAtFront (x ∷ v) = not_occurs spaces x ≡ true

abbrev pub NoSpaceAtBack : List ℕ → Type 0
NoSpaceAtBack v = NoSpaceAtFront (reverse v)

cut_front : (n : ℕ) (a b : List ℕ) → n ≡ length a → drop (min n (length (a ++ b))) (a ++ b) ≡ b
cut_front n a b e = rw fits (drop-length a b)
  where
    fits : min n (length (a ++ b)) ≡ length a
    fits = omega (arith, e, length-append a b)

cut_back :
    (n : ℕ) (a b : List ℕ)
    → n ≡ length b
    → take (length (a ++ b) - min n (length (a ++ b))) (a ++ b) ≡ a
cut_back n a b e = rw fits (take-length a b)
  where
    fits : length (a ++ b) - min n (length (a ++ b)) ≡ length a
    fits = omega (arith, e, length-append a b)

trim_left_cases :
    (v : List ℕ)
    → length v < npos
    → (a : List ℕ) × (v ≡ a ++ trim_left v) × All IsSpace a × NoSpaceAtFront (trim_left v)
trim_left_cases v h = elim (find_not_of_lem spaces v h).0 [
  | inl (n, e) ↦
      let gone : trim_left v ≡ [] = unfold trim_left in drop_all _ v (omega (arith, e)) in
      rw gone (v, sym (append-nil v), n, tt)
  | inr (a, x, b, s, n, t, e) ↦
      let left : trim_left v ≡ x ∷ b =
        unfold trim_left in
        ap (λ (w : List ℕ). drop (min (find_first_not_of spaces 0 v) (length w)) w) s
        ∙ cut_front _ a (x ∷ b) e in
      rw left (a, s, n, t)
]

-- The count that `trim_right` hands to `remove_suffix`.
count_right : ℕ → ℕ → ℕ
count_right n r = sub_size (sub_size n r) 1

count_right_none : (n : ℕ) → n < npos → count_right n npos ≡ n
unfolding count_right
count_right_none n h = omega arith

count_right_found : (n r k : ℕ) → n < npos → n ≡ r + suc k → count_right n r ≡ k
unfolding count_right
count_right_found n r k h e = omega arith

trim_right_cases :
    (v : List ℕ)
    → length v < npos
    → (b : List ℕ) × (v ≡ trim_right v ++ b) × All IsSpace b × NoSpaceAtBack (trim_right v)
trim_right_cases v h = elim (find_not_of_lem spaces v h).1 [
  | inl (n, e) ↦
      let gone : trim_right v ≡ [] =
        unfold trim_right count_right in
        cut_back _ [] v (ap (count_right (length v)) e ∙ count_right_none (length v) h) in
      rw gone (v, refl, n, tt)
  | inr (a, x, b, s, n, t, e) ↦
      let size : length v ≡ length a + suc (length b) = ap length s ∙ length-append a (x ∷ b) in
      let right : trim_right v ≡ a ++ (x ∷ []) =
        unfold trim_right count_right in
        ap
          (λ (w : List ℕ).
            take
              (length w - min (count_right (length v) (find_last_not_of spaces npos v)) (length w))
              w)
          (s ∙ sym (append_assoc a (x ∷ []) b))
        ∙ cut_back _ (a ++ (x ∷ [])) b (
            ap (count_right (length v)) e
            ∙ count_right_found (length v) (length a) (length b) h size) in
      rw right (
        b,
        s ∙ sym (append_assoc a (x ∷ []) b),
        n,
        subst NoSpaceAtFront (sym (reverse-append a (x ∷ []))) t,
      )
]

front_append : (t b : List ℕ) → NoSpaceAtFront (t ++ b) → NoSpaceAtFront t
front_append [] b h = tt
front_append (x ∷ t) b h = h

-- `trim` cuts the view into spaces, the result, and spaces; the result neither begins nor ends
-- with a space.
pub trim_lem :
    (v : List ℕ)
    → length v < npos
    → (a : List ℕ) × (b : List ℕ) × (v ≡ a ++ (trim v ++ b))
      × All IsSpace a
      × All IsSpace b
      × NoSpaceAtFront (trim v)
      × NoSpaceAtBack (trim v)
unfolding trim
trim_lem v h =
    let (a, e, ha, front) = trim_left_cases v h in
    let size : length (trim_left v) < npos =
      omega (arith, ap length e, length-append a (trim_left v)) in
    let (b, f, hb, back) = trim_right_cases (trim_left v) size in
    (
      a,
      b,
      e ∙ ap (λ (t : List ℕ). a ++ t) f,
      ha,
      hb,
      front_append _ b (subst NoSpaceAtFront f front),
      back,
    )

no_space_before : (a w t : List ℕ) → w ≡ a ++ t → NoSpaceAtFront w → All IsSpace a → w ≡ t
no_space_before [] w t e h _ = e
no_space_before (x ∷ a) w t e h (space, _) =
    let front : not_occurs spaces x ≡ true = subst NoSpaceAtFront e h in absurd (cc)

trim_left_fixed : (w : List ℕ) → length w < npos → NoSpaceAtFront w → w ≡ trim_left w
trim_left_fixed w n h =
    let (a, e, ha, _) = trim_left_cases w n in no_space_before a w (trim_left w) e h ha

trim_right_fixed : (w : List ℕ) → length w < npos → NoSpaceAtBack w → w ≡ trim_right w
trim_right_fixed w n h =
    let (b, e, hb, _) = trim_right_cases w n in
    let back : reverse w ≡ reverse b ++ reverse (trim_right w) =
      ap reverse e ∙ reverse-append (trim_right w) b in
    let same =
      no_space_before (reverse b) (reverse w) (reverse (trim_right w)) back h
        (All-reverse IsSpace b hb) in
    sym (reverse-reverse w) ∙ ap reverse same ∙ reverse-reverse (trim_right w)

-- Trimming twice is trimming once.
pub trim_idem : (v : List ℕ) → length v < npos → trim (trim v) ≡ trim v
trim_idem v h =
    let (a, b, e, _, _, front, back) = trim_lem v h in
    let size : length (trim v) < npos =
      omega (arith, ap length e, length-append a (trim v ++ b), length-append (trim v) b) in
    let left = trim_left_fixed (trim v) size front in
    let right = trim_right_fixed (trim v) size back in
    sym (right ∙ ap trim_right left ∙ unfold trim in refl)
