-- ===== src/StringView/Split.antt =====
-- `split` and `rsplit` cut a view at one separator, and `substr` at positions.
use wrutil.Common.{
  ℕ, ◌+◌, ◌-◌, ◌≤◌, ◌<◌, min, ◌==◌, ==_iff, ◌≡◌, refl, ap, Bool-cases, ltb, ltb→le,
  take-append-drop, length-take, length-drop, ◌∙◌, sym, arith, false, ◌⊎◌, inl, inr, none, some,
  List, [], ◌∷◌, ◌++◌, append_assoc, length, length-append, take, take_all, take-length, drop,
  drop-length, All,
}
use mathlib.Core.Path.{ap₂}
use wrutil.Algorithm.{search_first, search_first_cases, Nowhere, NotBefore}
use wrutil.StringView.{npos, offset, part, cut_at, is_unit, split_char, split, rsplit_char, substr}
use wrutil.StringView.Find.{find_char-First, rfind_char-Last}

abbrev pub Lacks : ℕ → List ℕ → Type 0
Lacks c = All (λ x. is_unit c x ≡ false)

pub part_front : (i : ℕ) (a r : List ℕ) → i ≡ length a → part 0 i (a ++ r) ≡ a
part_front i a r e = rw fits (take-length a r)
  where
    fits : min i (length (a ++ r) - 0) ≡ length a
    fits = omega (arith, length-append a r)

pub part_back :
    (k count : ℕ) (a b : List ℕ) → k ≡ length a → length b ≤ count → part k count (a ++ b) ≡ b
part_back k count a b e h =
    ap (λ (n : ℕ). take (min count (length (a ++ b) - k)) (drop n (a ++ b))) e
    ∙ ap (take (min count (length (a ++ b) - k))) (drop-length a b)
    ∙ take_all _ b (omega (arith, length-append a b))

-- Cutting where a separator of `n` units stands behind `a`.
cut_between :
    (i n : ℕ) (a s b v : List ℕ)
    → v ≡ (a ++ s) ++ b
    → i ≡ length a
    → n ≡ length s
    → length v < npos
    → cut_at i n v ≡ (a, b)
cut_between i n a s b v e hi hn h = rw inside (ap₂ (λ (x y : List ℕ). (x, y)) front back)
  where
    size : length v ≡ length a + length s + length b
    size = ap length e ∙ omega (arith, length-append (a ++ s) b, length-append a s)

    inside : (i == npos) ≡ false
    inside = ground (arith, size)

    front : part 0 i v ≡ a
    front = ap (part 0 i) (e ∙ append_assoc a s b) ∙ part_front i a (s ++ b) hi

    back : part (i + n) (length v - i - n) v ≡ b
    back =
        ap (part (i + n) (length v - i - n)) e
        ∙ part_back (i + n) (length v - i - n) (a ++ s) b (omega (arith, length-append a s))
            (omega (arith, size))

-- Where the unit occurs, `split` gives the parts around its first occurrence; otherwise the whole
-- view and an empty one.
pub split_char_cases :
    (c : ℕ) (v : List ℕ)
    → length v < npos
    → (Lacks c v × (split_char c v ≡ (v, [])))
      ⊎ ((a b : List ℕ) × (v ≡ a ++ (c ∷ b)) × Lacks c a × (split_char c v ≡ (a, b)))
split_char_cases c v h = elim (find_char-First c v) [
  | inl (n, e) ↦ inl (n, unfold split_char in ap (λ (i : ℕ). cut_at i 1 v) e)
  | inr (a, x, b, s, n, t, e) ↦
      let found : v ≡ a ++ (c ∷ b) = s ∙ ap (λ (y : ℕ). a ++ (y ∷ b)) ((==_iff x c).0 t) in
      inr (
        a,
        b,
        found,
        n,
        unfold split_char in
            cut_between _ 1 a (c ∷ []) b v (found ∙ sym (append_assoc a (c ∷ []) b)) e refl h,
      )
]

-- The same of `rsplit` and the last occurrence.
pub rsplit_char_cases :
    (c : ℕ) (v : List ℕ)
    → length v < npos
    → (Lacks c v × (rsplit_char c v ≡ (v, [])))
      ⊎ ((a b : List ℕ) × (v ≡ a ++ (c ∷ b)) × Lacks c b × (rsplit_char c v ≡ (a, b)))
rsplit_char_cases c v h = elim (rfind_char-Last c v h) [
  | inl (n, e) ↦ inl (n, unfold rsplit_char in ap (λ (i : ℕ). cut_at i 1 v) e)
  | inr (a, x, b, s, n, t, e) ↦
      let found : v ≡ a ++ (c ∷ b) = s ∙ ap (λ (y : ℕ). a ++ (y ∷ b)) ((==_iff x c).0 t) in
      inr (
        a,
        b,
        found,
        n,
        unfold rsplit_char in
            cut_between _ 1 a (c ∷ []) b v (found ∙ sym (append_assoc a (c ∷ []) b)) e refl h,
      )
]

-- `split` on a separator of several units cuts at the first place where it stands.
split_cases :
    (sep v : List ℕ)
    → length v < npos
    → (Nowhere sep v × (split sep v ≡ (v, [])))
      ⊎ ((a b : List ℕ) × (v ≡ (a ++ sep) ++ b)
          × NotBefore sep (length a) v
          × (split sep v ≡ (a, b)))
split_cases sep v h = elim (search_first_cases sep v) [
  | inl (n, e) ↦ inl (n, unfold split in ap (λ (i : ℕ). cut_at i (length sep) v) (missing e))
  | inr (a, b, s, n, e, lt) ↦
      let found : v ≡ (a ++ sep) ++ b = s ∙ sym (append_assoc a sep b) in
      inr (
        a,
        b,
        found,
        n,
        unfold split in
            cut_between _ (length sep) a sep b v found (at_offset (length a) lt e) refl h,
      )
]
  where
    missing : search_first sep v ≡ length v → offset 0 v (search_first sep v) ≡ npos
    missing e = ground (arith, e)

    at_offset :
        (n : ℕ) → n < length v → search_first sep v ≡ n → offset 0 v (search_first sep v) ≡ n
    at_offset n lt e = ground (arith, e)

-- `substr` answers exactly when `pos` is at most the size; the view is then the first part, at most
-- `count` units long and longer only if nothing follows, of what stands from `pos` on.
pub substr_cases :
    (pos count : ℕ) (v : List ℕ)
    → ((length v < pos) × (substr pos count v ≡ none))
      ⊎ ((a b c : List ℕ) × (v ≡ a ++ (b ++ c))
          × (length a ≡ pos)
          × (length b ≡ min count (length v - pos))
          × (substr pos count v ≡ some b))
unfolding substr
substr_cases pos count v = elim (Bool-cases (ltb (length v) pos)) [
  | inl h ↦ inl (ground arith, rw h)
  | inr h ↦ inr (
    take pos v,
    part pos count v,
    drop (min count (length v - pos)) (drop pos v),
    sym (
        ap (λ (t : List ℕ). take pos v ++ t) (take-append-drop _ (drop pos v))
        ∙ take-append-drop pos v),
    omega (arith, length-take pos v, ltb→le _ _ h),
    omega (arith, length-take (min count (length v - pos)) (drop pos v), length-drop pos v),
    rw h,
  )
]
