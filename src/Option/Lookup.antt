-- ===== src/Option/Lookup.antt =====
-- Option::prefix, and the order in which the entries of a group are kept and found.
use Prim.Native.Nat.{Ordering}
use wrutil.Common.{
  ℕ, ◌==◌, ◌≡◌, ◌≢◌, refl, sym, ap, ◌∙◌, arith, true, false, Bool-cases, ◌⊎◌, inl, inr, some, List,
  [], ◌∷◌, ◌++◌, All, codes,
}
use wrutil.StringView.{compare_views}
use wrutil.StringView.Compare.{opposite, compare_views_sign, compare_views_trans}
use mathlib.Core.Path.{subst}
use mathlib.Core.Option.{some-injective}
use wrutil.Option.Table.{Entry, before, is_less, match, insert_entry, find_entry}
use wrutil.Option.Setup.{prefix}

-- The text does not begin with the character.
abbrev pub NotFirst : ℕ → List ℕ → Type 0
NotFirst c [] = Unit
NotFirst c (d ∷ v) = d ≢ c

-- `prefix` cuts off `--`, or else `-` or `+`, or nothing where the name begins with neither.
pub prefix_cases :
    (name : List ℕ)
    → (rest : List ℕ) × (name ≡ prefix name ++ rest)
      × ((prefix name ≡ codes "--")
          ⊎ ((prefix name ≡ codes "-") × NotFirst b'-' rest)
          ⊎ (prefix name ≡ codes "+")
          ⊎ ((prefix name ≡ []) × NotFirst b'-' rest × NotFirst b'+' rest))
unfolding prefix
prefix_cases [] = ([], refl, inr (inr (inr (refl, tt, tt))))
prefix_cases (c ∷ []) = elim (Bool-cases (c == b'-')) [
  | inl h ↦ ([], rw h, inr (inl (rw h (ground (arith, h)), tt)))
  | inr h ↦ elim (Bool-cases (c == b'+')) [
    | inl k ↦ ([], rw (h, k), inr (inr (inl (rw (h, k) (ground (arith, k))))))
    | inr k ↦ (c ∷ [], rw (h, k), inr (inr (inr (rw (h, k), ground (arith, h), ground (arith, k)))))
  ]
]
prefix_cases (c ∷ d ∷ name) = elim (Bool-cases (c == b'-')) [
  | inl h ↦ elim (Bool-cases (d == b'-')) [
    | inl k ↦ (name, rw (h, k), inl (rw (h, k) (ground (arith, h, k))))
    | inr k ↦ (d ∷ name, rw (h, k), inr (inl (rw (h, k) (ground (arith, h)), ground (arith, k))))
  ]
  | inr h ↦ elim (Bool-cases (c == b'+')) [
    | inl k ↦ (d ∷ name, rw (h, k), inr (inr (inl (rw (h, k) (ground (arith, k))))))
    | inr k ↦
        (c ∷ d ∷ name, rw (h, k), inr (inr (inr (rw (h, k), ground (arith, h), ground (arith, k)))))
  ]
]

is_less-lt : (o : Ordering) → is_less o ≡ true → o ≡ Ordering.lt
is_less-lt Ordering.lt h = refl
is_less-lt Ordering.eq h = cc
is_less-lt Ordering.gt h = cc

Ordering-cases : (o : Ordering) → (o ≡ Ordering.lt) ⊎ (o ≡ Ordering.eq) ⊎ (o ≡ Ordering.gt)
Ordering-cases Ordering.lt = inl refl
Ordering-cases Ordering.eq = inr (inl refl)
Ordering-cases Ordering.gt = inr (inr refl)

before_trans : (u v w : List ℕ) → before u v ≡ true → before v w ≡ true → before u w ≡ true
before_trans u v w h k = ap is_less (compare_views_trans u v w (is_less-lt _ h) (is_less-lt _ k))

before_asym : (v w : List ℕ) → before v w ≡ true → before w v ≡ false
before_asym v w h = ap is_less ((compare_views_sign v w).1 ∙ ap opposite (is_less-lt _ h))

before_irrefl : (v : List ℕ) → before v v ≡ false
before_irrefl v = elim (Bool-cases (before v v)) [ inl h ↦ before_asym v v h | inr h ↦ h ]

-- Where `w` is not before `v`, it is equal to it or behind it.
not_before : (v w : List ℕ) → before w v ≡ false → (v ≡ w) ⊎ (before v w ≡ true)
not_before v w h = elim (Ordering-cases (compare_views v w)) [
  | inl e ↦ inr (ap is_less e)
  | inr (inl e) ↦ inl ((compare_views_sign v w).0.0 e)
  | inr (inr e) ↦
      let back : before w v ≡ true = ap is_less ((compare_views_sign v w).1 ∙ ap opposite e) in
      absurd (cc)
]

-- The order is total, so `not before` is transitive.
not_before_trans : (u v w : List ℕ) → before v u ≡ false → before w v ≡ false → before w u ≡ false
not_before_trans u v w h k = elim (not_before v w k) [
  | inl same ↦ subst (λ (t : List ℕ). before t u ≡ false) same h
  | inr later ↦ elim (not_before u v h) [
    | inl same ↦ subst (λ (t : List ℕ). before w t ≡ false) (sym same) k
    | inr middle ↦ before_asym u w (before_trans u v w middle later)
  ]
]

module _ {S : Type 0} where
  -- No entry is before one that stands in front of it.
  abbrev pub Sorted : List (Entry S) → Type 0
  Sorted [] = Unit
  Sorted (x ∷ xs) = All (λ (y : Entry S). before y.stem x.stem ≡ false) xs × Sorted xs

  insert_entry-All :
      (P : Entry S → Type 0) (e : Entry S) (xs : List (Entry S))
      → P e
      → All P xs
      → All P (insert_entry e xs)
  unfolding insert_entry
  insert_entry-All P e [] p h = (p, tt)
  insert_entry-All P e (x ∷ xs) p (q, h) = elim (Bool-cases (before x.stem e.stem)) [
    | inl b ↦ rw b (q, insert_entry-All P e xs p h)
    | inr b ↦ rw b (p, (q, h))
  ]

  weaken_front :
      (x e : Entry S) (xs : List (Entry S))
      → before x.stem e.stem ≡ false
      → All (λ (y : Entry S). before y.stem x.stem ≡ false) xs
      → All (λ (y : Entry S). before y.stem e.stem ≡ false) xs
  weaken_front x e [] b h = tt
  weaken_front x e (y ∷ xs) b (q, h) =
      (not_before_trans e.stem x.stem y.stem b q, weaken_front x e xs b h)

  -- An insertion keeps the entries in lexicographic order.
  pub insert_entry-Sorted :
      (e : Entry S) (xs : List (Entry S)) → Sorted xs → Sorted (insert_entry e xs)
  unfolding insert_entry
  insert_entry-Sorted e [] h = (tt, tt)
  insert_entry-Sorted e (x ∷ xs) (q, h) = elim (Bool-cases (before x.stem e.stem)) [
    | inl b ↦ rw b (
      insert_entry-All (λ (y : Entry S). before y.stem x.stem ≡ false) e xs
          (before_asym x.stem e.stem b) q,
      insert_entry-Sorted e xs h,
    )
    | inr b ↦ rw b ((b, weaken_front x e xs b q), (q, h))
  ]

  All-middle :
      (P : Entry S → Type 0) (a b : List (Entry S)) (x : Entry S) → All P (a ++ (x ∷ b)) → P x
  All-middle P [] b x (p, h) = p
  All-middle P (y ∷ a) b x (p, h) = All-middle P a b x h

  same_entry :
      (x e : Entry S)
      → some x ≡ some e
      → (y : Entry S) → before y.stem x.stem ≡ false
      → before y.stem e.stem ≡ false
  same_entry x e h y k =
      subst (λ (t : Entry S). before y.stem t.stem ≡ false) (some-injective x e h) k

  -- What `find_entry` answers in a sorted table is not behind any other entry that matches, in
  -- lexicographic order.
  pub find_entry_least :
      (a b : List (Entry S)) (e x : Entry S) (stem : List ℕ) (delim : ℕ)
      → Sorted (a ++ (x ∷ b))
      → find_entry (a ++ (x ∷ b)) stem delim ≡ some e
      → match x stem delim ≡ true
      → before x.stem e.stem ≡ false
  unfolding find_entry
  find_entry_least [] b e x stem delim sorted found matches =
      same_entry x e (rw matches at found) x (before_irrefl x.stem)
  find_entry_least (y ∷ a) b e x stem delim (front, sorted) found matches =
      elim (Bool-cases (match y stem delim)) [
        | inl h ↦
            same_entry y e (rw h at found) x
              (All-middle (λ (z : Entry S). before z.stem y.stem ≡ false) a b x front)
        | inr h ↦ find_entry_least a b e x stem delim sorted (rw h at found) matches
      ]
