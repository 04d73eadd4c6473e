-- ===== src/Option/Shortest.antt =====
-- Which of the names that a text begins with OptionsByPrefix takes.
use wrutil.Common.{
  ℕ, ◌≡◌, refl, sym, ap, ◌∙◌, arith, true, false, Bool-cases, inl, inr, some, List, [], ◌∷◌, ◌++◌,
  get_or, drop, ◌==◌, ==_iff, ◌≢◌, ◌⊎◌, length, length-append, append-nil,
}
use mathlib.Core.Bool.{true≢false}
use mathlib.Core.Path.{subst}
use mathlib.Core.Option.{some-injective}
use wrutil.StringView.{has_prefix}
use wrutil.StringView.Compare.{lexicographic, compare_views-lexicographic, has_prefix_iff}
use wrutil.Option.Table.{Entry, takes_arg, is_less, match, find_entry}
use wrutil.Option.Lookup.{Sorted, find_entry_least}

lexicographic_cons :
    (c d : ℕ) (v u : List ℕ) → d ≡ c → lexicographic (d ∷ v) (c ∷ u) ≡ lexicographic v u
lexicographic_cons c d v u e = ground (arith, e)

-- Of two prefixes of one text, one that is not before the other begins with it.
prefix_of :
    (u v r t : List ℕ)
    → u ++ r ≡ v ++ t
    → is_less (lexicographic v u) ≡ false
    → (more : List ℕ) × (v ≡ u ++ more)
prefix_of [] v r t e h = (v, refl)
prefix_of (c ∷ u) [] r t e h = absurd (true≢false h)
prefix_of (c ∷ u) (d ∷ v) r t e h =
    let same : d ≡ c = sym (ap (λ (l : List ℕ). get_or l 0 0) e) in
    let (more, f) =
      prefix_of u v r t (ap (drop 1) e) (ap is_less (sym (lexicographic_cons c d v u same)) ∙ h) in
    (more, ap (λ (b : ℕ). b ∷ v) same ∙ ap (λ (w : List ℕ). c ∷ w) f)

length-zero : (v : List ℕ) → length v ≡ 0 → v ≡ []
length-zero [] h = refl
length-zero (x ∷ v) h = absurd (omega (arith, h))

module _ {S : Type 0} where
  match-has_prefix :
      (e : Entry S) (stem : List ℕ) (delim : ℕ)
      → match e stem delim ≡ true
      → has_prefix stem e.stem ≡ true
  unfolding match
  match-has_prefix e stem delim h = elim (Bool-cases (has_prefix stem e.stem)) [
    | inl p ↦ p
    | inr p ↦ absurd (true≢false (sym h ∙ (rw p)))
  ]

  -- An option without an argument matches the whole text, unless there is a delimiter.
  match_whole :
      (e : Entry S) (stem rest : List ℕ) (delim : ℕ)
      → match e stem delim ≡ true
      → stem ≡ e.stem ++ rest
      → (takes_arg e.opt ≡ true) ⊎ (delim ≢ 0) ⊎ (stem ≡ e.stem)
  unfolding match
  match_whole e stem rest delim h p = elim (Bool-cases (takes_arg e.opt)) [
    | inl k ↦ inl k
    | inr k ↦ elim (Bool-cases (delim == 0)) [
      | inr z ↦ inr (inl (λ i. true≢false (sym ((==_iff delim 0).1 i) ∙ z)))
      | inl z ↦ elim (Bool-cases (length stem == length e.stem)) [
        | inl l ↦ inr (
            inr (
              p
              ∙ ap (λ (r : List ℕ). e.stem ++ r)
                  (length-zero rest
                    (omega (arith, (==_iff _ _).0 l, ap length p, length-append e.stem rest)))
              ∙ append-nil e.stem))
        | inr m ↦ absurd (true≢false (sym h ∙ rw (match-has_prefix e stem delim h, k, m, z)))
      ]
    ]
  ]

  find_entry-match :
      (xs : List (Entry S)) (e : Entry S) (stem : List ℕ) (delim : ℕ)
      → find_entry xs stem delim ≡ some e
      → match e stem delim ≡ true
  unfolding find_entry
  find_entry-match [] e stem delim h = cc
  find_entry-match (x ∷ xs) e stem delim h = elim (Bool-cases (match x stem delim)) [
    | inl p ↦ subst (λ (y : Entry S). match y stem delim ≡ true) (some-injective x e (rw p at h)) p
    | inr p ↦ find_entry-match xs e stem delim (rw p at h)
  ]

  -- In a table in lexicographic order the text begins with the name that is found, any other name that matches begins
  -- with it, too, so that the shortest one is taken, and an option that takes no argument is found only by its
  -- whole name where there is no delimiter.
  pub find_entry_shortest :
      (a b : List (Entry S)) (e x : Entry S) (stem : List ℕ) (delim : ℕ)
      → Sorted (a ++ (x ∷ b))
      → find_entry (a ++ (x ∷ b)) stem delim ≡ some e
      → match x stem delim ≡ true
      → ((rest : List ℕ) × (stem ≡ e.stem ++ rest))
        × ((more : List ℕ) × (x.stem ≡ e.stem ++ more))
        × ((takes_arg e.opt ≡ true) ⊎ (delim ≢ 0) ⊎ (stem ≡ e.stem))
  find_entry_shortest a b e x stem delim sorted found matches =
      let hit = find_entry-match _ e stem delim found in
      let (rest, p) = (has_prefix_iff stem e.stem).0 (match-has_prefix e stem delim hit) in
      let (other, q) = (has_prefix_iff stem x.stem).0 (match-has_prefix x stem delim matches) in
      let least = find_entry_least a b e x stem delim sorted found matches in
      (
        (rest, p),
        prefix_of e.stem x.stem rest other (sym p ∙ q)
            (ap is_less (sym (compare_views-lexicographic x.stem e.stem)) ∙ least),
        match_whole e stem rest delim hit p,
      )
