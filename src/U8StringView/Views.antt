-- ===== src/U8StringView/Views.antt =====
-- The operations of u8string_view on a view that stands for code points.
use mathlib.Core.Path.{subst}
use wrutil.Common.{
  ℕ, suc, ◌+◌, ◌-◌, ◌<◌, ◌==◌, leb, ◌≡◌, ◌≢◌, refl, sym, ap, ◌∙◌, arith, false, some, List, [], ◌∷◌,
  ◌++◌, All, length, length-append, append_assoc, ==_self, ne→==,
}
use wrutil.StringView.Compare.{lexicographic}
use wrutil.U8StringView.{
  Memory, next_at, forward, backward, skip_codes, substr_loop, size, remove_prefix, remove_suffix,
  substr, find_char, rfind_char, find_if, cut, split_char, compare_view, has_prefix, has_suffix,
}
use wrutil.U8StringView.Text.{Text, Text-length, append-Text}
use wrutil.U8StringView.Walk.{
  Walk, Text-Walk, Text-Walk_back, onto, steps, Starts, is_prefix, distance-Walk, compare_loop-Walk,
  prefix_loop-Walk, skip_codes-Walk, find_if-Walk,
}

onto_split : (cs ds : List ℕ) → onto cs ds ≡ onto cs [] ++ ds
onto_split [] ds = refl
onto_split (c ∷ cs) ds =
    onto_split cs (c ∷ ds)
    ∙ sym (append_assoc (onto cs []) (c ∷ []) ds)
    ∙ ap (λ (t : List ℕ). t ++ ds) (sym (onto_split cs (c ∷ [])))

onto-append : (xs ys ds : List ℕ) → onto (xs ++ ys) ds ≡ onto ys (onto xs ds)
onto-append [] ys ds = refl
onto-append (x ∷ xs) ys ds = onto-append xs ys (x ∷ ds)

pub onto-length : (cs ds : List ℕ) → length (onto cs ds) ≡ length cs + length ds
onto-length [] ds = omega arith
onto-length (c ∷ cs) ds = onto-length cs (c ∷ ds) ∙ omega arith

pub onto-All : (P : ℕ → Type 0) (cs ds : List ℕ) → All P cs → All P ds → All P (onto cs ds)
onto-All P [] ds a b = b
onto-All P (c ∷ cs) ds (h, a) b = onto-All P cs (c ∷ ds) a (h, b)

pub steps-forward :
    (mem : Memory) (i : ℕ) (cs : List ℕ) (e : ℕ)
    → Text mem i cs e
    → steps (forward mem) (length cs) i ≡ e
steps-forward mem i [] e t = t
steps-forward mem i (c ∷ cs) e (_, t) = steps-forward mem (next_at mem i) cs e t

steps-backward :
    (mem : Memory) (k i : ℕ) (cs : List ℕ) (e : ℕ)
    → Text mem i cs e
    → steps (backward mem) (length cs + k) e ≡ steps (backward mem) k i
steps-backward mem k i [] e t =
    let none_more : length {A = ℕ} [] + k ≡ k = omega arith in
    ap (λ (n : ℕ). steps (backward mem) n e) none_more ∙ ap (steps (backward mem) k) (sym t)
steps-backward mem k i (c ∷ cs) e (here, t) =
    let one_more : length (c ∷ cs) + k ≡ length cs + suc k = omega arith in
    ap (λ (n : ℕ). steps (backward mem) n e) one_more
    ∙ steps-backward mem (suc k) (next_at mem i) cs e t
    ∙ ap (steps (backward mem) k) here.back

pub back_to :
    (mem : Memory) (i : ℕ) (cs : List ℕ) (e : ℕ)
    → Text mem i cs e
    → steps (backward mem) (length cs) e ≡ i
back_to mem i cs e t =
    let same : length cs ≡ length cs + 0 = omega arith in
    ap (λ (n : ℕ). steps (backward mem) n e) same ∙ steps-backward mem 0 i cs e t

enough : (mem : Memory) (b : ℕ) (cs : List ℕ) (e : ℕ) → Text mem b cs e → length cs < suc (e - b)
enough mem b cs e t = omega (arith, Text-length mem b cs e t)

module _ (mem : Memory) where
  -- size counts the code points.
  pub size-Text :
      (b : ℕ) (cs : List ℕ) (e : ℕ)
      → Text mem b cs e
      → size mem (record { begin = b; end = e }) ≡ some (length cs)
  unfolding size
  size-Text b cs e t =
      distance-Walk (forward mem) _ b cs e (Text-Walk mem b cs e t) (enough mem b cs e t)

  -- On two views that stand for code points compare ends and is the lexicographic order of the
  -- code points.
  pub compare_view-Text :
      (b : ℕ) (cs : List ℕ) (e b' : ℕ) (ds : List ℕ) (e' : ℕ)
      → Text mem b cs e
      → Text mem b' ds e'
      → compare_view mem (record { begin = b; end = e }) (record { begin = b'; end = e' })
        ≡ some (lexicographic cs ds)
  unfolding compare_view
  compare_view-Text b cs e b' ds e' t t' =
      compare_loop-Walk (forward mem) _ b b' cs ds e e' (Text-Walk mem b cs e t)
        (Text-Walk mem b' ds e' t') (enough mem b cs e t)

  -- has_prefix and has_suffix compare the code points from the first one on, and from the last one on
  -- in the reverse order.
  pub has_prefix-Text :
      (b : ℕ) (cs : List ℕ) (e b' : ℕ) (ds : List ℕ) (e' : ℕ)
      → Text mem b cs e
      → Text mem b' ds e'
      → (has_prefix mem (record { begin = b; end = e }) (record { begin = b'; end = e' })
          ≡ some (is_prefix cs ds))
        × (has_suffix mem (record { begin = b; end = e }) (record { begin = b'; end = e' })
            ≡ some (is_prefix (onto cs []) (onto ds [])))
  unfolding has_prefix has_suffix
  has_prefix-Text b cs e b' ds e' t t' = (
    prefix_loop-Walk (forward mem) _ b b' cs ds e e' (Text-Walk mem b cs e t)
        (Text-Walk mem b' ds e' t') (enough mem b cs e t),
    prefix_loop-Walk (backward mem) _ e e' (onto cs []) (onto ds []) b b'
        (Text-Walk_back mem b cs e t) (Text-Walk_back mem b' ds e' t')
        (omega (arith, onto-length cs [], enough mem b cs e t)),
  )

  pub reverse_Walk :
      (b : ℕ) (xs ys : List ℕ) (e : ℕ)
      → Text mem b (xs ++ ys) e
      → Walk (backward mem) e (onto ys [] ++ onto xs []) b
  reverse_Walk b xs ys e t =
      subst (λ (cs : List ℕ). Walk (backward mem) e cs b)
        (onto-append xs ys [] ∙ onto_split ys (onto xs [])) (Text-Walk_back mem b (xs ++ ys) e t)

  substr_loop-Text :
      (i : ℕ) (xs ys : List ℕ) (m e : ℕ)
      → Text mem i xs m
      → Text mem m ys e
      → substr_loop mem (length xs) i e ≡ m
  unfolding substr_loop
  substr_loop-Text i [] ys m e t u = t
  substr_loop-Text i (x ∷ xs) ys m e (here, t) u =
      let far : i < e =
        omega
          (arith, here.onward, Text-length mem (next_at mem i) xs m t, Text-length mem m ys e u) in
      let rest = substr_loop-Text (next_at mem i) xs ys m e t u in rw (inside i e far) rest
    where
      inside : (i e : ℕ) → i < e → leb e i ≡ false
      inside i e f = ground arith

  -- On a view that stands for code points, with a boundary between two of them at some address,
  -- remove_prefix of the number in front of it, remove_suffix of the number behind it and substr
  -- of the number in front of it each cut the view at that address; for substr the number is not
  -- npos.
  remove_prefix-Text :
      (b : ℕ) (xs : List ℕ) (m : ℕ) (ys : List ℕ) (e : ℕ)
      → Text mem b xs m
      → Text mem m ys e
      → length xs ≢ 0xffffffffffffffff
      → (remove_prefix mem (length xs) (record { begin = b; end = e })
          ≡ record { begin = m; end = e })
        × (remove_suffix mem (length ys) (record { begin = b; end = e })
            ≡ record { begin = b; end = m })
        × (substr mem b (length xs) (record { begin = b; end = e }) ≡ record { begin = b; end = m })
  unfolding remove_prefix remove_suffix substr
  remove_prefix-Text b xs m ys e t u n =
      let whole = append-Text mem b xs ys m e t u in
      let size_back : length (onto ys []) ≡ length ys = onto-length ys [] ∙ omega arith in
      (
        ap (λ (k : ℕ). record { begin = k; end = e })
            (skip_codes-Walk (forward mem) b xs ys e (Text-Walk mem b (xs ++ ys) e whole)
              ∙ steps-forward mem b xs m t),
        ap (λ (k : ℕ). record { begin = b; end = k })
            (ap (λ (k : ℕ). skip_codes (backward mem) k e b) (sym size_back)
              ∙ skip_codes-Walk (backward mem) e (onto ys []) (onto xs []) b
                  (reverse_Walk b xs ys e whole)
              ∙ ap (λ (k : ℕ). steps (backward mem) k e) size_back
              ∙ back_to mem m ys e u),
        ap (λ (k : ℕ). record { begin = b; end = k })
            (rw (ne→== (length xs) _ n) (substr_loop-Text b xs ys m e t u)),
      )

  -- On a view that stands for code points split at a code point ends and cuts at the first
  -- occurrence, or at the end where there is none.
  split_char-Text :
      (c b : ℕ) (xs : List ℕ) (m : ℕ) (ys : List ℕ) (e : ℕ)
      → Text mem b xs m
      → Text mem m ys e
      → All (λ x. (x == c) ≡ false) xs
      → Starts (λ x. x == c) ys
      → split_char mem c (record { begin = b; end = e })
        ≡ some (cut mem m (record { begin = b; end = e }))
  unfolding split_char find_char
  split_char-Text c b xs m ys e t u misses first =
      let whole = append-Text mem b xs ys m e t u in
      let found : find_if (forward mem) (λ x. x == c) (suc (e - b)) b e ≡ some m =
        find_if-Walk (forward mem) (λ x. x == c) (suc (e - b)) b xs ys e
          (Text-Walk mem b (xs ++ ys) e whole) misses first (enough mem b (xs ++ ys) e whole)
        ∙ ap some (steps-forward mem b xs m t) in
      rw found refl

  -- rfind of a code point gives its last occurrence.
  pub rfind_char-Text :
      (c b : ℕ) (xs : List ℕ) (m : ℕ) (ys : List ℕ) (e : ℕ)
      → Text mem b xs m
      → Text mem m (c ∷ ys) e
      → All (λ x. (x == c) ≡ false) ys
      → rfind_char mem c 0 (record { begin = b; end = e }) ≡ some m
  unfolding rfind_char
  rfind_char-Text c b xs m ys e t (here, u) misses =
      let upto = append-Text mem b xs (c ∷ []) m (next_at mem m) t (here, refl) in
      let whole = append-Text mem b (xs ++ (c ∷ [])) ys (next_at mem m) e upto u in
      let walk : Walk (backward mem) e (onto ys [] ++ (c ∷ onto xs [])) b =
        subst (λ (r : List ℕ). Walk (backward mem) e (onto ys [] ++ r) b)
          (onto-append xs (c ∷ []) []) (reverse_Walk b (xs ++ (c ∷ [])) ys e whole) in
      let size_back : length (onto ys []) ≡ length ys = onto-length ys [] ∙ omega arith in
      let short : length (onto ys [] ++ (c ∷ onto xs [])) < suc (e - b) = omega (
        arith,
        length-append (onto ys []) (c ∷ onto xs []),
        onto-length ys [],
        onto-length xs [],
        length-append (xs ++ (c ∷ [])) ys,
        length-append xs (c ∷ []),
        enough mem b ((xs ++ (c ∷ [])) ++ ys) e whole,
      ) in
      let found : find_if (backward mem) (λ x. x == c) (suc (e - b)) e b ≡ some (next_at mem m) =
        find_if-Walk (backward mem) (λ x. x == c) (suc (e - b)) e (onto ys []) (c ∷ onto xs []) b
          walk (onto-All (λ x. (x == c) ≡ false) ys [] misses tt) (==_self c) short
        ∙ ap (λ (k : ℕ). some (steps (backward mem) k e)) size_back
        ∙ ap some (back_to mem (next_at mem m) ys e u) in
      rw (found, behind b (next_at mem m) (omega (arith, here.onward, Text-length mem b xs m t)))
        (ap some here.back)
    where
      behind : (b i : ℕ) → b < i → leb i b ≡ false
      behind b i f = ground arith
