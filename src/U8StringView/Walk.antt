-- ===== src/U8StringView/Walk.antt =====
-- An iterator on its way through a text, forwards or backwards, and the templates that only step
-- and compare.
use mathlib.Core.Path.{subst}
use Prim.Native.Nat.{compare, Ordering}
use wrutil.Common.{
  ℕ, zero, suc, ◌≤◌, ◌<◌, ◌==◌, ◌≡◌, ◌≢◌, refl, sym, ap, ◌∙◌, arith, Bool, true, false, Option,
  some, List, [], ◌∷◌, ◌++◌, All, length, Bool-cases, inl, inr, ==_self, ne→==, lt→ltb, le→ltb,
  if◌then◌else◌,
}
use wrutil.StringView.Compare.{lexicographic}
use wrutil.U8StringView.{
  Memory, code_at, next_at, Iter, forward, backward, distance, find_if, compare_loop, prefix_loop,
  skip_codes, skip_spaces,
}
use wrutil.U8StringView.Text.{Text, Text-length}

abbrev pub Walk : Iter → ℕ → List ℕ → ℕ → Type 0
Walk it i [] e = (i ≡ e) × (it.below e e ≡ false)
Walk it i (c ∷ cs) e = (it.code i ≡ c) × (it.below i e ≡ true) × (i ≢ e) × Walk it (it.step i) cs e

pub Text-Walk :
    (mem : Memory) (i : ℕ) (cs : List ℕ) (e : ℕ) → Text mem i cs e → Walk (forward mem) i cs e
Text-Walk mem i [] e t = (t, le→ltb e e (omega arith))
Text-Walk mem i (c ∷ cs) e (here, t) =
    let far : i < e = omega (arith, here.onward, Text-length mem (next_at mem i) cs e t) in
    (here.code, lt→ltb i e far, λ h. omega (arith, far, h), Text-Walk mem (next_at mem i) cs e t)

-- The code points in the reverse order, in front of others.
abbrev pub onto : List ℕ → List ℕ → List ℕ
onto [] ds = ds
onto (c ∷ cs) ds = onto cs (c ∷ ds)

onto-Walk :
    (mem : Memory) (b m : ℕ) (cs ds : List ℕ) (e : ℕ)
    → b ≤ m
    → Text mem m cs e
    → Walk (backward mem) m ds b
    → Walk (backward mem) e (onto cs ds) b
onto-Walk mem b m [] ds e f t w = subst (λ (k : ℕ). Walk (backward mem) k ds b) t w
onto-Walk mem b m (c ∷ cs) ds e f (here, t) w =
    let far : b < next_at mem m = omega (arith, f, here.onward) in
    onto-Walk mem b (next_at mem m) cs (c ∷ ds) e (omega (arith, far)) t (
      ap (code_at mem) here.back ∙ here.code,
      lt→ltb b (next_at mem m) far,
      λ h. omega (arith, far, h),
      subst (λ (k : ℕ). Walk (backward mem) k ds b) (sym here.back) w,
    )

pub Text-Walk_back :
    (mem : Memory) (b : ℕ) (cs : List ℕ) (e : ℕ)
    → Text mem b cs e
    → Walk (backward mem) e (onto cs []) b
Text-Walk_back mem b cs e t =
    onto-Walk mem b b cs [] e (omega arith) t (refl, le→ltb b b (omega arith))

pub distance-Walk :
    (it : Iter) (n i : ℕ) (cs : List ℕ) (e : ℕ)
    → Walk it i cs e
    → length cs < n
    → distance it n i e ≡ some (length cs)
unfolding distance
distance-Walk it zero i cs e w f = absurd (omega arith)
distance-Walk it (suc n) i [] e (h, _) f = rw (h, ==_self e) refl
distance-Walk it (suc n) i (c ∷ cs) e (_, _, h, w) f =
    rw (ne→== i e h, distance-Walk it n (it.step i) cs e w (omega arith)) refl

-- The test holds for the first one, where there is one.
abbrev pub Starts : (ℕ → Bool) → List ℕ → Type 0
Starts p [] = Unit
Starts p (c ∷ cs) = p c ≡ true

settled :
    (o : Ordering) (r : Option Ordering) (l : Ordering)
    → r ≡ some l
    → elim o [ Ordering.eq ↦ r | Ordering.lt ↦ some Ordering.lt | Ordering.gt ↦ some Ordering.gt ]
      ≡ some (elim o [ Ordering.eq ↦ l | Ordering.lt ↦ Ordering.lt | Ordering.gt ↦ Ordering.gt ])
settled Ordering.lt r l h = refl
settled Ordering.eq r l h = h
settled Ordering.gt r l h = refl

-- compare_ is the lexicographic order of the code points.
pub compare_loop-Walk :
    (it : Iter) (n i j : ℕ) (cs ds : List ℕ) (e f : ℕ)
    → Walk it i cs e
    → Walk it j ds f
    → length cs < n
    → compare_loop it (λ c. c) n i e j f ≡ some (lexicographic cs ds)
unfolding compare_loop
compare_loop-Walk it zero i j cs ds e f w v g = absurd (omega arith)
compare_loop-Walk it (suc n) i j [] [] e f (h, k) (h', k') g = rw (h, k, h', k') refl
compare_loop-Walk it (suc n) i j [] (d ∷ ds) e f (h, k) (_, b, _, v) g = rw (h, k, b) refl
compare_loop-Walk it (suc n) i j (c ∷ cs) [] e f (_, b, _, w) (h', k') g = rw (b, h', k') refl
compare_loop-Walk it (suc n) i j (c ∷ cs) (d ∷ ds) e f (hc, b, _, w) (hd, b', _, v) g =
    rw (b, b', hc, hd)
      (settled (compare c d) _ _
        (compare_loop-Walk it n (it.step i) (it.step j) cs ds e f w v (omega arith)))

abbrev pub is_prefix : List ℕ → List ℕ → Bool
is_prefix cs [] = true
is_prefix [] (d ∷ ds) = false
is_prefix (c ∷ cs) (d ∷ ds) = if c == d then is_prefix cs ds else false

-- hasPrefix_ says whether the second text is a prefix of the first one.
pub prefix_loop-Walk :
    (it : Iter) (n i j : ℕ) (cs ds : List ℕ) (e f : ℕ)
    → Walk it i cs e
    → Walk it j ds f
    → length cs < n
    → prefix_loop it (λ c. c) n i e j f ≡ some (is_prefix cs ds)
unfolding prefix_loop
prefix_loop-Walk it zero i j cs ds e f w v g = absurd (omega arith)
prefix_loop-Walk it (suc n) i j [] [] e f (h, k) (h', k') g = rw (h, k, h', k') refl
prefix_loop-Walk it (suc n) i j [] (d ∷ ds) e f (h, k) (_, b, _, v) g = rw (h, k, b) refl
prefix_loop-Walk it (suc n) i j (c ∷ cs) [] e f (_, b, _, w) (h', k') g = rw (b, h', k') refl
prefix_loop-Walk it (suc n) i j (c ∷ cs) (d ∷ ds) e f (hc, b, _, w) (hd, b', _, v) g =
    let rest = prefix_loop-Walk it n (it.step i) (it.step j) cs ds e f w v (omega arith) in
    elim (Bool-cases (c == d)) [
      | inl q ↦ rw (b, b', hc, hd, q) rest
      | inr q ↦ rw (b, b', hc, hd, q) refl
    ]

-- The iterator after `n` steps.
abbrev pub steps : Iter → ℕ → ℕ → ℕ
steps it zero i = i
steps it (suc n) i = steps it n (it.step i)

pub skip_codes-Walk :
    (it : Iter) (i : ℕ) (xs ys : List ℕ) (e : ℕ)
    → Walk it i (xs ++ ys) e
    → skip_codes it (length xs) i e ≡ steps it (length xs) i
unfolding skip_codes
skip_codes-Walk it i [] ys e w = refl
skip_codes-Walk it i (x ∷ xs) ys e (_, b, _, w) = rw b (skip_codes-Walk it (it.step i) xs ys e w)

-- find_if stops at the first code point that passes the test, and at the end where there is none.
pub find_if-Walk :
    (it : Iter) (p : ℕ → Bool) (n i : ℕ) (xs ys : List ℕ) (e : ℕ)
    → Walk it i (xs ++ ys) e
    → All (λ c. p c ≡ false) xs
    → Starts p ys
    → length (xs ++ ys) < n
    → find_if it p n i e ≡ some (steps it (length xs) i)
unfolding find_if
find_if-Walk it p zero i xs ys e w a s f = absurd (omega arith)
find_if-Walk it p (suc n) i [] [] e (h, _) a s f = rw (h, ==_self e) refl
find_if-Walk it p (suc n) i [] (y ∷ ys) e (hc, _, h, _) a s f = rw (ne→== i e h, hc, s) refl
find_if-Walk it p (suc n) i (x ∷ xs) ys e (hc, _, h, w) (m, a) s f =
    rw (ne→== i e h, hc, m) (find_if-Walk it p n (it.step i) xs ys e w a s (omega arith))

-- The test fails for the first one, where there is one.
abbrev pub Stops : (ℕ → Bool) → List ℕ → Type 0
Stops p [] = Unit
Stops p (c ∷ cs) = p c ≡ false

pub skip_spaces-Walk :
    (it : Iter) (space : ℕ → Bool) (n i : ℕ) (xs ys : List ℕ) (e : ℕ)
    → Walk it i (xs ++ ys) e
    → All (λ c. space c ≡ true) xs
    → Stops space ys
    → length xs ≤ n
    → skip_spaces it space n i e ≡ steps it (length xs) i
unfolding skip_spaces
skip_spaces-Walk it space zero i [] ys e w a s f = refl
skip_spaces-Walk it space zero i (x ∷ xs) ys e w a s f = absurd (omega arith)
skip_spaces-Walk it space (suc n) i [] [] e (h, k) a s f = rw (h, k) refl
skip_spaces-Walk it space (suc n) i [] (y ∷ ys) e (hc, b, _, _) a s f = rw (b, hc, s) refl
skip_spaces-Walk it space (suc n) i (x ∷ xs) ys e (hc, b, _, w) (m, a) s f =
    rw (b, hc, m) (skip_spaces-Walk it space n (it.step i) xs ys e w a s (omega arith))
