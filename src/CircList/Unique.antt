-- ===== src/CircList/Unique.antt =====
-- unique and operator==.
use mathlib.Core.Path.{subst}
use wrutil.Common.{
  ℕ, zero, suc, ◌<◌, ◌==◌, ◌≡◌, refl, sym, ap, ◌∙◌, arith, Bool, true, false, Bool-cases, inl, inr,
  [], ◌∷◌, ◌++◌, if◌then◌else◌, ne→==, append_assoc, length,
}
use wrutil.CircList.Heap.{Ptr, null, Heap, ok}
use wrutil.CircList.Returns
use wrutil.CircList.Returns.{Returns, returns}
use wrutil.CircList.Ops.{advance, erase_after}
use wrutil.CircList.Loops.{unique_loop, unique, equal_loop}
use wrutil.CircList.Ring.{Cells, head_or, last_or, Circ, Links-append}
use wrutil.CircList.Cells.{last_or-snoc}
use wrutil.CircList.Iterate.{advance-ok, first_node-ok, step, step_advance}
use wrutil.CircList.Remove.{erase_after-Circ, load-front, at_end, before_end}

module _ {V : Type 0} where
  -- The cells without those whose value is the same as that of the one kept last.
  abbrev pub runs_once : (V → V → Bool) → V → Cells V → Cells V
  runs_once same v [] = []
  runs_once same v ((y, w) ∷ ys) =
      if same v w then runs_once same v ys else (y, w) ∷ runs_once same w ys

  unique_loop-Circ :
      (same : V → V → Bool) (fuel : ℕ) (h : Heap V) (last : Ptr) (a : Cells V) (x : Ptr) (v : V)
      (b : Cells V)
      → Circ h last ((a ++ ((x, v) ∷ [])) ++ b)
      → length b < fuel
      → Returns
          (λ l g. Circ g l ((a ++ ((x, v) ∷ [])) ++ runs_once same v b))
          (unique_loop same fuel last x h)
  unfolding unique_loop
  unique_loop-Circ same zero h last a x v b c f = absurd (omega arith)
  unique_loop-Circ same (suc fuel) h last a x v [] c f =
      let here : (x == last) ≡ true =
        ap (λ (t : Ptr). t == last) (sym (last_or-snoc a x null v))
        ∙ at_end h last (a ++ ((x, v) ∷ [])) c in
      rw here (returns c)
  unique_loop-Circ same (suc fuel) h last a x v ((y, w) ∷ b) c f =
      let A : Cells V = a ++ ((x, v) ∷ []) in
      let at : last_or A null ≡ x = last_or-snoc a x null v in
      let here : (x == last) ≡ false =
        ap (λ (t : Ptr). t == last) (sym at) ∙ before_end h last A y w b c in
      let go : advance last x h ≡ ok y h =
        ap (λ (t : Ptr). advance last t h) (sym at) ∙ advance-ok h last A ((y, w) ∷ b) c in
      let (_, mine) =
        load-front h last a x v ((y, w) ∷ b)
          (subst (Circ h last) (append_assoc a ((x, v) ∷ []) ((y, w) ∷ b)) c) in
      let (_, other) = load-front h last A y w b c in
      elim (Bool-cases (same v w)) [
        | inl eq ↦
            rw (here, mine, go, other, eq)
              (Returns.chain
                (subst (λ (t : Ptr). Returns (λ l g. Circ g l (A ++ b)) (erase_after fuel last t h))
                  at
                  (Returns.weaken (erase_after-Circ fuel h last A y w b c (omega arith))
                    (λ l g e. e.0)))
                (λ l g c'. unique_loop-Circ same fuel g l a x v b c' (omega arith)))
        | inr ne ↦
            rw (here, mine, go, other, ne, go)
              (Returns.weaken
                (unique_loop-Circ same fuel h last A y w b (step h last A y w b c) (omega arith))
                (λ l g c'. subst (Circ g l) (append_assoc A ((y, w) ∷ []) (runs_once same w b)) c'))
      ]

  -- With more fuel than nodes behind the first one, unique leaves the first node of each run of
  -- values that are the same as that one.
  unique-Circ :
      (same : V → V → Bool) (fuel : ℕ) (h : Heap V) (last x : Ptr) (v : V) (xs : Cells V)
      → Circ h last ((x, v) ∷ xs)
      → length xs < fuel
      → Returns (λ l g. Circ g l ((x, v) ∷ runs_once same v xs)) (unique same fuel last h)
  unfolding unique
  unique-Circ same fuel h last x v xs c f =
      rw (first_node-ok h last ((x, v) ∷ xs) c) (unique_loop-Circ same fuel h last [] x v xs c f)

  abbrev pub same_values : (V → V → Bool) → Cells V → Cells V → Bool
  same_values same [] [] = true
  same_values same [] (y ∷ ys) = false
  same_values same (x ∷ xs) [] = false
  same_values same (x ∷ xs) (y ∷ ys) = if same x.1 y.1 then same_values same xs ys else false

  not_null :
      (h : Heap V) (last : Ptr) (a : Cells V) (x : Ptr) (v : V) (b : Cells V)
      → Circ h last (a ++ ((x, v) ∷ b))
      → (x == null) ≡ false
  not_null h last a x v b c =
      let (_, (n, _, _)) = Links-append h a ((x, v) ∷ b) _ c.ring.links in ne→== x null n

  -- From two positions, with more fuel than nodes behind the first one, the loop of operator==
  -- ends and says whether the values from there on are the same, pair by pair, and as many.
  equal_loop-values :
      (same : V → V → Bool) (fuel : ℕ) (h : Heap V) (last other : Ptr) (a b c d : Cells V)
      → Circ h last (a ++ b)
      → Circ h other (c ++ d)
      → length b < fuel
      → equal_loop same fuel last other (head_or b null) (head_or d null) h
        ≡ ok (same_values same b d) h
  unfolding equal_loop
  equal_loop-values same zero h last other a b c d r s f = absurd (omega arith)
  equal_loop-values same (suc fuel) h last other a [] c [] r s f = refl
  equal_loop-values same (suc fuel) h last other a [] c ((y, w) ∷ d) r s f =
      rw (not_null h other c y w d s) refl
  equal_loop-values same (suc fuel) h last other a ((x, v) ∷ b) c [] r s f =
      rw (not_null h last a x v b r) refl
  equal_loop-values same (suc fuel) h last other a ((x, v) ∷ b) c ((y, w) ∷ d) r s f =
      let (_, mine) = load-front h last a x v b r in
      let (_, its) = load-front h other c y w d s in
      let rest =
        equal_loop-values same fuel h last other (a ++ ((x, v) ∷ [])) b (c ++ ((y, w) ∷ [])) d
          (step h last a x v b r) (step h other c y w d s) (omega arith) in
      elim (Bool-cases (same v w)) [
        | inl e ↦
            rw
              (
                not_null h last a x v b r,
                not_null h other c y w d s,
                mine,
                its,
                e,
                step_advance h last a x v b r,
                step_advance h other c y w d s,
              )
              rest
        | inr n ↦ rw (not_null h last a x v b r, not_null h other c y w d s, mine, its, n) refl
      ]
