-- ===== src/CircList/Resize.antt =====
-- resize and clear.
use mathlib.Core.Path.{subst}
use wrutil.Common.{
  ℕ, ◌≤◌, ◌==◌, ◌≡◌, refl, sym, ap, ◌∙◌, arith, true, inl, inr, none, [], ◌∷◌, ◌++◌, if◌then◌else◌,
  ne→==, append-nil, append_assoc, length,
}
use wrutil.CircList.Heap.{Ptr, null, Heap, ok}
use wrutil.CircList.Returns
use wrutil.CircList.Returns.{Returns, returns}
use wrutil.CircList.Ops.{erase_range, clear}
use wrutil.CircList.Loops.{push_each, skip_each, resize}
use wrutil.CircList.Ring.{Cells, last_or, has, Circ}
use wrutil.CircList.Cells.{last_or-snoc, last_ne_null}
use wrutil.CircList.Insert.{true≢false}
use wrutil.CircList.Iterate.{advance-ok, step, next_node-front}
use wrutil.CircList.Remove.{at_end, before_end}
use wrutil.CircList.Erase.{erase_range-Circ}
use wrutil.CircList.Unlink.{Gone, unlink_nodes-all}
use wrutil.CircList.Splice.{SameBeyond}
use wrutil.CircList.Push.{Fresh, push_each-Circ}
use wrutil.CircList.Overwrite.{left}
use wrutil.CircList.Assign.{left_one, has-left, length-left, Fresh-left}

module _ {V : Type 0} where
  -- As many of the cells as there are values.
  abbrev pub kept : Cells V → Cells V → Cells V
  kept [] vs = []
  kept (x ∷ xs) [] = []
  kept (x ∷ xs) (v ∷ vs) = x ∷ kept xs vs

  kept-left : (xs vs : Cells V) → kept xs vs ++ left xs vs ≡ xs
  kept-left [] vs = refl
  kept-left (x ∷ xs) [] = refl
  kept-left (x ∷ xs) (v ∷ vs) = ap (λ (t : Cells V). x ∷ t) (kept-left xs vs)

  skip_each-ok :
      (h : Heap V) (last : Ptr) (a b values : Cells V)
      → Circ h last (a ++ b)
      → skip_each last (last_or a null) values h
        ≡ ok (last_or (a ++ kept b values) null, left values b) h
  unfolding skip_each
  skip_each-ok h last a [] [] c = rw (append-nil a) refl
  skip_each-ok h last a (x ∷ b) [] c = rw (append-nil a) refl
  skip_each-ok h last a [] ((y, v) ∷ values) c = rw (at_end h last a c, append-nil a) refl
  skip_each-ok h last a ((x, u) ∷ b) ((y, v) ∷ values) c =
      rw (before_end h last a x u b c, advance-ok h last a ((x, u) ∷ b) c)
        (ap (λ (p : Ptr). skip_each last p values h) (sym (last_or-snoc a x null u))
          ∙ skip_each-ok h last (a ++ ((x, u) ∷ [])) b values (step h last a x u b c)
          ∙ ap (λ (t : Cells V). ok (last_or t null, left values b) h)
              (append_assoc a ((x, u) ∷ []) (kept b values)))

  abbrev pub Resized : Heap V → Cells V → Cells V → Ptr → Heap V → Type 0
  Resized h xs values l g =
      Circ g l (kept xs values ++ left values xs)
      × ((k : Ptr) → has k (left xs values) ≡ true → g k ≡ none)
      × SameBeyond xs values h g

  resize_less :
      (fuel : ℕ) (h : Heap V) (last : Ptr) (xs values : Cells V) (x : Ptr) (v : V) (m : Cells V)
      → Circ h last (kept xs values ++ left xs values)
      → length xs ≤ fuel
      → left values xs ≡ []
      → left xs values ≡ (x, v) ∷ m
      → Returns (Resized h xs values) (
          (if last_or (kept xs values) null == last
              then push_each last (left values xs)
              else erase_range fuel last (last_or (kept xs values) null) null)
            h)
  resize_less fuel h last xs values x v m c enough none_left e =
      let K : Cells V = kept xs values in
      let c1 : Circ h last (K ++ ((x, v) ∷ m)) =
        subst (λ (t : Cells V). Circ h last (K ++ t)) e c in
      let c2 : Circ h last (K ++ (((x, v) ∷ m) ++ [])) =
        subst (λ (t : Cells V). Circ h last (K ++ t)) (sym (append-nil ((x, v) ∷ m))) c1 in
      let short : length ((x, v) ∷ m) ≤ fuel =
        subst (λ (t : Cells V). length t ≤ fuel) e (omega (arith, length-left xs values)) in
      let order : K ++ (((x, v) ∷ m) ++ []) ≡ xs =
        ap (λ (t : Cells V). K ++ t) (append-nil ((x, v) ∷ m) ∙ sym e) ∙ kept-left xs values in
      rw (before_end h last K x v m c1) (
        Returns.weaken (erase_range-Circ fuel h last K ((x, v) ∷ m) [] c2 short)
          (λ l k (circ, gone, same). (
            subst (λ (t : Cells V). Circ k l (K ++ t)) (sym none_left) circ,
            λ t i. gone t (ap (has t) (sym e) ∙ i),
            λ t i j. same t (ap (has t) order ∙ i),
          )))

  -- resize leaves as many of the first nodes as it is told, and makes nodes where there are too few.
  pub resize-Circ :
      (fuel : ℕ) (h : Heap V) (last : Ptr) (xs values : Cells V)
      → Circ h last xs
      → Fresh values xs
      → length xs ≤ fuel
      → Returns (Resized h xs values) (resize fuel last values h)
  unfolding resize
  resize-Circ fuel h last xs values c f enough =
      let c' : Circ h last (kept xs values ++ left xs values) =
        subst (Circ h last) (sym (kept-left xs values)) c in
      rw (skip_each-ok h last [] xs values c) (elim (left_one xs values) [
        | inl e ↦
            let order : kept xs values ++ left xs values ≡ kept xs values =
              ap (λ (t : Cells V). kept xs values ++ t) e ∙ append-nil (kept xs values) in
            let here = λ (k : Ptr). ap (has k) (sym order ∙ kept-left xs values) in
            rw
              (at_end h last (kept xs values)
                (subst (λ (t : Cells V). Circ h last (kept xs values ++ t)) e c'))
              (Returns.weaken
                (push_each-Circ h last (kept xs values) (left values xs)
                  (subst (Circ h last) order c') (Fresh-left values xs (kept xs values) f here))
                (λ l k (circ, same). (
                  circ,
                  λ t i. absurd (true≢false (sym i ∙ ap (has t) e)),
                  λ t i j. same t (here t ∙ i) (has-left t values xs j),
                )))
        | inr (none_left, x, v, m, e) ↦
            resize_less fuel h last xs values x v m c' enough none_left e
      ])

  -- clear destroys all nodes and nothing else.
  pub clear-Gone :
      (fuel : ℕ) (h : Heap V) (last : Ptr) (xs : Cells V)
      → Circ h last xs
      → length xs ≤ fuel
      → Returns (λ l g. (l ≡ null) × Gone xs h g) (clear fuel last h)
  unfolding clear
  clear-Gone fuel h last [] c f = rw c.at_last (returns (refl, λ k. refl))
  clear-Gone fuel h last ((x, v) ∷ xs) c f =
      rw
        (
          c.at_last,
          ne→== _ _ (last_ne_null h x v xs _ c.ring.links),
          next_node-front h [] ((x, v) ∷ xs) c.ring (λ e. cc),
        )
        (Returns.chain (unlink_nodes-all fuel h (last_or xs x) (last_or xs x) x v xs c.ring refl f)
          (λ out g gone. returns gone))
