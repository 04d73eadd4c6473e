-- ===== src/CircList/Merge.antt =====
-- merge.
use mathlib.Core.Path.{subst}
use wrutil.Common.{
  ℕ, zero, suc, ◌+◌, ◌<◌, ◌==◌, ◌≡◌, refl, sym, ap, ◌∙◌, arith, Bool, true, false, Bool-cases, inl,
  inr, [], ◌∷◌, ◌++◌, if◌then◌else◌, ne→==, append-nil, append_assoc, length,
}
use wrutil.CircList.Heap.{Ptr, null, Heap, Cmd, ok}
use wrutil.CircList.Returns
use wrutil.CircList.Returns.{Returns, returns}
use wrutil.CircList.Loops.{merge_loop, merge}
use wrutil.CircList.Ring.{Cells, last_or, has, Circ}
use wrutil.CircList.Cells.{last_or-snoc, last_ne_null}
use wrutil.CircList.Iterate.{advance-ok, first_node-ok}
use wrutil.CircList.Remove.{load-front, at_end, before_end}
use wrutil.CircList.Splice.{Two, SameBeyond, has_middle, splice_one-Two}
use wrutil.CircList.Join.{splice_all-Circ}

module _ {V : Type 0} where
  -- `x` and what follows it, behind the cells of the other list that are less than `x`.
  abbrev pub weave : (V → V → Bool) → Ptr × V → (Cells V → Cells V) → Cells V → Cells V
  weave less x rest [] = x ∷ rest []
  weave less x rest (y ∷ ys) = if less y.1 x.1 then y ∷ weave less x rest ys else x ∷ rest (y ∷ ys)

  -- The stable merge: a cell of the second list goes in front of a cell of the first one only if it
  -- is less.
  abbrev pub merged : (V → V → Bool) → Cells V → Cells V → Cells V
  merged less [] ys = ys
  merged less (x ∷ b) ys = weave less x (merged less b) ys

  merged-nil : (less : V → V → Bool) (b : Cells V) → merged less b [] ≡ b
  merged-nil less [] = refl
  merged-nil less (x ∷ b) = ap (λ (t : Cells V). x ∷ t) (merged-nil less b)

  abbrev pub Merged :
      (V → V → Bool) → Heap V → Cells V → Cells V → Cells V → Ptr × Ptr → Heap V → Type 0
  Merged less h a b ys out g =
      Circ g out.0 (a ++ merged less b ys) × (out.1 ≡ null) × SameBeyond (a ++ b) ys h g

  merge_done :
      (less : V → V → Bool) (fuel : ℕ) (h : Heap V) (last pos : Ptr)
      → 0 < fuel
      → merge_loop less fuel last null pos h ≡ ok (last, null) h
  unfolding merge_loop
  merge_done less zero h last pos f = absurd (omega arith)
  merge_done less (suc fuel) h last pos f = refl

  -- One node from the other list.
  Merged-moved :
      (less : V → V → Bool) (h g k : Heap V) (a : Cells V) (x : Ptr) (v : V) (b : Cells V) (y : Ptr)
      (w : V) (ys : Cells V) (out : Ptr × Ptr)
      → less w v ≡ true
      → SameBeyond (a ++ ((x, v) ∷ b)) ((y, w) ∷ ys) h g
      → Merged less g (a ++ ((y, w) ∷ [])) ((x, v) ∷ b) ys out k
      → Merged less h a ((x, v) ∷ b) ((y, w) ∷ ys) out k
  Merged-moved less h g k a x v b y w ys out lt same (circ, end, same') = rw lt (
    subst (Circ k out.0) (append_assoc a ((y, w) ∷ []) (merged less ((x, v) ∷ b) ys)) circ,
    end,
    λ t i j.
        same' t
          (ap (has t) (append_assoc a ((y, w) ∷ []) ((x, v) ∷ b))
            ∙ has_middle t a y w ((x, v) ∷ b)
            ∙ ground (arith, i, j))
          (ground (arith, j))
        ∙ same t i j,
  )

  -- One node of this list.
  Merged-skipped :
      (less : V → V → Bool) (h k : Heap V) (a : Cells V) (x : Ptr) (v : V) (b : Cells V) (y : Ptr)
      (w : V) (ys : Cells V) (out : Ptr × Ptr)
      → less w v ≡ false
      → Merged less h (a ++ ((x, v) ∷ [])) b ((y, w) ∷ ys) out k
      → Merged less h a ((x, v) ∷ b) ((y, w) ∷ ys) out k
  Merged-skipped less h k a x v b y w ys out ge (circ, end, same) = rw ge (
    subst (Circ k out.0) (append_assoc a ((x, v) ∷ []) (merged less b ((y, w) ∷ ys))) circ,
    end,
    λ t i j. same t (ap (has t) (append_assoc a ((x, v) ∷ []) b) ∙ i) j,
  )

  not_empty :
      (h : Heap V) (last : Ptr) (x : Ptr) (v : V) (xs : Cells V)
      → Circ h last ((x, v) ∷ xs)
      → (last == null) ≡ false
  not_empty h last x v xs c = rw c.at_last (ne→== _ _ (last_ne_null h x v xs _ c.ring.links))

  -- The position moves behind one node more.
  at_node :
      (h : Heap V) {A : Type 0} {P : A → Heap V → Type 0} (loop : Ptr → Cmd V A) (a : Cells V)
      (x : Ptr) (v : V)
      → Returns P (loop (last_or (a ++ ((x, v) ∷ [])) null) h)
      → Returns P (loop x h)
  at_node h {P} loop a x v r = subst (λ (t : Ptr). Returns P (loop t h)) (last_or-snoc a x null v) r

  past :
      (h : Heap V) (last other : Ptr) (a : Cells V) (x : Ptr) (v : V) (b ys : Cells V)
      → Two h last other (a ++ ((x, v) ∷ b)) ys
      → Two h last other ((a ++ ((x, v) ∷ [])) ++ b) ys
  past h last other a x v b ys two =
      subst (λ (t : Cells V). Two h last other t ys) (sym (append_assoc a ((x, v) ∷ []) b)) two

  merge_loop-Merged :
      (less : V → V → Bool) (fuel : ℕ) (h : Heap V) (last other : Ptr) (a b ys : Cells V)
      → Two h last other (a ++ b) ys
      → length b + length ys < fuel
      → Returns (Merged less h a b ys) (merge_loop less fuel last other (last_or a null) h)
  unfolding merge_loop
  merge_loop-Merged less zero h last other a b ys two f = absurd (omega arith)
  merge_loop-Merged less (suc fuel) h last other a b [] two f = rw two.that.at_last (
      returns (
        subst (λ (t : Cells V). Circ h last (a ++ t)) (sym (merged-nil less b)) two.this,
        refl,
        λ k i j. refl,
      ))
  merge_loop-Merged less (suc fuel) h last other a [] ((y, w) ∷ ys) two f =
      rw (not_empty h other y w ys two.that, at_end h last a two.this)
        (Returns.chain (splice_all-Circ h last other a [] ((y, w) ∷ ys) two) (λ l g (circ, same).
          rw (merge_done less fuel g l (last_or a null) (omega arith))
            (returns (rw (append-nil ys) at circ, refl, same))))
  merge_loop-Merged less (suc fuel) h last other a ((x, v) ∷ b) ((y, w) ∷ ys) two f =
      let go = advance-ok h last a ((x, v) ∷ b) two.this in
      let (_, there) = load-front h last a x v b two.this in
      let begin = first_node-ok h other ((y, w) ∷ ys) two.that in
      let (_, new) = load-front h other [] y w ys two.that in
      elim (Bool-cases (less w v)) [
        | inl lt ↦
            rw
              (
                not_empty h other y w ys two.that,
                before_end h last a x v b two.this,
                begin,
                new,
                go,
                there,
                lt,
              )
              (Returns.chain (splice_one-Two h last other a ((x, v) ∷ b) [] y w ys two)
                (λ out g (two', same). rw (advance-ok g out.0 a ((y, w) ∷ ((x, v) ∷ b)) two'.this) (
                  Returns.weaken
                    (at_node g (merge_loop less fuel out.0 out.1) a y w (
                      merge_loop-Merged less fuel g out.0 out.1 (a ++ ((y, w) ∷ [])) ((x, v) ∷ b) ys
                        (past g out.0 out.1 a y w ((x, v) ∷ b) ys two') (omega arith)))
                    (λ out' k m. Merged-moved less h g k a x v b y w ys out' lt same m))))
        | inr ge ↦
            rw
              (
                not_empty h other y w ys two.that,
                before_end h last a x v b two.this,
                begin,
                new,
                go,
                there,
                ge,
                go,
              )
              (Returns.weaken
                (at_node h (merge_loop less fuel last other) a x v (
                  merge_loop-Merged less fuel h last other (a ++ ((x, v) ∷ [])) b ((y, w) ∷ ys)
                    (past h last other a x v b ((y, w) ∷ ys) two) (omega arith)))
                (λ out k m. Merged-skipped less h k a x v b y w ys out ge m))
      ]

  -- With more fuel than nodes, merge of two lists with no node in common ends without a fault,
  -- leaves the other list empty and this one with the stable merge of the two sequences, and
  -- changes no other node.
  pub merge-Circ :
      (less : V → V → Bool) (fuel : ℕ) (h : Heap V) (last other : Ptr) (xs ys : Cells V)
      → Two h last other xs ys
      → length xs + length ys < fuel
      → Returns (Merged less h [] xs ys) (merge less fuel last other h)
  unfolding merge
  merge-Circ less fuel h last other xs ys two f =
      merge_loop-Merged less fuel h last other [] xs ys two f
