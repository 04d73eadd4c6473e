-- ===== src/CircList/Reverse.antt =====
-- `reverse`, which moves the first node behind the node that was the last one until that one is first.
use mathlib.Core.Path.{subst}
use mathlib.Core.List.{reverse, reverse_aux, reverse-append}
use wrutil.Common.{
  ℕ, zero, suc, ◌≤◌, ◌<◌, ◌≡◌, sym, ap, ◌∙◌, arith, true, false, inl, inr, [], ◌∷◌, ◌++◌, ne→==,
  ==_self, append_assoc, length, length-append,
}
use wrutil.CircList.Heap.{Ptr, null, Heap}
use wrutil.CircList.Returns
use wrutil.CircList.Returns.{Returns, returns}
use wrutil.CircList.Ops.{put_node}
use wrutil.CircList.Loops.{reverse_loop, reverse_list}
use wrutil.CircList.Ring.{Cells, has, Circ}
use wrutil.CircList.Cells.{snoc_cases, last_or-snoc}
use wrutil.CircList.Insert.{true≢false}
use wrutil.CircList.Take.{Taken, take_node-Circ}
use wrutil.CircList.Put.{put_node-Circ}
use wrutil.CircList.Iterate.{first_node-ok}

module _ {V : Type 0} where
  has_middle : (a : Cells V) (d : Ptr) (w : V) (b : Cells V) → has d (a ++ ((d, w) ∷ b)) ≡ true
  has_middle [] d w b = ground (arith, ==_self d)
  has_middle ((x, v) ∷ a) d w b = ground (arith, has_middle a d w b)

  -- A round: the first node `x` goes behind `d`.
  move_first :
      (h : Heap V) (last x : Ptr) (v : V) (a : Cells V) (d : Ptr) (w : V) (b : Cells V)
      → Circ h last ((x, v) ∷ (a ++ ((d, w) ∷ b)))
      → (taken : Ptr × Ptr) (g : Heap V) → Taken h x v [] (a ++ ((d, w) ∷ b)) taken g
      → Returns (λ l k. Circ k l (a ++ ((d, w) ∷ ((x, v) ∷ b)))) (put_node taken.1 d taken.0 g)
  move_first h last x v a d w b c taken g (at, c', kept, _) =
      let (n, e, _) = c.ring.links in
      let (out, _) = c.ring.distinct in
      let out' : has x ((a ++ ((d, w) ∷ [])) ++ b) ≡ false =
        rw (append_assoc a ((d, w) ∷ []) b) out in
      let placed : Circ g taken.1 ((a ++ ((d, w) ∷ [])) ++ b) =
        rw (append_assoc a ((d, w) ∷ []) b) c' in
      let put = put_node-Circ g taken.1 x v _ (a ++ ((d, w) ∷ [])) b placed (kept ∙ e) n out' in
      let put' = rw (last_or-snoc a d null w) at put in
      rw at (
        Returns.weaken put' (λ l k (c'', _). rw (append_assoc a ((d, w) ∷ []) ((x, v) ∷ b)) at c''))

  reverse_loop-Circ :
      (fuel : ℕ) (h : Heap V) (last : Ptr) (a : Cells V) (d : Ptr) (w : V) (b : Cells V)
      → Circ h last (a ++ ((d, w) ∷ b))
      → length a < fuel
      → Returns (λ l g. Circ g l ((d, w) ∷ reverse_aux a b)) (reverse_loop fuel last d h)
  unfolding reverse_loop
  reverse_loop-Circ zero h last a d w b c f = absurd (omega arith)
  reverse_loop-Circ (suc fuel) h last [] d w b c f =
      rw (first_node-ok h last ((d, w) ∷ b) c, ==_self d) (returns c)
  reverse_loop-Circ (suc fuel) h last ((x, v) ∷ a) d w b c f =
      rw
        (
          first_node-ok h last ((x, v) ∷ (a ++ ((d, w) ∷ b))) c,
          ne→== d x (λ i. true≢false (
              sym (has_middle a d w b)
              ∙ ap (λ (k : Ptr). has k (a ++ ((d, w) ∷ b))) i
              ∙ c.ring.distinct.0)),
        )
        (Returns.chain (take_node-Circ h last x v [] (a ++ ((d, w) ∷ b)) c) (λ taken g t.
          Returns.chain (move_first h last x v a d w b c taken g t)
            (λ l k c'. reverse_loop-Circ fuel k l a d w ((x, v) ∷ b) c' (omega arith))))

  reverse_nothing :
      (fuel : ℕ) (h : Heap V) (last : Ptr) (xs : Cells V)
      → Circ h last xs
      → xs ≡ []
      → 0 < fuel
      → Returns (λ l g. Circ g l (reverse xs)) (reverse_loop fuel last last h)
  unfolding reverse_loop
  reverse_nothing zero h last xs c e n = absurd (omega arith)
  reverse_nothing (suc fuel) h last [] c e n =
      rw (first_node-ok h last [] c, c.at_last)
        (returns (subst (λ (l : Ptr). Circ h l []) c.at_last c))
  reverse_nothing (suc fuel) h last (x ∷ xs) c e n = cc

  -- With at least as much fuel as nodes, and some, reverse ends and leaves the same nodes in the
  -- reverse order.
  pub reverse_list-Circ :
      (fuel : ℕ) (h : Heap V) (last : Ptr) (xs : Cells V)
      → Circ h last xs
      → length xs ≤ fuel
      → 0 < fuel
      → Returns (λ l g. Circ g l (reverse xs)) (reverse_list fuel last h)
  unfolding reverse_list
  reverse_list-Circ fuel h last xs c f n = elim (snoc_cases xs) [
    | inl e ↦ reverse_nothing fuel h last xs c e n
    | inr (ys, p, v, view) ↦
        let c' : Circ h last (ys ++ ((p, v) ∷ [])) = subst (Circ h last) view c in
        let at : last ≡ p = c'.at_last ∙ last_or-snoc ys p null v in
        let size = ap length view ∙ length-append ys ((p, v) ∷ []) in
        rw at (
          rw (view, reverse-append ys ((p, v) ∷ []))
            (reverse_loop-Circ fuel h p ys p v []
              (subst (λ (l : Ptr). Circ h l (ys ++ ((p, v) ∷ []))) at c') (omega (arith, size))))
  ]
