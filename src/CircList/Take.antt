-- ===== src/CircList/Take.antt =====
-- The first half of splice_after(pos, other, i): the node behind a position leaves its list.
use mathlib.Core.Path.{subst}
use wrutil.Common.{
  ◌==◌, ◌≡◌, ◌≢◌, refl, sym, ap, ◌∙◌, inl, inr, some, [], ◌∷◌, ◌++◌, if◌then◌else◌, ne→==, ==_self,
  append-nil,
}
use wrutil.CircList.Heap.{Ptr, null, Heap, write, node}
use wrutil.CircList.Returns.{Returns, returns}
use wrutil.CircList.Ops.{take_node}
use wrutil.CircList.Ring.{
  Cells, head_or, last_or, has, Links, Distinct, Ring, Circ, SameOutside, turn, last_or-append,
  Distinct-append,
}
use wrutil.CircList.Cells.{
  write_same, write_other, next_node-ok, set_next-ok, snoc_cases, has_turn, has-snoc, relink,
  last_or-snoc, has_last, head_any,
}
use wrutil.CircList.Insert.{true≢false, behind_front}

module _ {V : Type 0} where
  -- The node is `x`, it is still there, and it is in the list no more.
  abbrev pub Taken : Heap V → Ptr → V → Cells V → Cells V → Ptr × Ptr → Heap V → Type 0
  Taken h x v a b out g =
      (out.0 ≡ x) × Circ g out.1 (a ++ b) × (g x ≡ h x) × SameOutside (a ++ b) h g

  -- The address of the last node afterwards.
  shrunk_last :
      (x : Ptr) (v : V) (a b ys : Cells V) (p : Ptr) (u : V)
      → Distinct (a ++ ((x, v) ∷ b))
      → b ++ a ≡ ys ++ ((p, u) ∷ [])
      → (if x == last_or (a ++ ((x, v) ∷ b)) null then p else last_or (a ++ ((x, v) ∷ b)) null)
        ≡ last_or (a ++ b) null
  shrunk_last x v a [] ys p u d view =
      rw
        (
          last_or-append a ((x, v) ∷ []) null,
          ==_self x,
          append-nil a,
          view,
          last_or-snoc ys p null u,
        )
        refl
  shrunk_last x v a ((y, w) ∷ b) ys p u d view =
      let (_, (out, _), _) = Distinct-append a ((x, v) ∷ ((y, w) ∷ b)) d in
      let apart : x ≢ last_or b y = λ i.
        true≢false (sym (has_last y w b) ∙ ap (λ (k : Ptr). has k ((y, w) ∷ b)) (sym i) ∙ out) in
      rw (last_or-append a ((x, v) ∷ ((y, w) ∷ b)) null, ne→== x (last_or b y) apart)
        (sym (last_or-append a ((y, w) ∷ b) null))

  take_node_ring :
      (h : Heap V) (x : Ptr) (v : V) (a b ys : Cells V) (p : Ptr) (u : V)
      → Circ h (last_or (a ++ ((x, v) ∷ b)) null) (a ++ ((x, v) ∷ b))
      → b ++ a ≡ ys ++ ((p, u) ∷ [])
      → Returns (Taken h x v a b) (take_node (last_or (a ++ ((x, v) ∷ b)) null) (last_or a null) h)
  unfolding take_node
  take_node_ring h x v a b ys p u c view =
      let r : Ring h ((x, v) ∷ (ys ++ ((p, u) ∷ []))) =
        subst (λ (t : Cells V). Ring h ((x, v) ∷ t)) view (turn h a ((x, v) ∷ b) c.ring) in
      let (nx, ex, l) = r.links in
      let (out, d) = r.distinct in
      let q = head_or (ys ++ ((p, u) ∷ [])) x in
      let there =
        behind_front h a ((x, v) ∷ b) ((x, v) ∷ ys) p u c.ring
          (ap (λ (t : Cells V). (x, v) ∷ t) view) in
      let apart : p ≢ x = λ i.
        true≢false
          (sym (has-snoc ys p u) ∙ ap (λ (k : Ptr). has k (ys ++ ((p, u) ∷ []))) i ∙ out) in
      let g = write h p (some (node u q)) in
      let shrunk : Ring g (ys ++ ((p, u) ∷ [])) = record {
        links = subst (Links g (ys ++ ((p, u) ∷ []))) (head_any ys p u x) (
            relink h g ys p u x q l d (write_same h p (some (node u q)))
              (λ k m i. write_other h p k (some (node u q)) i));
        distinct = d;
      } in
      rw
        (
          there.0,
          next_node-ok h p x u there.1,
          ne→== p x apart,
          next_node-ok h x q v ex,
          set_next-ok h p x q u there.1,
        )
        (returns (
          refl,
          record {
            ring = turn g b a (subst (Ring g) (sym view) shrunk);
            at_last = shrunk_last x v a b ys p u c.ring.distinct view;
          },
          write_other h p x (some (node u q)) (λ i. apart (sym i)),
          λ k m. write_other h p k (some (node u q)) (λ i. true≢false (
              sym (has_turn a b p ∙ ap (has p) view ∙ has-snoc ys p u)
              ∙ ap (λ (t : Ptr). has t (a ++ b)) (sym i)
              ∙ m)),
        ))

  take_only :
      (h : Heap V) (x : Ptr) (v : V) (a b : Cells V)
      → Circ h (last_or (a ++ ((x, v) ∷ b)) null) (a ++ ((x, v) ∷ b))
      → b ++ a ≡ []
      → Returns (Taken h x v a b) (take_node (last_or (a ++ ((x, v) ∷ b)) null) (last_or a null) h)
  unfolding take_node
  take_only h x v [] [] c i =
      let (n, e, _) = c.ring.links in
      rw (next_node-ok h x x v e, ==_self x)
        (returns (
          refl,
          record { ring = record { links = tt; distinct = tt }; at_last = refl },
          refl,
          λ k m. refl,
        ))
  take_only h x v a (y ∷ b) c i = cc
  take_only h x v (y ∷ a) [] c i = cc

  take_node_any :
      (h : Heap V) (x : Ptr) (v : V) (a b : Cells V)
      → Circ h (last_or (a ++ ((x, v) ∷ b)) null) (a ++ ((x, v) ∷ b))
      → Returns (Taken h x v a b) (take_node (last_or (a ++ ((x, v) ∷ b)) null) (last_or a null) h)
  unfolding take_node
  take_node_any h x v a b c = elim (snoc_cases (b ++ a)) [
    | inl i ↦ take_only h x v a b c i
    | inr (ys, p, u, view) ↦ take_node_ring h x v a b ys p u c view
  ]

  -- `take_node` takes the node behind the position out of the list, and leaves the other ones.
  pub take_node-Circ :
      (h : Heap V) (last x : Ptr) (v : V) (a b : Cells V)
      → Circ h last (a ++ ((x, v) ∷ b))
      → Returns (Taken h x v a b) (take_node last (last_or a null) h)
  take_node-Circ h last x v a b c =
      subst (λ (l : Ptr). Returns (Taken h x v a b) (take_node l (last_or a null) h))
        (sym c.at_last) (take_node_any h x v a b (record { ring = c.ring; at_last = refl }))
