-- ===== src/CircList/Put.antt =====
-- The second half of splice_after(pos, other, i): a node goes into a list.
use mathlib.Core.Path.{subst}
use wrutil.Common.{
  ◌==◌, ◌≡◌, ◌≢◌, refl, sym, ap, ◌∙◌, arith, true, false, Bool-cases, inl, inr, some, [], ◌∷◌, ◌++◌,
  if◌then◌else◌, ne→==,
}
use wrutil.CircList.Heap.{Ptr, null, Heap, write, node}
use wrutil.CircList.Returns.{Returns, returns}
use wrutil.CircList.Ops.{put_node}
use wrutil.CircList.Ring.{Cells, head_or, last_or, has, Circ, SameOutside}
use wrutil.CircList.Cells.{
  write_same, write_other, next_node-ok, set_next-ok, snoc_cases, last_ne_null, has_turn, has-snoc,
  append_cons_ne,
}
use wrutil.CircList.Insert.{true≢false, linked_in, into_empty, behind_front}

null_of : (p : Ptr) → (p == null) ≡ true → p ≡ null
null_of p z = ground (arith, z)

-- The test of `put_node`, which asks for the front first.
chosen_last :
    (pos last new : Ptr)
    → last ≢ null
    → (if pos == null then last else if pos == last then new else last)
      ≡ (if pos == last then new else last)
chosen_last pos last new n = elim (Bool-cases (pos == null)) [
  | inl z ↦ rw (z, ne→== pos last (λ e. n (sym e ∙ null_of pos z))) refl
  | inr z ↦ rw z refl
]

module _ {V : Type 0} where
  put_node_ring :
      (h : Heap V) (new : Ptr) (w : V) (j : Ptr) (a b ys : Cells V) (p : Ptr) (v : V)
      → Circ h (last_or (a ++ b) null) (a ++ b)
      → h new ≡ some (node w j)
      → new ≢ null
      → has new (a ++ b) ≡ false
      → b ++ a ≡ ys ++ ((p, v) ∷ [])
      → last_or (a ++ b) null ≢ null
      → Returns
          (λ l g. Circ g l (a ++ ((new, w) ∷ b)) × SameOutside ((new, w) ∷ (a ++ b)) h g)
          (put_node (last_or (a ++ b) null) (last_or a null) new h)
  unfolding put_node
  put_node_ring h new w j a b ys p v c e n out view full =
      let q = head_or (ys ++ ((p, v) ∷ [])) null in
      let there = behind_front h a b ys p v c.ring view in
      let apart : new ≢ p = λ i. absurd (
        true≢false (
          sym (has_turn a b p ∙ ap (has p) view ∙ has-snoc ys p v)
          ∙ ap (λ (k : Ptr). has k (a ++ b)) (sym i)
          ∙ out)) in
      let g1 = write h new (some (node w q)) in
      let g2 = write g1 p (some (node v new)) in
      let ep = write_other h new p (some (node w q)) (λ i. apart (sym i)) ∙ there.1 in
      rw
        (
          ne→== _ _ full,
          there.0,
          next_node-ok h p q v there.1,
          set_next-ok h new j q w e,
          set_next-ok g1 p q new v ep,
          chosen_last (last_or a null) (last_or (a ++ b) null) new full,
        )
        (returns (
          linked_in h g2 new w a b ys p v c view n out (write_same g1 p (some (node v new)))
            (write_other g1 p new (some (node v new)) apart ∙ write_same h new (some (node w q)))
            (λ k i j'.
              write_other g1 p k (some (node v new)) i ∙ write_other h new k (some (node w q)) j')))

  put_node_any :
      (h : Heap V) (new : Ptr) (w : V) (j : Ptr) (a b : Cells V)
      → Circ h (last_or (a ++ b) null) (a ++ b)
      → h new ≡ some (node w j)
      → new ≢ null
      → has new (a ++ b) ≡ false
      → Returns
          (λ l g. Circ g l (a ++ ((new, w) ∷ b)) × SameOutside ((new, w) ∷ (a ++ b)) h g)
          (put_node (last_or (a ++ b) null) (last_or a null) new h)
  unfolding put_node
  put_node_any h new w j [] [] c e n out =
      rw (set_next-ok h new j new w e) (returns (into_empty h new w j e n))
  put_node_any h new w j [] ((y, u) ∷ b) c e n out = elim (snoc_cases (((y, u) ∷ b) ++ [])) [
    | inl i ↦ cc
    | inr (ys, p, v, view) ↦
        put_node_ring h new w j [] ((y, u) ∷ b) ys p v c e n out view
          (last_ne_null h y u b _ c.ring.links)
  ]
  put_node_any h new w j ((x, t) ∷ a) b c e n out = elim (snoc_cases (b ++ ((x, t) ∷ a))) [
    | inl i ↦ absurd (append_cons_ne b (x, t) a i)
    | inr (ys, p, v, view) ↦
        put_node_ring h new w j ((x, t) ∷ a) b ys p v c e n out view
          (last_ne_null h x t (a ++ b) _ c.ring.links)
  ]

  -- `put_node` puts the node behind the position, in front of the nodes that followed.
  pub put_node-Circ :
      (h : Heap V) (last new : Ptr) (w : V) (j : Ptr) (a b : Cells V)
      → Circ h last (a ++ b)
      → h new ≡ some (node w j)
      → new ≢ null
      → has new (a ++ b) ≡ false
      → Returns
          (λ l g. Circ g l (a ++ ((new, w) ∷ b)) × SameOutside ((new, w) ∷ (a ++ b)) h g)
          (put_node last (last_or a null) new h)
  put_node-Circ h last new w j a b c e n out =
      subst
        (λ (l : Ptr).
          Returns (λ l' g. Circ g l' (a ++ ((new, w) ∷ b)) × SameOutside ((new, w) ∷ (a ++ b)) h g)
            (put_node l (last_or a null) new h))
        (sym c.at_last)
        (put_node_any h new w j a b (record { ring = c.ring; at_last = refl }) e n out)
