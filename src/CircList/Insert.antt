-- ===== src/CircList/Insert.antt =====
-- insert_after and the second half of splice_after on one node: one node more in a list.
use mathlib.Core.Path.{subst}
use wrutil.Common.{
  ◌==◌, ◌≡◌, ◌≢◌, refl, sym, ap, ◌∙◌, arith, true, false, Bool-cases, inl, inr, some, [], ◌∷◌, ◌++◌,
  if◌then◌else◌, append-nil, ==_self, ne→==,
}
use wrutil.CircList.Heap.{Ptr, null, Heap, write, node}
use wrutil.CircList.Returns.{Returns, returns}
use wrutil.CircList.Ops.{insert_after}
use wrutil.CircList.Ring.{
  Cells, head_or, last_or, has, Ring, Circ, SameOutside, last_or-append, turn, Distinct-append,
}
use wrutil.CircList.Cells.{
  write_same, write_other, next_node-ok, set_next-ok, snoc_cases, last_or-snoc, Links-last,
  insert_Ring, front_of, front_of-last, has_last, last_ne_null, has_turn, has-snoc, append_cons_ne,
}

pub true≢false : true ≢ false
true≢false h = cc

module _ {V : Type 0} where
  pub differ :
      (h : Heap V) (a : Cells V) (y : Ptr) (u : V) (b : Cells V)
      → Ring h (a ++ ((y, u) ∷ b))
      → (last_or a null == last_or b y) ≡ false
  differ h [] y u b r = ground (arith, last_ne_null h y u b _ r.links)
  differ h ((x, v) ∷ a) y u b r =
      let (_, _, apart) = Distinct-append ((x, v) ∷ a) ((y, u) ∷ b) r.distinct in
      let out = apart (last_or a x) (has_last x v a) in
      let inside = has_last y u b in
      elim (Bool-cases (last_or a x == last_or b y)) [
        | inl e ↦
            let same : last_or a x ≡ last_or b y = ground (arith, e) in
            absurd (true≢false (sym inside ∙ ap (λ (t : Ptr). has t ((y, u) ∷ b)) (sym same) ∙ out))
        | inr e ↦ e
      ]

  -- The address of the last node after the insertion.
  pub new_last :
      (h : Heap V) (new : Ptr) (w : V) (a b : Cells V)
      → Ring h (a ++ b)
      → (if last_or a null == last_or (a ++ b) null then new else last_or (a ++ b) null)
        ≡ last_or (a ++ ((new, w) ∷ b)) null
  new_last h new w a [] r =
      rw (append-nil a, ==_self (last_or a null)) (sym (last_or-append a ((new, w) ∷ []) null))
  new_last h new w a ((y, u) ∷ b) r =
      let end : last_or (a ++ ((y, u) ∷ b)) null ≡ last_or b y =
        last_or-append a ((y, u) ∷ b) null in
      rw (end, differ h a y u b r) (sym (last_or-append a ((new, w) ∷ ((y, u) ∷ b)) null))

  -- The two writes, in either order.
  pub linked_in :
      (h g : Heap V) (new : Ptr) (w : V) (a b ys : Cells V) (p : Ptr) (v : V)
      → Circ h (last_or (a ++ b) null) (a ++ b)
      → b ++ a ≡ ys ++ ((p, v) ∷ [])
      → new ≢ null
      → has new (a ++ b) ≡ false
      → g p ≡ some (node v new)
      → g new ≡ some (node w (head_or (ys ++ ((p, v) ∷ [])) null))
      → ((k : Ptr) → k ≢ p → k ≢ new → g k ≡ h k)
      → Circ g
          (if last_or a null == last_or (a ++ b) null then new else last_or (a ++ b) null)
          (a ++ ((new, w) ∷ b))
        × SameOutside ((new, w) ∷ (a ++ b)) h g
  linked_in h g new w a b ys p v c e n out ep en same =
      let r : Ring h (ys ++ ((p, v) ∷ [])) = subst (Ring h) e (turn h a b c.ring) in
      let away : has new (ys ++ ((p, v) ∷ [])) ≡ false =
        ap (has new) (sym e) ∙ has_turn b a new ∙ out in
      let inside : has p (a ++ b) ≡ true = has_turn a b p ∙ ap (has p) e ∙ has-snoc ys p v in
      let grown = insert_Ring h g ys p v new w r away n ep en same in
      let turned : Ring g ((new, w) ∷ (b ++ a)) =
        subst (λ (t : Cells V). Ring g ((new, w) ∷ t)) (sym e) grown in
      (
        record { ring = turn g ((new, w) ∷ b) a turned; at_last = new_last h new w a b c.ring },
        λ k m. same k (λ i. ground (arith, i, inside, m)) (λ i. ground (arith, i, m)),
      )

  pub into_empty :
      (h : Heap V) (new : Ptr) (w : V) (j : Ptr)
      → h new ≡ some (node w j)
      → new ≢ null
      → Circ (write h new (some (node w new))) new ((new, w) ∷ [])
        × SameOutside ((new, w) ∷ []) h (write h new (some (node w new)))
  into_empty h new w j e n = (
    record {
      ring = record {
        links = (n, write_same h new (some (node w new)), tt);
        distinct = (refl, tt);
      };
      at_last = refl;
    },
    λ k m. write_other h new k (some (node w new)) (λ i. ground (arith, i, m)),
  )

  -- The node in front of the position behind `a`, and what it leads to.
  pub behind_front :
      (h : Heap V) (a b ys : Cells V) (p : Ptr) (v : V)
      → Ring h (a ++ b)
      → b ++ a ≡ ys ++ ((p, v) ∷ [])
      → (front_of (last_or (a ++ b) null) (last_or a null) ≡ p)
        × (h p ≡ some (node v (head_or (ys ++ ((p, v) ∷ [])) null)))
  behind_front h a b ys p v r view =
      let r' : Ring h (ys ++ ((p, v) ∷ [])) = subst (Ring h) view (turn h a b r) in
      (
        front_of-last h a b r
            ∙ ap (λ (t : Cells V). last_or t null) view
            ∙ last_or-snoc ys p null v,
        (Links-last h ys p v _ r'.links).0,
      )

  insert_after_ring :
      (h : Heap V) (new : Ptr) (w : V) (j : Ptr) (a b ys : Cells V) (p : Ptr) (v : V)
      → Circ h (last_or (a ++ b) null) (a ++ b)
      → h new ≡ some (node w j)
      → new ≢ null
      → has new (a ++ b) ≡ false
      → b ++ a ≡ ys ++ ((p, v) ∷ [])
      → last_or (a ++ b) null ≢ null
      → Returns
          (λ l g. Circ g l (a ++ ((new, w) ∷ b)) × SameOutside ((new, w) ∷ (a ++ b)) h g)
          (insert_after (last_or (a ++ b) null) (last_or a null) new h)
  unfolding insert_after
  insert_after_ring h new w j a b ys p v c e n out view full =
      let q = head_or (ys ++ ((p, v) ∷ [])) null in
      let there = behind_front h a b ys p v c.ring view in
      let some_last : (last_or (a ++ b) null == null) ≡ false = ne→== _ _ full in
      let apart : new ≢ p = λ i. absurd (
        true≢false (
          sym (has_turn a b p ∙ ap (has p) view ∙ has-snoc ys p v)
          ∙ ap (λ (k : Ptr). has k (a ++ b)) (sym i)
          ∙ out)) in
      let g1 = write h p (some (node v new)) in
      let g2 = write g1 new (some (node w q)) in
      let en = write_other h p new (some (node v new)) apart ∙ e in
      rw
        (
          some_last,
          there.0,
          next_node-ok h p q v there.1,
          set_next-ok h p q new v there.1,
          set_next-ok g1 new j q w en,
        )
        (returns (
          linked_in h g2 new w a b ys p v c view n out
            (write_other g1 new p (some (node w q)) (λ i. apart (sym i))
              ∙ write_same h p (some (node v new)))
            (write_same g1 new (some (node w q)))
            (λ k i j'.
              write_other g1 new k (some (node w q)) j' ∙ write_other h p k (some (node v new)) i)))

  insert_after_any :
      (h : Heap V) (new : Ptr) (w : V) (j : Ptr) (a b : Cells V)
      → Circ h (last_or (a ++ b) null) (a ++ b)
      → h new ≡ some (node w j)
      → new ≢ null
      → has new (a ++ b) ≡ false
      → Returns
          (λ l g. Circ g l (a ++ ((new, w) ∷ b)) × SameOutside ((new, w) ∷ (a ++ b)) h g)
          (insert_after (last_or (a ++ b) null) (last_or a null) new h)
  unfolding insert_after
  insert_after_any h new w j [] [] c e n out =
      rw (set_next-ok h new j new w e) (returns (into_empty h new w j e n))
  insert_after_any h new w j [] ((y, u) ∷ b) c e n out = elim (snoc_cases (((y, u) ∷ b) ++ [])) [
    | inl i ↦ cc
    | inr (ys, p, v, view) ↦
        insert_after_ring h new w j [] ((y, u) ∷ b) ys p v c e n out view
          (last_ne_null h y u b _ c.ring.links)
  ]
  insert_after_any h new w j ((x, t) ∷ a) b c e n out = elim (snoc_cases (b ++ ((x, t) ∷ a))) [
    | inl i ↦ absurd (append_cons_ne b (x, t) a i)
    | inr (ys, p, v, view) ↦
        insert_after_ring h new w j ((x, t) ∷ a) b ys p v c e n out view
          (last_ne_null h x t (a ++ b) _ c.ring.links)
  ]

  -- insert_after puts the node behind the position, in front of the nodes that followed.
  pub insert_after-Circ :
      (h : Heap V) (last new : Ptr) (w : V) (j : Ptr) (a b : Cells V)
      → Circ h last (a ++ b)
      → h new ≡ some (node w j)
      → new ≢ null
      → has new (a ++ b) ≡ false
      → Returns
          (λ l g. Circ g l (a ++ ((new, w) ∷ b)) × SameOutside ((new, w) ∷ (a ++ b)) h g)
          (insert_after last (last_or a null) new h)
  unfolding insert_after
  insert_after-Circ h last new w j a b c e n out =
      subst
        (λ (l : Ptr).
          Returns (λ l' g. Circ g l' (a ++ ((new, w) ∷ b)) × SameOutside ((new, w) ∷ (a ++ b)) h g)
            (insert_after l (last_or a null) new h))
        (sym c.at_last)
        (insert_after_any h new w j a b (record { ring = c.ring; at_last = refl }) e n out)
