-- ===== src/CircList/Join.antt =====
-- splice_after of all nodes of another list.
use mathlib.Core.Path.{subst}
use wrutil.Common.{
  ◌==◌, ◌≡◌, ◌≢◌, refl, sym, ap, ◌∙◌, true, inl, inr, some, [], ◌∷◌, ◌++◌, if◌then◌else◌, ne→==,
  ==_self, append-nil, append_assoc,
}
use wrutil.CircList.Heap.{Ptr, null, Heap, write, node, ok, next_node, set_next}
use wrutil.CircList.Returns.{Returns, returns}
use wrutil.CircList.Ops.{splice_all}
use wrutil.CircList.Ring.{
  Cells, head_or, last_or, has, Links, Ring, Circ, Apart, turn, Apart-sym, has-append,
  head_or-append, last_or-append, append-Distinct, append-Links, Links-append,
}
use wrutil.CircList.Cells.{
  write_same, write_other, next_node-ok, set_next-ok, snoc_cases, last_or-snoc, last_ne_null,
  has_turn, has-snoc, append_cons_ne, relink, Links-last, head_any,
}
use wrutil.CircList.Insert.{true≢false, differ, behind_front}
use wrutil.CircList.Splice.{Two, SameBeyond}

module _ {V : Type 0} where
  -- Two rings, each broken behind its last node, make one.
  join_Ring :
      (h g : Heap V) (ws : Cells V) (q : Ptr) (t : V) (zs : Cells V) (p : Ptr) (u : V)
      → Ring h (ws ++ ((q, t) ∷ []))
      → Ring h (zs ++ ((p, u) ∷ []))
      → Apart (ws ++ ((q, t) ∷ [])) (zs ++ ((p, u) ∷ []))
      → g q ≡ some (node t (head_or (zs ++ ((p, u) ∷ [])) null))
      → g p ≡ some (node u (head_or (ws ++ ((q, t) ∷ [])) null))
      → ((k : Ptr) → k ≢ p → k ≢ q → g k ≡ h k)
      → Ring g ((ws ++ ((q, t) ∷ [])) ++ (zs ++ ((p, u) ∷ [])))
  join_Ring h g ws q t zs p u r s apart eq ep same =
      let W : Cells V = ws ++ ((q, t) ∷ []) in
      let Z : Cells V = zs ++ ((p, u) ∷ []) in
      let head : head_or (W ++ Z) null ≡ head_or W null =
        head_or-append W Z null ∙ head_any ws q t (head_or Z null) in
      let not_p : (k : Ptr) → has k W ≡ true → k ≢ p = λ k i e.
        true≢false (sym (has-snoc zs p u) ∙ ap (λ (x : Ptr). has x Z) (sym e) ∙ apart k i) in
      let not_q : (k : Ptr) → has k Z ≡ true → k ≢ q = λ k i e.
        true≢false
          (sym (has-snoc ws q t) ∙ ap (λ (x : Ptr). has x W) (sym e) ∙ Apart-sym W Z apart k i) in
      let first : Links g W (head_or Z null) =
        relink h g ws q t _ _ r.links r.distinct eq
          (λ k i n. same k (not_p k (has-append k ws ((q, t) ∷ []) ∙ rw i refl)) n) in
      let second : Links g Z (head_or W null) =
        relink h g zs p u _ _ s.links s.distinct ep
          (λ k i n. same k n (not_q k (has-append k zs ((p, u) ∷ []) ∙ rw i refl))) in
      record {
        links = subst (Links g (W ++ Z)) (sym head) (
            append-Links g W Z (head_or W null)
              (subst (Links g W) (sym (head_any zs p u (head_or W null))) first) second);
        distinct = append-Distinct W Z r.distinct s.distinct apart;
      }

  joined_last :
      (h : Heap V) (a b : Cells V) (y : Ptr) (w : V) (ys : Cells V)
      → Ring h (a ++ b)
      → last_or (a ++ b) null ≢ null
      → (if last_or a null == null
          then last_or (a ++ b) null
          else if last_or a null == last_or (a ++ b) null
          then last_or ys y
          else last_or (a ++ b) null)
        ≡ last_or (a ++ (((y, w) ∷ ys) ++ b)) null
  joined_last h [] [] y w ys r n = absurd (n refl)
  joined_last h [] ((z, s) ∷ b) y w ys r n = sym (last_or-append ys ((z, s) ∷ b) y)
  joined_last h ((x, v) ∷ a) [] y w ys r n =
      let m : last_or a x ≢ null = rw (append-nil a) at n in
      rw (append-nil a, ne→== (last_or a x) null m, ==_self (last_or a x), append-nil ys)
        (sym (last_or-append a ((y, w) ∷ ys) x))
  joined_last h ((x, v) ∷ a) ((z, s) ∷ b) y w ys r n =
      let (front, _) = Links-append h ((x, v) ∷ a) ((z, s) ∷ b) _ r.links in
      rw
        (
          ne→== (last_or a x) null (last_ne_null h x v a _ front),
          last_or-append a ((z, s) ∷ b) x,
          differ h ((x, v) ∷ a) z s b r,
          last_or-append a (((y, w) ∷ ys) ++ ((z, s) ∷ b)) x,
        )
        (sym (last_or-append ys ((z, s) ∷ b) y))

  -- What is left, where neither list is empty.
  splice_all-joined :
      (h : Heap V) (a b : Cells V) (y : Ptr) (w : V) (ys ws zs : Cells V) (q : Ptr) (t : V)
      (p : Ptr) (u : V)
      → Two h (last_or (a ++ b) null) (last_or ys y) (a ++ b) ((y, w) ∷ ys)
      → (y, w) ∷ ys ≡ ws ++ ((q, t) ∷ [])
      → b ++ a ≡ zs ++ ((p, u) ∷ [])
      → last_or (a ++ b) null ≢ null
      → Returns
          (λ l g. Circ g l (a ++ (((y, w) ∷ ys) ++ b)) × SameBeyond (a ++ b) ((y, w) ∷ ys) h g)
          (splice_all (last_or (a ++ b) null) (last_or a null) (last_or ys y) h)
  unfolding splice_all
  splice_all-joined h a b y w ys ws zs q t p u two v1 v2 full =
      let W : Cells V = ws ++ ((q, t) ∷ []) in
      let Z : Cells V = zs ++ ((p, u) ∷ []) in
      let r : Ring h W = subst (Ring h) v1 two.that.ring in
      let s : Ring h Z = subst (Ring h) v2 (turn h a b two.this.ring) in
      let at : last_or ys y ≡ q =
        ap (λ (x : Cells V). last_or x null) v1 ∙ last_or-snoc ws q null t in
      let eq : h q ≡ some (node t (head_or W null)) = (Links-last h ws q t _ r.links).0 in
      let there = behind_front h a b zs p u two.this.ring v2 in
      let in_this : has p (a ++ b) ≡ true = has_turn a b p ∙ ap (has p) v2 ∙ has-snoc zs p u in
      let in_that : has q ((y, w) ∷ ys) ≡ true = ap (has q) v1 ∙ has-snoc ws q t in
      let apart : Apart W Z = λ k i.
        ap (has k) (sym v2)
        ∙ sym (has_turn a b k)
        ∙ Apart-sym (a ++ b) ((y, w) ∷ ys) two.apart k (ap (has k) v1 ∙ i) in
      let p_ne_q : p ≢ q = λ e.
        true≢false
          (sym in_that ∙ ap (λ (k : Ptr). has k ((y, w) ∷ ys)) (sym e) ∙ two.apart p in_this) in
      let g1 = write h q (some (node t (head_or Z null))) in
      let g2 = write g1 p (some (node u (head_or W null))) in
      let ep : g1 p ≡ some (node u (head_or Z null)) =
        write_other h q p (some (node t (head_or Z null))) p_ne_q ∙ there.1 in
      let joined : Ring g2 (W ++ Z) =
        join_Ring h g2 ws q t zs p u r s apart
          (write_other g1 p q (some (node u (head_or W null))) (λ e. p_ne_q (sym e))
            ∙ write_same h q (some (node t (head_or Z null))))
          (write_same g1 p (some (node u (head_or W null))))
          (λ k i j.
            write_other g1 p k (some (node u (head_or W null))) i
            ∙ write_other h q k (some (node t (head_or Z null))) j) in
      let n1 : next_node (last_or ys y) h ≡ ok (head_or W null) h =
        ap (λ (k : Ptr). next_node k h) at ∙ next_node-ok h q _ t eq in
      let n2 : set_next (last_or ys y) (head_or Z null) h ≡ ok tt g1 =
        ap (λ (k : Ptr). set_next k (head_or Z null) h) at
        ∙ set_next-ok h q _ (head_or Z null) t eq in
      let order : W ++ Z ≡ (((y, w) ∷ ys) ++ b) ++ a =
        ap (λ (x : Cells V). x ++ Z) (sym v1)
        ∙ ap (λ (x : Cells V). ((y, w) ∷ ys) ++ x) (sym v2)
        ∙ sym (append_assoc ((y, w) ∷ ys) b a) in
      rw
        (
          ne→== _ _ (last_ne_null h y w ys _ two.that.ring.links),
          ne→== _ _ full,
          there.0,
          n1,
          next_node-ok h p _ u there.1,
          n2,
          set_next-ok g1 p _ (head_or W null) u ep,
        )
        (returns (
          record {
            ring = turn g2 (((y, w) ∷ ys) ++ b) a (subst (Ring g2) order joined);
            at_last = joined_last h a b y w ys two.this.ring full;
          },
          λ k i j.
              write_other g1 p k (some (node u (head_or W null)))
                (λ e. true≢false (sym in_this ∙ ap (λ (x : Ptr). has x (a ++ b)) (sym e) ∙ i))
              ∙ write_other h q k (some (node t (head_or Z null))) (λ e.
                true≢false (sym in_that ∙ ap (λ (x : Ptr). has x ((y, w) ∷ ys)) (sym e) ∙ j)),
        ))

  into_nothing :
      (h : Heap V) (a b : Cells V) (y : Ptr) (w : V) (ys : Cells V)
      → Two h (last_or (a ++ b) null) (last_or ys y) (a ++ b) ((y, w) ∷ ys)
      → b ++ a ≡ []
      → Returns
          (λ l g. Circ g l (a ++ (((y, w) ∷ ys) ++ b)) × SameBeyond (a ++ b) ((y, w) ∷ ys) h g)
          (splice_all (last_or (a ++ b) null) (last_or a null) (last_or ys y) h)
  unfolding splice_all
  into_nothing h [] [] y w ys two e =
      rw (ne→== _ _ (last_ne_null h y w ys _ two.that.ring.links), append-nil ys)
        (returns (two.that, λ k i j. refl))
  into_nothing h a (z ∷ b) y w ys two e = cc
  into_nothing h (z ∷ a) [] y w ys two e = cc

  any_full :
      (h : Heap V) (a b : Cells V) (zs : Cells V) (p : Ptr) (u : V)
      → Ring h (a ++ b)
      → b ++ a ≡ zs ++ ((p, u) ∷ [])
      → last_or (a ++ b) null ≢ null
  any_full h [] [] zs p u r v = λ e. append_cons_ne zs (p, u) [] (sym v)
  any_full h [] ((z, s) ∷ b) zs p u r v = last_ne_null h z s b _ r.links
  any_full h ((x, s) ∷ a) b zs p u r v = last_ne_null h x s (a ++ b) _ r.links

  some_spliced :
      (h : Heap V) (a b : Cells V) (y : Ptr) (w : V) (ys : Cells V)
      → Two h (last_or (a ++ b) null) (last_or ys y) (a ++ b) ((y, w) ∷ ys)
      → Returns
          (λ l g. Circ g l (a ++ (((y, w) ∷ ys) ++ b)) × SameBeyond (a ++ b) ((y, w) ∷ ys) h g)
          (splice_all (last_or (a ++ b) null) (last_or a null) (last_or ys y) h)
  some_spliced h a b y w ys two = elim (snoc_cases (b ++ a)) [
    | inl e ↦ into_nothing h a b y w ys two e
    | inr (zs, p, u, v2) ↦ elim (snoc_cases ((y, w) ∷ ys)) [
      | inl e ↦ cc
      | inr (ws, q, t, v1) ↦
          splice_all-joined h a b y w ys ws zs q t p u two v1 v2
            (any_full h a b zs p u two.this.ring v2)
    ]
  ]

  -- splice_after moves all nodes of another list, in their order, to behind a position of this
  -- one, also where one of the lists is empty, and changes no other node.
  pub splice_all-Circ :
      (h : Heap V) (last other : Ptr) (a b ys : Cells V)
      → Two h last other (a ++ b) ys
      → Returns
          (λ l g. Circ g l (a ++ (ys ++ b)) × SameBeyond (a ++ b) ys h g)
          (splice_all last (last_or a null) other h)
  unfolding splice_all
  splice_all-Circ h last other a b [] two = rw two.that.at_last (returns (two.this, λ k i j. refl))
  splice_all-Circ h last other a b ((y, w) ∷ ys) two =
      subst
        (λ (l : Ptr).
          Returns
            (λ l' g. Circ g l' (a ++ (((y, w) ∷ ys) ++ b)) × SameBeyond (a ++ b) ((y, w) ∷ ys) h g)
            (splice_all l (last_or a null) other h))
        (sym two.this.at_last)
        (subst
          (λ (o : Ptr).
            Returns
              (λ l' g.
                Circ g l' (a ++ (((y, w) ∷ ys) ++ b)) × SameBeyond (a ++ b) ((y, w) ∷ ys) h g)
              (splice_all (last_or (a ++ b) null) (last_or a null) o h))
          (sym two.that.at_last)
          (some_spliced h a b y w ys (record {
            this = record { ring = two.this.ring; at_last = refl };
            that = record { ring = two.that.ring; at_last = refl };
            apart = two.apart;
          })))
