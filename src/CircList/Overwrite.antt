-- ===== src/CircList/Overwrite.antt =====
-- The loop of assign that writes over the values of nodes.
use mathlib.Core.Path.{subst}
use wrutil.Common.{
  ◌≡◌, ◌≢◌, refl, sym, ap, ◌∙◌, some, [], ◌∷◌, ◌++◌, ==_self, append-nil, append_assoc,
}
use wrutil.CircList.Heap.{Ptr, null, Heap, node, write, ok, set_value}
use wrutil.CircList.Returns
use wrutil.CircList.Returns.{Returns, returns}
use wrutil.CircList.Loops.{overwrite}
use wrutil.CircList.Ring.{
  Cells, head_or, last_or, has, Links, Distinct, Circ, SameOutside, frame, head_or-append,
  last_or-append, Links-append, append-Links, Distinct-append,
}
use wrutil.CircList.Cells.{has_here, last_or-snoc, write_same, write_other}
use wrutil.CircList.Insert.{true≢false}
use wrutil.CircList.Iterate.{advance-ok, step}
use wrutil.CircList.Remove.{at_end, before_end}
use wrutil.CircList.Splice.{has_middle}

module _ {V : Type 0} where
  set_value-ok :
      (h : Heap V) (p q : Ptr) (u v : V)
      → h p ≡ some (node u q)
      → set_value p v h ≡ ok tt (write h p (some (node v q)))
  unfolding set_value
  set_value-ok h p q u v e = rw (e, set_value) refl

  has_value :
      (k : Ptr) (a : Cells V) (x : Ptr) (u v : V) (b : Cells V)
      → has k (a ++ ((x, u) ∷ b)) ≡ has k (a ++ ((x, v) ∷ b))
  has_value k a x u v b = has_middle k a x u b ∙ sym (has_middle k a x v b)

  Distinct-value :
      (a : Cells V) (x : Ptr) (u v : V) (b : Cells V)
      → Distinct (a ++ ((x, u) ∷ b))
      → Distinct (a ++ ((x, v) ∷ b))
  Distinct-value [] x u v b d = d
  Distinct-value ((y, w) ∷ a) x u v b (out, d) =
      (sym (has_value y a x u v b) ∙ out, Distinct-value a x u v b d)

  last_value :
      (a : Cells V) (x : Ptr) (u v : V) (b : Cells V)
      → last_or (a ++ ((x, u) ∷ b)) null ≡ last_or (a ++ ((x, v) ∷ b)) null
  last_value a x u v b =
      last_or-append a ((x, u) ∷ b) null ∙ sym (last_or-append a ((x, v) ∷ b) null)

  head_value :
      (a : Cells V) (x : Ptr) (u v : V) (b : Cells V)
      → head_or (a ++ ((x, u) ∷ b)) null ≡ head_or (a ++ ((x, v) ∷ b)) null
  head_value a x u v b =
      head_or-append a ((x, u) ∷ b) null ∙ sym (head_or-append a ((x, v) ∷ b) null)

  -- A new value in a node.
  set_value-Circ :
      (h : Heap V) (last : Ptr) (a : Cells V) (x : Ptr) (u v : V) (b : Cells V)
      → Circ h last (a ++ ((x, u) ∷ b))
      → Returns
          (λ t g. Circ g last (a ++ ((x, v) ∷ b)) × SameOutside (a ++ ((x, u) ∷ b)) h g)
          (set_value x v h)
  set_value-Circ h last a x u v b c =
      let q = head_or (a ++ ((x, u) ∷ b)) null in
      let (front, (n, e, back)) = Links-append h a ((x, u) ∷ b) q c.ring.links in
      let (da, (out, db), apart) = Distinct-append a ((x, u) ∷ b) c.ring.distinct in
      let g = write h x (some (node v (head_or b q))) in
      let spared : (k : Ptr) → k ≢ x → g k ≡ h k =
        λ k i. write_other h x k (some (node v (head_or b q))) i in
      rw (set_value-ok h x (head_or b q) u v e) (
        returns (
          record {
            ring = record {
              links = subst (Links g (a ++ ((x, v) ∷ b))) (head_value a x u v b) (
                  append-Links g a ((x, v) ∷ b) q
                    (frame h g a x front (λ k i. spared k (λ e'. true≢false (
                      sym (has_here x u b)
                      ∙ ap (λ (t : Ptr). has t ((x, u) ∷ b)) (sym e')
                      ∙ apart k i))))
                    (
                      n,
                      write_same h x (some (node v (head_or b q))),
                      frame h g b q back (λ k i.
                          spared k (λ e'. true≢false (sym i ∙ ap (λ (t : Ptr). has t b) e' ∙ out))),
                    ));
              distinct = Distinct-value a x u v b c.ring.distinct;
            };
            at_last = c.at_last ∙ last_value a x u v b;
          },
          λ k i. spared k (λ e'. true≢false (
              sym (has_middle x a x u b ∙ rw (==_self x) refl)
              ∙ ap (λ (t : Ptr). has t (a ++ ((x, u) ∷ b))) (sym e')
              ∙ i)),
        ))

  -- The nodes that have a value for them, with these values; and what is left of the first cells.
  abbrev pub paired : Cells V → Cells V → Cells V
  paired [] vs = []
  paired (x ∷ xs) [] = []
  paired (x ∷ xs) (v ∷ vs) = (x.0, v.1) ∷ paired xs vs

  abbrev pub left : Cells V → Cells V → Cells V
  left [] vs = []
  left (x ∷ xs) [] = x ∷ xs
  left (x ∷ xs) (v ∷ vs) = left xs vs

  abbrev pub Overwritten :
      Heap V → Ptr → Cells V → Cells V → Cells V → Ptr × Cells V → Heap V → Type 0
  Overwritten h last a b values out g =
      Circ g last ((a ++ paired b values) ++ left b values)
      × (out.0 ≡ last_or (a ++ paired b values) null)
      × (out.1 ≡ left values b)
      × SameOutside (a ++ b) h g

  there :
      (h : Heap V) (last : Ptr) (a b : Cells V)
      → Circ h last (a ++ b)
      → Circ h last ((a ++ []) ++ b)
  there h last a b c = subst (λ (t : Cells V). Circ h last (t ++ b)) (sym (append-nil a)) c

  at_front : (a : Cells V) → last_or a null ≡ last_or (a ++ []) null
  at_front a = ap (λ (t : Cells V). last_or t null) (sym (append-nil a))

  Overwritten-step :
      (h g k : Heap V) (last : Ptr) (a : Cells V) (x : Ptr) (u v : V) (b : Cells V) (y : Ptr)
      (values : Cells V) (out : Ptr × Cells V)
      → SameOutside (a ++ ((x, u) ∷ b)) h g
      → Overwritten g last (a ++ ((x, v) ∷ [])) b values out k
      → Overwritten h last a ((x, u) ∷ b) ((y, v) ∷ values) out k
  Overwritten-step h g k last a x u v b y values out same (circ, at, rest, same') =
      let order : (a ++ ((x, v) ∷ [])) ++ paired b values ≡ a ++ ((x, v) ∷ paired b values) =
        append_assoc a ((x, v) ∷ []) (paired b values) in
      (
        subst (λ (t : Cells V). Circ k last (t ++ left b values)) order circ,
        at ∙ ap (λ (t : Cells V). last_or t null) order,
        rest,
        λ t i.
            same' t (ap (has t) (append_assoc a ((x, v) ∷ []) b) ∙ has_value t a x v u b ∙ i)
            ∙ same t i,
      )

  pub overwrite-Overwritten :
      (h : Heap V) (last : Ptr) (a b values : Cells V)
      → Circ h last (a ++ b)
      → Returns (Overwritten h last a b values) (overwrite last (last_or a null) values h)
  unfolding overwrite
  overwrite-Overwritten h last a [] [] c =
      returns (there h last a [] c, at_front a, refl, λ k i. refl)
  overwrite-Overwritten h last a (x ∷ b) [] c =
      returns (there h last a (x ∷ b) c, at_front a, refl, λ k i. refl)
  overwrite-Overwritten h last a [] ((y, v) ∷ values) c =
      rw (at_end h last a c) (returns (there h last a [] c, at_front a, refl, λ k i. refl))
  overwrite-Overwritten h last a ((x, u) ∷ b) ((y, v) ∷ values) c =
      rw (before_end h last a x u b c, advance-ok h last a ((x, u) ∷ b) c)
        (Returns.chain (set_value-Circ h last a x u v b c) (λ t g (circ, same).
          Returns.weaken
            (subst
              (λ (p : Ptr).
                Returns (Overwritten g last (a ++ ((x, v) ∷ [])) b values)
                  (overwrite last p values g))
              (last_or-snoc a x null v)
              (overwrite-Overwritten g last (a ++ ((x, v) ∷ [])) b values
                (step g last a x v b circ)))
            (λ out k more. Overwritten-step h g k last a x u v b y values out same more)))
