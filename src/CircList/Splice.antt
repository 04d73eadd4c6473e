-- ===== src/CircList/Splice.antt =====
-- splice_after between two lists: one node, and all nodes.
use wrutil.Common.{
  ◌==◌, ◌≡◌, refl, sym, ap, ◌∙◌, arith, Bool, true, false, ◌||◌, Bool-cases, inl, inr, ◌∷◌, ◌++◌,
  ne→==, ==_self,
}
use wrutil.CircList.Heap.{Ptr, null, Heap}
use wrutil.CircList.Returns
use wrutil.CircList.Returns.{Returns, returns}
use wrutil.CircList.Ops.{splice_one}
use wrutil.CircList.Ring.{
  Cells, last_or, has, Distinct, Circ, Apart, SameOutside, frame, Apart-sym, has-append,
  Distinct-append, Links-append,
}
use wrutil.CircList.Cells.{has_here}
use wrutil.CircList.Insert.{true≢false}
use wrutil.CircList.Take.{Taken, take_node-Circ}
use wrutil.CircList.Put.{put_node-Circ}

module _ {V : Type 0} where
  -- Two lists with no node in common.
  pub record Two (h : Heap V) (last other : Ptr) (xs ys : Cells V) : Type 0 where
    pub this : Circ h last xs
    pub that : Circ h other ys
    pub apart : Apart xs ys

  pub circ_frame :
      (h g : Heap V) (last : Ptr) (xs : Cells V)
      → Circ h last xs
      → ((k : Ptr) → has k xs ≡ true → g k ≡ h k)
      → Circ g last xs
  circ_frame h g last xs c same = record {
    ring = record { links = frame h g xs _ c.ring.links same; distinct = c.ring.distinct };
    at_last = c.at_last;
  }

  -- The heaps agree at the addresses that stand in neither list.
  abbrev pub SameBeyond : Cells V → Cells V → Heap V → Heap V → Type 0
  SameBeyond xs ys h g = (k : Ptr) → has k xs ≡ false → has k ys ≡ false → g k ≡ h k

  -- A node in the middle.
  pub has_middle :
      (k : Ptr) (a : Cells V) (x : Ptr) (v : V) (b : Cells V)
      → has k (a ++ ((x, v) ∷ b)) ≡ ((k == x) || has k (a ++ b))
  has_middle k a x v b =
      has-append k a ((x, v) ∷ b)
      ∙ or_swap (has k a) (k == x) (has k b)
      ∙ ap (λ (t : Bool). (k == x) || t) (sym (has-append k a b))
    where
      or_swap : (p q r : Bool) → (p || (q || r)) ≡ (q || (p || r))
      or_swap p q r = ground arith

  pub middle_fresh :
      (a : Cells V) (x : Ptr) (v : V) (b : Cells V)
      → Distinct (a ++ ((x, v) ∷ b))
      → has x (a ++ b) ≡ false
  middle_fresh a x v b d =
      let (_, (out, _), apart) = Distinct-append a ((x, v) ∷ b) d in
      elim (Bool-cases (has x a)) [
        | inl i ↦ absurd (true≢false (sym (has_here x v b) ∙ apart x i))
        | inr i ↦ has-append x a b ∙ rw (i, out) refl
      ]

  -- The same for the lists without that node.
  Apart-middle :
      (xs c : Cells V) (x : Ptr) (v : V) (d : Cells V)
      → Apart xs (c ++ ((x, v) ∷ d))
      → (k : Ptr) → has k xs ≡ true
      → ((k == x) ≡ false) × (has k (c ++ d) ≡ false)
  Apart-middle xs c x v d apart k i =
      let out : ((k == x) || has k (c ++ d)) ≡ false = sym (has_middle k c x v d) ∙ apart k i in
      (ground (arith, out), ground (arith, out))

  Apart-moved :
      (a b cs : Cells V) (x : Ptr) (v : V)
      → Apart (a ++ b) cs
      → has x cs ≡ false
      → Apart (a ++ ((x, v) ∷ b)) cs
  Apart-moved a b cs x v apart out k i =
      let i' : ((k == x) || has k (a ++ b)) ≡ true = sym (has_middle k a x v b) ∙ i in
      elim (Bool-cases (k == x)) [
        | inl e ↦ let same : k ≡ x = ground (arith, e) in ap (λ (t : Ptr). has t cs) same ∙ out
        | inr e ↦ apart k (ground (arith, e, i'))
      ]

  moved :
      (h g k : Heap V) (last other : Ptr) (a b c : Cells V) (x : Ptr) (v : V) (d : Cells V)
      (out : Ptr × Ptr) (l : Ptr)
      → Two h last other (a ++ b) (c ++ ((x, v) ∷ d))
      → Taken h x v c d out g
      → Circ k l (a ++ ((x, v) ∷ b))
      → SameOutside ((x, v) ∷ (a ++ b)) g k
      → Two k l out.1 (a ++ ((x, v) ∷ b)) (c ++ d) × SameBeyond (a ++ b) (c ++ ((x, v) ∷ d)) h k
  moved h g k last other a b c x v d out l two (_, left, _, same) into same' =
      let fresh = middle_fresh c x v d two.that.ring.distinct in
      let off = Apart-middle (a ++ b) c x v d two.apart in
      let off' : Apart (c ++ d) (a ++ b) = Apart-sym (a ++ b) (c ++ d) (λ t i. (off t i).1) in
      (
        record {
          this = into;
          that = circ_frame g k out.1 (c ++ d) left (λ t i. same' t (
              rw
                (
                  ne→== t x (λ e. true≢false (sym i ∙ ap (λ (q : Ptr). has q (c ++ d)) e ∙ fresh)),
                  off' t i,
                )
                refl));
          apart = Apart-moved a b (c ++ d) x v (λ t i. (off t i).1) fresh;
        },
        λ t i j.
            let j' : ((t == x) || has t (c ++ d)) ≡ false = sym (has_middle t c x v d) ∙ j in
            same' t (ground (arith, i, j')) ∙ same t (ground (arith, j')),
      )

  -- splice_after moves the node behind a position of another list to behind a position of this
  -- one: both stay circular lists with no node in common, and no other node changes.
  pub splice_one-Two :
      (h : Heap V) (last other : Ptr) (a b c : Cells V) (x : Ptr) (v : V) (d : Cells V)
      → Two h last other (a ++ b) (c ++ ((x, v) ∷ d))
      → Returns
          (λ out g.
            Two g out.0 out.1 (a ++ ((x, v) ∷ b)) (c ++ d)
            × SameBeyond (a ++ b) (c ++ ((x, v) ∷ d)) h g)
          (splice_one last (last_or a null) other (last_or c null) h)
  unfolding splice_one
  splice_one-Two h last other a b c x v d two =
      let off = Apart-middle (a ++ b) c x v d two.apart in
      let (_, (n, e, _)) = Links-append h c ((x, v) ∷ d) _ two.that.ring.links in
      let new : has x (a ++ b) ≡ false =
        Apart-sym (a ++ b) (c ++ ((x, v) ∷ d)) two.apart x
          (has_middle x c x v d ∙ rw (==_self x) refl) in
      Returns.chain (take_node-Circ h other x v c d two.that) (λ out g (at, left, kept, same).
        let main : Circ g last (a ++ b) =
          circ_frame h g last (a ++ b) two.this (λ t i. same t (off t i).1) in
        rw at (
          Returns.chain (put_node-Circ g last x v _ a b main (kept ∙ e) n new) (λ l k (into, same').
            returns
              (moved h g k last other a b c x v d out l two (at, left, kept, same) into same'))))
