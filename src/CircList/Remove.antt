-- ===== src/CircList/Remove.antt =====
-- erase_after of one node, and remove_if.
use mathlib.Core.Path.{subst}
use wrutil.Common.{
  ℕ, zero, suc, ◌<◌, ◌==◌, ◌≡◌, refl, sym, ap, ◌∙◌, arith, Bool, true, false, ◌||◌, Bool-cases, inl,
  inr, none, some, [], ◌∷◌, ◌++◌, if◌then◌else◌, ==_self, append-nil, append_assoc, length,
}
use wrutil.CircList.Heap.{Ptr, null, Heap, node, ok, load}
use wrutil.CircList.Returns
use wrutil.CircList.Returns.{Returns, returns}
use wrutil.CircList.Ops.{erase_after}
use wrutil.CircList.Loops.{remove_loop, remove_if}
use wrutil.CircList.Ring.{
  Cells, last_or, has, Distinct, Circ, SameOutside, has-append, last_or-append, Distinct-append,
  Links-append,
}
use wrutil.CircList.Cells.{has_here, last_or-snoc}
use wrutil.CircList.Insert.{true≢false, differ}
use wrutil.CircList.Iterate.{advance-ok, step, step_advance}
use wrutil.CircList.Erase.{Erased, erase_range-Circ}

module _ {V : Type 0} where
  -- With fuel, erase_after at the position behind `a` destroys the node that follows.
  pub erase_after-Circ :
      (fuel : ℕ) (h : Heap V) (last : Ptr) (a : Cells V) (x : Ptr) (v : V) (b : Cells V)
      → Circ h last (a ++ ((x, v) ∷ b))
      → 0 < fuel
      → Returns (Erased h a ((x, v) ∷ []) b) (erase_after fuel last (last_or a null) h)
  unfolding erase_after
  erase_after-Circ fuel h last a x v b c f =
      rw (advance-ok h last a ((x, v) ∷ b) c, step_advance h last a x v b c)
        (erase_range-Circ fuel h last a ((x, v) ∷ []) b c (omega arith))

  pub load-ok :
      (h : Heap V) (p q : Ptr) (v : V) → h p ≡ some (node v q) → load p h ≡ ok (node v q) h
  unfolding load
  load-ok h p q v e = rw (e, load) refl

  -- The value behind the position.
  pub load-front :
      (h : Heap V) (last : Ptr) (a : Cells V) (x : Ptr) (v : V) (b : Cells V)
      → Circ h last (a ++ ((x, v) ∷ b))
      → (q : Ptr) × (load x h ≡ ok (node v q) h)
  load-front h last a x v b c =
      let (_, (_, e, _)) = Links-append h a ((x, v) ∷ b) _ c.ring.links in (_, load-ok h x _ v e)

  -- Where a position is the last one, and where it is not.
  pub at_end :
      (h : Heap V) (last : Ptr) (a : Cells V)
      → Circ h last (a ++ [])
      → (last_or a null == last) ≡ true
  at_end h last a c = rw (c.at_last, append-nil a) (==_self (last_or a null))

  pub before_end :
      (h : Heap V) (last : Ptr) (a : Cells V) (x : Ptr) (v : V) (b : Cells V)
      → Circ h last (a ++ ((x, v) ∷ b))
      → (last_or a null == last) ≡ false
  before_end h last a x v b c =
      rw (c.at_last, last_or-append a ((x, v) ∷ b) null) (differ h a x v b c.ring)

  -- The cells whose value the test spares, and the others.
  abbrev pub spared_by : (V → Bool) → Cells V → Cells V
  spared_by p [] = []
  spared_by p ((x, v) ∷ xs) = if p v then spared_by p xs else (x, v) ∷ spared_by p xs

  abbrev pub hit_by : (V → Bool) → Cells V → Cells V
  hit_by p [] = []
  hit_by p ((x, v) ∷ xs) = if p v then (x, v) ∷ hit_by p xs else hit_by p xs

  abbrev pub Removed : (V → Bool) → Heap V → Cells V → Cells V → Ptr → Heap V → Type 0
  Removed p h a b l g =
      Circ g l (a ++ spared_by p b)
      × ((k : Ptr) → has k (hit_by p b) ≡ true → g k ≡ none)
      × SameOutside (a ++ b) h g

  outside_front :
      (k : Ptr) (a : Cells V) (x : Ptr) (v : V) (b : Cells V)
      → has k (a ++ ((x, v) ∷ b)) ≡ false
      → has k (a ++ b) ≡ false
  outside_front k a x v b i =
      let parts : (has k a || ((k == x) || has k b)) ≡ false =
        sym (has-append k a ((x, v) ∷ b)) ∙ i in
      has-append k a b ∙ ground (arith, parts)

  front_outside :
      (a : Cells V) (x : Ptr) (v : V) (b : Cells V)
      → Distinct (a ++ ((x, v) ∷ b))
      → has x (a ++ b) ≡ false
  front_outside a x v b d =
      let (_, (out, _), apart) = Distinct-append a ((x, v) ∷ b) d in
      elim (Bool-cases (has x a)) [
        | inl i ↦ absurd (true≢false (sym (has_here x v b) ∙ apart x i))
        | inr i ↦ has-append x a b ∙ rw (i, out) refl
      ]

  Removed-hit :
      (p : V → Bool) (h g k : Heap V) (a : Cells V) (x : Ptr) (v : V) (b : Cells V) (l l' : Ptr)
      → p v ≡ true
      → Distinct (a ++ ((x, v) ∷ b))
      → Erased h a ((x, v) ∷ []) b l g
      → Removed p g a b l' k
      → Removed p h a ((x, v) ∷ b) l' k
  Removed-hit p h g k a x v b l l' hit d (_, gone, same) (circ, lost, same') = rw hit (
    circ,
    λ t i. elim (Bool-cases (t == x)) [
      | inl e ↦
          let same_place : t ≡ x = ground (arith, e) in
          ap k same_place ∙ same' x (front_outside a x v b d) ∙ gone x (has_here x v [])
      | inr e ↦ lost t (ground (arith, e, i))
    ],
    λ t i. same' t (outside_front t a x v b i) ∙ same t i,
  )

  Removed-kept :
      (p : V → Bool) (h k : Heap V) (a : Cells V) (x : Ptr) (v : V) (b : Cells V) (l : Ptr)
      → p v ≡ false
      → Removed p h (a ++ ((x, v) ∷ [])) b l k
      → Removed p h a ((x, v) ∷ b) l k
  Removed-kept p h k a x v b l miss (circ, lost, same) = rw miss (
    subst (Circ k l) (append_assoc a ((x, v) ∷ []) (spared_by p b)) circ,
    lost,
    λ t i. same t (ap (has t) (append_assoc a ((x, v) ∷ []) b) ∙ i),
  )

  remove_loop-Removed :
      (p : V → Bool) (fuel : ℕ) (h : Heap V) (last : Ptr) (a b : Cells V)
      → Circ h last (a ++ b)
      → length b < fuel
      → Returns (Removed p h a b) (remove_loop p fuel last (last_or a null) h)
  unfolding remove_loop
  remove_loop-Removed p zero h last a b c f = absurd (omega arith)
  remove_loop-Removed p (suc fuel) h last a [] c f =
      rw (at_end h last a c) (returns (c, λ k i. cc, λ k i. refl))
  remove_loop-Removed p (suc fuel) h last a ((x, v) ∷ b) c f =
      let go = advance-ok h last a ((x, v) ∷ b) c in
      let (q, there) = load-front h last a x v b c in
      elim (Bool-cases (p v)) [
        | inl hit ↦
            rw (before_end h last a x v b c, go, there, hit)
              (Returns.chain (erase_after-Circ fuel h last a x v b c (omega arith)) (λ l g erased.
                Returns.weaken (remove_loop-Removed p fuel g l a b erased.0 (omega arith))
                  (λ l' k removed.
                    Removed-hit p h g k a x v b l l' hit c.ring.distinct erased removed)))
        | inr miss ↦
            let rest =
              remove_loop-Removed p fuel h last (a ++ ((x, v) ∷ [])) b (step h last a x v b c)
                (omega arith) in
            rw (before_end h last a x v b c, go, there, miss, go)
              (Returns.weaken
                (subst
                  (λ (t : Ptr).
                    Returns (Removed p h (a ++ ((x, v) ∷ [])) b) (remove_loop p fuel last t h))
                  (last_or-snoc a x null v) rest)
                (λ l k removed. Removed-kept p h k a x v b l miss removed))
      ]

  -- With more fuel than nodes, remove_if destroys the nodes whose value passes the test, leaves
  -- the others in their order, and changes no node outside of the list.
  pub remove_if-Circ :
      (p : V → Bool) (fuel : ℕ) (h : Heap V) (last : Ptr) (xs : Cells V)
      → Circ h last xs
      → length xs < fuel
      → Returns (Removed p h [] xs) (remove_if p fuel last h)
  unfolding remove_if
  remove_if-Circ p fuel h last xs c f = remove_loop-Removed p fuel h last [] xs c f
