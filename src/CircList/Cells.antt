-- ===== src/CircList/Cells.antt =====
-- Single cells: what the commands on one node do, and one node more or less in a ring.
use mathlib.Core.Bool.{or_comm}
use wrutil.Common.{
  ◌==◌, ◌≡◌, ◌≢◌, refl, sym, ap, ◌∙◌, arith, true, false, ◌||◌, ◌⊎◌, inl, inr, Option, some, [],
  ◌∷◌, ◌++◌, if◌then◌else◌, append-nil, ==_self,
}
use wrutil.CircList.Heap.{Ptr, null, Node, Heap, write, node, ok, next_node, set_next, destroy}
use wrutil.CircList.Ring.{
  Cells, head_or, last_or, has, Distinct, Links, Ring, head_or-append, last_or-append, has-append,
  Links-append, append-Links, frame, Distinct-append,
}

-- The node in front of a position.
abbrev pub front_of : Ptr → Ptr → Ptr
front_of last pos = if pos == null then last else pos

module _ {V : Type 0} where
  pub write_same : (h : Heap V) (p : Ptr) (c : Option (Node V)) → write h p c p ≡ c
  unfolding write
  write_same h p c = ground arith

  pub write_other : (h : Heap V) (p a : Ptr) (c : Option (Node V)) → a ≢ p → write h p c a ≡ h a
  unfolding write
  write_other h p a c n = ground arith

  pub next_node-ok :
      (h : Heap V) (p q : Ptr) (v : V) → h p ≡ some (node v q) → next_node p h ≡ ok q h
  unfolding next_node
  next_node-ok h p q v e = rw (e, next_node) refl

  pub set_next-ok :
      (h : Heap V) (p q r : Ptr) (v : V)
      → h p ≡ some (node v q)
      → set_next p r h ≡ ok tt (write h p (some (node v r)))
  unfolding set_next
  set_next-ok h p q r v e = rw (e, set_next) refl

  pub destroy-ok :
      (h : Heap V) (p : Ptr) (n : Node V)
      → h p ≡ some n
      → destroy p h ≡ ok tt (write h p Option.none)
  unfolding destroy
  destroy-ok h p n e = rw (e, destroy) refl

  -- Cells that are not empty have a last one.
  pub snoc_cases :
      (xs : Cells V)
      → (xs ≡ []) ⊎ ((ys : Cells V) × (p : Ptr) × (v : V) × (xs ≡ ys ++ ((p, v) ∷ [])))
  snoc_cases [] = inl refl
  snoc_cases ((x, u) ∷ xs) = inr (elim (snoc_cases xs) [
    | inl e ↦ ([], x, u, ap (λ (t : Cells V). (x, u) ∷ t) e)
    | inr (ys, p, v, e) ↦ ((x, u) ∷ ys, p, v, ap (λ (t : Cells V). (x, u) ∷ t) e)
  ])

  pub last_or-snoc : (ys : Cells V) (p q : Ptr) (v : V) → last_or (ys ++ ((p, v) ∷ [])) q ≡ p
  last_or-snoc [] p q v = refl
  last_or-snoc ((x, u) ∷ ys) p q v = last_or-snoc ys p x v

  -- The last node of cells that lead to `q`.
  pub Links-last :
      (h : Heap V) (ys : Cells V) (p : Ptr) (v : V) (q : Ptr)
      → Links h (ys ++ ((p, v) ∷ [])) q
      → (h p ≡ some (node v q)) × (p ≢ null)
  Links-last h ys p v q l = let (front, (n, e, _)) = Links-append h ys ((p, v) ∷ []) q l in (e, n)

  -- The last node of the cells is sent to another address.
  pub relink :
      (h g : Heap V) (ys : Cells V) (p : Ptr) (v : V) (q r : Ptr)
      → Links h (ys ++ ((p, v) ∷ [])) q
      → Distinct (ys ++ ((p, v) ∷ []))
      → g p ≡ some (node v r)
      → ((a : Ptr) → has a ys ≡ true → a ≢ p → g a ≡ h a)
      → Links g (ys ++ ((p, v) ∷ [])) r
  relink h g ys p v q r l d e same =
      let (front, (n, _, _)) = Links-append h ys ((p, v) ∷ []) q l in
      let (_, _, apart) = Distinct-append ys ((p, v) ∷ []) d in
      append-Links g ys ((p, v) ∷ []) r
        (frame h g ys p front (λ a m. same a m (ground (arith, apart a m)))) (n, e, tt)

  -- One node more behind the last one of a ring.
  pub insert_Ring :
      (h g : Heap V) (ys : Cells V) (p : Ptr) (v : V) (new : Ptr) (w : V)
      → Ring h (ys ++ ((p, v) ∷ []))
      → has new (ys ++ ((p, v) ∷ [])) ≡ false
      → new ≢ null
      → g p ≡ some (node v new)
      → g new ≡ some (node w (head_or (ys ++ ((p, v) ∷ [])) null))
      → ((a : Ptr) → a ≢ p → a ≢ new → g a ≡ h a)
      → Ring g ((new, w) ∷ (ys ++ ((p, v) ∷ [])))
  insert_Ring h g ys p v new w r out n ep en same =
      let cs : Cells V = ys ++ ((p, v) ∷ []) in
      let out' : (has new ys || has new ((p, v) ∷ [])) ≡ false =
        rw (has-append new ys ((p, v) ∷ [])) at out in
      let head : head_or cs new ≡ head_or cs null =
        head_or-append ys ((p, v) ∷ []) new ∙ sym (head_or-append ys ((p, v) ∷ []) null) in
      record {
        links = (
          n,
          rw head en,
          relink h g ys p v (head_or cs null) new r.links r.distinct ep
              (λ a m k. same a k (λ e. ground (arith, e, m, out'))),
        );
        distinct = (out, r.distinct);
      }

  pub has_last : (x : Ptr) (v : V) (xs : Cells V) → has (last_or xs x) ((x, v) ∷ xs) ≡ true
  has_last x v [] = ground arith
  has_last x v ((y, u) ∷ xs) = ground (arith, has_last y u xs)

  pub last_ne_null :
      (h : Heap V) (x : Ptr) (v : V) (xs : Cells V) (q : Ptr)
      → Links h ((x, v) ∷ xs) q
      → last_or xs x ≢ null
  last_ne_null h x v [] q (n, _, l) = n
  last_ne_null h x v ((y, u) ∷ xs) q (n, _, l) = last_ne_null h y u xs q l

  pub has_turn : (a b : Cells V) (p : Ptr) → has p (a ++ b) ≡ has p (b ++ a)
  has_turn a b p = has-append p a b ∙ or_comm (has p a) (has p b) ∙ sym (has-append p b a)

  pub has-snoc : (ys : Cells V) (p : Ptr) (v : V) → has p (ys ++ ((p, v) ∷ [])) ≡ true
  has-snoc ys p v = has-append p ys ((p, v) ∷ []) ∙ ground (arith, ==_self p)

  -- What stands in front of the position behind `a` is the last node of the ring read from there.
  pub front_of-last :
      (h : Heap V) (a b : Cells V)
      → Ring h (a ++ b)
      → front_of (last_or (a ++ b) null) (last_or a null) ≡ last_or (b ++ a) null
  front_of-last h [] b r = rw (append-nil b) refl
  front_of-last h ((x, v) ∷ a) b r =
      let (front, _) = Links-append h ((x, v) ∷ a) b _ r.links in
      let n : (last_or a x == null) ≡ false = ground (arith, last_ne_null h x v a _ front) in
      rw n (sym (last_or-append b ((x, v) ∷ a) null))

  pub append_cons_ne : (b : Cells V) (x : Ptr × V) (a : Cells V) → b ++ (x ∷ a) ≢ []
  append_cons_ne [] x a h = cc
  append_cons_ne (y ∷ b) x a h = cc

  pub head_any :
      (ys : Cells V) (p : Ptr) (u : V) (q : Ptr)
      → head_or (ys ++ ((p, u) ∷ [])) q ≡ head_or (ys ++ ((p, u) ∷ [])) null
  head_any [] p u q = refl
  head_any (y ∷ ys) p u q = refl

  pub has_head :
      (ys : Cells V) (p : Ptr) (u : V)
      → has (head_or (ys ++ ((p, u) ∷ [])) null) (ys ++ ((p, u) ∷ [])) ≡ true
  has_head [] p u = ground (arith, ==_self p)
  has_head ((y, t) ∷ ys) p u = ground (arith, ==_self y)

  pub has_here : (x : Ptr) (v : V) (xs : Cells V) → has x ((x, v) ∷ xs) ≡ true
  has_here x v xs = ground (arith, ==_self x)
