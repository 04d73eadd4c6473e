-- ===== src/CircList/Iterate.antt =====
-- Iterators: where `++` leads, how far it is to the end, and `rotate`.
use mathlib.Core.Path.{subst}
use wrutil.Common.{
  ℕ, zero, suc, ◌<◌, ◌≡◌, ◌≢◌, refl, sym, ap, ◌∙◌, arith, inl, inr, [], ◌∷◌, ◌++◌, ne→==, ==_self,
  append-nil, append_assoc, length,
}
use wrutil.CircList.Heap.{Ptr, null, Heap, ok, next_node}
use wrutil.CircList.Returns.{Returns, returns}
use wrutil.CircList.Ops.{advance, first_node, rotate}
use wrutil.CircList.Loops.{distance, size}
use wrutil.CircList.Ring.{Cells, head_or, last_or, Ring, Circ, turn, last_or-append, Links-append}
use wrutil.CircList.Cells.{next_node-ok, snoc_cases, last_ne_null, front_of, last_or-snoc}
use wrutil.CircList.Insert.{behind_front, differ}

module _ {V : Type 0} where
  -- The node in front of a position leads to the node behind it, in a ring that is not empty.
  pub next_node-front :
      (h : Heap V) (a b : Cells V)
      → Ring h (a ++ b)
      → b ++ a ≢ []
      → next_node (front_of (last_or (a ++ b) null) (last_or a null)) h
        ≡ ok (head_or (b ++ a) null) h
  next_node-front h a b r n = elim (snoc_cases (b ++ a)) [
    | inl e ↦ absurd (n e)
    | inr (ys, p, v, view) ↦
        let there = behind_front h a b ys p v r view in
        rw (there.0, next_node-ok h p _ v there.1)
          (ap (λ (t : Cells V). ok (head_or t null) h) (sym view))
  ]

  -- `++` at the position behind `a` leads to the node that follows, or to the end.
  pub advance-ok :
      (h : Heap V) (last : Ptr) (a b : Cells V)
      → Circ h last (a ++ b)
      → advance last (last_or a null) h ≡ ok (head_or b null) h
  unfolding advance
  advance-ok h last [] [] c = rw c.at_last refl
  advance-ok h last [] ((y, u) ∷ b) c =
      let n = last_ne_null h y u b _ c.ring.links in
      rw (c.at_last, ne→== null (last_or b y) (λ e. n (sym e)))
        (next_node-front h [] ((y, u) ∷ b) c.ring (λ e. cc))
  advance-ok h last ((x, v) ∷ a) [] c = rw (c.at_last, append-nil a, ==_self (last_or a x)) refl
  advance-ok h last ((x, v) ∷ a) ((y, u) ∷ b) c =
      rw (c.at_last, last_or-append a ((y, u) ∷ b) x, differ h ((x, v) ∷ a) y u b c.ring)
        (rw (last_or-append a ((y, u) ∷ b) x) at
          (next_node-front h ((x, v) ∷ a) ((y, u) ∷ b) c.ring (λ e. cc)))

  pub first_node-ok :
      (h : Heap V) (last : Ptr) (xs : Cells V)
      → Circ h last xs
      → first_node last h ≡ ok (head_or xs null) h
  unfolding first_node
  first_node-ok h last [] c = rw c.at_last refl
  first_node-ok h last ((y, u) ∷ b) c =
      rw (c.at_last, ne→== _ _ (last_ne_null h y u b _ c.ring.links))
        (next_node-front h [] ((y, u) ∷ b) c.ring (λ e. cc))

  -- The position behind one node more.
  pub step :
      (h : Heap V) (last : Ptr) (a : Cells V) (y : Ptr) (u : V) (b : Cells V)
      → Circ h last (a ++ ((y, u) ∷ b))
      → Circ h last ((a ++ ((y, u) ∷ [])) ++ b)
  step h last a y u b c = subst (Circ h last) (sym (append_assoc a ((y, u) ∷ []) b)) c

  pub step_advance :
      (h : Heap V) (last : Ptr) (a : Cells V) (y : Ptr) (u : V) (b : Cells V)
      → Circ h last (a ++ ((y, u) ∷ b))
      → advance last y h ≡ ok (head_or b null) h
  step_advance h last a y u b c =
      ap (λ (k : Ptr). advance last k h) (sym (last_or-snoc a y null u))
      ∙ advance-ok h last (a ++ ((y, u) ∷ [])) b (step h last a y u b c)

  distance-ok :
      (fuel : ℕ) (h : Heap V) (last : Ptr) (a b : Cells V)
      → Circ h last (a ++ b)
      → length b < fuel
      → distance fuel last (head_or b null) h ≡ ok (length b) h
  unfolding distance
  distance-ok zero h last a b c f = absurd (omega arith)
  distance-ok (suc fuel) h last a [] c f = refl
  distance-ok (suc fuel) h last a ((y, u) ∷ b) c f =
      let (_, (n, _, _)) = Links-append h a ((y, u) ∷ b) _ c.ring.links in
      let c' = step h last a y u b c in
      rw
        (
          ne→== y null n,
          step_advance h last a y u b c,
          distance-ok fuel h last (a ++ ((y, u) ∷ [])) b c' (omega arith),
        )
        refl

  -- With more fuel than nodes, `size` gives the number of nodes.
  pub size-Circ :
      (fuel : ℕ) (h : Heap V) (last : Ptr) (xs : Cells V)
      → Circ h last xs
      → length xs < fuel
      → size fuel last h ≡ ok (length xs) h
  unfolding size
  size-Circ fuel h last xs c f = rw (first_node-ok h last xs c) (distance-ok fuel h last [] xs c f)

  -- `rotate` makes the first node the last one.
  pub rotate-Circ :
      (h : Heap V) (last x : Ptr) (v : V) (xs : Cells V)
      → Circ h last ((x, v) ∷ xs)
      → Returns (λ l g. Circ g l (xs ++ ((x, v) ∷ [])) × (g ≡ h)) (rotate last h)
  unfolding rotate
  rotate-Circ h last x v xs c =
      rw
        (
          c.at_last,
          ne→== _ _ (last_ne_null h x v xs _ c.ring.links),
          next_node-front h [] ((x, v) ∷ xs) c.ring (λ e. cc),
        )
        (returns (
          record {
            ring = turn h ((x, v) ∷ []) xs c.ring;
            at_last = sym (last_or-snoc xs x null v);
          },
          refl,
        ))
