-- ===== src/CircList/Erase.antt =====
-- erase_after, on a range and on one node.
use mathlib.Core.Path.{subst}
use wrutil.Common.{
  ℕ, ◌≤◌, ◌==◌, ◌≡◌, ◌≢◌, refl, sym, ap, ◌∙◌, arith, Bool, true, false, ◌||◌, Bool-cases, inl, inr,
  none, [], ◌∷◌, ◌++◌, if◌then◌else◌, ne→==, ==_self, append-nil, append_assoc, length,
}
use wrutil.CircList.Heap.{Ptr, null, Heap, ok, after, next_node, pure, ◌>>=◌}
use wrutil.CircList.Returns
use wrutil.CircList.Returns.{Returns, returns}
use wrutil.CircList.Ops.{unlink_nodes, stop_node, erase_range}
use wrutil.CircList.Ring.{
  Cells, head_or, last_or, has, Distinct, Ring, Circ, SameOutside, turn, Apart-sym, has-append,
  last_or-append, Distinct-append, Links-append,
}
use wrutil.CircList.Cells.{
  snoc_cases, last_or-snoc, last_ne_null, front_of, front_of-last, has-snoc, has_last, has_here,
  append_cons_ne,
}
use wrutil.CircList.Insert.{true≢false}
use wrutil.CircList.Iterate.{advance-ok, next_node-front}
use wrutil.CircList.Unlink.{Gone, unlink_nodes-all, unlink_nodes-some}

module _ {V : Type 0} where
  -- The nodes of `m` are gone and the others are in the list.
  abbrev pub Erased : Heap V → Cells V → Cells V → Cells V → Ptr → Heap V → Type 0
  Erased h a m b l g =
      Circ g l (a ++ b)
      × ((k : Ptr) → has k m ≡ true → g k ≡ none)
      × SameOutside (a ++ (m ++ b)) h g

  -- The node at the end of the range; behind the last node that is the first one.
  behind-ok :
      (h : Heap V) (last : Ptr) (a m b : Cells V)
      → Circ h last (a ++ (m ++ b))
      → b ++ a ≢ []
      → stop_node last (head_or b null) h ≡ ok (head_or (b ++ a) null) h
  unfolding stop_node
  behind-ok h last [] m [] c n = absurd (n refl)
  behind-ok h last ((x, v) ∷ a) m [] c n =
      rw c.at_last (next_node-front h [] ((x, v) ∷ (a ++ (m ++ []))) c.ring (λ e. cc))
  behind-ok h last a m ((y, w) ∷ b) c n =
      let (_, l) = Links-append h a (m ++ ((y, w) ∷ b)) _ c.ring.links in
      let (_, (k, _, _)) = Links-append h m ((y, w) ∷ b) _ l in rw (ne→== y null k) refl

  spared :
      (k : Ptr) (a m b : Cells V)
      → has k (a ++ (m ++ b)) ≡ false
      → (has k m ≡ false) × (has k (b ++ a) ≡ false)
  spared k a m b i =
      let parts : (has k a || (has k m || has k b)) ≡ false =
        sym (has-append k a (m ++ b) ∙ ap (λ (t : Bool). has k a || t) (has-append k m b)) ∙ i in
      (ground (arith, parts), has-append k b a ∙ ground (arith, parts))

  pick_in : (l : Ptr) (m : Cells V) (p : Ptr) → has l m ≡ true → (if has l m then p else l) ≡ p
  pick_in l m p i = rw i refl

  pick_out : (l : Ptr) (m : Cells V) (p : Ptr) → has l m ≡ false → (if has l m then p else l) ≡ l
  pick_out l m p i = rw i refl

  -- The address of the last node afterwards.
  erased_last :
      (a m b : Cells V) (x : Ptr) (v : V) (ys : Cells V) (p : Ptr) (u : V)
      → Distinct (a ++ (((x, v) ∷ m) ++ b))
      → b ++ a ≡ ys ++ ((p, u) ∷ [])
      → (if has (last_or (a ++ (((x, v) ∷ m) ++ b)) null) ((x, v) ∷ m)
          then p
          else last_or (a ++ (((x, v) ∷ m) ++ b)) null)
        ≡ last_or (a ++ b) null
  erased_last a m [] x v ys p u d view =
      let all : last_or (a ++ (((x, v) ∷ m) ++ [])) null ≡ last_or m x =
        last_or-append a (((x, v) ∷ m) ++ []) null
        ∙ ap (λ (t : Cells V). last_or t x) (append-nil m) in
      let rest : last_or (a ++ []) null ≡ p =
        ap (λ (t : Cells V). last_or t null) (append-nil a ∙ view) ∙ last_or-snoc ys p null u in
      pick_in _ ((x, v) ∷ m) p (ap (λ (t : Ptr). has t ((x, v) ∷ m)) all ∙ has_last x v m)
      ∙ sym rest
  erased_last a m ((y, w) ∷ b) x v ys p u d view =
      let all : last_or (a ++ (((x, v) ∷ m) ++ ((y, w) ∷ b))) null ≡ last_or b y =
        last_or-append a (((x, v) ∷ m) ++ ((y, w) ∷ b)) null ∙ last_or-append m ((y, w) ∷ b) x in
      let (_, d', _) = Distinct-append a (((x, v) ∷ m) ++ ((y, w) ∷ b)) d in
      let (_, _, apart) = Distinct-append ((x, v) ∷ m) ((y, w) ∷ b) d' in
      let out = Apart-sym ((x, v) ∷ m) ((y, w) ∷ b) apart (last_or b y) (has_last y w b) in
      pick_out _ ((x, v) ∷ m) p (ap (λ (t : Ptr). has t ((x, v) ∷ m)) all ∙ out)
      ∙ all
      ∙ sym (last_or-append a ((y, w) ∷ b) null)

  erase_some :
      (fuel : ℕ) (h : Heap V) (a : Cells V) (x : Ptr) (v : V) (m b ys : Cells V) (p : Ptr) (u : V)
      → Circ h (last_or (a ++ (((x, v) ∷ m) ++ b)) null) (a ++ (((x, v) ∷ m) ++ b))
      → b ++ a ≡ ys ++ ((p, u) ∷ [])
      → length ((x, v) ∷ m) ≤ fuel
      → Returns
          (λ out g. Erased h a ((x, v) ∷ m) b out.0 g)
          (unlink_nodes fuel
            (last_or (a ++ (((x, v) ∷ m) ++ b)) null)
            (front_of (last_or (a ++ (((x, v) ∷ m) ++ b)) null) (last_or a null))
            (head_or (b ++ a) null)
            true
            h)
  erase_some fuel h a x v m b ys p u c view f =
      let M : Cells V = (x, v) ∷ m in
      let view' : (M ++ b) ++ a ≡ M ++ (ys ++ ((p, u) ∷ [])) =
        append_assoc M b a ∙ ap (λ (t : Cells V). M ++ t) view in
      let r : Ring h (M ++ (ys ++ ((p, u) ∷ []))) =
        subst (Ring h) view' (turn h a (M ++ b) c.ring) in
      let front : front_of (last_or (a ++ (M ++ b)) null) (last_or a null) ≡ p =
        front_of-last h a (M ++ b) c.ring
        ∙ ap (λ (t : Cells V). last_or t null) view'
        ∙ last_or-append M (ys ++ ((p, u) ∷ [])) null
        ∙ last_or-snoc ys p (last_or M null) u in
      let inside : has p (b ++ a) ≡ true = ap (has p) view ∙ has-snoc ys p u in
      rw (front, ap (λ (t : Cells V). head_or t null) view)
        (Returns.weaken (unlink_nodes-some fuel h (last_or (a ++ (M ++ b)) null) x v m ys p u r f)
          (λ out g (at, ring, gone, same). (
            record {
              ring = turn g b a (subst (Ring g) (sym view) ring);
              at_last = at ∙ erased_last a m b x v ys p u c.ring.distinct view;
            },
            gone,
            λ k i. same k (spared k a M b i).0 (λ e.
                true≢false
                  (sym inside ∙ ap (λ (t : Ptr). has t (b ++ a)) (sym e) ∙ (spared k a M b i).1)),
          )))

  erase_any :
      (fuel : ℕ) (h : Heap V) (last : Ptr) (a : Cells V) (x : Ptr) (v : V) (m b ys : Cells V)
      (p : Ptr) (u : V)
      → Circ h last (a ++ (((x, v) ∷ m) ++ b))
      → b ++ a ≡ ys ++ ((p, u) ∷ [])
      → length ((x, v) ∷ m) ≤ fuel
      → Returns
          (λ out g. Erased h a ((x, v) ∷ m) b out.0 g)
          (unlink_nodes fuel last (front_of last (last_or a null)) (head_or (b ++ a) null) true h)
  erase_any fuel h last a x v m b ys p u c view f =
      subst
        (λ (l : Ptr).
          Returns (λ out g. Erased h a ((x, v) ∷ m) b out.0 g)
            (unlink_nodes fuel l (front_of l (last_or a null)) (head_or (b ++ a) null) true h))
        (sym c.at_last)
        (erase_some fuel h a x v m b ys p u (record { ring = c.ring; at_last = refl }) view f)

  full :
      (h : Heap V) (last : Ptr) (a : Cells V) (x : Ptr) (v : V) (m b : Cells V)
      → Circ h last (a ++ (((x, v) ∷ m) ++ b))
      → last ≢ null
  full h last [] x v m b c e = last_ne_null h x v (m ++ b) _ c.ring.links (sym c.at_last ∙ e)
  full h last ((y, w) ∷ a) x v m b c e = last_ne_null h y w _ _ c.ring.links (sym c.at_last ∙ e)

  not_end :
      (h : Heap V) (last : Ptr) (a : Cells V) (x : Ptr) (v : V) (m b : Cells V)
      → Circ h last (a ++ (((x, v) ∷ m) ++ b))
      → x ≢ head_or b null
  not_end h last a x v m [] c e =
      let (_, (n, _, _)) = Links-append h a (((x, v) ∷ m) ++ []) _ c.ring.links in n e
  not_end h last a x v m ((y, w) ∷ b) c e =
      let (_, d, _) = Distinct-append a (((x, v) ∷ m) ++ ((y, w) ∷ b)) c.ring.distinct in
      let (_, _, apart) = Distinct-append ((x, v) ∷ m) ((y, w) ∷ b) d in
      true≢false (
        sym (has_here y w b)
        ∙ ap (λ (k : Ptr). has k ((y, w) ∷ b)) (sym e)
        ∙ apart x (has_here x v m))

  emptied :
      (h g : Heap V) (x : Ptr) (v : V) (m : Cells V) (l : Ptr)
      → l ≡ null
      → Gone ((x, v) ∷ m) h g
      → Erased h [] ((x, v) ∷ m) [] l g
  emptied h g x v m l end gone = (
    record { ring = record { links = tt; distinct = tt }; at_last = end },
    λ k i. gone k ∙ rw i refl,
    λ k i. gone k ∙ rw (sym (ap (has k) (append-nil ((x, v) ∷ m))) ∙ i) refl,
  )

  erase_all :
      (fuel : ℕ) (h : Heap V) (last : Ptr) (a : Cells V) (x : Ptr) (v : V) (m b : Cells V)
      → Circ h last (a ++ (((x, v) ∷ m) ++ b))
      → b ++ a ≡ []
      → length ((x, v) ∷ m) ≤ fuel
      → Returns (Erased h a ((x, v) ∷ m) b) (
          after (stop_node last (head_or b null) h) (λ behind.
            unlink_nodes fuel last (front_of last (last_or a null)) behind true >>= λ out.
            pure out.0))
  unfolding stop_node
  erase_all fuel h last [] x v m [] c e f =
      let r : Ring h ((x, v) ∷ m) =
        subst (λ (t : Cells V). Ring h ((x, v) ∷ t)) (append-nil m) c.ring in
      let at : last ≡ last_or m x = c.at_last ∙ ap (λ (t : Cells V). last_or t x) (append-nil m) in
      let n : next_node (last_or m x) h ≡ ok x h = next_node-front h [] ((x, v) ∷ m) r (λ i. cc) in
      let nl : next_node last h ≡ ok x h = ap (λ (t : Ptr). next_node t h) at ∙ n in
      rw nl (
        Returns.chain (unlink_nodes-all fuel h last last x v m r at f)
          (λ out g (end, gone). returns (emptied h g x v m out.0 end gone)))
  erase_all fuel h last (y ∷ a) x v m [] c e f = cc
  erase_all fuel h last a x v m (y ∷ b) c e f = cc

  -- With at least as much fuel as nodes in the range, erase_after destroys the nodes from behind
  -- the first position to the second one, leaves the list with the others in their order, and
  -- changes no node outside of the list.
  pub erase_range-Circ :
      (fuel : ℕ) (h : Heap V) (last : Ptr) (a m b : Cells V)
      → Circ h last (a ++ (m ++ b))
      → length m ≤ fuel
      → Returns (Erased h a m b) (erase_range fuel last (last_or a null) (head_or b null) h)
  unfolding erase_range
  erase_range-Circ fuel h last a [] b c f = elim (Bool-cases (last == null)) [
    | inl z ↦ rw z (returns (c, λ k i. cc, λ k i. refl))
    | inr z ↦
        rw (z, advance-ok h last a b c, ==_self (head_or b null))
          (returns (c, λ k i. cc, λ k i. refl))
  ]
  erase_range-Circ fuel h last a ((x, v) ∷ m) b c f =
      let M : Cells V = (x, v) ∷ m in
      rw
        (
          ne→== last null (full h last a x v m b c),
          advance-ok h last a (M ++ b) c,
          ne→== x _ (not_end h last a x v m b c),
        )
        (elim (snoc_cases (b ++ a)) [
          | inl e ↦ erase_all fuel h last a x v m b c e f
          | inr (ys, p, u, view) ↦
              rw (behind-ok h last a M b c (λ e. append_cons_ne ys (p, u) [] (sym view ∙ e))) (
                Returns.chain (erase_any fuel h last a x v m b ys p u c view f)
                  (λ out g erased. returns erased))
        ])
