-- ===== src/CircList/Push.antt =====
-- insert_after of a range, and emplace_back for each value.
use mathlib.Core.Path.{subst}
use wrutil.Common.{
  ◌==◌, ◌≡◌, ◌≢◌, refl, sym, ap, ◌∙◌, arith, true, false, ◌||◌, Bool-cases, inl, inr, some, [], ◌∷◌,
  ◌++◌, ne→==, append-nil, append_assoc,
}
use wrutil.CircList.Heap.{Ptr, null, Heap, node, write}
use wrutil.CircList.Returns
use wrutil.CircList.Returns.{Returns, returns}
use wrutil.CircList.Ops.{make_node, insert_after}
use wrutil.CircList.Loops.{insert_each, push_each}
use wrutil.CircList.Ring.{Cells, last_or, has, Distinct, Circ, Apart, SameOutside, has-append}
use wrutil.CircList.Cells.{has_here, last_or-snoc, write_same, write_other}
use wrutil.CircList.Insert.{true≢false, insert_after-Circ}
use wrutil.CircList.Splice.{SameBeyond, circ_frame, has_middle}

module _ {V : Type 0} where
  -- What the allocator promises of the addresses that it gives: none is null, no two are the same,
  -- and none is in the list.
  abbrev pub NoNull : Cells V → Type 0
  NoNull [] = Unit
  NoNull ((x, v) ∷ xs) = (x ≢ null) × NoNull xs

  pub record Fresh (values xs : Cells V) : Type 0 where
    pub no_null : NoNull values
    pub distinct : Distinct values
    pub apart : Apart values xs

  -- One node made and put behind a position.
  pub made-Circ :
      (h : Heap V) (last new : Ptr) (w : V) (a b : Cells V)
      → Circ h last (a ++ b)
      → new ≢ null
      → has new (a ++ b) ≡ false
      → Returns
          (λ l g. Circ g l (a ++ ((new, w) ∷ b)) × SameOutside ((new, w) ∷ (a ++ b)) h g)
          (insert_after last (last_or a null) new (write h new (some (node w null))))
  made-Circ h last new w a b c n out =
      let g = write h new (some (node w null)) in
      Returns.weaken
        (insert_after-Circ g last new w null a b
          (circ_frame h g last (a ++ b) c (λ k i.
            write_other h new k (some (node w null))
              (λ e. true≢false (sym i ∙ ap (λ (t : Ptr). has t (a ++ b)) e ∙ out))))
          (write_same h new (some (node w null))) n out)
        (λ l k (circ, same). (
          circ,
          λ t i.
              same t i
              ∙ write_other h new t (some (node w null)) (λ e. true≢false (
                  sym (has_here new w (a ++ b))
                  ∙ ap (λ (q : Ptr). has q ((new, w) ∷ (a ++ b))) (sym e)
                  ∙ i)),
        ))

  Fresh-step :
      (x : Ptr) (v : V) (values a b : Cells V)
      → Fresh ((x, v) ∷ values) (a ++ b)
      → Fresh values ((a ++ ((x, v) ∷ [])) ++ b)
  Fresh-step x v values a b f = record {
    no_null = f.no_null.1;
    distinct = f.distinct.1;
    apart = λ k i.
        let behind : has k ((a ++ ((x, v) ∷ [])) ++ b) ≡ ((k == x) || has k (a ++ b)) =
          ap (has k) (append_assoc a ((x, v) ∷ []) b) ∙ has_middle k a x v b in
        behind
        ∙ rw
            (
              ne→== k x (λ e. true≢false (sym i ∙ ap (λ (q : Ptr). has q values) e ∙ f.distinct.0)),
              f.apart k (later k x v values i),
            )
            refl;
  }
    where
      later :
          (k x : Ptr) (v : V) (values : Cells V)
          → has k values ≡ true
          → has k ((x, v) ∷ values) ≡ true
      later k x v values i = elim (Bool-cases (k == x)) [
        | inl e ↦ rw e refl
        | inr e ↦ rw (e, i) refl
      ]

  abbrev pub Inserted : Heap V → Cells V → Cells V → Cells V → Ptr × Ptr → Heap V → Type 0
  Inserted h a values b out g =
      Circ g out.0 (a ++ (values ++ b))
      × (out.1 ≡ last_or (a ++ values) null)
      × SameBeyond (a ++ b) values h g

  Inserted-step :
      (h g k : Heap V) (a : Cells V) (x : Ptr) (v : V) (values b : Cells V) (out : Ptr × Ptr)
      → SameOutside ((x, v) ∷ (a ++ b)) h g
      → Inserted g (a ++ ((x, v) ∷ [])) values b out k
      → Inserted h a ((x, v) ∷ values) b out k
  Inserted-step h g k a x v values b out same (circ, at, same') = (
    subst (Circ k out.0) (append_assoc a ((x, v) ∷ []) (values ++ b)) circ,
    at ∙ ap (λ (t : Cells V). last_or t null) (append_assoc a ((x, v) ∷ []) values),
    λ t i j.
        same' t
          (ap (has t) (append_assoc a ((x, v) ∷ []) b)
            ∙ has_middle t a x v b
            ∙ ground (arith, i, j))
          (ground (arith, j))
        ∙ same t (ground (arith, i, j)),
  )

  -- On addresses that the allocator gives anew, insert_after of a range puts a node for each value
  -- behind a position, in their order, and returns the position of the last one.
  insert_each-Circ :
      (h : Heap V) (last : Ptr) (a b values : Cells V)
      → Circ h last (a ++ b)
      → Fresh values (a ++ b)
      → Returns (Inserted h a values b) (insert_each last (last_or a null) values h)
  unfolding insert_each make_node
  insert_each-Circ h last a b [] c f =
      returns (c, ap (λ (t : Cells V). last_or t null) (sym (append-nil a)), λ k i j. refl)
  insert_each-Circ h last a b ((x, v) ∷ values) c f =
      Returns.chain (made-Circ h last x v a b c f.no_null.0 (f.apart x (has_here x v values)))
        (λ l g (circ, same).
          Returns.weaken
            (subst
              (λ (t : Ptr).
                Returns (Inserted g (a ++ ((x, v) ∷ [])) values b) (insert_each l t values g))
              (last_or-snoc a x null v)
              (insert_each-Circ g l (a ++ ((x, v) ∷ [])) b values
                (subst (Circ g l) (sym (append_assoc a ((x, v) ∷ []) b)) circ)
                (Fresh-step x v values a b f)))
            (λ out k more. Inserted-step h g k a x v values b out same more))

  pub push_each-Circ :
      (h : Heap V) (last : Ptr) (xs values : Cells V)
      → Circ h last xs
      → Fresh values xs
      → Returns
          (λ l g. Circ g l (xs ++ values) × SameBeyond xs values h g)
          (push_each last values h)
  unfolding push_each make_node
  push_each-Circ h last xs [] c f =
      returns (subst (Circ h last) (sym (append-nil xs)) c, λ k i j. refl)
  push_each-Circ h last xs ((x, v) ∷ values) c f =
      let c' : Circ h last (xs ++ []) = subst (Circ h last) (sym (append-nil xs)) c in
      let f' : Fresh ((x, v) ∷ values) (xs ++ []) =
        subst (Fresh ((x, v) ∷ values)) (sym (append-nil xs)) f in
      let made =
        subst
          (λ (t : Ptr).
            Returns (λ l g. Circ g l (xs ++ ((x, v) ∷ [])) × SameOutside ((x, v) ∷ (xs ++ [])) h g)
              (insert_after last t x (write h x (some (node v null)))))
          (sym c.at_last)
          (made-Circ h last x v xs [] c' f.no_null.0 (f'.apart x (has_here x v values))) in
      Returns.chain made (λ l g (circ, same).
        Returns.weaken
          (push_each-Circ g l (xs ++ ((x, v) ∷ [])) values circ (
            subst (Fresh values) (append-nil (xs ++ ((x, v) ∷ [])))
              (Fresh-step x v values xs [] f')))
          (λ l' k (circ', same'). (
            subst (Circ k l') (append_assoc xs ((x, v) ∷ []) values) circ',
            λ t i j.
                same' t (has-append t xs ((x, v) ∷ []) ∙ ground (arith, i, j)) (ground (arith, j))
                ∙ same t (rw (append-nil xs) (ground (arith, i, j))),
          )))
