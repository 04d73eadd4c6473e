-- ===== src/CircList/Assign.antt =====
-- assign.
use mathlib.Core.Path.{subst}
use wrutil.Common.{
  ℕ, ◌≤◌, ◌==◌, ◌≡◌, refl, sym, ap, ◌∙◌, arith, Bool, true, false, ◌||◌, Bool-cases, ◌⊎◌, inl, inr,
  none, List, [], ◌∷◌, ◌++◌, if◌then◌else◌, append-nil, length,
}
use wrutil.CircList.Heap.{Ptr, null, Heap, Cmd, pure, ◌>>=◌}
use wrutil.CircList.Returns
use wrutil.CircList.Returns.{Returns, returns}
use wrutil.CircList.Ops.{erase_range}
use wrutil.CircList.Loops.{push_each, assign}
use wrutil.CircList.Ring.{Cells, last_or, has, Distinct, Circ, SameOutside, has-append}
use wrutil.CircList.Insert.{true≢false}
use wrutil.CircList.Remove.{at_end, before_end}
use wrutil.CircList.Erase.{Erased, erase_range-Circ}
use wrutil.CircList.Splice.{SameBeyond}
use wrutil.CircList.Push.{NoNull, Fresh, push_each-Circ}
use wrutil.CircList.Overwrite.{paired, left, overwrite-Overwritten}

module _ {V : Type 0} where
  abbrev pub values_of : Cells V → List V
  values_of [] = []
  values_of (x ∷ xs) = x.1 ∷ values_of xs

  paired_values : (xs vs : Cells V) → values_of (paired xs vs ++ left vs xs) ≡ values_of vs
  paired_values [] [] = refl
  paired_values [] (v ∷ vs) = refl
  paired_values (x ∷ xs) [] = refl
  paired_values (x ∷ xs) (v ∷ vs) = ap (λ (t : List V). v.1 ∷ t) (paired_values xs vs)

  has_parts : (k : Ptr) (xs vs : Cells V) → has k (paired xs vs ++ left xs vs) ≡ has k xs
  has_parts k [] vs = refl
  has_parts k (x ∷ xs) [] = refl
  has_parts k (x ∷ xs) (v ∷ vs) = ap (λ (t : Bool). (k == x.0) || t) (has_parts k xs vs)

  pub has-left : (k : Ptr) (vs xs : Cells V) → has k vs ≡ false → has k (left vs xs) ≡ false
  has-left k [] xs i = refl
  has-left k (v ∷ vs) [] i = i
  has-left k (v ∷ vs) (x ∷ xs) i = has-left k vs xs (ground (arith, i))

  Distinct-left : (vs xs : Cells V) → Distinct vs → Distinct (left vs xs)
  Distinct-left [] xs d = tt
  Distinct-left (v ∷ vs) [] d = d
  Distinct-left (v ∷ vs) (x ∷ xs) (out, d) = Distinct-left vs xs d

  NoNull-left : (vs xs : Cells V) → NoNull vs → NoNull (left vs xs)
  NoNull-left [] xs n = tt
  NoNull-left (v ∷ vs) [] n = n
  NoNull-left (v ∷ vs) (x ∷ xs) (out, n) = NoNull-left vs xs n

  pub left_one :
      (xs vs : Cells V)
      → (left xs vs ≡ [])
        ⊎ ((left vs xs ≡ []) × (x : Ptr) × (v : V) × (m : Cells V) × (left xs vs ≡ (x, v) ∷ m))
  left_one [] vs = inl refl
  left_one ((x, v) ∷ xs) [] = inr (refl, x, v, xs, refl)
  left_one (x ∷ xs) (v ∷ vs) = left_one xs vs

  pub length-left : (xs vs : Cells V) → length (left xs vs) ≤ length xs
  length-left [] vs = omega arith
  length-left (x ∷ xs) [] = omega arith
  length-left (x ∷ xs) (v ∷ vs) = omega (arith, length-left xs vs)

  pub Fresh-left :
      (values xs zs : Cells V)
      → Fresh values xs
      → ((k : Ptr) → has k zs ≡ has k xs)
      → Fresh (left values xs) zs
  Fresh-left values xs zs f same = record {
    no_null = NoNull-left values xs f.no_null;
    distinct = Distinct-left values xs f.distinct;
    apart = λ k i. same k ∙ (elim (Bool-cases (has k values)) [
      | inl j ↦ f.apart k j
      | inr j ↦ absurd (true≢false (sym i ∙ has-left k values xs j))
    ]);
  }

  -- What `assign` does behind its first loop.
  after_overwrite : ℕ → Ptr → Ptr × Cells V → Cmd V Ptr
  after_overwrite fuel last out = do
    last' ← if out.0 == last then pure last else erase_range fuel last out.0 null
    push_each last' out.1

  extend :
      (fuel : ℕ) (g : Heap V) (last : Ptr) (done more : Cells V)
      → Circ g last done
      → Fresh more done
      → Returns
          (λ l k. Circ k l (done ++ more) × SameBeyond done more g k)
          (after_overwrite fuel last (last_or done null, more) g)
  unfolding after_overwrite
  extend fuel g last done more c f =
      rw (at_end g last done (subst (Circ g last) (sym (append-nil done)) c))
        (push_each-Circ g last done more c f)

  shorten :
      (fuel : ℕ) (g : Heap V) (last : Ptr) (done : Cells V) (x : Ptr) (v : V) (m : Cells V)
      → Circ g last (done ++ ((x, v) ∷ m))
      → length ((x, v) ∷ m) ≤ fuel
      → Returns
          (Erased g done ((x, v) ∷ m) [])
          (after_overwrite fuel last (last_or done null, []) g)
  unfolding after_overwrite push_each
  shorten fuel g last done x v m c f =
      let c' : Circ g last (done ++ (((x, v) ∷ m) ++ [])) =
        subst (λ (t : Cells V). Circ g last (done ++ t)) (sym (append-nil ((x, v) ∷ m))) c in
      rw (before_end g last done x v m c) (
        Returns.chain (erase_range-Circ fuel g last done ((x, v) ∷ m) [] c' f) (λ l k e. returns e))

  has-paired : (k : Ptr) (xs vs : Cells V) → has k xs ≡ false → has k (paired xs vs) ≡ false
  has-paired k xs vs i =
      let parts : (has k (paired xs vs) || has k (left xs vs)) ≡ false =
        sym (has-append k (paired xs vs) (left xs vs)) ∙ has_parts k xs vs ∙ i in
      ground (arith, parts)

  abbrev pub Assigned : Heap V → Cells V → Cells V → Ptr → Heap V → Type 0
  Assigned h xs values l g =
      Circ g l (paired xs values ++ left values xs)
      × ((k : Ptr) → has k (left xs values) ≡ true → g k ≡ none)
      × SameBeyond xs values h g

  Assigned-more :
      (fuel : ℕ) (h g : Heap V) (last : Ptr) (xs values : Cells V)
      → Circ g last (paired xs values ++ left xs values)
      → SameOutside xs h g
      → Fresh values xs
      → left xs values ≡ []
      → Returns
          (Assigned h xs values)
          (after_overwrite fuel last (last_or (paired xs values) null, left values xs) g)
  Assigned-more fuel h g last xs values c same f e =
      let order : paired xs values ++ left xs values ≡ paired xs values =
        ap (λ (t : Cells V). paired xs values ++ t) e ∙ append-nil (paired xs values) in
      let here = λ (k : Ptr). ap (has k) (sym order) ∙ has_parts k xs values in
      Returns.weaken
        (extend fuel g last (paired xs values) (left values xs) (subst (Circ g last) order c)
          (Fresh-left values xs (paired xs values) f here))
        (λ l k (circ, same'). (
          circ,
          λ t i. absurd (true≢false (sym i ∙ ap (has t) e)),
          λ t i j. same' t (here t ∙ i) (has-left t values xs j) ∙ same t i,
        ))

  Assigned-less :
      (fuel : ℕ) (h g : Heap V) (last : Ptr) (xs values : Cells V) (x : Ptr) (v : V) (m : Cells V)
      → Circ g last (paired xs values ++ left xs values)
      → SameOutside xs h g
      → length xs ≤ fuel
      → left values xs ≡ []
      → left xs values ≡ (x, v) ∷ m
      → Returns
          (Assigned h xs values)
          (after_overwrite fuel last (last_or (paired xs values) null, left values xs) g)
  Assigned-less fuel h g last xs values x v m c same f none_left e =
      let short : length ((x, v) ∷ m) ≤ fuel =
        subst (λ (t : Cells V). length t ≤ fuel) e (omega (arith, length-left xs values)) in
      let shortened =
        shorten fuel g last (paired xs values) x v m
          (subst (λ (t : Cells V). Circ g last (paired xs values ++ t)) e c) short in
      rw none_left (
        Returns.weaken shortened (λ l k (circ, gone, same'). (
          subst (λ (t : Cells V). Circ k l (paired xs values ++ t)) (sym none_left) circ,
          λ t i. gone t (ap (has t) (sym e) ∙ i),
          λ t i j.
              same' t (
                ap (λ (r : Cells V). has t (paired xs values ++ r))
                  (append-nil ((x, v) ∷ m) ∙ sym e)
                ∙ has_parts t xs values
                ∙ i)
              ∙ same t i,
        )))

  -- On addresses that the allocator gives anew, assign writes over the values of the nodes,
  -- destroys the nodes that have no value and appends nodes for the values that are left, so that
  -- the list holds exactly the values.
  pub assign-Circ :
      (fuel : ℕ) (h : Heap V) (last : Ptr) (xs values : Cells V)
      → Circ h last xs
      → Fresh values xs
      → length xs ≤ fuel
      → Returns (Assigned h xs values) (assign fuel last values h)
        × (values_of (paired xs values ++ left values xs) ≡ values_of values)
  unfolding assign after_overwrite
  assign-Circ fuel h last xs values c f e = (
    Returns.chain (overwrite-Overwritten h last [] xs values c) (λ out g (circ, at, rest, same).
        rw (at, rest)
          (elim (left_one xs values) [
            | inl none_left ↦ Assigned-more fuel h g last xs values circ same f none_left
            | inr (none_more, x, v, m, some_left) ↦
                Assigned-less fuel h g last xs values x v m circ same e none_more some_left
          ])),
    paired_values xs values,
  )
