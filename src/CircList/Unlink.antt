-- ===== src/CircList/Unlink.antt =====
-- The loop of unlink_nodes that destroys nodes, and unlink_nodes on the ring behind a node.
use mathlib.Core.Path.{subst}
use wrutil.Common.{
  ℕ, zero, suc, ◌≤◌, ◌==◌, ◌≡◌, ◌≢◌, refl, sym, ap, ◌∙◌, arith, Bool, true, false, ◌||◌, Bool-cases,
  inl, inr, none, some, [], ◌∷◌, ◌++◌, if◌then◌else◌, ne→==, ==_self, append_assoc, length,
}
use wrutil.CircList.Heap.{Ptr, null, Heap, write, node, ok, next_node}
use wrutil.CircList.Returns
use wrutil.CircList.Returns.{Returns, returns}
use wrutil.CircList.Ops.{unlink_loop, unlink_nodes}
use wrutil.CircList.Ring.{
  Cells, head_or, last_or, has, Links, Distinct, Ring, frame, Apart-sym, Distinct-append,
  Links-append,
}
use wrutil.CircList.Insert.{true≢false}
use wrutil.CircList.Iterate.{next_node-front}
use wrutil.CircList.Cells.{
  next_node-ok, set_next-ok, destroy-ok, write_same, write_other, relink, Links-last, has-snoc,
  has_head, head_any, has_here,
}

or_nothing :
    (last before x : Ptr)
    → (if last == x then before else last) ≡ (if (last == x) || false then before else last)
or_nothing last before x = elim (Bool-cases (last == x)) [ inl e ↦ rw e refl | inr e ↦ rw e refl ]

-- Once `last` is `before`, it stays so.
last_step :
    (last before x : Ptr) (later : Ptr → Bool)
    → (if later (if last == x then before else last)
        then before
        else if last == x
        then before
        else last)
      ≡ (if (last == x) || later last then before else last)
last_step last before x later = elim (Bool-cases (last == x)) [
  | inl e ↦ rw e (elim (Bool-cases (later before)) [ inl i ↦ rw i refl | inr i ↦ rw i refl ])
  | inr e ↦ rw e refl
]

module _ {V : Type 0} where
  -- The nodes of the cells are gone, and nothing else has changed.
  abbrev pub Gone : Cells V → Heap V → Heap V → Type 0
  Gone m h g = (k : Ptr) → g k ≡ (if has k m then none else h k)

  Gone-one : (h : Heap V) (x : Ptr) (v : V) → Gone ((x, v) ∷ []) h (write h x none)
  unfolding write
  Gone-one h x v k = elim (Bool-cases (k == x)) [ inl e ↦ rw e refl | inr e ↦ rw e refl ]

  Gone-more :
      (h g : Heap V) (x : Ptr) (v : V) (m : Cells V)
      → Gone m (write h x none) g
      → Gone ((x, v) ∷ m) h g
  unfolding write
  Gone-more h g x v m gone k = gone k ∙ elim (Bool-cases (k == x)) [
    | inl e ↦ rw e (elim (Bool-cases (has k m)) [ inl i ↦ rw i refl | inr i ↦ rw i refl ])
    | inr e ↦ rw e refl
  ]

  no_null : (h : Heap V) (xs : Cells V) (q : Ptr) → Links h xs q → has null xs ≡ false
  no_null h [] q l = refl
  no_null h ((x, v) ∷ xs) q (n, _, l) = rw (ne→== null x (λ e. n (sym e)), no_null h xs q l) refl

  -- The loop destroys the nodes up to `stop`; `last_` goes back to `before` if it is one of them.
  pub unlink_loop-Gone :
      (fuel : ℕ) (h : Heap V) (last before stop x : Ptr) (v : V) (m : Cells V)
      → Links h ((x, v) ∷ m) stop
      → Distinct ((x, v) ∷ m)
      → has stop m ≡ false
      → length ((x, v) ∷ m) ≤ fuel
      → Returns
          (λ l g. (l ≡ (if has last ((x, v) ∷ m) then before else last)) × Gone ((x, v) ∷ m) h g)
          (unlink_loop fuel last before stop true x h)
  unfolding unlink_loop
  unlink_loop-Gone zero h last before stop x v m l d out f = absurd (omega arith)
  unlink_loop-Gone (suc fuel) h last before stop x v [] (n, e, l) d out f =
      rw (next_node-ok h x stop v e, destroy-ok h x _ e, ==_self stop)
        (returns (or_nothing last before x, Gone-one h x v))
  unlink_loop-Gone (suc fuel) h last before stop x v ((y, u) ∷ m) (n, e, l) (o, d) out f =
      let g = write h x none in
      rw (next_node-ok h x y v e, destroy-ok h x _ e, ne→== y stop (λ i. ground (arith, out, i)))
        (Returns.weaken
          (unlink_loop-Gone fuel g (if last == x then before else last) before stop y u m
            (frame h g ((y, u) ∷ m) stop l
              (λ k i. write_other h x k none (λ same. ground (arith, i, same, o))))
            d (ground (arith, out)) (omega arith))
          (λ l' k (at, gone). (
            at ∙ last_step last before x (λ t. has t ((y, u) ∷ m)),
            Gone-more h k x v ((y, u) ∷ m) gone,
          )))

  -- unlink_nodes on a whole ring, seen from its last node: nothing is left.
  pub unlink_nodes-all :
      (fuel : ℕ) (h : Heap V) (last before x : Ptr) (v : V) (m : Cells V)
      → Ring h ((x, v) ∷ m)
      → before ≡ last_or m x
      → length ((x, v) ∷ m) ≤ fuel
      → Returns
          (λ out g. (out.0 ≡ null) × Gone ((x, v) ∷ m) h g)
          (unlink_nodes fuel last before x true h)
  unfolding unlink_nodes
  unlink_nodes-all fuel h last before x v m r e f =
      let none_null : has null ((x, v) ∷ m) ≡ false = no_null h ((x, v) ∷ m) x r.links in
      let nf : next_node (last_or m x) h ≡ ok x h = next_node-front h [] ((x, v) ∷ m) r (λ i. cc) in
      rw (e, nf, ==_self x)
        (Returns.chain
          (unlink_loop-Gone fuel h null (last_or m x) x x v m r.links r.distinct r.distinct.0 f)
          (λ l g (at, gone). returns (at ∙ rw none_null refl, gone)))

  -- unlink_nodes on the nodes of `M` in front of others: these others are left in a ring.
  pub unlink_nodes-some :
      (fuel : ℕ) (h : Heap V) (last x : Ptr) (v : V) (m ys : Cells V) (p : Ptr) (u : V)
      → Ring h (((x, v) ∷ m) ++ (ys ++ ((p, u) ∷ [])))
      → length ((x, v) ∷ m) ≤ fuel
      → Returns
          (λ out g.
            (out.0 ≡ (if has last ((x, v) ∷ m) then p else last))
            × Ring g (ys ++ ((p, u) ∷ []))
            × ((k : Ptr) → has k ((x, v) ∷ m) ≡ true → g k ≡ none)
            × ((k : Ptr) → has k ((x, v) ∷ m) ≡ false → k ≢ p → g k ≡ h k))
          (unlink_nodes fuel last p (head_or (ys ++ ((p, u) ∷ [])) null) true h)
  unfolding unlink_nodes
  unlink_nodes-some fuel h last x v m ys p u r f =
      let M : Cells V = (x, v) ∷ m in
      let cs : Cells V = ys ++ ((p, u) ∷ []) in
      let y = head_or cs null in
      let h1 = write h p (some (node u y)) in
      let (dm, dc, apart) = Distinct-append M cs r.distinct in
      let (front, back) = Links-append h M cs x r.links in
      let (hp, _) =
        Links-last h (M ++ ys) p u x
          (subst (λ (t : Cells V). Links h t x) (sym (append_assoc M ys ((p, u) ∷ []))) r.links) in
      let off : (k : Ptr) → has k M ≡ true → k ≢ p = λ k i e.
        true≢false (sym (has-snoc ys p u) ∙ ap (λ (t : Ptr). has t cs) (sym e) ∙ apart k i) in
      let outside : (k : Ptr) → has k cs ≡ true → has k M ≡ false = Apart-sym M cs apart in
      let not_head : (has y M) ≡ false = outside y (has_head ys p u) in
      let x_ne_y : x ≢ y =
        λ e. true≢false (sym (has_here x v m) ∙ ap (λ (t : Ptr). has t M) e ∙ not_head) in
      rw (next_node-ok h p x u hp, ne→== x y x_ne_y, set_next-ok h p x y u hp)
        (Returns.chain
          (unlink_loop-Gone fuel h1 last p y x v m
            (frame h h1 M y (subst (Links h M) (head_any ys p u x) front)
              (λ k i. write_other h p k (some (node u y)) (off k i)))
            dm (ground (arith, not_head)) f)
          (λ l g (at, gone). returns (
            at,
            record {
              links =
                  frame h1 g cs y
                    (relink h h1 ys p u x y back dc (write_same h p (some (node u y)))
                      (λ k i n. write_other h p k (some (node u y)) n))
                    (λ k i. gone k ∙ rw (outside k i) refl);
              distinct = dc;
            },
            λ k i. gone k ∙ rw i refl,
            λ k i n. gone k ∙ rw i (write_other h p k (some (node u y)) n),
          )))
