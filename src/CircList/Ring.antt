-- ===== src/CircList/Ring.antt =====
-- What a ring of nodes stands for: the addresses and the values of the nodes, from the first to the
-- last. `Links` says that each node leads to the one behind it, and the last one to a given address.
use mathlib.Core.Bool.{or_assoc}
use wrutil.Common.{
  ◌==◌, ◌≡◌, ◌≢◌, refl, ◌∙◌, arith, Bool, true, false, ◌||◌, Bool-cases, inl, inr, some, List, [],
  ◌∷◌, ◌++◌, append-nil,
}
use wrutil.CircList.Heap.{Ptr, null, Heap, node}

module _ (V : Type 0) where
  abbrev pub Cells : Type 0
  Cells = List (Ptr × V)

module _ {V : Type 0} where
  -- The first address, or `q` where there is none; the last address in the same way.
  abbrev pub head_or : Cells V → Ptr → Ptr
  head_or [] q = q
  head_or ((x, v) ∷ xs) q = x

  abbrev pub last_or : Cells V → Ptr → Ptr
  last_or [] q = q
  last_or ((x, v) ∷ xs) q = last_or xs x

  abbrev pub has : Ptr → Cells V → Bool
  has a [] = false
  has a ((x, v) ∷ xs) = (a == x) || has a xs

  abbrev pub Distinct : Cells V → Type 0
  Distinct [] = Unit
  Distinct ((x, v) ∷ xs) = (has x xs ≡ false) × Distinct xs

  abbrev pub Links : Heap V → Cells V → Ptr → Type 0
  Links h [] q = Unit
  Links h ((x, v) ∷ xs) q = (x ≢ null) × (h x ≡ some (node v (head_or xs q))) × Links h xs q

  -- The cells in a ring.
  pub record Ring (h : Heap V) (xs : Cells V) : Type 0 where
    pub links : Links h xs (head_or xs null)
    pub distinct : Distinct xs

  -- What a list stands for.
  pub record Circ (h : Heap V) (last : Ptr) (xs : Cells V) : Type 0 where
    pub ring : Ring h xs
    pub at_last : last ≡ last_or xs null

  -- The two heaps agree at all addresses but those of the cells.
  abbrev pub SameOutside : Cells V → Heap V → Heap V → Type 0
  SameOutside xs h g = (a : Ptr) → has a xs ≡ false → g a ≡ h a

  pub head_or-append : (a b : Cells V) (q : Ptr) → head_or (a ++ b) q ≡ head_or a (head_or b q)
  head_or-append [] b q = refl
  head_or-append (x ∷ a) b q = refl

  pub last_or-append : (a b : Cells V) (q : Ptr) → last_or (a ++ b) q ≡ last_or b (last_or a q)
  last_or-append [] b q = refl
  last_or-append ((x, v) ∷ a) b q = last_or-append a b x

  pub has-append : (p : Ptr) (a b : Cells V) → has p (a ++ b) ≡ (has p a || has p b)
  has-append p [] b = refl
  has-append p ((x, v) ∷ a) b = rw (has-append p a b, or_assoc)

  pub Links-append :
      (h : Heap V) (a b : Cells V) (q : Ptr)
      → Links h (a ++ b) q
      → Links h a (head_or b q) × Links h b q
  Links-append h [] b q l = (tt, l)
  Links-append h ((x, v) ∷ a) b q (n, e, l) =
      let (front, back) = Links-append h a b q l in
      ((n, rw (head_or-append a b q) at e, front), back)

  pub append-Links :
      (h : Heap V) (a b : Cells V) (q : Ptr)
      → Links h a (head_or b q)
      → Links h b q
      → Links h (a ++ b) q
  append-Links h [] b q front l = l
  append-Links h ((x, v) ∷ a) b q (n, e, front) l =
      (n, rw (head_or-append a b q) e, append-Links h a b q front l)

  -- Links survive a change that spares their addresses.
  pub frame :
      (h g : Heap V) (xs : Cells V) (q : Ptr)
      → Links h xs q
      → ((a : Ptr) → has a xs ≡ true → g a ≡ h a)
      → Links g xs q
  frame h g [] q l same = tt
  frame h g ((x, v) ∷ xs) q (n, e, l) same =
      (n, same x (ground arith) ∙ e, frame h g xs q l (λ a m. same a (ground arith)))

  -- No address of the one stands in the other.
  abbrev pub Apart : Cells V → Cells V → Type 0
  Apart a b = (p : Ptr) → has p a ≡ true → has p b ≡ false

  pub Distinct-append : (a b : Cells V) → Distinct (a ++ b) → Distinct a × Distinct b × Apart a b
  Distinct-append [] b d = (tt, d, λ p m. cc)
  Distinct-append ((x, v) ∷ a) b (o, d) =
      let (da, db, apart) = Distinct-append a b d in
      let o' : (has x a || has x b) ≡ false = rw (has-append x a b) at o in
      ((ground arith, da), db, λ p m. ground (arith, apart p))

  pub append-Distinct : (a b : Cells V) → Distinct a → Distinct b → Apart a b → Distinct (a ++ b)
  append-Distinct [] b da db apart = db
  append-Distinct ((x, v) ∷ a) b (o, da) db apart = (
    rw (has-append x a b, o) (apart x (ground arith)),
    append-Distinct a b da db (λ p m. apart p (ground arith)),
  )

  pub Apart-sym : (a b : Cells V) → Apart a b → Apart b a
  Apart-sym a b apart p m = elim (Bool-cases (has p a)) [
    | inl i ↦ absurd (ground (arith, apart p i))
    | inr o ↦ o
  ]

  turn-Links :
      (h : Heap V) (a b : Cells V)
      → Links h (a ++ b) (head_or (a ++ b) null)
      → Links h (b ++ a) (head_or (b ++ a) null)
  turn-Links h [] b l = rw (append-nil b) l
  turn-Links h (x ∷ a) [] l = rw (append-nil a) at l
  turn-Links h ((x, v) ∷ a) ((y, w) ∷ b) l =
      let (front, back) = Links-append h ((x, v) ∷ a) ((y, w) ∷ b) x l in
      append-Links h ((y, w) ∷ b) ((x, v) ∷ a) y back front

  -- A ring may be read from any of its nodes.
  pub turn : (h : Heap V) (a b : Cells V) → Ring h (a ++ b) → Ring h (b ++ a)
  turn h a b r = record {
    links = turn-Links h a b r.links;
    distinct =
        let (da, db, apart) = Distinct-append a b r.distinct in
        append-Distinct b a db da (Apart-sym a b apart);
  }
