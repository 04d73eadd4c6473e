-- ===== src/CircList/Heap.antt =====
-- The heap under the lists of include/wrutil/circ_fwd_list.h: nodes with a value and a `next` pointer
-- at addresses, and commands over it. A read or a write at an address with no node is a fault.
use wrutil.Common.{ℕ, Option, none, some, ◌==◌, if◌then◌else◌}

abbrev pub Ptr : Type 0
Ptr = ℕ

abbrev pub null : Ptr
null = 0

module _ (V : Type 0) where
  pub record Node : Type 0 where
    pub value : V
    pub next : Ptr

module _ (V : Type 0) where
  abbrev pub Heap : Type 0
  Heap = Ptr → Option (Node V)

module _ (V : Type 0) where
  -- How a command ends: with a result and a heap, at a bad pointer, or out of fuel.
  pub data Run (A : Type 0) : Type 0 where
    ok : A → Heap V → Run A
    fault : Run A
    stuck : Run A

abbrev pub Cmd : Type 0 → Type 0 → Type 0
Cmd V A = Heap V → Run V A

module _ {V : Type 0} where
  abbrev pub node : V → Ptr → Node V
  node v q = record { value = v; next = q }

  abbrev pub pure : {A : Type 0} → A → Cmd V A
  pure a h = ok a h

  abbrev pub after : {A B : Type 0} → Run V A → (A → Cmd V B) → Run V B
  after (ok a h) k = k a h
  after fault k = fault
  after stuck k = stuck

  infixl 5 ◌>>=◌ ◌>>◌
  abbrev pub ◌>>=◌ : {A B : Type 0} → Cmd V A → (A → Cmd V B) → Cmd V B
  m >>= k = λ h. after (m h) k

  abbrev pub ◌>>◌ : {A B : Type 0} → Cmd V A → Cmd V B → Cmd V B
  m >> k = λ h. after (m h) (λ _. k)

  -- The heap with one cell changed.
  unfoldable pub write : Heap V → Ptr → Option (Node V) → Heap V
  write h p c a = if a == p then c else h a

  unfoldable pub load : Ptr → Cmd V (Node V)
  load p h = elim (h p) [ none ↦ fault | some n ↦ ok n h ]

  -- `next_node`
  unfoldable pub next_node : Ptr → Cmd V Ptr
  next_node p h = elim (h p) [ none ↦ fault | some n ↦ ok n.next h ]

  -- `set_next_node`
  unfoldable pub set_next : Ptr → Ptr → Cmd V (Unit {0})
  unfolding write
  set_next p q h = elim (h p) [ none ↦ fault | some n ↦ ok tt (write h p (some (node n.value q))) ]

  -- `*i = value`
  unfoldable pub set_value : Ptr → V → Cmd V (Unit {0})
  unfolding write
  set_value p v h = elim (h p) [ none ↦ fault | some n ↦ ok tt (write h p (some (node v n.next))) ]

  -- `destroy_node`
  unfoldable pub destroy : Ptr → Cmd V (Unit {0})
  unfolding write
  destroy p h = elim (h p) [ none ↦ fault | some n ↦ ok tt (write h p none) ]
