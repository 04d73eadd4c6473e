-- ===== src/CircList/Returns.antt =====
-- Total correctness of a command: it ends with no fault, and its result and heap have a property.
use wrutil.CircList.Heap.{Heap, Run, ok, Cmd, after}

module _ {V : Type 0} where
  pub data Returns {A : Type 0} (P : A → Heap V → Type 0) : Run V A → Type 0 where
    returns : {a : A} {h : Heap V} → P a h → Returns P (ok a h)

  module _ {A : Type 0} {P : A → Heap V → Type 0} where
    pub chain :
        {B : Type 0} {Q : B → Heap V → Type 0} {r : Run V A} {k : A → Cmd V B}
        → Returns P r
        → ((a : A) (h : Heap V) → P a h → Returns Q (k a h))
        → Returns Q (after r k)
    chain (returns p) go = go _ _ p

    pub weaken :
        {Q : A → Heap V → Type 0} {r : Run V A}
        → Returns P r
        → ((a : A) (h : Heap V) → P a h → Q a h)
        → Returns Q r
    weaken (returns p) go = returns (go _ _ p)
