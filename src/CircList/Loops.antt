-- ===== src/CircList/Loops.antt =====
-- include/wrutil/circ_fwd_list.h, the operations of intrusive_circ_fwd_list that walk through a list.
-- A walk has fuel; a list of values stands for a range of an input iterator, with the addresses that
-- the allocator gives for the nodes.
use wrutil.Common.{ℕ, zero, suc, Bool, false, not, ◌&&◌, List, [], ◌∷◌, ◌==◌, if◌then◌else◌}
use wrutil.CircList.Heap.{Ptr, null, stuck, Cmd, pure, ◌>>=◌, ◌>>◌, load, set_value}
use wrutil.CircList.Ops.{
  advance, first_node, make_node, insert_after, erase_range, erase_after, splice_all, splice_one,
  take_node, put_node,
}

module _ {V : Type 0} where
  -- `std::distance(pos, end())`
  unfoldable pub distance : ℕ → Ptr → Ptr → Cmd V ℕ
  distance zero last pos = λ _. stuck
  distance (suc fuel) last pos =
      let rest = (do next ← advance last pos; count ← distance fuel last next; pure (suc count)) in
      if pos == null then pure 0 else rest

  -- `size`
  unfoldable pub size : ℕ → Ptr → Cmd V ℕ
  size fuel last = do first ← first_node last; distance fuel last first

  -- The loop of `reverse`. Both lists of its `splice_after` are this one.
  unfoldable pub reverse_loop : ℕ → Ptr → Ptr → Cmd V Ptr
  reverse_loop zero last dest = λ _. stuck
  reverse_loop (suc fuel) last dest = do
    first ← first_node last
    let rest = (do
      taken ← take_node last null
      last' ← put_node taken.1 dest taken.0
      reverse_loop fuel last' dest)
    if dest == first then pure last else rest

  -- `reverse`
  unfoldable pub reverse_list : ℕ → Ptr → Cmd V Ptr
  reverse_list fuel last = reverse_loop fuel last last

  -- `remove_if` from a position on
  unfoldable pub remove_loop : (V → Bool) → ℕ → Ptr → Ptr → Cmd V Ptr
  remove_loop p zero last pos = λ _. stuck
  remove_loop p (suc fuel) last pos =
      let rest = (do
        next ← advance last pos
        n ← load next
        let erased = (do last' ← erase_after fuel last pos; remove_loop p fuel last' pos)
        let kept = (do pos' ← advance last pos; remove_loop p fuel last pos')
        if p n.value then erased else kept) in
      if pos == last then pure last else rest

  -- `remove_if`
  unfoldable pub remove_if : (V → Bool) → ℕ → Ptr → Cmd V Ptr
  remove_if p fuel last = remove_loop p fuel last null

  -- `unique` from a position on
  unfoldable pub unique_loop : (V → V → Bool) → ℕ → Ptr → Ptr → Cmd V Ptr
  unique_loop same zero last pos = λ _. stuck
  unique_loop same (suc fuel) last pos =
      let rest = (do
        here ← load pos
        next ← advance last pos
        there ← load next
        let erased = (do last' ← erase_after fuel last pos; unique_loop same fuel last' pos)
        let kept = (do pos' ← advance last pos; unique_loop same fuel last pos')
        if same here.value there.value then erased else kept) in
      if pos == last then pure last else rest

  -- `unique`
  unfoldable pub unique : (V → V → Bool) → ℕ → Ptr → Cmd V Ptr
  unique same fuel last = do first ← first_node last; unique_loop same fuel last first

  -- The loop of `merge`, with both `last_` and the position.
  unfoldable pub merge_loop : (V → V → Bool) → ℕ → Ptr → Ptr → Ptr → Cmd V (Ptr × Ptr)
  merge_loop less zero last other pos = λ _. stuck
  merge_loop less (suc fuel) last other pos =
      let append = (do last' ← splice_all last pos other; merge_loop less fuel last' null pos) in
      let choose = (do
        first ← first_node other
        new ← load first
        next ← advance last pos
        old ← load next
        let spliced = (do
          out ← splice_one last pos other null
          pos' ← advance out.0 pos
          merge_loop less fuel out.0 out.1 pos')
        let skipped = (do pos' ← advance last pos; merge_loop less fuel last other pos')
        if less new.value old.value then spliced else skipped) in
      if other == null then pure (last, other) else if pos == last then append else choose

  -- `merge` of another list into this one
  unfoldable pub merge : (V → V → Bool) → ℕ → Ptr → Ptr → Cmd V (Ptr × Ptr)
  merge less fuel last other = merge_loop less fuel last other null

  -- `insert_after(pos, first, last)`, with the new `last_` and the iterator behind the last insertion.
  unfoldable pub insert_each : Ptr → Ptr → List (Ptr × V) → Cmd V (Ptr × Ptr)
  insert_each last pos [] = pure (last, pos)
  insert_each last pos ((fresh, v) ∷ values) = do
    new ← make_node fresh v
    last' ← insert_after last pos new
    insert_each last' new values

  -- `emplace_back` for each value
  unfoldable pub push_each : Ptr → List (Ptr × V) → Cmd V Ptr
  push_each last [] = pure last
  push_each last ((fresh, v) ∷ values) = do
    new ← make_node fresh v
    last' ← insert_after last last new
    push_each last' values

  -- The loop of `assign` that writes over values; it gives the position and the values that are left.
  unfoldable pub overwrite : Ptr → Ptr → List (Ptr × V) → Cmd V (Ptr × List (Ptr × V))
  overwrite last pos [] = pure (pos, [])
  overwrite last pos ((fresh, v) ∷ values) =
      let rest = (do next ← advance last pos; set_value next v; overwrite last next values) in
      if pos == last then pure (pos, (fresh, v) ∷ values) else rest

  -- `assign(first, last)`
  unfoldable pub assign : ℕ → Ptr → List (Ptr × V) → Cmd V Ptr
  assign fuel last values = do
    out ← overwrite last null values
    last' ← if out.0 == last then pure last else erase_range fuel last out.0 null
    push_each last' out.1

  -- The loop of `resize` that counts nodes; `values` are those to add.
  unfoldable pub skip_each : Ptr → Ptr → List (Ptr × V) → Cmd V (Ptr × List (Ptr × V))
  skip_each last pos [] = pure (pos, [])
  skip_each last pos ((fresh, v) ∷ values) =
      let rest = (do next ← advance last pos; skip_each last next values) in
      if pos == last then pure (pos, (fresh, v) ∷ values) else rest

  -- `resize(count, value)`, where `values` is `count` times the value
  unfoldable pub resize : ℕ → Ptr → List (Ptr × V) → Cmd V Ptr
  resize fuel last values = do
    out ← skip_each last null values
    if out.0 == last then push_each last out.1 else erase_range fuel last out.0 null

  -- `operator==`, for two positions
  unfoldable pub equal_loop : (V → V → Bool) → ℕ → Ptr → Ptr → Ptr → Ptr → Cmd V Bool
  equal_loop same zero a b i j = λ _. stuck
  equal_loop same (suc fuel) a b i j =
      let rest = (do
        x ← load i
        y ← load j
        let more = (do i' ← advance a i; j' ← advance b j; equal_loop same fuel a b i' j')
        if same x.value y.value then more else pure false) in
      if not (i == null) && not (j == null) then rest else pure (i == null && j == null)
