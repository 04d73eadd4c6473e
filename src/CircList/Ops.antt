-- ===== src/CircList/Ops.antt =====
-- include/wrutil/circ_fwd_list.h, the operations of intrusive_circ_fwd_list on a few nodes: iterators,
-- insert_after, unlink_nodes, erase_after, detach_after and splice_after. A loop over nodes has fuel.
use wrutil.Common.{ℕ, zero, suc, Bool, true, false, some, ◌==◌, if◌then◌else◌}
use wrutil.CircList.Heap.{
  Ptr, null, ok, stuck, Cmd, pure, ◌>>=◌, ◌>>◌, next_node, set_next, destroy, write, node,
}

module _ {V : Type 0} where
  -- `operator++`
  unfoldable pub advance : Ptr → Ptr → Cmd V Ptr
  advance last pos =
      if pos == last then pure null else next_node (if pos == null then last else pos)

  -- `first_node`, the position of `begin`
  unfoldable pub first_node : Ptr → Cmd V Ptr
  first_node last = if last == null then pure null else next_node last

  -- `make_node` at the address that the allocator gives; the link of the node is not set yet.
  unfoldable pub make_node : Ptr → V → Cmd V Ptr
  make_node fresh v h = ok fresh (write h fresh (some (node v null)))

  -- `insert_after(pos, node)`; the iterator that it returns is at the node.
  unfoldable pub insert_after : Ptr → Ptr → Ptr → Cmd V Ptr
  insert_after last pos new = if last == null then (do set_next new new; pure new) else (do
    let prev = if pos == null then last else pos
    old_next ← next_node prev
    set_next prev new
    set_next new old_next
    pure (if pos == last then new else last))

  -- The loop of `unlink_nodes`. It gives the new `last_`.
  unfoldable pub unlink_loop : ℕ → Ptr → Ptr → Ptr → Bool → Ptr → Cmd V Ptr
  unlink_loop zero last before stop destroying curr = λ _. stuck
  unlink_loop (suc fuel) last before stop destroying curr = do
    next ← next_node curr
    let last' = if last == curr then before else last
    if destroying then destroy curr else if next == stop then set_next curr null else pure tt
    let rest = unlink_loop fuel last' before stop destroying next
    if next == stop then pure last' else rest

  -- `unlink_nodes`, with the new `last_` and the result.
  unfoldable pub unlink_nodes : ℕ → Ptr → Ptr → Ptr → Bool → Cmd V (Ptr × Ptr)
  unlink_nodes fuel last before stop destroying = do
    next ← next_node before
    if next == stop
        then (do
          last' ← unlink_loop fuel null before stop destroying next
          pure (last', if destroying then null else next))
        else (do
          set_next before stop
          last' ← unlink_loop fuel last before stop destroying next
          pure (last', if destroying then stop else next))

  -- The node at the end of a range; behind the last node that is the first one.
  unfoldable pub stop_node : Ptr → Ptr → Cmd V Ptr
  stop_node last stop = if stop == null then next_node last else pure stop

  -- `erase_after(first, last)`, with the end of the range as `stop`; the iterator that it returns is
  -- at `stop`.
  unfoldable pub erase_range : ℕ → Ptr → Ptr → Ptr → Cmd V Ptr
  erase_range fuel last first stop = if last == null then pure last else (do
    begin ← advance last first
    if begin == stop then pure last else (do
      behind ← stop_node last stop
      out ← unlink_nodes fuel last (if first == null then last else first) behind true
      pure out.0))

  -- `erase_after(pos)`
  unfoldable pub erase_after : ℕ → Ptr → Ptr → Cmd V Ptr
  erase_after fuel last pos = do
    one ← advance last pos
    two ← advance last one
    erase_range fuel last pos two

  -- `detach_after(first, last)`, with the new `last_` and the result.
  unfoldable pub detach_range : ℕ → Ptr → Ptr → Ptr → Cmd V (Ptr × Ptr)
  detach_range fuel last first stop = do
    begin ← advance last first
    if begin == stop then pure (last, null) else (do
      behind ← stop_node last stop
      unlink_nodes fuel last (if first == null then last else first) behind false)

  -- `detach_after(pos)`
  unfoldable pub detach_after : ℕ → Ptr → Ptr → Cmd V (Ptr × Ptr)
  detach_after fuel last pos = do
    one ← advance last pos
    two ← advance last one
    detach_range fuel last pos two

  -- `clear`
  unfoldable pub clear : ℕ → Ptr → Cmd V Ptr
  clear fuel last =
      if last == null
      then pure last
      else (do first ← next_node last; out ← unlink_nodes fuel last last first true; pure out.0)

  -- `splice_after(pos, other)`, with the new `last_`; that of the other list is null afterwards.
  unfoldable pub splice_all : Ptr → Ptr → Ptr → Cmd V Ptr
  splice_all last pos other =
      if other == null then pure last else if last == null then pure other else (do
        let at = if pos == null then last else pos
        first_spliced ← next_node other
        behind ← next_node at
        set_next other behind
        set_next at first_spliced
        pure (if pos == null then last else if pos == last then other else last))

  -- The first half of `splice_after(pos, other, i)`: the node behind `i` leaves the other list, which
  -- gets a new `last_`.
  unfoldable pub take_node : Ptr → Ptr → Cmd V (Ptr × Ptr)
  take_node other i = do
    let i_node = if i == null then other else i
    target ← next_node i_node
    if i_node == target then pure (target, null) else (do
      behind ← next_node target
      set_next i_node behind
      pure (target, if target == other then i_node else other))

  -- The second half: the node goes into this list, which gets a new `last_`.
  unfoldable pub put_node : Ptr → Ptr → Ptr → Cmd V Ptr
  put_node last pos target = if last == null then (do set_next target target; pure target) else (do
    let at = if pos == null then last else pos
    behind ← next_node at
    set_next target behind
    set_next at target
    pure (if pos == null then last else if pos == last then target else last))

  -- `splice_after(pos, other, i)` for two lists, with both new `last_`.
  unfoldable pub splice_one : Ptr → Ptr → Ptr → Ptr → Cmd V (Ptr × Ptr)
  splice_one last pos other i = do
    taken ← take_node other i
    last' ← put_node last pos taken.0
    pure (last', taken.1)

  -- `rotate`
  unfoldable pub rotate : Ptr → Cmd V Ptr
  rotate last = if last == null then pure last else next_node last
