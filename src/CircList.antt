-- ===== src/CircList.antt =====
-- include/wrutil/circ_fwd_list.h, wr::intrusive_circ_fwd_list: nodes in a ring, with a pointer to the
-- last one. A list is that pointer, null for an empty list, and an iterator is its `pos_`, null in
-- front of the first node and behind the last one; the nodes are cells of an explicit heap. A
-- function that changes the list gives the new pointer. The wrapper circ_fwd_list forwards to it.
pub mod Heap
pub mod Returns
pub mod Ops
pub mod Ring
pub mod Cells
pub mod Insert
pub mod Put
pub mod Take
pub mod Loops
pub mod Iterate
pub mod Reverse
pub mod Unlink
pub mod Erase
pub mod Remove
pub mod Splice
pub mod Join
pub mod Merge
pub mod Push
pub mod Overwrite
pub mod Assign
pub mod Resize
pub mod Unique
mod Runs
