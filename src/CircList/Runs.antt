-- ===== src/CircList/Runs.antt =====
-- The operations of the lists on a heap with two short lists.
use wrutil.Common.{
  ℕ, ◌==◌, ◌≡◌, refl, arith, true, false, none, some, [], ◌∷◌, ◌++◌, if◌then◌else◌, ltb,
}
use wrutil.CircList.Heap.{Ptr, null, Heap, node}
use wrutil.CircList.Returns.{Returns}
use wrutil.CircList.Ops.{splice_one, erase_range}
use wrutil.CircList.Loops.{reverse_list, remove_if, merge, assign}
use wrutil.CircList.Ring.{Cells, Circ, has, SameOutside}
use wrutil.CircList.Erase.{Erased, erase_range-Circ}
use wrutil.CircList.Reverse.{reverse_list-Circ}
use wrutil.CircList.Remove.{remove_if-Circ}
use wrutil.CircList.Splice.{Two, SameBeyond, splice_one-Two}
use wrutil.CircList.Merge.{merge-Circ}
use wrutil.CircList.Push.{Fresh}
use wrutil.CircList.Assign.{values_of, assign-Circ}
use wrutil.CircList.Overwrite.{paired, left}

-- A list of 10, 20, 20 at the addresses 1, 2 and 3, and one of 15 and 40 at 4 and 5.
abbrev heap : Heap ℕ
heap p =
    if p == 1
    then some (node 10 2)
    else if p == 2
    then some (node 20 3)
    else if p == 3
    then some (node 20 1)
    else if p == 4
    then some (node 15 5)
    else if p == 5
    then some (node 40 4)
    else none

abbrev tens : Cells ℕ
tens = (1, 10) ∷ (2, 20) ∷ (3, 20) ∷ []

abbrev others : Cells ℕ
others = (4, 15) ∷ (5, 40) ∷ []

tens-Circ : Circ heap 3 tens
tens-Circ = record {
  ring = record {
    links = (λ e. cc, refl, (λ e. cc, refl, (λ e. cc, refl, tt)));
    distinct = (refl, (refl, (refl, tt)));
  };
  at_last = refl;
}

others-Circ : Circ heap 5 others
others-Circ = record {
  ring = record { links = (λ e. cc, refl, (λ e. cc, refl, tt)); distinct = (refl, (refl, tt)) };
  at_last = refl;
}

both_lists : Two heap 3 5 tens others
both_lists = record { this = tens-Circ; that = others-Circ; apart = λ p i. ground (arith, i) }

-- Two new values, at the addresses 6 and 7.
abbrev news : Cells ℕ
news = (6, 1) ∷ (7, 2) ∷ []

abbrev more_news : Cells ℕ
more_news = (6, 1) ∷ (7, 2) ∷ (8, 3) ∷ []

news-Fresh : Fresh news tens
news-Fresh = record {
  no_null = (λ e. cc, (λ e. cc, tt));
  distinct = (refl, (refl, tt));
  apart = λ p i. ground (arith, i);
}

more_news-Fresh : Fresh more_news others
more_news-Fresh = record {
  no_null = (λ e. cc, (λ e. cc, (λ e. cc, tt)));
  distinct = (refl, (refl, (refl, tt)));
  apart = λ p i. ground (arith, i);
}

erase_range-Circ_example :
    Returns (Erased heap ((1, 10) ∷ []) ((2, 20) ∷ []) ((3, 20) ∷ [])) (erase_range 1 3 1 3 heap)
erase_range-Circ_example =
    erase_range-Circ 1 heap 3 ((1, 10) ∷ []) ((2, 20) ∷ []) ((3, 20) ∷ []) tens-Circ (omega arith)

reverse_list-Circ_example :
    Returns (λ l g. Circ g l ((3, 20) ∷ (2, 20) ∷ (1, 10) ∷ [])) (reverse_list 3 3 heap)
reverse_list-Circ_example = reverse_list-Circ 3 heap 3 tens tens-Circ (omega arith) (omega arith)

abbrev twenties : Cells ℕ
twenties = (2, 20) ∷ (3, 20) ∷ []

remove_if-Circ_example :
    Returns
      (λ l g.
        Circ g l ((1, 10) ∷ [])
        × ((k : Ptr) → has k twenties ≡ true → g k ≡ none)
        × SameOutside tens heap g)
      (remove_if (λ v. v == 20) 4 3 heap)
remove_if-Circ_example = remove_if-Circ (λ v. v == 20) 4 heap 3 tens tens-Circ (omega arith)

splice_one-Two_example :
    Returns
      (λ out g.
        Two g out.0 out.1 ((1, 10) ∷ (4, 15) ∷ (2, 20) ∷ (3, 20) ∷ []) ((5, 40) ∷ [])
        × SameBeyond tens others heap g)
      (splice_one 3 1 5 null heap)
splice_one-Two_example =
    splice_one-Two heap 3 5 ((1, 10) ∷ []) ((2, 20) ∷ (3, 20) ∷ []) [] 4 15 ((5, 40) ∷ [])
      both_lists

merge-Circ_example :
    Returns
      (λ out g.
        Circ g out.0 ((1, 10) ∷ (4, 15) ∷ (2, 20) ∷ (3, 20) ∷ (5, 40) ∷ [])
        × (out.1 ≡ null)
        × SameBeyond tens others heap g)
      (merge ltb 6 3 5 heap)
merge-Circ_example = merge-Circ ltb 6 heap 3 5 tens others both_lists (omega arith)

assign-Circ_example :
    Returns
      (λ l g.
        Circ g l ((4, 1) ∷ (5, 2) ∷ (8, 3) ∷ [])
        × ((k : Ptr) → false ≡ true → g k ≡ none)
        × SameBeyond others more_news heap g)
      (assign 2 5 more_news heap)
    × (values_of (paired others more_news ++ left more_news others) ≡ 1 ∷ 2 ∷ 3 ∷ [])
assign-Circ_example =
    assign-Circ 2 heap 5 others more_news others-Circ more_news-Fresh (omega arith)
