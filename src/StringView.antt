-- ===== src/StringView.antt =====
-- include/wrutil/string_view.h, wr::basic_string_view: a view is the list of the units that it
-- covers, and `remove_prefix` and the like return the new view. A position is a size_t, with
-- `npos` for none; `size() - 1` and the like wrap at 2 ^ 64. A call with a position behind the end
-- has no defined behaviour in the code, which forms a pointer outside of the text, unless it is
-- one of those that throw: these return `none`.
pub mod Find
pub mod Trim
pub mod Split
pub mod Compare
mod Runs
use Prim.Native.Nat.{compare, Ordering}
use mathlib.Core.List.{reverse}
use wrutil.Common.{
  ℕ, zero, suc, ◌+◌, ◌-◌, ◌*◌, ◌%◌, ◌^◌, ◌≤◌, ◌<◌, min, ltb, leb, ◌==◌, if◌then◌else◌, Bool, true,
  false, not, ◌&&◌, Option, none, some, List, [], ◌∷◌, ◌++◌, map, length, take, drop, get_or, codes,
}
use wrutil.Algorithm.{find_if, is_prefix, search_first, search_last}

abbrev pub npos : ℕ
npos = 2 ^ 64 - 1

-- a - b on size_t
abbrev pub sub_size : ℕ → ℕ → ℕ
sub_size a b = (a + 2 ^ 64 - b) % 2 ^ 64

unfoldable pub remove_prefix : ℕ → List ℕ → List ℕ
remove_prefix n v = drop (min n (length v)) v

unfoldable pub remove_suffix : ℕ → List ℕ → List ℕ
remove_suffix n v = take (length v - min n (length v)) v

-- `at` throws out_of_range.
unfoldable pub at : ℕ → List ℕ → Option ℕ
at pos v = if leb (length v) pos then none else some (get_or v pos 0)

-- The view that `substr` builds when it does not throw.
abbrev pub part : ℕ → ℕ → List ℕ → List ℕ
part pos count v = take (min count (length v - pos)) (drop pos v)

unfoldable pub substr : ℕ → ℕ → List ℕ → Option (List ℕ)
substr pos count v = if ltb (length v) pos then none else some (part pos count v)

-- The units that `copy` writes; their number is what it returns. It throws at the end, too.
unfoldable pub copy : ℕ → ℕ → List ℕ → Option (List ℕ)
copy count pos v =
    if leb (length v) pos then none else some (take (min count (length v - pos)) (drop pos v))

-- `(stop != end_) ? stop - begin_ : npos`, for a `stop` counted from `pos`
abbrev offset : ℕ → List ℕ → ℕ → ℕ
offset pos v stop = if stop == length (drop pos v) then npos else pos + stop

-- The members that search forwards for a unit that passes a test.
abbrev find_unit : (ℕ → Bool) → ℕ → List ℕ → ℕ
find_unit p pos v = offset pos v (find_if p (drop pos v))

-- The members that search backwards: `pos` is cut to `size() - 1`, and the reverse iterator starts
-- behind it, over the first `k` units.
abbrev find_last_unit : (ℕ → Bool) → ℕ → List ℕ → ℕ
find_last_unit p pos v =
    let k = (min pos (sub_size (length v) 1) + 1) % 2 ^ 64 in
    let stop = find_if p (reverse (take k v)) in
    if stop == length (take k v) then npos else k - stop - 1

abbrev pub is_unit : ℕ → ℕ → Bool
is_unit c x = x == c

unfoldable pub find_char : ℕ → ℕ → List ℕ → ℕ
unfolding find_if
find_char c pos v = find_unit (is_unit c) pos v

unfoldable pub find : List ℕ → ℕ → List ℕ → ℕ
unfolding search_first
find needle pos v = offset pos v (search_first needle (drop pos v))

unfoldable pub rfind_char : ℕ → ℕ → List ℕ → ℕ
unfolding find_if
rfind_char c pos v = find_last_unit (is_unit c) pos v

-- std::find_end from `pos` on; an empty needle is found at the end, which is `npos`.
unfoldable pub rfind : List ℕ → ℕ → List ℕ → ℕ
unfolding search_last
rfind [] pos v = npos
rfind (n ∷ needle) pos v = elim (search_last (n ∷ needle) (drop pos v)) [
  | some i ↦ pos + i
  | none ↦ npos
]

-- `v.find(c) != npos`
abbrev pub occurs : List ℕ → ℕ → Bool
occurs set c = not (find_char c 0 set == npos)

abbrev pub not_occurs : List ℕ → ℕ → Bool
not_occurs set c = find_char c 0 set == npos

-- std::find_first_of compares with each unit of the set.
unfoldable pub find_first_of : List ℕ → ℕ → List ℕ → ℕ
unfolding find_char
find_first_of set pos v = find_unit (occurs set) pos v

unfoldable pub find_last_of : List ℕ → ℕ → List ℕ → ℕ
unfolding find_char
find_last_of set pos v = find_last_unit (occurs set) pos v

unfoldable pub find_first_not_of : List ℕ → ℕ → List ℕ → ℕ
unfolding find_char
find_first_not_of set pos v = if leb (length v) pos then npos else find_unit (not_occurs set) pos v

unfoldable pub find_last_not_of : List ℕ → ℕ → List ℕ → ℕ
unfolding find_char
find_last_not_of set pos v = find_last_unit (not_occurs set) pos v

-- " \t\n\r\f\v"
abbrev pub spaces : List ℕ
spaces = 0x20 ∷ 0x09 ∷ 0x0a ∷ 0x0d ∷ 0x0c ∷ 0x0b ∷ []

unfoldable pub trim_left : List ℕ → List ℕ
unfolding remove_prefix find_first_not_of
trim_left v = remove_prefix (find_first_not_of spaces 0 v) v

unfoldable pub trim_right : List ℕ → List ℕ
unfolding remove_suffix find_last_not_of
trim_right v = remove_suffix (sub_size (sub_size (length v) (find_last_not_of spaces npos v)) 1) v

unfoldable pub trim : List ℕ → List ℕ
unfolding trim_left trim_right
trim v = trim_right (trim_left v)

-- `substr(0, i)` and `substr(i + n, size() - i - n)`, where the separator has `n` units.
abbrev cut_at : ℕ → ℕ → List ℕ → List ℕ × List ℕ
cut_at i n v = if i == npos then (v, []) else (part 0 i v, part (i + n) (length v - i - n) v)

unfoldable pub split_char : ℕ → List ℕ → List ℕ × List ℕ
unfolding find_char
split_char sep v = cut_at (find_char sep 0 v) 1 v

unfoldable pub split : List ℕ → List ℕ → List ℕ × List ℕ
unfolding find
split sep v = cut_at (find sep 0 v) (length sep) v

unfoldable pub rsplit_char : ℕ → List ℕ → List ℕ × List ℕ
unfolding rfind_char
rsplit_char sep v = cut_at (rfind_char sep npos v) 1 v

unfoldable pub rsplit : List ℕ → List ℕ → List ℕ × List ℕ
unfolding rfind
rsplit sep v = cut_at (rfind sep 0 v) (length sep) v

-- Traits::compare on as many units as both views have; only the sign of the result is kept.
traits_compare : ℕ → List ℕ → List ℕ → Ordering
traits_compare zero v w = Ordering.eq
traits_compare (suc n) [] w = Ordering.eq
traits_compare (suc n) (x ∷ v) [] = Ordering.eq
traits_compare (suc n) (x ∷ v) (y ∷ w) = elim (compare x y) [
  | Ordering.eq ↦ traits_compare n v w
  | Ordering.lt ↦ Ordering.lt
  | Ordering.gt ↦ Ordering.gt
]

-- The sizes decide where the units do not.
abbrev settle : Ordering → ℕ → ℕ → Ordering
settle Ordering.lt n m = Ordering.lt
settle Ordering.gt n m = Ordering.gt
settle Ordering.eq n m =
    if n == m then Ordering.eq else if ltb n m then Ordering.lt else Ordering.gt

unfoldable pub compare_views : List ℕ → List ℕ → Ordering
unfolding traits_compare
compare_views v w = settle (traits_compare (min (length v) (length w)) v w) (length v) (length w)

-- `!difference`
abbrev pub no_difference : Ordering → Bool
no_difference Ordering.eq = true
no_difference Ordering.lt = false
no_difference Ordering.gt = false

unfoldable pub has_prefix : List ℕ → List ℕ → Bool
unfolding compare_views
has_prefix v w = leb (length w) (length v) && no_difference (compare_views (part 0 (length w) v) w)

unfoldable pub has_suffix : List ℕ → List ℕ → Bool
unfolding compare_views
has_suffix v w =
    leb (length w) (length v)
    && no_difference (compare_views (part (length v - length w) (length w) v) w)

-- wr::to_lower is specialized for each character type in src/string_view.cxx over the C library.
module _ (to_lower : ℕ → ℕ) where
  -- The sign of the first difference between the units in lower case, read as an int.
  unfoldable pub compare_nocase : List ℕ → List ℕ → Ordering
  compare_nocase [] [] = Ordering.eq
  compare_nocase [] (y ∷ w) = Ordering.lt
  compare_nocase (x ∷ v) [] = Ordering.gt
  compare_nocase (x ∷ v) (y ∷ w) = elim (compare (to_lower x) (to_lower y)) [
    | Ordering.eq ↦ compare_nocase v w
    | Ordering.lt ↦ Ordering.lt
    | Ordering.gt ↦ Ordering.gt
  ]

  unfoldable pub has_prefix_nocase : List ℕ → List ℕ → Bool
  unfolding compare_nocase
  has_prefix_nocase v w =
      leb (length w) (length v) && no_difference (compare_nocase (part 0 (length w) v) w)

  unfoldable pub lower_case : List ℕ → List ℕ
  lower_case v = map to_lower v
