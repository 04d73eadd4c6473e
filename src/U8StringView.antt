-- ===== src/U8StringView.antt =====
-- src/u8string_view.cxx and include/wrutil/u8string_view.h: views of UTF-8 text by code points. The
-- memory gives the byte at each address, an iterator is an address, and null is 0. A loop of the
-- C++ library that looks for the end by `!=` has fuel and may run out of it; the loops of the source
-- that ask by `<` stop at the latest after as many steps as there are bytes.
pub mod Text
pub mod Walk
pub mod Views
pub mod Trim
mod Runs
use Prim.Native.Nat.{compare, Ordering}
use wrutil.Common.{
  ℕ, zero, suc, ◌+◌, ◌-◌, ◌==◌, ltb, leb, if◌then◌else◌, ◌>>=◌, Bool, true, false, not, ◌&&◌, ◌||◌,
  Option, none, some, List, [], ◌∷◌,
}
use wrutil.Utf8.{utf8_char, utf8_inc, is_continuation}

abbrev pub Memory : Type 0
Memory = ℕ → ℕ

pub record View : Type 0 where
  pub begin : ℕ
  pub end : ℕ

-- The bytes from `i` to `i + n`.
abbrev pub window : Memory → ℕ → ℕ → List ℕ
window mem zero i = []
window mem (suc n) i = mem i ∷ window mem n (suc i)

-- `*i`
unfoldable pub code_at : Memory → ℕ → ℕ
code_at mem i = (utf8_char (window mem 4 i)).0

-- `operator++`
unfoldable pub next_at : Memory → ℕ → ℕ
next_at mem i = i + utf8_inc (mem i)

abbrev pub skip_back : Memory → ℕ → ℕ
skip_back mem p = if is_continuation (mem p) then p - 1 else p

-- `operator--`, which is `utf8_dec(p)`
unfoldable pub back_at : Memory → ℕ → ℕ
back_at mem p = skip_back mem (skip_back mem (skip_back mem (p - 1)))

-- What the templates use of an iterator: `*`, `++` and `<`.
pub record Iter : Type 0 where
  pub code : ℕ → ℕ
  pub step : ℕ → ℕ
  pub below : ℕ → ℕ → Bool

abbrev pub forward : Memory → Iter
forward mem = record { code = code_at mem; step = next_at mem; below = ltb }

-- A reverse iterator, as the address of its base.
abbrev pub backward : Memory → Iter
backward mem = record {
  code = λ i. code_at mem (back_at mem i);
  step = back_at mem;
  below = λ i e. ltb e i;
}

-- `std::distance`
unfoldable pub distance : Iter → ℕ → ℕ → ℕ → Option ℕ
distance it zero i e = none
distance it (suc n) i e =
    let rest = distance it n (it.step i) e in if i == e then some 0 else rest >>= λ k. some (suc k)

-- `std::find_if`
unfoldable pub find_if : Iter → (ℕ → Bool) → ℕ → ℕ → ℕ → Option ℕ
find_if it p zero i e = none
find_if it p (suc n) i e =
    let rest = find_if it p n (it.step i) e in
    if i == e then some e else if p (it.code i) then some i else rest

pub data Match : Type 0 where
  found : Match
  ran_out : Match
  differs : Match

-- The inner loop of `std::search`.
unfoldable pub match_at : Iter → ℕ → ℕ → ℕ → ℕ → ℕ → Option Match
match_at it zero i e j f = none
match_at it (suc n) i e j f =
    let rest = match_at it n (it.step i) e (it.step j) f in
    if j == f
    then some found
    else if i == e
    then some ran_out
    else if it.code i == it.code j
    then rest
    else some differs

-- `std::search`; `n` is the fuel of the inner loop.
unfoldable pub search_from : Iter → ℕ → ℕ → ℕ → ℕ → ℕ → ℕ → Option ℕ
search_from it n zero i e j f = none
search_from it n (suc m) i e j f =
    let rest = search_from it n m (it.step i) e j f in
    match_at it n i e j f >>= λ r. elim r [ found ↦ some i | ran_out ↦ some e | differs ↦ rest ]

-- `compare_`; only the sign of the difference is kept. `key` is the case conversion or nothing.
unfoldable pub compare_loop : Iter → (ℕ → ℕ) → ℕ → ℕ → ℕ → ℕ → ℕ → Option Ordering
compare_loop it key zero i e j f = none
compare_loop it key (suc n) i e j f =
    let rest = compare_loop it key n (it.step i) e (it.step j) f in
    if it.below i e && it.below j f
    then elim (compare (key (it.code i)) (key (it.code j))) [
      | Ordering.eq ↦ rest
      | Ordering.lt ↦ some Ordering.lt
      | Ordering.gt ↦ some Ordering.gt
    ]
    else if it.below i e
    then some Ordering.gt
    else if it.below j f
    then some Ordering.lt
    else some Ordering.eq

-- `hasPrefix_`
unfoldable pub prefix_loop : Iter → (ℕ → ℕ) → ℕ → ℕ → ℕ → ℕ → ℕ → Option Bool
prefix_loop it key zero i e j f = none
prefix_loop it key (suc n) i e j f =
    let rest = prefix_loop it key n (it.step i) e (it.step j) f in
    if it.below i e && it.below j f
    then if key (it.code i) == key (it.code j) then rest else some false
    else some (not (it.below j f))

-- The loops of `remove_prefix` and `remove_suffix`.
unfoldable pub skip_codes : Iter → ℕ → ℕ → ℕ → ℕ
skip_codes it zero i e = i
skip_codes it (suc n) i e =
    let rest = skip_codes it n (it.step i) e in if it.below i e then rest else i

-- The loop of `trim_left`.
unfoldable pub skip_spaces : Iter → (ℕ → Bool) → ℕ → ℕ → ℕ → ℕ
skip_spaces it space zero i e = i
skip_spaces it space (suc n) i e =
    let rest = skip_spaces it space n (it.step i) e in
    if it.below i e && space (it.code i) then rest else i

-- The loop of `trim_right`, which moves back and, over a code point that is no space, forth again.
unfoldable pub skip_spaces_back : Memory → (ℕ → Bool) → ℕ → ℕ → ℕ → ℕ
skip_spaces_back mem space zero i b = i
skip_spaces_back mem space (suc n) i b =
    let rest = skip_spaces_back mem space n (back_at mem i) b in
    if ltb b i
    then if space (code_at mem (back_at mem i)) then rest else next_at mem (back_at mem i)
    else i

-- The loop of `has_min_size`.
unfoldable pub min_loop : Memory → ℕ → ℕ → ℕ → Bool
min_loop mem zero i e = true
min_loop mem (suc s) i e =
    let rest = min_loop mem s (next_at mem i) e in if leb e i then false else rest

-- The loop of `has_max_size`, and the test behind it.
unfoldable pub max_loop : Memory → ℕ → ℕ → ℕ → Bool
max_loop mem zero i e = leb e i
max_loop mem (suc s) i e =
    let rest = max_loop mem s (next_at mem i) e in if leb e (next_at mem i) then true else rest

-- The loop of `substr`.
unfoldable pub substr_loop : Memory → ℕ → ℕ → ℕ → ℕ
substr_loop mem zero i e = i
substr_loop mem (suc n) i e =
    let rest = substr_loop mem n (next_at mem i) e in if leb e i then e else rest

module _ (mem : Memory) where
  abbrev pub bytes : View → ℕ
  bytes v = v.end - v.begin

  unfoldable pub size : View → Option ℕ
  size v = distance (forward mem) (suc (bytes v)) v.begin v.end

  unfoldable pub has_min_size : ℕ → View → Bool
  has_min_size s v = min_loop mem s v.begin v.end

  unfoldable pub has_max_size : ℕ → View → Bool
  has_max_size s v = max_loop mem s v.begin v.end

  unfoldable pub remove_prefix : ℕ → View → View
  remove_prefix n v = record { begin = skip_codes (forward mem) n v.begin v.end; end = v.end }

  unfoldable pub remove_suffix : ℕ → View → View
  remove_suffix n v = record { begin = v.begin; end = skip_codes (backward mem) n v.end v.begin }

  unfoldable pub trim_left : (ℕ → Bool) → View → View
  trim_left space v = record {
    begin = skip_spaces (forward mem) space (bytes v) v.begin v.end;
    end = v.end;
  }

  unfoldable pub trim_right : (ℕ → Bool) → View → View
  trim_right space v = record {
    begin = v.begin;
    end = skip_spaces_back mem space (bytes v) v.end v.begin;
  }

  unfoldable pub trim : (ℕ → Bool) → View → View
  trim space v = trim_right space (trim_left space v)

  -- `substr(pos, n_code_points)`, with `npos`
  unfoldable pub substr : ℕ → ℕ → View → View
  substr pos n v = record {
    begin = pos;
    end = if n == 0xffffffffffffffff then v.end else substr_loop mem n pos v.end;
  }

  -- `find(c, pos)`
  unfoldable pub find_char : ℕ → ℕ → View → Option ℕ
  find_char c pos v =
      find_if (forward mem) (λ x. x == c) (suc (bytes v)) (if pos == 0 then v.begin else pos) v.end

  -- `find(substr, pos)`
  unfoldable pub find : View → ℕ → View → Option ℕ
  find s pos v =
      search_from (forward mem) (suc (bytes s)) (suc (bytes v)) (if pos == 0 then v.begin else pos)
        v.end s.begin s.end

  -- `rfind(c, pos)`
  unfoldable pub rfind_char : ℕ → ℕ → View → Option ℕ
  rfind_char c pos v =
      find_if (backward mem) (λ x. x == c) (suc (bytes v)) (if pos == 0 then v.end else pos) v.begin
      >>= λ i. some (if leb i v.begin then v.end else back_at mem i)

  -- `std::prev(i, n)`
  abbrev pub prev : ℕ → ℕ → ℕ
  prev zero i = i
  prev (suc n) i = prev n (back_at mem i)

  -- `rfind(substr, pos)`
  unfoldable pub rfind : View → ℕ → View → Option ℕ
  rfind s pos v =
      search_from (backward mem) (suc (bytes s)) (suc (bytes v)) (if pos == 0 then v.end else pos)
        v.begin s.end s.begin
      >>= λ i. if i == v.begin then some v.end else size s >>= λ n. some (prev (n + 1) i)

  abbrev pub cut : ℕ → View → View × View
  cut i v =
      if i == v.end
      then (v, record { begin = 0; end = 0 })
      else (record { begin = v.begin; end = i }, record { begin = next_at mem i; end = v.end })

  -- `split(sep)` for a code point
  unfoldable pub split_char : ℕ → View → Option (View × View)
  split_char c v = find_char c 0 v >>= λ i. some (cut i v)

  -- `split(sep)` for a view
  unfoldable pub split : View → View → Option (View × View)
  split s v = find s 0 v >>= λ i. some (cut i v)

  -- `rsplit(sep)` for a code point
  unfoldable pub rsplit_char : ℕ → View → Option (View × View)
  rsplit_char c v = rfind_char c 0 v >>= λ i. some (cut i v)

  -- `compare(s2)`
  unfoldable pub compare_view : View → View → Option Ordering
  compare_view v w = compare_loop (forward mem) (λ c. c) (suc (bytes v)) v.begin v.end w.begin w.end

  -- `compare_nocase(s2)`
  unfoldable pub compare_nocase : (ℕ → ℕ) → View → View → Option Ordering
  compare_nocase lower v w =
      compare_loop (forward mem) lower (suc (bytes v)) v.begin v.end w.begin w.end

  unfoldable pub has_prefix : View → View → Option Bool
  has_prefix v w = prefix_loop (forward mem) (λ c. c) (suc (bytes v)) v.begin v.end w.begin w.end

  unfoldable pub has_suffix : View → View → Option Bool
  has_suffix v w = prefix_loop (backward mem) (λ c. c) (suc (bytes v)) v.end v.begin w.end w.begin
