-- ===== src/ArgV.antt =====
-- src/ArgVBuilder.cxx, wr::ArgVBuilder, and Option::toArgVector of src/Option.cxx, which fills one.
-- `base` is the address of the bytes, which an insertion may move; `place` stands for the allocator
-- and gives the address for the bytes. A pointer is a number.
pub mod Contents
mod Runs
use wrutil.Common.{
  ℕ, zero, suc, ◌+◌, ◌-◌, ltb, leb, ◌==◌, if◌then◌else◌, Bool, true, false, not, ◌&&◌, ◌||◌, List,
  [], ◌∷◌, ◌++◌, length, take, drop, get_or, map,
}
use wrutil.StringView.{remove_prefix, remove_suffix}
use wrutil.Option.Table.{back}

pub record ArgvBuilder : Type 0 where
  pub args : List ℕ
  pub bytes : List ℕ
  pub base : ℕ
  pub frozen : Bool

-- A view of the characters before the first zero.
abbrev pub c_string : List ℕ → List ℕ
c_string [] = []
c_string (c ∷ v) = if c == 0 then [] else c ∷ c_string v

unfoldable pub freeze : ArgvBuilder → ArgvBuilder
freeze b =
    if not b.frozen then record b { args = map (λ p. b.base + p) b.args; frozen = true } else b

unfoldable pub thaw : ArgvBuilder → ArgvBuilder
thaw b = if b.frozen then record b { args = map (λ p. p - b.base) b.args; frozen = false } else b

-- What a pointer, or an offset as long as the builder is not frozen, refers to.
unfoldable pub read : ArgvBuilder → ℕ → List ℕ
read b p = c_string (drop (if b.frozen then p - b.base else p) b.bytes)

-- `operator[]`
unfoldable pub arg_at : ArgvBuilder → ℕ → List ℕ
unfolding read
arg_at b i = read b (get_or b.args i 0)

-- `clear`; the bytes keep their address.
unfoldable pub clear : ArgvBuilder → ArgvBuilder
clear b = record b { args = []; bytes = []; frozen = false }

-- `insert`, which does not look at the position
unfoldable pub insert : (List ℕ → ℕ) → ℕ → List ℕ → ArgvBuilder → ArgvBuilder
unfolding thaw
insert place pos arg b =
    let t = thaw b in
    let bytes = t.bytes ++ (arg ++ (0 ∷ [])) in
    record t { args = t.args ++ (length t.bytes ∷ []); bytes = bytes; base = place bytes }

unfoldable pub append_arg : (List ℕ → ℕ) → List ℕ → ArgvBuilder → ArgvBuilder
unfolding insert
append_arg place arg b = insert place (length b.args) arg b

-- `erase`, for a position that there is; the bytes stay
unfoldable pub erase : ℕ → ArgvBuilder → ArgvBuilder
erase pos b = record b { args = take pos b.args ++ drop (suc pos) b.args }

-- `extract` gives the frozen storage away and leaves an empty builder.
unfoldable pub extract : ArgvBuilder → ArgvBuilder × ArgvBuilder
unfolding freeze clear
extract b = (freeze b, clear (freeze b))

-- `isspace` of the C locale
abbrev is_space : ℕ → Bool
is_space c = c == 32 || (leb 9 c && leb c 13)

-- An argument in quotes loses them.
unquote : List ℕ → List ℕ
unquote [] = []
unquote (c ∷ v) =
    if (c == b'\'' || c == b'"') && back (c ∷ v) == c
    then remove_suffix 1 (remove_prefix 1 (c ∷ v))
    else c ∷ v

add_arg : (List ℕ → ℕ) → ArgvBuilder → List ℕ → ArgvBuilder
unfolding unquote append_arg
add_arg place b [] = b
add_arg place b (c ∷ v) = append_arg place (unquote (c ∷ v)) b

-- The variables of toArgVector: the argument read so far, and the open quote or 0.
pub record Reading : Type 0 where
  pub builder : ArgvBuilder
  pub arg : List ℕ
  pub quote : ℕ

-- One round of the loop.
unfoldable pub read_char : (List ℕ → ℕ) → ℕ → Reading → Reading
unfolding add_arg
read_char place c r =
    if c == b'\'' || c == b'"'
    then record r {
      arg = r.arg ++ (c ∷ []);
      quote = if r.quote == c then 0 else if r.quote == 0 then c else r.quote;
    }
    else if c == 0 || (is_space c && r.quote == 0)
    then record r { builder = add_arg place r.builder r.arg; arg = [] }
    else record r { arg = r.arg ++ (c ∷ []) }

unfoldable pub split_command : (List ℕ → ℕ) → Reading → List ℕ → ArgvBuilder
unfolding add_arg read_char
split_command place r [] = add_arg place r.builder r.arg
split_command place r (c ∷ rest) = split_command place (read_char place c r) rest

-- `toArgVector`
unfoldable pub to_argv : (List ℕ → ℕ) → List ℕ → ArgvBuilder
unfolding split_command extract
to_argv place command =
    let empty : ArgvBuilder = record { args = []; bytes = []; base = place []; frozen = false } in
    (extract (split_command place (record { builder = empty; arg = []; quote = 0 }) command)).0
