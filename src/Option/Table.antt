-- ===== src/Option/Table.antt =====
-- src/Option.cxx and include/wrutil/Option.h: options, their flags, the errors, and the table
-- OptionsByPrefix in which `parse` and `parseSubOptions` look a name up. Texts are lists of bytes.
use Prim.Native.Nat.{Ordering}
use wrutil.Common.{
  ℕ, bit_and, ltb, leb, ◌==◌, if◌then◌else◌, Bool, true, false, not, ◌&&◌, ◌||◌, Option, none, some,
  List, [], ◌∷◌, length, drop, get_or,
}
use wrutil.StringView.{npos, spaces, has_prefix, find_first_not_of, trim_left, compare_views}

-- The option's name, the sub-option's name, the argument and the reason that an error carries.
pub data Error : Type 0 where
  unknown_option : List ℕ → List ℕ → Error
  missing_argument : List ℕ → List ℕ → Error
  invalid_argument : List ℕ → List ℕ → List ℕ → List ℕ → Error

-- The three catch clauses: an error without a name is thrown again with the option's name.
unfoldable pub name_error : List ℕ → List ℕ → Error → Error
name_error full arg (invalid_argument o sub a reason) =
    if length o == 0 || length a == 0
    then invalid_argument full [] arg reason
    else invalid_argument o sub a reason
name_error full arg (missing_argument o sub) =
    if length o == 0 then missing_argument full [] else missing_argument o sub
name_error full arg (unknown_option o sub) =
    if length o == 0 then unknown_option full [] else unknown_option o sub

-- What a handler throws with no name: the constructors that take a reason or nothing. The
-- constructor `InvalidArgument(reason)` puts the reason into the message only, not into `reason_`.
abbrev pub anonymous_invalid : List ℕ → Error
anonymous_invalid reason = invalid_argument [] [] [] []

-- What a handler does: it returns a negative number, it returns another one, or it throws.
pub data Reply : Type 0 where
  stop : Reply
  proceed : ℕ → Reply
  throw : Error → Reply

-- A handler sees the option, the argument and the arguments that are left, and it has effects on
-- the caller's state.
abbrev pub Action : Type 0 → Type 0
Action S = List ℕ → List ℕ → List (List ℕ) → S → Reply × S

pub record OptionDef (S : Type 0) : Type 0 where
  pub names : List (List ℕ)
  pub flags : ℕ
  pub action : Option (Action S)

module _ {S : Type 0} where
  -- `Action::operator()`: an option with no handler does nothing.
  abbrev pub call : OptionDef S → Action S
  call o opt arg rest s = elim o.action [ none ↦ (proceed 0, s) | some act ↦ act opt arg rest s ]

  abbrev pub has_flag : ℕ → OptionDef S → Bool
  has_flag mask o = not (bit_and o.flags mask == 0)

  abbrev pub arg_required : OptionDef S → Bool
  arg_required o = has_flag 1 o

  abbrev pub arg_is_optional : OptionDef S → Bool
  arg_is_optional o = has_flag 2 o

  abbrev pub allows_empty_arg : OptionDef S → Bool
  allows_empty_arg o = not (has_flag 4 o)

  abbrev pub joined_arg_only : OptionDef S → Bool
  joined_arg_only o = has_flag 8 o

  abbrev pub separate_arg_only : OptionDef S → Bool
  separate_arg_only o = has_flag 16 o

  abbrev pub sub_opt_self_parse_arg : OptionDef S → Bool
  sub_opt_self_parse_arg o = has_flag 32 o

  abbrev pub takes_arg : OptionDef S → Bool
  takes_arg o = has_flag 3 o

-- `ispunct` of the C locale.
abbrev pub is_punct : ℕ → Bool
is_punct c =
    (leb 33 c && leb c 47)
    || (leb 58 c && leb c 64)
    || (leb 91 c && leb c 96)
    || (leb 123 c && leb c 126)

-- `s.back()`, for a view that is not empty
abbrev pub back : List ℕ → ℕ
back [] = 0
back (x ∷ []) = x
back (x ∷ y ∷ v) = back (y ∷ v)

-- `Entry`, whose `opt` is never null once it stands in a table.
pub record Entry (S : Type 0) : Type 0 where
  pub stem : List ℕ
  pub opt : OptionDef S

-- The argument behind a name of two letters or more begins with `=` or `:`.
delimited : List ℕ → Bool → Bool
delimited [] exact = exact
delimited (c ∷ trailing) exact = c == b'=' || c == b':'

abbrev pub is_less : Ordering → Bool
is_less Ordering.lt = true
is_less Ordering.eq = false
is_less Ordering.gt = false

-- `a < b` on views
abbrev pub before : List ℕ → List ℕ → Bool
before a b = is_less (compare_views a b)

module _ {S : Type 0} where
  -- `Entry::match`
  unfoldable pub match : Entry S → List ℕ → ℕ → Bool
  unfolding delimited
  match e stem delim =
      let exact =
        if length stem == length e.stem
        then true
        else if delim == 0
        then false
        else (let pos = find_first_not_of spaces (length e.stem) stem in
            not (pos == npos) && get_or stem pos 0 == delim) in
      if not (has_prefix stem e.stem)
      then false
      else if not (takes_arg e.opt) || separate_arg_only e.opt
      then exact
      else if ltb 1 (length e.stem) && not (is_punct (back e.stem))
      then delimited (trim_left (drop (length e.stem) stem)) exact
      else true

  -- std::lower_bound and the insertion there: in front of the first entry that is not before.
  unfoldable pub insert_entry : Entry S → List (Entry S) → List (Entry S)
  insert_entry e [] = e ∷ []
  insert_entry e (x ∷ xs) = if before x.stem e.stem then x ∷ insert_entry e xs else e ∷ x ∷ xs

-- `OptionsByPrefix`
pub record Group (S : Type 0) : Type 0 where
  pub entries : List (Entry S)
  pub short_only : Bool

module _ {S : Type 0} where
  -- `insert`
  unfoldable pub insert : List ℕ → OptionDef S → Group S → Group S
  unfolding insert_entry
  insert stem o g = record {
    entries = insert_entry (record { stem = stem; opt = o }) g.entries;
    short_only = g.short_only && not (length stem == 0) && leb (length stem) 1;
  }

  -- std::find_if over the entries
  unfoldable pub find_entry : List (Entry S) → List ℕ → ℕ → Option (Entry S)
  unfolding match
  find_entry [] stem delim = none
  find_entry (e ∷ es) stem delim = if match e stem delim then some e else find_entry es stem delim
