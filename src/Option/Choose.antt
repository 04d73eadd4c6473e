-- ===== src/Option/Choose.antt =====
-- src/Option.cxx, the second loop of Option::parse: what it keeps, and how a round finds its entry. The command line is a list of texts, and a
-- position is an index into it; a call with a position below 0, which throws at once, has no
-- counterpart. The conversion that ARGV_TO_UTF8 asks for comes before the loop and is not modelled.
use wrutil.Common.{
  ℕ, ◌==◌, if◌then◌else◌, Bool, not, Option, none, some, List, [], ◌++◌, length, get_or, codes,
}
use wrutil.StringView.{part, trim, remove_prefix, find_first_of}
use wrutil.Option.Table.{Error, unknown_option, OptionDef, takes_arg, Entry, Group, find_entry}
use wrutil.Option.Setup.{prefix, Tables, find_group}

module _ (S : Type 0) where
  -- What the second loop keeps from one round to the next.
  pub record Cursor : Type 0 where
    pub pos : ℕ
    pub opt : List ℕ
    pub pfx : List ℕ
    pub full_opt : List ℕ
    pub group : Option (Group S)

  pub data Outcome : Type 0 where
    done : ℕ → S → Outcome
    failed : Error → S → Outcome
    stuck : Outcome

  -- What stands at the cursor.
  pub data Choice : Type 0 where
    known : Entry S → Choice
    handled_unknown : Entry S → Choice
    positional : Choice
    rejected : Error → Choice

  -- The entry with its argument, ready for the call.
  pub record Taken : Type 0 where
    pub entry : Entry S
    pub is_unknown : Bool
    pub at : ℕ
    pub rest : List ℕ
    pub arg : List ℕ
    pub have_arg : Bool

  pub data Attempt : Type 0 where
    took : Taken → Attempt
    refused : Error → Attempt

  -- How a round ends: the loop goes on, it is left by `break`, or an error is thrown.
  pub data Step : Type 0 where
    continued : Cursor → S → Step
    broke : ℕ → S → Step
    raised : Error → S → Step

module _ {S : Type 0} where
  -- The start of a round: the next argument is taken up if nothing is left of the last one.
  unfoldable pub fetch : Tables S → List (List ℕ) → Cursor S → Cursor S
  unfolding prefix find_group
  fetch t args c =
      if not (length c.opt == 0)
      then c
      else (let text = trim (get_or args c.pos []) in
          let pfx = prefix text in
          record {
            pos = c.pos;
            opt = remove_prefix (length pfx) text;
            pfx = pfx;
            full_opt = pfx;
            group = find_group t.groups pfx;
          })

  -- The name for the handler of unknown options: one letter in a group of short options, and
  -- otherwise up to `:` or `=`; all of it if the handler takes no argument.
  unfoldable pub unknown_stem : Bool → OptionDef S → List ℕ → List ℕ
  unknown_stem short o opt =
      if not (takes_arg o)
      then part 0 (length opt) opt
      else if short
      then part 0 1 opt
      else part 0 (find_first_of (codes ":=") 0 opt) opt

  unfoldable pub choose_unknown : Tables S → Cursor S → Bool → Choice S
  unfolding unknown_stem find_first_of
  choose_unknown t c short = elim t.unknown [
    | some o ↦ handled_unknown (record { stem = unknown_stem short o c.opt; opt = o })
    | none ↦ rejected (unknown_option (c.pfx ++ c.opt) [])
  ]

  unfoldable pub choose_in : Tables S → Cursor S → Option (Group S) → Choice S
  unfolding choose_unknown find_entry
  choose_in t c none =
      if length c.pfx == 0 then positional else rejected (unknown_option (c.pfx ++ c.opt) [])
  choose_in t c (some g) =
      elim (find_entry g.entries (if g.short_only then part 0 1 c.opt else c.opt) 0) [
        | some e ↦ known e
        | none ↦ if length c.pfx == 0 then positional else choose_unknown t c g.short_only
      ]

  unfoldable pub choose : Tables S → Cursor S → Choice S
  unfolding choose_in
  choose t c = choose_in t c c.group
