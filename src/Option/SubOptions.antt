-- ===== src/Option/SubOptions.antt =====
-- src/Option.cxx, Option::parseSubOptions: options inside of an argument, which commas separate.
-- `column` stands for the message that printStr makes of a column.
use wrutil.Common.{
  ℕ, zero, suc, ◌+◌, ◌-◌, min, ◌==◌, if◌then◌else◌, Bool, true, false, not, ◌&&◌, ◌||◌, Option,
  none, some, List, [], ◌∷◌, length, codes,
}
use wrutil.StringView.{npos, part, trim, remove_prefix, find_first_of, substr, split_char}
use wrutil.Option.Table.{
  Error, unknown_option, missing_argument, invalid_argument, Reply, stop, proceed, throw, OptionDef,
  call, arg_required, allows_empty_arg, sub_opt_self_parse_arg, Group, insert, find_entry,
}
use wrutil.Option.Setup.{same_text, unknown_name}

-- The catch clauses around the call of the handler.
unfoldable pub name_sub_error : List ℕ → List ℕ → List ℕ → Error → Error
name_sub_error opt sub arg (invalid_argument o s a reason) =
    if length o == 0 || length s == 0 || length a == 0
    then invalid_argument opt sub arg reason
    else invalid_argument o s a reason
name_sub_error opt sub arg (missing_argument o s) =
    if length o == 0 || length s == 0 then missing_argument opt sub else missing_argument o s
name_sub_error opt sub arg (unknown_option o s) =
    if length o == 0 || length s == 0 then unknown_option opt sub else unknown_option o s

module _ (S : Type 0) where
  -- The table of sub-options and the handler for unknown ones.
  pub record SubTables : Type 0 where
    pub group : Group S
    pub unknown : Option (OptionDef S)

  -- A position and the caller's state, an error of this module, or an out_of_range of `substr`.
  pub data SubOutcome : Type 0 where
    read_to : ℕ → S → SubOutcome
    sub_failed : Error → S → SubOutcome
    range_error : S → SubOutcome
    sub_stuck : SubOutcome

  -- How a round ends, with the content that is left.
  pub data SubStep : Type 0 where
    next : List ℕ → S → SubStep
    halted : List ℕ → S → SubStep
    sub_raised : Error → S → SubStep
    out_of_range : S → SubStep

  -- The content behind the name and its delimiter, with the argument if there is one.
  pub record Cut : Type 0 where
    pub content : List ℕ
    pub arg : List ℕ
    pub have_arg : Bool

module _ {S : Type 0} where
  add_sub_names : OptionDef S → List (List ℕ) → SubTables S → SubTables S
  unfolding same_text insert
  add_sub_names o [] t = t
  add_sub_names o (name ∷ names) t = add_sub_names o names (
      if same_text name unknown_name
      then record t { unknown = some o }
      else record t { group = insert name o t.group })

  unfoldable pub build_sub : List (OptionDef S) → SubTables S → SubTables S
  unfolding add_sub_names
  build_sub [] t = t
  build_sub (o ∷ options) t = build_sub options (add_sub_names o o.names t)

  abbrev pub no_sub_tables : SubTables S
  no_sub_tables = record { group = record { entries = []; short_only = true }; unknown = none }

  -- Behind the name: `:` or `=` begins an argument, `,` the next sub-option. There is no other
  -- delimiter, so the `logic_error` for one is left out.
  unfoldable pub cut_arg : OptionDef S → List ℕ → Cut S
  cut_arg o [] = record { content = []; arg = []; have_arg = false }
  cut_arg o (delim ∷ rest) =
      let content = trim (remove_prefix 1 (delim ∷ rest)) in
      if delim == b',' then record { content = content; arg = []; have_arg = false } else record {
        content = content;
        arg = if sub_opt_self_parse_arg o then content else trim (split_char b',' content).0;
        have_arg = true;
      }

  -- Where the content goes on behind an argument, or behind what the handler skipped.
  unfoldable pub skip_to : ℕ → List ℕ → S → SubStep S
  unfolding substr
  skip_to result content s = elim (substr result npos content) [
    | none ↦ out_of_range s
    | some rest ↦ next (trim (split_char b',' rest).1) s
  ]

  -- What the reply of a handler means for the loop.
  unfoldable pub after_sub_call : List ℕ → List ℕ → Bool → Cut S → Reply × S → SubStep S
  unfolding name_sub_error skip_to
  after_sub_call opt sub u k (stop, s) =
      if u then sub_raised (unknown_option opt sub) s else halted k.content s
  after_sub_call opt sub u k (proceed zero, s) =
      if k.have_arg then skip_to 0 k.content s else next k.content s
  after_sub_call opt sub u k (proceed (suc n), s) = skip_to (suc n) k.content s
  after_sub_call opt sub u k (throw e, s) = sub_raised (name_sub_error opt sub k.arg e) s

  unfoldable pub perform_sub : List ℕ → List ℕ → OptionDef S → Bool → Cut S → S → SubStep S
  unfolding after_sub_call
  perform_sub opt sub o u k s =
      if k.have_arg && not (allows_empty_arg o) && length k.arg == 0
      then sub_raised (invalid_argument opt sub k.arg (codes "non-empty argument required")) s
      else if not k.have_arg && arg_required o
      then sub_raised (missing_argument opt sub) s
      else after_sub_call opt sub u k (call o sub k.arg [] s)

  unfoldable pub enter_sub : List ℕ → List ℕ → OptionDef S → Bool → ℕ → List ℕ → S → SubStep S
  unfolding cut_arg perform_sub
  enter_sub opt sub o u delim_pos content s =
      perform_sub opt sub o u (cut_arg o (remove_prefix (min delim_pos npos) content)) s

  -- One round of the loop.
  unfoldable pub sub_round : (ℕ → List ℕ) → SubTables S → List ℕ → List ℕ → List ℕ → S → SubStep S
  unfolding enter_sub find_entry
  sub_round column t opt opt_arg content s =
      let delim_pos = find_first_of (codes ",:=") 0 content in
      let sub = trim (part 0 delim_pos content) in
      elim (find_entry t.group.entries sub 0) [
        | some e ↦ enter_sub opt sub e.opt false delim_pos content s
        | none ↦
            if length sub == 0
            then sub_raised
                (invalid_argument opt [] opt_arg (column (length opt_arg - length content + 1))) s
            else elim t.unknown [
              | some o ↦ enter_sub opt sub o true delim_pos content s
              | none ↦ sub_raised (unknown_option opt sub) s
            ]
      ]

  -- `while (!content.empty())`; `sub_stuck` means that the fuel ran out.
  unfoldable pub sub_loop :
      ℕ → (ℕ → List ℕ) → SubTables S → List ℕ → List ℕ → List ℕ → S → SubOutcome S
  unfolding sub_round
  sub_loop fuel column t opt opt_arg [] s = read_to (length opt_arg - 0) s
  sub_loop zero column t opt opt_arg (c ∷ content) s = sub_stuck
  sub_loop (suc fuel) column t opt opt_arg (c ∷ content) s =
      elim (sub_round column t opt opt_arg (c ∷ content) s) [
        | next rest s' ↦ sub_loop fuel column t opt opt_arg rest s'
        | halted rest s' ↦ read_to (length opt_arg - length rest) s'
        | sub_raised err s' ↦ sub_failed err s'
        | out_of_range s' ↦ range_error s'
      ]

  unfoldable pub parse_sub_options :
      ℕ → (ℕ → List ℕ) → List (OptionDef S) → List ℕ → List ℕ → ℕ → S → SubOutcome S
  unfolding build_sub sub_loop substr
  parse_sub_options fuel column options opt opt_arg pos s = elim (substr pos npos opt_arg) [
    | none ↦ range_error s
    | some content ↦ sub_loop fuel column (build_sub options no_sub_tables) opt opt_arg content s
  ]
