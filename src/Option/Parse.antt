-- ===== src/Option/Parse.antt =====
-- src/Option.cxx, the second loop of Option::parse: the argument of an entry, the call of its handler
-- and the loop.
use wrutil.Common.{
  ℕ, zero, suc, ◌+◌, ltb, ◌==◌, if◌then◌else◌, Bool, true, false, not, ◌&&◌, none, some, List, [],
  ◌++◌, length, drop, get_or, codes,
}
use wrutil.StringView.{trim, remove_prefix}
use wrutil.Option.Table.{
  name_error, unknown_option, missing_argument, invalid_argument, Reply, stop, proceed, throw,
  OptionDef, call, takes_arg, separate_arg_only, joined_arg_only, arg_is_optional, allows_empty_arg,
  is_punct, back, Entry,
}
use wrutil.Option.Setup.{Tables, build, no_tables}
use wrutil.Option.Choose.{
  Cursor, Outcome, done, failed, stuck, known, handled_unknown, positional, rejected, Taken,
  Attempt, took, refused, Step, continued, broke, raised, fetch, choose,
}

module _ {S : Type 0} where
  abbrev pub is_delimiter_end : Entry S → Bool
  is_delimiter_end e = not (length e.stem == 0) && is_punct (back e.stem)

  -- The argument that is joined to the option; `=` or `:` is skipped behind a longer name.
  joined : Entry S → List ℕ → List ℕ
  joined e opt =
      if ltb 1 (length e.stem) && not (is_punct (back e.stem)) then drop 1 (trim opt) else trim opt

  abbrev pub bare : Entry S → Bool → ℕ → List ℕ → Attempt S
  bare e u pos rest =
      took (record { entry = e; is_unknown = u; at = pos; rest = rest; arg = []; have_arg = false })

  -- The branch of a separate argument. Behind a name that ends in punctuation there is none to
  -- take, but the position has moved on.
  unfoldable pub take_separate : Tables S → List (List ℕ) → Cursor S → Entry S → Bool → Attempt S
  take_separate t args c e u =
      if is_delimiter_end e
      then (if arg_is_optional e.opt then bare e u (c.pos + 1) [] else elim t.unknown [
        | some o ↦ bare (record { stem = []; opt = o }) true (c.pos + 1) []
        | none ↦ refused (unknown_option c.full_opt [])
      ])
      else if ltb (c.pos + 1) (length args)
      then took (record {
        entry = e;
        is_unknown = u;
        at = c.pos + 1;
        rest = [];
        arg = get_or args (c.pos + 1) [];
        have_arg = true;
      })
      else if arg_is_optional e.opt
      then bare e u c.pos []
      else refused (missing_argument c.full_opt [])

  -- The argument of the entry; `c.opt` is what stands behind the option's name.
  unfoldable pub take_arg : Tables S → List (List ℕ) → Cursor S → Entry S → Bool → Attempt S
  unfolding take_separate joined
  take_arg t args c e u =
      if not (takes_arg e.opt)
      then bare e u c.pos c.opt
      else if not (length c.opt == 0)
      then (if separate_arg_only e.opt
          then bare e u c.pos c.opt
          else took (record {
            entry = e;
            is_unknown = u;
            at = c.pos;
            rest = [];
            arg = joined e c.opt;
            have_arg = true;
          }))
      else if not (joined_arg_only e.opt)
      then take_separate t args c e u
      else if arg_is_optional e.opt
      then bare e u c.pos []
      else refused (missing_argument c.full_opt [])

  -- What the reply of a handler means for the loop.
  unfoldable pub after_call : List ℕ → List ℕ → Bool → Cursor S → Reply × S → Step S
  unfolding name_error
  after_call full arg u c (stop, s) =
      if u then raised (name_error full arg (unknown_option full [])) s else broke c.pos s
  after_call full arg u c (proceed zero, s) = continued c s
  after_call full arg u c (proceed (suc k), s) =
      continued (record c { pos = c.pos + suc k; opt = [] }) s
  after_call full arg u c (throw e, s) = raised (name_error full arg e) s

  unfoldable pub perform : List (List ℕ) → Cursor S → Taken S → S → Step S
  unfolding after_call
  perform args c taken s =
      let pos = if length taken.rest == 0 then taken.at + 1 else taken.at in
      if taken.have_arg && length taken.arg == 0 && not (allows_empty_arg taken.entry.opt)
      then raised
          (name_error c.full_opt taken.arg
            (invalid_argument c.full_opt [] taken.arg (codes "non-empty argument required")))
          s
      else after_call c.full_opt taken.arg taken.is_unknown
          (record c { pos = pos; opt = taken.rest })
          (call taken.entry.opt c.full_opt taken.arg (drop pos args) s)

  -- An argument that is no option.
  unfoldable pub perform_positional : Tables S → List (List ℕ) → Cursor S → S → Step S
  unfolding after_call
  perform_positional t args c s =
      let next = record c { pos = c.pos + 1; opt = [] } in
      elim t.nonopt [
        | none ↦ continued next s
        | some o ↦ after_call c.full_opt c.opt false next (call o [] c.opt (drop next.pos args) s)
      ]

  -- The round for an entry: its name is cut off, then its argument is taken and its handler called.
  unfoldable pub enter : Tables S → List (List ℕ) → Cursor S → Entry S → Bool → S → Step S
  unfolding take_arg perform
  enter t args c e u s =
      let c' = record c { full_opt = c.pfx ++ e.stem; opt = remove_prefix (length e.stem) c.opt } in
      elim (take_arg t args c' e u) [
        | took taken ↦ perform args c' taken s
        | refused err ↦ raised (name_error c'.full_opt [] err) s
      ]

  -- One round of the loop.
  unfoldable pub round : Tables S → List (List ℕ) → Cursor S → S → Step S
  unfolding fetch choose enter perform_positional
  round t args c s =
      let c' = fetch t args c in
      elim (choose t c') [
        | known e ↦ enter t args c' e false s
        | handled_unknown e ↦ enter t args c' e true s
        | positional ↦ perform_positional t args c' s
        | rejected err ↦ raised (name_error c'.full_opt [] err) s
      ]

  -- `while (pos < argc)`; `stuck` means that the fuel ran out.
  unfoldable pub parse_loop : ℕ → Tables S → List (List ℕ) → Cursor S → S → Outcome S
  unfolding round
  parse_loop zero t args c s = if ltb c.pos (length args) then stuck else done c.pos s
  parse_loop (suc fuel) t args c s =
      if ltb c.pos (length args)
      then elim (round t args c s) [
        | continued c' s' ↦ parse_loop fuel t args c' s'
        | broke pos s' ↦ done pos s'
        | raised err s' ↦ failed err s'
      ]
      else done c.pos s

  unfoldable pub parse : ℕ → List (OptionDef S) → List (List ℕ) → ℕ → S → Outcome S
  unfolding build parse_loop
  parse fuel options args pos s =
      parse_loop fuel (build options no_tables) args
        (record { pos = pos; opt = []; pfx = []; full_opt = []; group = none }) s
