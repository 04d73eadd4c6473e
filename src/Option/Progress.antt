-- ===== src/Option/Progress.antt =====
-- Fuel for the loop of Option::parse: what is left to read at a cursor, and the rounds that use it up.
pub mod Texts
pub mod Steps
pub mod Choices
use mathlib.Core.Path.{subst}
use mathlib.Core.Option.{some-injective}
use wrutil.Common.{
  ℕ, zero, suc, ◌+◌, ◌-◌, ◌≤◌, ◌<◌, min, ltb, ltb→lt, ◌==◌, if◌then◌else◌, ◌≡◌, ◌≢◌, refl, sym, ap,
  ◌∙◌, arith, Bool, true, false, not, ◌&&◌, ◌||◌, Bool-cases, ◌⊎◌, inl, inr, Option, none, some,
  List, [], ◌∷◌, ◌++◌, length, length-drop, length-take, drop, get_or,
}
use wrutil.StringView.{
  has_prefix, spaces, find_first_not_of, trim_left, trim_right, remove_suffix, part, trim,
  remove_prefix,
}
use wrutil.Option.Table.{
  call, name_error, unknown_option, missing_argument, allows_empty_arg, Reply, stop, proceed, throw,
  OptionDef, takes_arg, separate_arg_only, arg_is_optional, joined_arg_only, Entry, match,
  find_entry, Group,
}
use wrutil.Option.Setup.{build, no_tables, Tables, prefix}
use wrutil.Option.Choose.{
  Cursor, Outcome, done, failed, stuck, Choice, known, handled_unknown, positional, rejected, Taken,
  Attempt, took, refused, Step, continued, broke, raised, fetch, unknown_stem, choose_unknown,
  choose_in, choose,
}
use wrutil.Option.Parse.{
  parse, take_arg, perform, perform_positional, enter, round, parse_loop, after_call, bare,
  take_separate, is_delimiter_end,
}
use wrutil.Option.Progress.Texts.{
  weight, weight_step, add_one, reach, weight-drop_le, weight-drop_front, length-nil, Shorter,
  length-remove_prefix, length-trim_le, behind_needle,
}
use wrutil.Option.Progress.Steps.{Goes, Past, Cuts, enter-Past, perform_positional-Past}
use wrutil.Option.Progress.Choices.{JoinedUnknown, round-Past}

module _ {S : Type 0} where
  -- What is left at a cursor: the rest of the current argument and the arguments behind it.
  abbrev pub left : List (List ℕ) → Cursor S → ℕ
  left args c =
      if length c.opt == 0
      then weight (drop c.pos args)
      else length c.opt + weight (drop (c.pos + 1) args)

  -- `fetch` stays at the argument, and the text at the cursor does not grow beyond it.
  fetch_lem :
      (t : Tables S) (args : List (List ℕ)) (c : Cursor S)
      → c.pos < length args
      → ((fetch t args c).pos ≡ c.pos)
        × (length (fetch t args c).opt + weight (drop (c.pos + 1) args) ≤ left args c)
        × (weight (drop (c.pos + 1) args) < left args c)
  unfolding fetch
  fetch_lem t args c h =
      let text = get_or args c.pos [] in
      let next = ap (λ (k : ℕ). weight (drop k args)) (add_one c.pos) in
      elim (Bool-cases (length c.opt == 0)) [
        | inl z ↦ rw z (
          refl,
          omega (
            arith,
            weight_step c.pos args h,
            next,
            length-trim_le text,
            length-remove_prefix (length (prefix (trim text))) (trim text),
          ),
          omega (arith, next, weight_step c.pos args h),
        )
        | inr z ↦
            let some_left : 0 < length c.opt = ground (arith, z) in
            rw z (refl, omega arith, omega arith)
      ]

  Past-left :
      (args : List (List ℕ)) (pos size bound : ℕ) (n : Cursor S)
      → size + weight (drop (pos + 1) args) ≤ bound
      → weight (drop (pos + 1) args) < bound
      → Past pos size n
      → left args n < bound
  Past-left args pos size bound n h k (inl (e, l)) = rw (ap length e) (
      omega (
        arith,
        weight-drop_le (n.pos - (pos + 1)) (pos + 1) args,
        ap (λ (p : ℕ). weight (drop p args)) (reach (pos + 1) n.pos l),
      ))
  Past-left args pos size bound n h k (inr (e, z, l)) =
      let nonempty : (length n.opt == 0) ≡ false = ground (arith, z) in
      rw (nonempty, e) (omega arith)

  go_on :
      (fuel : ℕ) (t : Tables S) (args : List (List ℕ)) (P : Cursor S → Type 0) (step : Step S)
      → Goes P step
      → ((n : Cursor S) (s : S) → P n → parse_loop fuel t args n s ≢ stuck)
      → (elim step as (λ x. Outcome S) [
        | continued c' s' ↦ parse_loop fuel t args c' s'
        | broke pos s' ↦ done pos s'
        | raised err s' ↦ failed err s'
      ])
        ≢ stuck
  go_on fuel t args P (continued n s) h k e = k n s h e
  go_on fuel t args P (broke pos s) h k e = cc
  go_on fuel t args P (raised err s) h k e = cc

  -- Enough fuel for `parse_loop` is the size of what is left to read.
  pub parse_loop-left :
      (fuel : ℕ) (t : Tables S) (args : List (List ℕ)) (c : Cursor S) (s : S)
      → JoinedUnknown t.unknown
      → left args c ≤ fuel
      → parse_loop fuel t args c s ≢ stuck
  unfolding parse_loop
  parse_loop-left zero t args c s j h = elim (Bool-cases (ltb c.pos (length args))) [
    | inl b ↦ let (_, _, less) = fetch_lem t args c (ltb→lt _ _ b) in absurd (omega arith)
    | inr b ↦ rw b (λ e. cc)
  ]
  parse_loop-left (suc fuel) t args c s j h = elim (Bool-cases (ltb c.pos (length args))) [
    | inl b ↦
        let (same, within, less) = fetch_lem t args c (ltb→lt _ _ b) in
        rw b (
          go_on fuel t args _ (round t args c s) (round-Past t args c s j) (λ n s' p.
            parse_loop-left fuel t args n s' j (
              omega (
                arith,
                Past-left args c.pos _ (left args c) n within less
                    (subst (λ (k : ℕ). Past k (length (fetch t args c).opt) n) same p),
              ))))
    | inr b ↦ rw b (λ e. cc)
  ]

  -- A unit of fuel for each argument and one for each of its characters is enough for `parse`, unless
  -- the handler for unknown options takes an argument that it wants separate.
  pub parse-weight :
      (options : List (OptionDef S)) (args : List (List ℕ)) (pos : ℕ) (s : S)
      → JoinedUnknown (build options no_tables).unknown
      → parse (weight args) options args pos s ≢ stuck
  unfolding parse
  parse-weight options args pos s j =
      parse_loop-left (weight args) (build options no_tables) args _ s j
        (weight-drop_front pos args)
