-- ===== src/Option/SubProgress.antt =====
-- Fuel for the loop of Option::parseSubOptions, and the position that it returns.
use wrutil.Common.{
  ℕ, zero, suc, ◌+◌, ◌-◌, ◌≤◌, ◌<◌, min, ltb, ◌==◌, if◌then◌else◌, arith, Bool, true, false, not,
  ◌&&◌, Bool-cases, inl, inr, Option, none, some, List, [], ◌∷◌, length, length-take, length-drop,
  drop, codes,
}
use wrutil.StringView.{
  npos, part, trim, remove_prefix, find_first_of, find_char, substr, split_char,
}
use wrutil.Option.Table.{
  unknown_option, invalid_argument, Reply, stop, proceed, throw, OptionDef, arg_required,
  allows_empty_arg, Entry, find_entry,
}
use wrutil.Option.SubOptions.{
  SubTables, SubOutcome, read_to, sub_failed, range_error, sub_stuck, SubStep, next, halted,
  sub_raised, out_of_range, Cut, build_sub, no_sub_tables, cut_arg, skip_to, after_sub_call,
  perform_sub, enter_sub, sub_round, sub_loop, parse_sub_options,
}
use wrutil.Option.Progress.Texts.{length-trim_le, length-remove_prefix}

-- The part behind the separator is not longer than the text.
length-split_char_le : (sep : ℕ) (v : List ℕ) → length (split_char sep v).1 ≤ length v
unfolding split_char
length-split_char_le sep v = elim (Bool-cases (find_char sep 0 v == npos)) [
  | inl h ↦ rw h (omega arith)
  | inr h ↦ rw h (
      omega (
        arith,
        length-take (min (length v - find_char sep 0 v - 1) (length v - (find_char sep 0 v + 1)))
            (drop (find_char sep 0 v + 1) v),
        length-drop (find_char sep 0 v + 1) v,
      ))
]

-- A view that is there has at most so many units.
abbrev Fits : ℕ → Option (List ℕ) → Type 0
Fits size none = Unit
Fits size (some v) = length v ≤ size

substr-Fits : (pos : ℕ) (v : List ℕ) → Fits (length v - pos) (substr pos npos v)
unfolding substr
substr-Fits pos v = elim (Bool-cases (ltb (length v) pos)) [
  | inl l ↦ rw l tt
  | inr l ↦ rw l (omega (arith, length-take (min npos (length v - pos)) (drop pos v)))
]

module _ {S : Type 0} where
  -- The round leaves fewer than `size` characters.
  abbrev Less : ℕ → SubStep S → Type 0
  Less size (next rest s) = length rest < size
  Less size (halted rest s) = length rest < size
  Less size (sub_raised err s) = Unit
  Less size (out_of_range s) = Unit

  skipped-Less :
      (size : ℕ) (content : Option (List ℕ)) (s : S) (bound : ℕ)
      → Fits bound content
      → bound < size
      → Less size (elim content as (λ x. SubStep S) [
        | none ↦ out_of_range s
        | some rest ↦ next (trim (split_char b',' rest).1) s
      ])
  skipped-Less size none s bound f h = tt
  skipped-Less size (some v) s bound f h =
      omega (arith, length-trim_le (split_char b',' v).1, length-split_char_le b',' v)

  skip_to-Less :
      (size result : ℕ) (content : List ℕ) (s : S)
      → length content < size
      → Less size (skip_to result content s)
  unfolding skip_to
  skip_to-Less size result content s h =
      skipped-Less size (substr result npos content) s (length content - result)
        (substr-Fits result content) (omega arith)

  after_sub_call-Less :
      (size : ℕ) (opt sub : List ℕ) (u : Bool) (k : Cut S) (r : Reply) (s : S)
      → length k.content < size
      → Less size (after_sub_call opt sub u k (r, s))
  unfolding after_sub_call
  after_sub_call-Less size opt sub true k stop s h = tt
  after_sub_call-Less size opt sub false k stop s h = h
  after_sub_call-Less size opt sub u k (proceed zero) s h = elim (Bool-cases k.have_arg) [
    | inl a ↦ rw a (skip_to-Less size 0 k.content s h)
    | inr a ↦ rw a h
  ]
  after_sub_call-Less size opt sub u k (proceed (suc n)) s h =
      skip_to-Less size (suc n) k.content s h
  after_sub_call-Less size opt sub u k (throw e) s h = tt

  perform_sub-Less :
      (size : ℕ) (opt sub : List ℕ) (o : OptionDef S) (u : Bool) (k : Cut S) (s : S)
      → length k.content < size
      → Less size (perform_sub opt sub o u k s)
  unfolding perform_sub
  perform_sub-Less size opt sub o u k s h =
      elim (Bool-cases (k.have_arg && not (allows_empty_arg o) && length k.arg == 0)) [
        | inl a ↦ rw a tt
        | inr a ↦ elim (Bool-cases (not k.have_arg && arg_required o)) [
          | inl b ↦ rw (a, b) tt
          | inr b ↦ rw (a, b) (after_sub_call-Less size opt sub u k _ _ h)
        ]
      ]

  cut_arg_less :
      (o : OptionDef S) (v : List ℕ) (size : ℕ)
      → length v ≤ size
      → 0 < size
      → length (cut_arg o v).content < size
  unfolding cut_arg
  cut_arg_less o [] size h k = k
  cut_arg_less o (c ∷ v) size h k = elim (Bool-cases (c == b',')) [
    | inl d ↦
        rw d
          (omega (arith, length-trim_le (remove_prefix 1 (c ∷ v)), length-remove_prefix 1 (c ∷ v)))
    | inr d ↦
        rw d
          (omega (arith, length-trim_le (remove_prefix 1 (c ∷ v)), length-remove_prefix 1 (c ∷ v)))
  ]

  enter_sub-Less :
      (opt sub : List ℕ) (o : OptionDef S) (u : Bool) (delim_pos c : ℕ) (v : List ℕ) (s : S)
      → Less (length (c ∷ v)) (enter_sub opt sub o u delim_pos (c ∷ v) s)
  unfolding enter_sub
  enter_sub-Less opt sub o u delim_pos c v s = perform_sub-Less (length (c ∷ v)) opt sub o u _ s (
      cut_arg_less o (remove_prefix (min delim_pos npos) (c ∷ v)) (length (c ∷ v))
        (omega (arith, length-remove_prefix (min delim_pos npos) (c ∷ v))) (omega arith))

  found-Less :
      (column : ℕ → List ℕ) (unknown : Option (OptionDef S)) (opt opt_arg sub : List ℕ)
      (delim_pos c : ℕ) (v : List ℕ) (s : S) (found : Option (Entry S))
      → Less (length (c ∷ v)) (elim found as (λ x. SubStep S) [
        | some e ↦ enter_sub opt sub e.opt false delim_pos (c ∷ v) s
        | none ↦
            if length sub == 0
            then sub_raised
                (invalid_argument opt [] opt_arg (column (length opt_arg - length (c ∷ v) + 1)))
                s
            else elim unknown as (λ x. SubStep S) [
              | some o ↦ enter_sub opt sub o true delim_pos (c ∷ v) s
              | none ↦ sub_raised (unknown_option opt sub) s
            ]
      ])
  found-Less column unknown opt opt_arg sub delim_pos c v s (some e) =
      enter_sub-Less opt sub e.opt false delim_pos c v s
  found-Less column none opt opt_arg sub delim_pos c v s none =
      elim (Bool-cases (length sub == 0)) [ inl z ↦ rw z tt | inr z ↦ rw z tt ]
  found-Less column (some o) opt opt_arg sub delim_pos c v s none =
      elim (Bool-cases (length sub == 0)) [
        | inl z ↦ rw z tt
        | inr z ↦ rw z (enter_sub-Less opt sub o true delim_pos c v s)
      ]

  sub_round-Less :
      (column : ℕ → List ℕ) (t : SubTables S) (opt opt_arg : List ℕ) (c : ℕ) (v : List ℕ) (s : S)
      → Less (length (c ∷ v)) (sub_round column t opt opt_arg (c ∷ v) s)
  unfolding sub_round
  sub_round-Less column t opt opt_arg c v s =
      let delim_pos = find_first_of (codes ",:=") 0 (c ∷ v) in
      let sub = trim (part 0 delim_pos (c ∷ v)) in
      found-Less column t.unknown opt opt_arg sub delim_pos c v s (find_entry t.group.entries sub 0)

  -- The loop ended, and the position that it returned lies between the two.
  abbrev pub EndsWithin : ℕ → ℕ → SubOutcome S → Type 0
  EndsWithin low high (read_to pos s) = (low ≤ pos) × (pos ≤ high)
  EndsWithin low high (sub_failed err s) = Unit
  EndsWithin low high (range_error s) = Unit
  EndsWithin low high sub_stuck = ⊥

  follow :
      (fuel : ℕ) (column : ℕ → List ℕ) (t : SubTables S) (opt opt_arg : List ℕ) (low size : ℕ)
      (step : SubStep S)
      → Less size step
      → low + size ≤ length opt_arg + 1
      → ((rest : List ℕ) (s : S)
          → length rest < size
          → EndsWithin low (length opt_arg) (sub_loop fuel column t opt opt_arg rest s))
      → EndsWithin low (length opt_arg) (elim step as (λ x. SubOutcome S) [
        | next rest s' ↦ sub_loop fuel column t opt opt_arg rest s'
        | halted rest s' ↦ read_to (length opt_arg - length rest) s'
        | sub_raised err s' ↦ sub_failed err s'
        | out_of_range s' ↦ range_error s'
      ])
  follow fuel column t opt opt_arg low size (next rest s) h k go = go rest s h
  follow fuel column t opt opt_arg low size (halted rest s) h k go = (omega arith, omega arith)
  follow fuel column t opt opt_arg low size (sub_raised err s) h k go = tt
  follow fuel column t opt opt_arg low size (out_of_range s) h k go = tt

  sub_loop-EndsWithin :
      (fuel : ℕ) (column : ℕ → List ℕ) (t : SubTables S) (opt opt_arg : List ℕ) (low : ℕ)
      (content : List ℕ) (s : S)
      → length content ≤ fuel
      → low + length content ≤ length opt_arg
      → EndsWithin low (length opt_arg) (sub_loop fuel column t opt opt_arg content s)
  unfolding sub_loop
  sub_loop-EndsWithin fuel column t opt opt_arg low [] s h k = (omega arith, omega arith)
  sub_loop-EndsWithin zero column t opt opt_arg low (c ∷ v) s h k = absurd (omega arith)
  sub_loop-EndsWithin (suc fuel) column t opt opt_arg low (c ∷ v) s h k =
      follow fuel column t opt opt_arg low (length (c ∷ v))
        (sub_round column t opt opt_arg (c ∷ v) s) (sub_round-Less column t opt opt_arg c v s)
        (omega arith)
        (λ rest s' l.
          sub_loop-EndsWithin fuel column t opt opt_arg low rest s' (omega arith) (omega arith))

  entered-EndsWithin :
      (fuel : ℕ) (column : ℕ → List ℕ) (t : SubTables S) (opt opt_arg : List ℕ) (pos : ℕ) (s : S)
      (content : Option (List ℕ))
      → Fits (length opt_arg - pos) content
      → length opt_arg ≤ fuel
      → EndsWithin
          (min pos (length opt_arg))
          (length opt_arg)
          (elim content as (λ x. SubOutcome S) [
            | none ↦ range_error s
            | some v ↦ sub_loop fuel column t opt opt_arg v s
          ])
  entered-EndsWithin fuel column t opt opt_arg pos s none f h = tt
  entered-EndsWithin fuel column t opt opt_arg pos s (some v) f h =
      sub_loop-EndsWithin fuel column t opt opt_arg (min pos (length opt_arg)) v s (omega arith)
        (omega arith)

  -- With a unit of fuel for each character of the argument the loop of `parse_sub_options` ends, and
  -- the position that it returns is not before the one that it began at, nor behind the end.
  pub parse_sub_options-EndsWithin :
      (fuel : ℕ) (column : ℕ → List ℕ) (options : List (OptionDef S)) (opt opt_arg : List ℕ)
      (pos : ℕ) (s : S)
      → length opt_arg ≤ fuel
      → EndsWithin
          (min pos (length opt_arg))
          (length opt_arg)
          (parse_sub_options fuel column options opt opt_arg pos s)
  unfolding parse_sub_options
  parse_sub_options-EndsWithin fuel column options opt opt_arg pos s h =
      entered-EndsWithin fuel column (build_sub options no_sub_tables) opt opt_arg pos s _
        (substr-Fits pos opt_arg) h
