-- ===== src/Option/Progress/Steps.antt =====
-- How far an option, its argument and the call of its handler move the cursor of Option::parse.
use wrutil.Common.{
  ℕ, zero, suc, ◌+◌, ◌≤◌, ◌<◌, ltb, ◌==◌, if◌then◌else◌, ◌≡◌, refl, ap, ◌∙◌, arith, Bool, true,
  false, not, ◌&&◌, Bool-cases, ◌⊎◌, inl, inr, Option, none, some, List, [], ◌++◌, length, drop,
}
use wrutil.StringView.{remove_prefix}
use wrutil.Option.Table.{
  call, name_error, unknown_option, missing_argument, allows_empty_arg, Reply, stop, proceed, throw,
  OptionDef, takes_arg, separate_arg_only, arg_is_optional, joined_arg_only, Entry,
}
use wrutil.Option.Setup.{Tables}
use wrutil.Option.Choose.{Cursor, Taken, Attempt, took, refused, Step, continued, broke, raised}
use wrutil.Option.Parse.{
  take_arg, perform, perform_positional, enter, after_call, bare, take_separate, is_delimiter_end,
}
use wrutil.Option.Progress.Texts.{length-nil, Shorter}

module _ {S : Type 0} where
  -- If the loop goes on, it does so with a cursor that has the property.
  abbrev pub Goes : (Cursor S → Type 0) → Step S → Type 0
  Goes P (continued n s) = P n
  Goes P (broke pos s) = Unit
  Goes P (raised err s) = Unit

  -- The cursor `n` is past the argument `pos`, or it is in it with fewer than `size` characters left.
  abbrev pub Past : ℕ → ℕ → Cursor S → Type 0
  Past pos size n =
      ((n.opt ≡ []) × (pos + 1 ≤ n.pos))
      ⊎ ((n.pos ≡ pos) × (0 < length n.opt) × (length n.opt < size))

  after_call-Goes :
      (P : Cursor S → Type 0) (full arg : List ℕ) (u : Bool) (c : Cursor S) (r : Reply) (s : S)
      → P c
      → ((k : ℕ) → P (record c { pos = c.pos + suc k; opt = [] }))
      → Goes P (after_call full arg u c (r, s))
  unfolding after_call
  after_call-Goes P full arg true c stop s h k = tt
  after_call-Goes P full arg false c stop s h k = tt
  after_call-Goes P full arg u c (proceed zero) s h k = h
  after_call-Goes P full arg u c (proceed (suc j)) s h k = k j
  after_call-Goes P full arg u c (throw e) s h k = tt

  -- The argument is taken at the cursor or behind it, and what it leaves of the text is nothing or
  -- all of it; all of it only for an option whose argument is not joined.
  abbrev Takes : Cursor S → Entry S → Attempt S → Type 0
  Takes c e (took t) =
      (c.pos ≤ t.at)
      × ((t.rest ≡ [])
          ⊎ ((t.at ≡ c.pos)
              × (t.rest ≡ c.opt)
              × ((takes_arg e.opt && not (separate_arg_only e.opt)) ≡ false)))
  Takes c e (refused err) = Unit

  delimiter_end :
      (unknown : Option (OptionDef S)) (c : Cursor S) (e : Entry S)
      → Takes c e (elim unknown as (λ o. Attempt S) [
        | some o ↦ bare (record { stem = []; opt = o }) true (c.pos + 1) []
        | none ↦ refused (unknown_option c.full_opt [])
      ])
  delimiter_end none c e = tt
  delimiter_end (some o) c e = (omega arith, inl refl)

  optional_bare :
      (c : Cursor S) (e : Entry S) (u : Bool)
      → Takes c e (
          if arg_is_optional e.opt
          then bare e u c.pos []
          else refused (missing_argument c.full_opt []))
  optional_bare c e u = elim (Bool-cases (arg_is_optional e.opt)) [
    | inl o ↦ rw o (omega arith, inl refl)
    | inr o ↦ rw o tt
  ]

  take_separate-Takes :
      (t : Tables S) (args : List (List ℕ)) (c : Cursor S) (e : Entry S) (u : Bool)
      → Takes c e (take_separate t args c e u)
  unfolding take_separate
  take_separate-Takes t args c e u = elim (Bool-cases (is_delimiter_end e)) [
    | inl d ↦ elim (Bool-cases (arg_is_optional e.opt)) [
      | inl o ↦ rw (d, o) (omega arith, inl refl)
      | inr o ↦ rw (d, o) (delimiter_end t.unknown c e)
    ]
    | inr d ↦ elim (Bool-cases (ltb (c.pos + 1) (length args))) [
      | inl l ↦ rw (d, l) (omega arith, inl refl)
      | inr l ↦ rw (d, l) (optional_bare c e u)
    ]
  ]

  take_arg-Takes :
      (t : Tables S) (args : List (List ℕ)) (c : Cursor S) (e : Entry S) (u : Bool)
      → Takes c e (take_arg t args c e u)
  unfolding take_arg
  take_arg-Takes t args c e u = elim (Bool-cases (takes_arg e.opt)) [
    | inl k ↦ elim (Bool-cases (length c.opt == 0)) [
      | inl z ↦ elim (Bool-cases (joined_arg_only e.opt)) [
        | inl j ↦ rw (k, z, j) (optional_bare c e u)
        | inr j ↦ rw (k, z, j) (take_separate-Takes t args c e u)
      ]
      | inr z ↦ elim (Bool-cases (separate_arg_only e.opt)) [
        | inl a ↦ rw (k, z, a) (omega arith, inr (refl, refl, rw (k, a) refl))
        | inr a ↦ rw (k, z, a) (omega arith, inl refl)
      ]
    ]
    | inr k ↦ rw k (omega arith, inr (refl, refl, rw k refl))
  ]

  -- A call moves past the argument, or it goes on with the text that was left.
  perform-Past :
      (args : List (List ℕ)) (c : Cursor S) (taken : Taken S) (s : S) (size : ℕ)
      → c.pos ≤ taken.at
      → (taken.rest ≡ []) ⊎ ((taken.at ≡ c.pos) × (length taken.rest < size))
      → Goes (Past c.pos size) (perform args c taken s)
  unfolding perform
  perform-Past args c taken s size h r =
      elim (Bool-cases
        (taken.have_arg && length taken.arg == 0 && not (allows_empty_arg taken.entry.opt))) [
          | inl b ↦ rw b tt
          | inr b ↦ elim (Bool-cases (length taken.rest == 0)) [
            | inl z ↦
                rw (b, z)
                  (after_call-Goes (Past c.pos size) _ _ _ _ _ _
                    (inl (length-nil _ (ground (arith, z)), omega arith))
                    (λ k. inl (refl, omega arith)))
            | inr z ↦
                rw (b, z)
                  (after_call-Goes (Past c.pos size) _ _ _ _ _ _
                    (elim r [
                      | inl e ↦ absurd (ground (arith, z, ap length e))
                      | inr (e, l) ↦ inr (e, ground (arith, z), l)
                    ])
                    (λ k. inl (refl, omega arith)))
          ]
        ]

  -- Behind the name of an option whose argument is not joined there is less text than before.
  abbrev pub Cuts : Cursor S → Entry S → Type 0
  Cuts c e =
      (takes_arg e.opt && not (separate_arg_only e.opt)) ≡ false
      → Shorter (remove_prefix (length e.stem) c.opt) c.opt

  attempt-Past :
      (args : List (List ℕ)) (c c' : Cursor S) (e : Entry S) (full : List ℕ) (s : S) (a : Attempt S)
      → c'.pos ≡ c.pos
      → c'.opt ≡ remove_prefix (length e.stem) c.opt
      → Cuts c e
      → Takes c' e a
      → Goes (Past c'.pos (length c.opt)) (elim a as (λ x. Step S) [
        | took taken ↦ perform args c' taken s
        | refused err ↦ raised (name_error full [] err) s
      ])
  attempt-Past args c c' e full s (took taken) p o cut (h, inl r) =
      perform-Past args c' taken s _ h (inl r)
  attempt-Past args c c' e full s (took taken) p o cut (h, inr (same, rest, f)) = elim (cut f) [
    | inl empty ↦ perform-Past args c' taken s _ h (inl (rest ∙ o ∙ empty))
    | inr less ↦ perform-Past args c' taken s _ h (inr (same, rw (rest, o) less))
  ]
  attempt-Past args c c' e full s (refused err) p o cut h = tt

  pub enter-Past :
      (t : Tables S) (args : List (List ℕ)) (c : Cursor S) (e : Entry S) (u : Bool) (s : S)
      → Cuts c e
      → Goes (Past c.pos (length c.opt)) (enter t args c e u s)
  unfolding enter
  enter-Past t args c e u s cut =
      let c' : Cursor S = record c {
        full_opt = c.pfx ++ e.stem;
        opt = remove_prefix (length e.stem) c.opt;
      } in
      attempt-Past args c c' e _ s _ refl refl cut (take_arg-Takes t args c' e u)

  positional_call :
      (P : Cursor S → Type 0) (nonopt : Option (OptionDef S)) (c : Cursor S) (args : List (List ℕ))
      (s : S)
      → P (record c { pos = c.pos + 1; opt = [] })
      → ((k : ℕ) → P (record c { pos = c.pos + 1 + suc k; opt = [] }))
      → Goes P (elim nonopt as (λ x. Step S) [
        | none ↦ continued (record c { pos = c.pos + 1; opt = [] }) s
        | some o ↦
            after_call c.full_opt c.opt false
              (record c { pos = c.pos + 1; opt = [] })
              (call o [] c.opt (drop (c.pos + 1) args) s)
      ])
  positional_call P none c args s h k = h
  positional_call P (some o) c args s h k = after_call-Goes P _ _ _ _ _ _ h k

  pub perform_positional-Past :
      (t : Tables S) (args : List (List ℕ)) (c : Cursor S) (size : ℕ) (s : S)
      → Goes (Past c.pos size) (perform_positional t args c s)
  unfolding perform_positional
  perform_positional-Past t args c size s =
      positional_call (Past c.pos size) t.nonopt c args s (inl (refl, omega arith))
        (λ k. inl (refl, omega arith))
