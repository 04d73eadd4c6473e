-- ===== src/Option/Progress/Choices.antt =====
-- How far a round of Option::parse moves the cursor, for each entry that it may find.
use mathlib.Core.Path.{subst}
use mathlib.Core.Option.{some-injective}
use wrutil.Common.{
  ℕ, ◌-◌, min, ◌==◌, if◌then◌else◌, ◌≡◌, ◌≢◌, refl, sym, ◌∙◌, arith, Bool, true, false, not, ◌&&◌,
  ◌||◌, Bool-cases, inl, inr, Option, none, some, List, [], ◌∷◌, ◌++◌, length, length-take, drop,
}
use wrutil.StringView.{has_prefix, part, remove_prefix}
use wrutil.Option.Table.{
  name_error, unknown_option, OptionDef, takes_arg, separate_arg_only, Entry, match, find_entry,
  Group,
}
use wrutil.Option.Setup.{Tables}
use wrutil.Option.Choose.{
  Cursor, Choice, known, handled_unknown, positional, rejected, Step, raised, fetch, unknown_stem,
  choose_unknown, choose_in, choose,
}
use wrutil.Option.Parse.{perform_positional, enter, round}
use wrutil.Option.Progress.Texts.{length-nil, length-remove_prefix, behind_needle}
use wrutil.Option.Progress.Steps.{Goes, Past, Cuts, enter-Past, perform_positional-Past}

inexact :
    (p t a exact other : Bool)
    → exact ≡ false
    → (t && not a) ≡ false
    → (if not p then false else if not t || a then (if exact then true else false) else other)
      ≡ true
    → ⊥
inexact false t a exact other q f h = cc
inexact true t a true other q f h = cc
inexact true true true false other q f h = cc
inexact true true false false other q f h = cc
inexact true false a false other q f h = cc

true≢false : true ≢ false
true≢false h = cc

module _ {S : Type 0} where
  -- The handler for unknown options, if there is one, does not want its argument separate.
  abbrev pub JoinedUnknown : Option (OptionDef S) → Type 0
  JoinedUnknown none = Unit
  JoinedUnknown (some o) = (takes_arg o && separate_arg_only o) ≡ false

  find_entry-match :
      (es : List (Entry S)) (stem : List ℕ) (delim : ℕ) (e : Entry S)
      → find_entry es stem delim ≡ some e
      → match e stem delim ≡ true
  unfolding find_entry
  find_entry-match [] stem delim e h = cc
  find_entry-match (x ∷ es) stem delim e h = elim (Bool-cases (match x stem delim)) [
    | inl m ↦ subst (λ (t : Entry S). match t stem delim ≡ true) (some-injective x e (rw m at h)) m
    | inr m ↦ find_entry-match es stem delim e (rw m at h)
  ]

  -- An entry that leaves text behind its name matches exactly.
  match_exact :
      (e : Entry S) (stem : List ℕ)
      → (takes_arg e.opt && not (separate_arg_only e.opt)) ≡ false
      → match e stem 0 ≡ true
      → length stem ≡ length e.stem
  unfolding match
  match_exact e stem f h = elim (Bool-cases (length stem == length e.stem)) [
    | inl q ↦ ground (arith, q)
    | inr q ↦
        absurd
          (inexact (has_prefix stem e.stem) (takes_arg e.opt) (separate_arg_only e.opt) _ _ q f h)
  ]

  abbrev Chosen : Cursor S → Choice S → Type 0
  Chosen c (known e) = Cuts c e
  Chosen c (handled_unknown e) = Cuts c e
  Chosen c positional = Unit
  Chosen c (rejected err) = Unit

  unknown_whole :
      (o : OptionDef S) (short : Bool) (opt : List ℕ)
      → (takes_arg o && separate_arg_only o) ≡ false
      → (takes_arg o && not (separate_arg_only o)) ≡ false
      → remove_prefix (length (unknown_stem short o opt)) opt ≡ []
  unfolding unknown_stem
  unknown_whole o short opt j f = elim (Bool-cases (takes_arg o)) [
    | inl k ↦ elim (Bool-cases (separate_arg_only o)) [
      | inl a ↦ absurd (true≢false (sym (rw (k, a) refl) ∙ j))
      | inr a ↦ absurd (true≢false (sym (rw (k, a) refl) ∙ f))
    ]
    | inr k ↦ rw k (
        length-nil _ (
          omega (
            arith,
            length-remove_prefix (length (part 0 (length opt) opt)) opt,
            length-take (min (length opt) (length opt - 0)) (drop 0 opt),
          )))
  ]

  unknown-Chosen :
      (unknown : Option (OptionDef S)) (c : Cursor S) (short : Bool)
      → JoinedUnknown unknown
      → Chosen c (elim unknown as (λ x. Choice S) [
        | some o ↦ handled_unknown (record { stem = unknown_stem short o c.opt; opt = o })
        | none ↦ rejected (unknown_option (c.pfx ++ c.opt) [])
      ])
  unknown-Chosen none c short j = tt
  unknown-Chosen (some o) c short j = λ f. inl (unknown_whole o short c.opt j f)

  found-Chosen :
      (t : Tables S) (c : Cursor S) (short : Bool) (result : Option (Entry S))
      → JoinedUnknown t.unknown
      → ((e : Entry S) → result ≡ some e → Cuts c e)
      → Chosen c (elim result as (λ x. Choice S) [
        | some e ↦ known e
        | none ↦ if length c.pfx == 0 then positional else choose_unknown t c short
      ])
  unfolding choose_unknown
  found-Chosen t c short none j h = elim (Bool-cases (length c.pfx == 0)) [
    | inl z ↦ rw z tt
    | inr z ↦ rw z (unknown-Chosen t.unknown c short j)
  ]
  found-Chosen t c short (some e) j h = h e refl

  choose_in-Chosen :
      (t : Tables S) (c : Cursor S) (g : Option (Group S))
      → JoinedUnknown t.unknown
      → Chosen c (choose_in t c g)
  unfolding choose_in
  choose_in-Chosen t c none j = elim (Bool-cases (length c.pfx == 0)) [
    | inl z ↦ rw z tt
    | inr z ↦ rw z tt
  ]
  choose_in-Chosen t c (some g) j = found-Chosen t c g.short_only _ j (λ e found f.
      behind_needle g.short_only c.opt e.stem
        (match_exact e _ f (find_entry-match g.entries _ 0 e found)))

  followed-Past :
      (t : Tables S) (args : List (List ℕ)) (c : Cursor S) (s : S) (choice : Choice S)
      → Chosen c choice
      → Goes (Past c.pos (length c.opt)) (elim choice as (λ x. Step S) [
        | known e ↦ enter t args c e false s
        | handled_unknown e ↦ enter t args c e true s
        | positional ↦ perform_positional t args c s
        | rejected err ↦ raised (name_error c.full_opt [] err) s
      ])
  followed-Past t args c s (known e) h = enter-Past t args c e false s h
  followed-Past t args c s (handled_unknown e) h = enter-Past t args c e true s h
  followed-Past t args c s positional h = perform_positional-Past t args c _ s
  followed-Past t args c s (rejected err) h = tt

  pub round-Past :
      (t : Tables S) (args : List (List ℕ)) (c : Cursor S) (s : S)
      → JoinedUnknown t.unknown
      → Goes (Past (fetch t args c).pos (length (fetch t args c).opt)) (round t args c s)
  unfolding round
  round-Past t args c s j =
      let c' = fetch t args c in
      followed-Past t args c' s (choose t c') (unfold choose in choose_in-Chosen t c' c'.group j)
