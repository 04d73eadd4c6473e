-- ===== src/Format/Print.antt =====
-- Target::format, convert and print, over any target.
pub mod Percent
pub mod Decimal
pub mod Termination
pub mod Endings
pub mod Unargued
use wrutil.Common.{
  ℕ, zero, suc, ◌+◌, ◌==◌, leb, min, if◌then◌else◌, Bool, true, false, Option, none, some, List, [],
  ◌∷◌, ◌++◌, length,
}
use wrutil.Format.{
  Text, Flags, Params, Arg, void_t, int_t, uint_t, dbl_t, str_t, pint_t, other_t, FormatFn, Error,
  invalid, range, Outcome, done, failed, undefined, stuck, ◌>>=◌, Field, no_field, Host,
}
use wrutil.Format.Digits.{to_hex_bin}
use wrutil.Format.Fields.{buf_size, converted, int_field, double_field, string_field}
use wrutil.Format.Layout.{Chunk, layout}
use wrutil.Format.Spec.{first, tail, Index, next, explicit, Parse, parse_spec}
use wrutil.Format.Targets.{Target, put_chunks}

-- The target, and what `%n` has stored: an address and a value each time.
pub record State (S : Type 0) : Type 0 where
  pub target : S
  pub stores : List (ℕ × ℕ)

abbrev params_of : Parse → Params
params_of p = record { flags = p.flags; width = p.width; precis = p.precis; conv = first p.spec }

module _ {S : Type 0} (target : Target S) (host : Host) where
  abbrev pub on_target : Outcome S → List (ℕ × ℕ) → Outcome (State S)
  on_target r stores = r >>= λ s. done (record { target = s; stores = stores })

  -- The part behind the switches; `conv` chooses the fill character.
  unfoldable pub put_field : Params → ℕ → Outcome Field → State S → Outcome (State S)
  put_field p conv field s = do
    f ← field
    on_target (put_chunks target (layout p.flags p.width conv f) s.target) s.stores

  -- `convIntPtr`
  unfoldable pub format_pointer : Params → ℕ → Bool → ℕ → ℕ → State S → Outcome (State S)
  unfolding put_field
  format_pointer p most signed address w s =
      if address == 0
      then failed invalid
      else if p.conv == b'p'
      then put_field p p.conv (int_field host p p.conv false address) s
      else if p.conv == b'n'
      then (if leb (target.count s.target) most
          then done
              (record { target = s.target; stores = (address, target.count s.target) ∷ s.stores })
          else failed range)
      else put_field p p.conv (int_field host p p.conv signed w) s

  abbrev result_of : Text × Bool → State S → Outcome (State S)
  result_of (t, true) s = on_target (target.put_text t s.target) s.stores
  result_of (t, false) s = failed invalid

  -- The case `OTHER_T`. A formatter writes to the target and may set errno.
  unfoldable pub format_other : Params → ℕ → Option FormatFn → State S → Outcome (State S)
  unfolding put_field
  format_other p address f s =
      if p.conv == b'p'
      then put_field p p.conv
          (converted
            (to_hex_bin (record p.flags { alt_form = true }) p.precis p.conv address buf_size))
          s
      else elim f [ none ↦ failed invalid | some g ↦ result_of (g p) s ]

  unfoldable pub format_arg : Params → Arg → State S → Outcome (State S)
  unfolding put_field format_pointer format_other
  format_arg p void_t s = failed invalid
  format_arg p (int_t w) s = put_field p p.conv (int_field host p p.conv true w) s
  format_arg p (uint_t w) s = put_field p p.conv (int_field host p p.conv false w) s
  format_arg p (dbl_t bits) s = put_field p p.conv (double_field host p bits) s
  format_arg p (str_t t) s = put_field p p.conv (string_field host p p.conv t) s
  format_arg p (pint_t most signed address w) s = format_pointer p most signed address w s
  format_arg p (other_t address f) s = format_other p address f s

  -- `Target::format`; without an argument `%m` alone is formatted.
  unfoldable pub format : Params → Option Arg → State S → Outcome (State S)
  unfolding format_arg
  format p arg s =
      if p.conv == b'm'
      then put_field p b's' (string_field host p b's' host.error_text) s
      else elim arg [
        | none ↦ if p.conv == b'n' then done s else failed invalid
        | some a ↦ format_arg p a s
      ]

  -- `++spec` behind the conversion character; at the end of the text it leaves the terminating zero
  -- behind, and `print` reads on from there.
  abbrev pub past : Text → Outcome Text
  past [] = undefined
  past (c ∷ t) = done t

  -- `convert`, with the text behind the specification
  unfoldable pub convert : List Arg → Index → Text → State S → Outcome (State S × Index × Text)
  unfolding format
  convert args index spec s = do
    p ← parse_spec host args index spec
    s' ← format (params_of p) p.arg s
    rest ← past p.spec
    done (s', p.index, rest)

  -- The text in front of the next per cent sign, and what begins there.
  abbrev pub until_percent : Text → Text × Text
  until_percent [] = ([], [])
  until_percent (c ∷ t) =
      if c == b'%' then ([], c ∷ t) else (c ∷ (until_percent t).0, (until_percent t).1)

  abbrev put_nonempty : Text → S → Outcome S
  put_nonempty [] s = done s
  put_nonempty (c ∷ t) s = target.put_text (c ∷ t) s

  -- The loop of `print`. Behind `%%` the position stays at the second sign.
  unfoldable pub print_loop : List Arg → ℕ → Index → Text → State S → Outcome (State S)
  unfolding convert
  print_loop args fuel index [] s = done s
  print_loop args zero index (c ∷ t) s = stuck
  print_loop args (suc fuel) index (c ∷ t) s = do
    let parts = until_percent (c ∷ t)
    s1 ← on_target (put_nonempty parts.0 s.target) s.stores
    let spec = tail parts.1
    let doubled = (do
      s2 ← on_target (target.put b'%' s1.target) s1.stores
      print_loop args fuel index spec s2)
    let converted_one = (do
      out ← convert args index spec s1
      print_loop args fuel out.1 out.2 out.0)
    if first parts.1 == b'%'
        then if first spec == b'%'
          then doubled
          else if first spec == 0
          then done s1
          else converted_one
        else done s1

  -- `print`: what it returns is the number of characters, and at most the greatest integer.
  unfoldable pub print : List Arg → Text → S → Outcome (State S × ℕ)
  unfolding print_loop
  print args fmt s = do
    out ←
        print_loop args (suc (length fmt)) (next 0) fmt
          (record { target = target.begin s; stores = [] })
    end ← target.finish out.target
    done (record { target = end; stores = out.stores }, min (target.count end) 0x7fffffffffffffff)
