-- ===== src/Format/Print/Termination.antt =====
-- The fuel of print is enough on every text, for a target whose functions have enough.
use wrutil.Common.{
  ℕ, zero, suc, ◌≤◌, ◌<◌, ◌==◌, leb, if◌then◌else◌, ◌≡◌, sym, arith, Bool, true, false, Option,
  none, some, List, [], ◌∷◌, length,
}
use mathlib.Core.Bool.{true≢false}
use wrutil.Format.{
  Text, Params, Arg, void_t, int_t, uint_t, dbl_t, str_t, pint_t, other_t, FormatFn, Outcome, done,
  failed, thrown, undefined, stuck, invalid, ◌>>=◌, Field, Host,
}
use wrutil.Format.Digits.Values.{stop_or_go}
use wrutil.Format.Fields.Endings.{
  Finishes, with_result, with_error, with_exception, with_undefined, branches, converted-Finishes,
  int_field-Finishes, double_field-Finishes, string_field-Finishes,
}
use wrutil.Format.Layout.{Chunk, one, many, layout}
use wrutil.Format.Spec.{first, tail, Index, next, Parse, parse_spec}
use wrutil.Format.Spec.Endings.{Ends}
use wrutil.Format.Spec.Termination.{parse_spec-Ends}
use wrutil.Format.Targets.{Target, put_chunks}
use wrutil.Format.Print.{
  State, params_of, on_target, put_field, format_pointer, result_of, format_other, format_arg,
  format, past, convert, until_percent, put_nonempty, print_loop, print,
}

pub Finishes-bind :
    {A B : Type 0} (r : Outcome A) (f : A → Outcome B)
    → Finishes r
    → ((a : A) → Finishes (f a))
    → Finishes (r >>= f)
Finishes-bind (done a) f h k = k a
Finishes-bind (failed e) f h k = with_error
Finishes-bind thrown f h k = with_exception
Finishes-bind undefined f h k = with_undefined
Finishes-bind stuck f h k = elim h [ ]

-- The step does not run out of fuel, and a result of it has a property.
abbrev Reaches : {A : Type 0} → (A → Type 0) → Outcome A → Type 0
Reaches P (done a) = P a
Reaches P (failed e) = Unit
Reaches P thrown = Unit
Reaches P undefined = Unit
Reaches P stuck = ⊥

Reaches-bind :
    {A B : Type 0} (P : A → Type 0) (Q : B → Type 0) (r : Outcome A) (f : A → Outcome B)
    → Reaches P r
    → ((a : A) → P a → Reaches Q (f a))
    → Reaches Q (r >>= f)
Reaches-bind P Q (done a) f h k = k a h
Reaches-bind P Q (failed e) f h k = tt
Reaches-bind P Q thrown f h k = tt
Reaches-bind P Q undefined f h k = tt
Reaches-bind P Q stuck f h k = absurd h

Ends-Reaches : {A : Type 0} (P : A → Type 0) (r : Outcome A) → Ends P r → Reaches P r
Ends-Reaches P (done a) h = h
Ends-Reaches P (failed e) h = tt
Ends-Reaches P thrown h = tt
Ends-Reaches P undefined h = tt
Ends-Reaches P stuck h = h

Finishes-Reaches : {A : Type 0} (r : Outcome A) → Finishes r → Reaches (λ (a : A). Unit) r
Finishes-Reaches (done a) h = tt
Finishes-Reaches (failed e) h = tt
Finishes-Reaches thrown h = tt
Finishes-Reaches undefined h = tt
Finishes-Reaches stuck h = elim h [ ]

Reaches-Finishes :
    {A B : Type 0} (P : A → Type 0) (r : Outcome A) (f : A → Outcome B)
    → Reaches P r
    → ((a : A) → P a → Finishes (f a))
    → Finishes (r >>= f)
Reaches-Finishes P (done a) f h k = k a h
Reaches-Finishes P (failed e) f h k = with_error
Reaches-Finishes P thrown f h k = with_exception
Reaches-Finishes P undefined f h k = with_undefined
Reaches-Finishes P stuck f h k = absurd h

pub shorter : (r : Text) {n : ℕ} → length r ≤ n → (first r == b'%') ≡ true → length (tail r) < n
shorter [] h e = absurd (true≢false (sym e))
shorter (c ∷ t) h e = omega (arith, h)

module _ {S : Type 0} (target : Target S) (host : Host) where
  pub length-until_percent : (t : Text) → length (until_percent target host t).1 ≤ length t
  length-until_percent [] = omega arith
  length-until_percent (c ∷ t) =
      stop_or_go (λ (r : Text × Text). length r.1 ≤ suc (length t)) (c == b'%') _ _
        (λ e. omega arith) (λ e. omega (arith, length-until_percent t))

-- The functions of a target do not run out of fuel.
pub record Calm {S : Type 0} (target : Target S) : Type 0 where
  pub put : (c : ℕ) (s : S) → Finishes (target.put c s)
  pub put_text : (t : Text) (s : S) → Finishes (target.put_text t s)
  pub finish : (s : S) → Finishes (target.finish s)

put_chunks-Finishes :
    {S : Type 0} (target : Target S)
    → Calm target
    → (cs : List Chunk) (s : S) → Finishes (put_chunks target cs s)
unfolding put_chunks
put_chunks-Finishes target calm [] s = with_result
put_chunks-Finishes target calm (one c ∷ cs) s =
    Finishes-bind (target.put c s) _ (calm.put c s) (put_chunks-Finishes target calm cs)
put_chunks-Finishes target calm (many t ∷ cs) s =
    Finishes-bind (target.put_text t s) _ (calm.put_text t s) (put_chunks-Finishes target calm cs)

module _ {S : Type 0} (target : Target S) (host : Host) (calm : Calm target) where
  on_target-Finishes :
      (r : Outcome S) (stores : List (ℕ × ℕ))
      → Finishes r
      → Finishes (on_target target host r stores)
  on_target-Finishes r stores h = Finishes-bind r _ h (λ s. with_result)

  put_field-Finishes :
      (p : Params) (conv : ℕ) (field : Outcome Field) (s : State S)
      → Finishes field
      → Finishes (put_field target host p conv field s)
  unfolding put_field
  put_field-Finishes p conv field s h = Finishes-bind field _ h (λ f.
      on_target-Finishes _ s.stores
        (put_chunks-Finishes target calm (layout p.flags p.width conv f) s.target))

  result_of-Finishes : (r : Text × Bool) (s : State S) → Finishes (result_of target host r s)
  result_of-Finishes (t, true) s = on_target-Finishes _ s.stores (calm.put_text t s.target)
  result_of-Finishes (t, false) s = with_error

  format_other-Finishes :
      (p : Params) (address : ℕ) (f : Option FormatFn) (s : State S)
      → Finishes (format_other target host p address f s)
  unfolding format_other
  format_other-Finishes p address f s =
      branches (p.conv == b'p') _ _ (put_field-Finishes p p.conv _ s (converted-Finishes _)) (own f)
    where
      own :
          (f : Option FormatFn)
          → Finishes (elim f [ none ↦ failed invalid | some g ↦ result_of target host (g p) s ])
      own none = with_error
      own (some g) = result_of-Finishes (g p) s

  format_pointer-Finishes :
      (p : Params) (most : ℕ) (signed : Bool) (address w : ℕ) (s : State S)
      → Finishes (format_pointer target host p most signed address w s)
  unfolding format_pointer
  format_pointer-Finishes p most signed address w s = branches (address == 0) _ _ with_error (
      branches (p.conv == b'p') _ _
        (put_field-Finishes p p.conv _ s (int_field-Finishes host p p.conv false address))
        (branches (p.conv == b'n') _ _
          (branches (leb (target.count s.target) most) _ _ with_result with_error)
          (put_field-Finishes p p.conv _ s (int_field-Finishes host p p.conv signed w))))

  format_arg-Finishes :
      (p : Params) (a : Arg) (s : State S) → Finishes (format_arg target host p a s)
  unfolding format_arg
  format_arg-Finishes p void_t s = with_error
  format_arg-Finishes p (int_t w) s =
      put_field-Finishes p p.conv _ s (int_field-Finishes host p p.conv true w)
  format_arg-Finishes p (uint_t w) s =
      put_field-Finishes p p.conv _ s (int_field-Finishes host p p.conv false w)
  format_arg-Finishes p (dbl_t bits) s =
      put_field-Finishes p p.conv _ s (double_field-Finishes host p bits)
  format_arg-Finishes p (str_t t) s =
      put_field-Finishes p p.conv _ s (string_field-Finishes host p p.conv t)
  format_arg-Finishes p (pint_t most signed address w) s =
      format_pointer-Finishes p most signed address w s
  format_arg-Finishes p (other_t address f) s = format_other-Finishes p address f s

  format-Finishes :
      (p : Params) (arg : Option Arg) (s : State S) → Finishes (format target host p arg s)
  unfolding format
  format-Finishes p arg s =
      branches (p.conv == b'm') _ _
        (put_field-Finishes p b's' _ s (string_field-Finishes host p b's' host.error_text))
        (own arg)
    where
      own :
          (arg : Option Arg)
          → Finishes (elim arg [
            | none ↦ if p.conv == b'n' then done s else failed invalid
            | some a ↦ format_arg target host p a s
          ])
      own none = branches (p.conv == b'n') _ _ with_result with_error
      own (some a) = format_arg-Finishes p a s

  -- A conversion takes at least its conversion character.
  convert-Reaches :
      (args : List Arg) (index : Index) (spec : Text) (s : State S)
      → Reaches
          (λ (out : State S × Index × Text). length out.2 < length spec)
          (convert target host args index spec s)
  unfolding convert
  convert-Reaches args index spec s =
      Reaches-bind (λ (p : Parse). length p.spec ≤ length spec) _ (parse_spec host args index spec)
        _
        (Ends-Reaches (λ (p : Parse). length p.spec ≤ length spec) _
          (parse_spec-Ends host args index spec))
        (λ p h.
          Reaches-bind (λ (a : State S). Unit) _ (format target host (params_of p) p.arg s) _
            (Finishes-Reaches _ (format-Finishes (params_of p) p.arg s))
            (λ s' u.
              Reaches-bind (λ t. length t < length spec) _ (past target host p.spec) _
                (past_shorter p.spec h) (λ t l. l)))
    where
      past_shorter :
          (t : Text)
          → length t ≤ length spec
          → Reaches (λ (u : Text). length u < length spec) (past target host t)
      past_shorter [] h = tt
      past_shorter (c ∷ t) h = omega (arith, h)

  put_nonempty-Finishes : (t : Text) (s : S) → Finishes (put_nonempty target host t s)
  put_nonempty-Finishes [] s = with_result
  put_nonempty-Finishes (c ∷ t) s = calm.put_text (c ∷ t) s

  print_loop-Finishes :
      (args : List Arg) (fuel : ℕ) (index : Index) (text : Text) (s : State S)
      → length text ≤ fuel
      → Finishes (print_loop target host args fuel index text s)
  unfolding print_loop
  print_loop-Finishes args fuel index [] s h = with_result
  print_loop-Finishes args zero index (c ∷ t) s h = absurd (omega arith)
  print_loop-Finishes args (suc fuel) index (c ∷ t) s h =
      let parts = until_percent target host (c ∷ t) in
      let spec = tail parts.1 in
      Finishes-bind (on_target target host (put_nonempty target host parts.0 s.target) s.stores) _
        (on_target-Finishes _ s.stores (put_nonempty-Finishes parts.0 s.target))
        (λ s1.
          stop_or_go Finishes (first parts.1 == b'%') _ _
            (λ e.
              let l = shorter parts.1 (length-until_percent target host (c ∷ t)) e in
              branches (first spec == b'%') _ _
                (Finishes-bind (on_target target host (target.put b'%' s1.target) s1.stores) _
                  (on_target-Finishes _ s1.stores (calm.put b'%' s1.target))
                  (λ s2. print_loop-Finishes args fuel index spec s2 (omega (arith, l, h))))
                (branches (first spec == 0) _ _ with_result (
                  Reaches-Finishes (λ (out : State S × Index × Text). length out.2 < length spec)
                    (convert target host args index spec s1) _ (convert-Reaches args index spec s1)
                    (λ out k.
                      print_loop-Finishes args fuel out.1 out.2 out.0 (omega (arith, k, l, h))))))
            (λ e. with_result))

  -- Whatever the text, the arguments and the state, print does not run out of fuel where the
  -- functions of the target do not: the length of the text, and one more, is enough for its loop,
  -- and that of a specification for the loops that read it.
  pub print-Finishes :
      (args : List Arg) (fmt : Text) (s : S) → Finishes (print target host args fmt s)
  unfolding print
  print-Finishes args fmt s =
      Finishes-bind
        (print_loop target host args (suc (length fmt)) (next 0) fmt
          (record { target = target.begin s; stores = [] }))
        _ (print_loop-Finishes args (suc (length fmt)) (next 0) fmt _ (omega arith))
        (λ out.
          Finishes-bind (target.finish out.target) _ (calm.finish out.target) (λ end. with_result))
