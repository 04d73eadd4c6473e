-- ===== src/Format/Spec/Unargued.antt =====
-- convert without arguments: the parser of a specification.
use wrutil.Common.{
  ℕ, zero, suc, ◌+◌, ◌%◌, ◌^◌, leb, ◌==◌, if◌then◌else◌, ◌≡◌, refl, sym, ap, ◌∙◌, Bool, true, false,
  not, ◌&&◌, Option, none, some, [], length,
}
use mathlib.Core.Bool.{true≢false}
use wrutil.Format.{
  Text, Arg, Outcome, done, failed, thrown, undefined, stuck, invalid, ◌>>=◌, Host, no_flags,
}
use wrutil.Format.Digits.Values.{stop_or_go}
use wrutil.Format.Doubles.{is_digit}
use wrutil.Format.Spec.{
  first, tail, read_number, Index, next, explicit, Parse, indexed, following, with_flag, no_flag,
  is_none, is_explicit, flags_loop, set_number, uint_max, star, width_loop, skip_length, choose_arg,
  parse_spec,
}
use wrutil.Format.Spec.Endings.{Ends}

-- A result of the step has a property.
abbrev pub Gives : {A : Type 0} → (A → Type 0) → Outcome A → Type 0
Gives P (done a) = P a
Gives P (failed e) = Unit
Gives P thrown = Unit
Gives P undefined = Unit
Gives P stuck = Unit

Gives-bind :
    {A B : Type 0} (P : A → Type 0) (Q : B → Type 0) (r : Outcome A) (f : A → Outcome B)
    → Gives P r
    → ((a : A) → P a → Gives Q (f a))
    → Gives Q (r >>= f)
Gives-bind P Q (done a) f h k = k a h
Gives-bind P Q (failed e) f h k = tt
Gives-bind P Q thrown f h k = tt
Gives-bind P Q undefined f h k = tt
Gives-bind P Q stuck f h k = tt

pub Ends-Gives :
    {A : Type 0} (P Q : A → Type 0) (r : Outcome A) → Ends P r → Gives Q r → Ends (λ a. P a × Q a) r
Ends-Gives P Q (done a) h k = (h, k)
Ends-Gives P Q (failed e) h k = tt
Ends-Gives P Q thrown h k = h
Ends-Gives P Q undefined h k = h
Ends-Gives P Q stuck h k = h

elim_Gives :
    {A B : Type 0} (P : B → Type 0) (o : Option A) (e : Outcome B) (f : A → Outcome B)
    → Gives P e
    → ((a : A) → Gives P (f a))
    → Gives P (elim o [ none ↦ e | some a ↦ f a ])
elim_Gives P none e f h k = h
elim_Gives P (some a) e f h k = k a

-- There is no argument of any index.
indexed-nothing :
    {A : Type 0} (P : A → Type 0) (index : Index) (n : ℕ) (f : Arg → Outcome A)
    → Gives P (indexed [] index n >>= f)
unfolding indexed
indexed-nothing P explicit n f = tt
indexed-nothing P (next zero) n f = tt
indexed-nothing P (next (suc k)) n f =
    stop_or_go (λ (r : Outcome Arg). Gives P (r >>= f)) (leb 0 ((n + uint_max) % 2 ^ 64)) _ _
      (λ t. tt) (λ t. tt)

following-nothing :
    {A : Type 0} (P : A → Type 0) (index : Index) (f : Arg × Index → Outcome A)
    → Gives P (following [] index >>= f)
unfolding following
following-nothing P explicit f = tt
following-nothing P (next k) f = tt

abbrev pub Bare : Parse → Type 0
Bare p = p.arg ≡ none

flags_loop-Bare : (fuel : ℕ) (p : Parse) → Bare p → Gives Bare (flags_loop [] fuel p)
unfolding flags_loop
flags_loop-Bare zero p h = tt
flags_loop-Bare (suc fuel) p h =
    elim_Gives Bare (with_flag (first p.spec) p.flags) _
      (λ f. flags_loop [] fuel (record p { flags = f; spec = tail p.spec }))
      (stop_or_go (Gives Bare) (is_digit (first p.spec) && (no_flag p.flags && is_none p.arg)) _ _
        (λ d.
          stop_or_go (Gives Bare) (first (read_number p.spec).1 == b'$') _ _
            (λ e. indexed-nothing Bare p.index (read_number p.spec).0 (λ a.
              flags_loop [] fuel
                (record p { arg = some a; index = explicit; spec = tail (read_number p.spec).1 })))
            (λ e. h))
        (λ d. h))
      (λ f. flags_loop-Bare fuel (record p { flags = f; spec = tail p.spec }) h)

star-nothing : (p : Parse) → Gives (λ (r : Arg × Parse). ⊥) (star [] p)
unfolding star
star-nothing p =
    stop_or_go (Gives (λ (r : Arg × Parse). ⊥)) (is_digit (first p.spec)) _ _
      (λ d.
        stop_or_go (Gives (λ (r : Arg × Parse). ⊥)) (first (read_number p.spec).1 == b'$') _ _
          (λ e.
            indexed-nothing (λ (r : Arg × Parse). ⊥) p.index (read_number p.spec).0
              (λ a. done (a, record p { index = explicit; spec = tail (read_number p.spec).1 })))
          (λ e. tt))
      (λ d.
        following-nothing (λ (r : Arg × Parse). ⊥) p.index
          (λ out. done (out.0, record p { index = out.1 })))

set_number-Bare : (b : Bool) (n : ℕ) (p : Parse) → Bare p → Bare (set_number b n p)
set_number-Bare true n p h = h
set_number-Bare false n p h = h

width_loop-Bare :
    (host : Host) (fuel : ℕ) (b : Bool) (p : Parse)
    → Bare p
    → Gives Bare (width_loop host [] fuel b p)
unfolding width_loop
width_loop-Bare host zero b p h = tt
width_loop-Bare host (suc fuel) b p h =
    stop_or_go (Gives Bare) (first p.spec == b'*') _ _
      (λ d.
        Gives-bind (λ (r : Arg × Parse). ⊥) Bare (star [] (record p { spec = tail p.spec })) _
          (star-nothing (record p { spec = tail p.spec })) (λ r k. absurd k))
      (λ d.
        stop_or_go (Gives Bare) (first p.spec == b'.' && not b) _ _
          (λ e. width_loop-Bare host fuel true (record p { spec = tail p.spec }) h)
          (λ e.
            stop_or_go (Gives Bare) (is_digit (first p.spec)) _ _
              (λ f.
                width_loop-Bare host fuel b
                  (set_number b (read_number p.spec).0 (record p { spec = (read_number p.spec).1 }))
                  (set_number-Bare b (read_number p.spec).0
                    (record p { spec = (read_number p.spec).1 }) h))
              (λ f. h)))

-- What is left is %m.
abbrev pub Message : Parse → Type 0
Message p = Bare p × ((first p.spec == b'm') ≡ true)

not_other : (b : Bool) → (true && not b) ≡ false → b ≡ true
not_other true h = refl
not_other false h = absurd (true≢false h)

choose_arg-Message : (p : Parse) → Bare p → Gives Message (choose_arg [] p)
unfolding choose_arg
choose_arg-Message p h =
    stop_or_go (Gives Message) (is_none p.arg && not (first p.spec == b'm')) _ _
      (λ d.
        following-nothing Message p.index
          (λ out. done (record p { arg = some out.0; index = out.1 })))
      (λ d. (
        h,
        not_other (first p.spec == b'm')
            (ap (λ a. is_none a && not (first p.spec == b'm')) (sym h) ∙ d),
      ))

-- Without arguments the parser of a specification fails, unless it is one of %m.
pub parse_spec-Message :
    (host : Host) (index : Index) (spec : Text) → Gives Message (parse_spec host [] index spec)
unfolding parse_spec
parse_spec-Message host index spec =
    let begin : Parse = record {
      flags = no_flags;
      width = 0;
      precis = 0;
      arg = none;
      index = index;
      spec = spec;
    } in
    let behind : Parse → Outcome Parse =
      λ q. choose_arg [] (record q { spec = skip_length q.spec }) in
    let middle : Parse → Outcome Parse = λ p.
      if is_explicit p.index && is_none p.arg
      then failed invalid
      else width_loop host [] (suc (suc (length p.spec))) false p in
    Gives-bind Bare Message (flags_loop [] (suc (length spec)) begin) (λ p. middle p >>= behind)
      (flags_loop-Bare (suc (length spec)) begin refl)
      (λ p h.
        Gives-bind Bare Message (middle p) behind
          (stop_or_go (Gives Bare) (is_explicit p.index && is_none p.arg) (failed invalid) _
            (λ t. tt) (λ f. width_loop-Bare host (suc (suc (length p.spec))) false p h))
          (λ q k. choose_arg-Message (record q { spec = skip_length q.spec }) k))
