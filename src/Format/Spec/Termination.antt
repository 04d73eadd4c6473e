-- ===== src/Format/Spec/Termination.antt =====
-- The loops of convert end: each round takes at least one character.
use wrutil.Common.{
  ℕ, zero, suc, ◌≤◌, ◌<◌, ◌==◌, if◌then◌else◌, ◌≡◌, refl, ap, arith, Bool, true, false, not, ◌&&◌,
  ◌||◌, none, List, [], ◌∷◌, length,
}
use wrutil.Format.{invalid, Text, no_flags, Arg, Outcome, failed, ◌>>=◌, Host}
use wrutil.Format.Doubles.{is_digit}
use wrutil.Format.Digits.Values.{stop_or_go}
use wrutil.Format.Spec.{
  first, tail, read_number, Index, Parse, following, is_none, flags_loop, set_number, star,
  width_loop, skip_length, choose_arg, is_explicit, parse_spec, to_uint,
}
use wrutil.Format.Spec.Endings.{
  Ends, Ends-bind, following-Ends, flags_loop-Ends, star-Ends, within, Within, length-read_number,
  length-tail,
}

set_number-spec : (b : Bool) (n : ℕ) (p : Parse) → (set_number b n p).spec ≡ p.spec
set_number-spec true n p = refl
set_number-spec false n p = refl

-- The rest of the loop, behind a round that took at least one character.
abbrev Goes : Host → List Arg → ℕ → Type 0
Goes host args fuel =
    (b : Bool) (p : Parse)
    → length p.spec < fuel
    → Ends (Within (length p.spec)) (width_loop host args fuel b p)

set_and_go :
    (host : Host) (args : List Arg) (fuel : ℕ)
    → Goes host args fuel
    → (m : ℕ) (b : Bool) (n : ℕ) (p : Parse) → length p.spec ≤ m
    → m < fuel
    → Ends (Within (suc m)) (width_loop host args fuel b (set_number b n p))
set_and_go host args fuel go m b n p h l =
    let e : length (set_number b n p).spec ≡ length p.spec = ap length (set_number-spec b n p) in
    within _ (suc m) _ (omega (arith, e, h)) (go b (set_number b n p) (omega (arith, e, h, l)))

width_round :
    (host : Host) (args : List Arg) (fuel : ℕ) (b : Bool) (spec : Text) (p : Parse)
    → length spec < suc fuel
    → Goes host args fuel
    → Ends (Within (length spec)) (width_loop host args (suc fuel) b (record p { spec = spec }))
unfolding width_loop is_digit
width_round host args fuel b [] p h go = omega arith
width_round host args fuel b (c ∷ t) p h go =
    stop_or_go (Ends (Within (suc (length t)))) (c == b'*') _ _
      (λ d.
        Ends-bind (λ (r : Arg × Parse). length r.1.spec ≤ length t) (Within (suc (length t)))
          (star args (record p { spec = t })) _ (star-Ends args p t)
          (λ r l.
            set_and_go host args fuel go (length t) b (to_uint host r.0) r.1 l (omega (arith, h))))
      (λ d.
        stop_or_go (Ends (Within (suc (length t)))) (c == b'.' && not b) _ _
          (λ e.
            within (length t) (suc (length t)) _ (omega arith)
              (go true (record p { spec = t }) (omega (arith, h))))
          (λ e.
            stop_or_go (Ends (Within (suc (length t)))) (is_digit c) _ _
              (λ f.
                set_and_go host args fuel go (length t) b (read_number (c ∷ t)).0
                  (record p { spec = (read_number (c ∷ t)).1 }) (length-read_number c t f)
                  (omega (arith, h)))
              (λ f. omega arith)))

width_loop-Ends : (host : Host) (args : List Arg) (fuel : ℕ) → Goes host args fuel
unfolding width_loop
width_loop-Ends host args zero b p h = absurd (omega arith)
width_loop-Ends host args (suc fuel) b p h =
    width_round host args fuel b p.spec p h (width_loop-Ends host args fuel)

abbrev is_modifier : ℕ → Bool
is_modifier c = c == b'L' || (c == b'q' || (c == b'j' || (c == b'z' || c == b't')))

length-skip_length : (t : Text) → length (skip_length t) ≤ length t
unfolding skip_length
length-skip_length t =
    let two = length-tail (tail t) in
    let one = length-tail t in
    let same : length t ≤ length t = omega arith in
    let both : length (tail (tail t)) ≤ length t = omega (arith, one, two) in
    stop_or_go (λ (u : Text). length u ≤ length t) (first t == b'h' || first t == b'l') _ _
      (λ a.
        stop_or_go (λ (u : Text). length u ≤ length t) (first (tail t) == first t) _ _ (λ b. both)
          (λ b. one))
      (λ a.
        stop_or_go (λ (u : Text). length u ≤ length t) (is_modifier (first t)) _ _ (λ b. one)
          (λ b. same))

choose_arg-Ends : (args : List Arg) (p : Parse) → Ends (Within (length p.spec)) (choose_arg args p)
unfolding choose_arg
choose_arg-Ends args p =
    stop_or_go (Ends (Within (length p.spec))) (is_none p.arg && not (first p.spec == b'm')) _ _
      (λ t.
        Ends-bind (λ (a : Arg × Index). Unit) _ (following args p.index) _
          (following-Ends args p.index) (λ a u. omega arith))
      (λ f. omega arith)

-- The parser of a specification ends with its fuel, and what is behind the specification is no longer than
-- the text that it began with.
pub parse_spec-Ends :
    (host : Host) (args : List Arg) (index : Index) (spec : Text)
    → Ends (λ (p : Parse). length p.spec ≤ length spec) (parse_spec host args index spec)
unfolding parse_spec
parse_spec-Ends host args index spec =
    let begin : Parse = record {
      flags = no_flags;
      width = 0;
      precis = 0;
      arg = none;
      index = index;
      spec = spec;
    } in
    let behind : Parse → Outcome Parse =
      λ q. choose_arg args (record q { spec = skip_length q.spec }) in
    let middle : Parse → Outcome Parse = λ p.
      if is_explicit p.index && is_none p.arg
      then failed invalid
      else width_loop host args (suc (suc (length p.spec))) false p in
    Ends-bind (Within (length spec)) (Within (length spec))
      (flags_loop args (suc (length spec)) begin) (λ p. middle p >>= behind)
      (flags_loop-Ends args (suc (length spec)) begin spec (omega arith))
      (λ p h.
        Ends-bind (Within (length spec)) (Within (length spec)) (middle p) behind
          (stop_or_go (Ends (Within (length spec))) (is_explicit p.index && is_none p.arg)
            (failed invalid) _ (λ t. tt)
            (λ f.
              within (length p.spec) (length spec) _ h
                (width_loop-Ends host args (suc (suc (length p.spec))) false p (omega arith))))
          (λ q k.
            within (length (skip_length q.spec)) (length spec) _
              (omega (arith, k, length-skip_length q.spec))
              (choose_arg-Ends args (record q { spec = skip_length q.spec }))))
