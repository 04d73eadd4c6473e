-- ===== src/Format/Print/Percent.antt =====
-- print on a StringTarget: text without a per cent sign, and the sign itself.
use wrutil.Common.{
  ℕ, suc, ◌-◌, ◌==◌, min, if◌then◌else◌, ◌≡◌, refl, sym, ap, ◌∙◌, arith, false, List, [], ◌∷◌, ◌++◌,
  append_assoc, append-nil, length, length-append, All,
}
use wrutil.Format.{Text, Arg, Outcome, done, ◌>>=◌, Host}
use wrutil.Format.Spec.{Index, next, first, tail}
use wrutil.Format.Targets.{StringState, string_target}
use wrutil.Format.Print.{State, convert, until_percent, put_nonempty, print_loop, print, on_target}

-- No character of a text is the per cent sign.
abbrev pub Plain : Text → Type 0
Plain t = All (λ c. (c == b'%') ≡ false) t

-- What print gives when it has appended a text.
abbrev pub appended : StringState → Text → Outcome (State StringState × ℕ)
appended s t = done (
  record { target = record { text = s.text ++ t; initial = length s.text }; stores = [] },
  min (length t) 0x7fffffffffffffff,
)

until_percent-Plain :
    (host : Host) (p : Text) → Plain p → until_percent string_target host p ≡ (p, [])
until_percent-Plain host [] h = refl
until_percent-Plain host (c ∷ p) (e, h) =
    ap
      (λ b.
        if b
        then ([], c ∷ p)
        else (c ∷ (until_percent string_target host p).0, (until_percent string_target host p).1))
      e
    ∙ ap (λ (r : Text × Text). (c ∷ r.0, r.1)) (until_percent-Plain host p h)

until_percent-append :
    (host : Host) (p t : Text)
    → Plain p
    → until_percent string_target host (p ++ (b'%' ∷ t)) ≡ (p, b'%' ∷ t)
until_percent-append host [] t h = refl
until_percent-append host (c ∷ p) t (e, h) =
    let rest = p ++ (b'%' ∷ t) in
    ap
      (λ b. if b then ([], c ∷ rest) else (
        c ∷ (until_percent string_target host rest).0,
        (until_percent string_target host rest).1,
      ))
      e
    ∙ ap (λ (r : Text × Text). (c ∷ r.0, r.1)) (until_percent-append host p t h)

put_nonempty-string :
    (host : Host) (t : Text) (s : StringState)
    → put_nonempty string_target host t s
      ≡ done (record { text = s.text ++ t; initial = s.initial })
put_nonempty-string host [] s =
    ap (λ u. done (record { text = u; initial = s.initial })) (sym (append-nil s.text))
put_nonempty-string host (c ∷ t) s = refl

pub count_of :
    (t u : Text)
    → min (length (t ++ u) - length t) 0x7fffffffffffffff ≡ min (length u) 0x7fffffffffffffff
count_of t u =
    let e : length (t ++ u) - length t ≡ length u = omega (arith, length-append t u) in
    ap (λ (n : ℕ). min n 0x7fffffffffffffff) e

-- A round of print, from what until_percent gives.
abbrev after :
    Host → List Arg → ℕ → Index → Text × Text → State StringState → Outcome (State StringState)
after host args fuel index parts s = do
  s1 ← on_target string_target host (put_nonempty string_target host parts.0 s.target) s.stores
  let spec = tail parts.1
  let doubled = (do
    s2 ← on_target string_target host (string_target.put b'%' s1.target) s1.stores
    print_loop string_target host args fuel index spec s2)
  let converted_one = (do
    out ← convert string_target host args index spec s1
    print_loop string_target host args fuel out.1 out.2 out.0)
  if first parts.1 == b'%'
      then if first spec == b'%'
        then doubled
        else if first spec == 0
        then done s1
        else converted_one
      else done s1

abbrev pub more : State StringState → Text → State StringState
more s t = record {
  target = record { text = s.target.text ++ t; initial = s.target.initial };
  stores = s.stores;
}

print_loop-append :
    (host : Host) (args : List Arg) (fuel : ℕ) (index : Index) (p t : Text) (s : State StringState)
    → Plain p
    → print_loop string_target host args (suc fuel) index (p ++ (b'%' ∷ t)) s
      ≡ after host args fuel index (p, b'%' ∷ t) s
unfolding print_loop
print_loop-append host args fuel index [] t s h = refl
print_loop-append host args fuel index (c ∷ p) t s h =
    ap (λ parts. after host args fuel index parts s) (until_percent-append host (c ∷ p) t h)

print_loop-Plain :
    (host : Host) (args : List Arg) (fuel : ℕ) (index : Index) (p : Text) (s : State StringState)
    → Plain p
    → print_loop string_target host args (suc fuel) index p s ≡ done (more s p)
unfolding print_loop
print_loop-Plain host args fuel index [] s h =
    ap
      (λ u.
        done
          (record { target = record { text = u; initial = s.target.initial }; stores = s.stores }))
      (sym (append-nil s.target.text))
print_loop-Plain host args fuel index (c ∷ p) s h =
    ap (λ parts. after host args fuel index parts s) (until_percent-Plain host (c ∷ p) h)

-- The end of print.
abbrev pub ending : Outcome (State StringState) → Outcome (State StringState × ℕ)
ending r =
    r >>= λ out. done (out, min (length out.target.text - out.target.initial) 0x7fffffffffffffff)

abbrev pub started : StringState → State StringState
started s = record { target = record { text = s.text; initial = length s.text }; stores = [] }

-- A text without a per cent sign is appended as it is, and print gives its length, or the greatest
-- intmax_t where that is less.
pub print-Plain :
    (host : Host) (args : List Arg) (p : Text) (s : StringState)
    → Plain p
    → print string_target host args p s ≡ appended s p
unfolding print
print-Plain host args p s h =
    ap ending (print_loop-Plain host args (length p) (next 0) p (started s) h)
    ∙ ap (λ n. done (more (started s) p, n)) (count_of s.text p)

-- Where a doubled per cent sign stands behind plain text, print appends the text and one sign and
-- goes on at the second sign of the two, as if it were the first of a conversion.
pub print-doubled :
    (host : Host) (args : List Arg) (p t : Text) (s : StringState)
    → Plain p
    → print string_target host args (p ++ (b'%' ∷ b'%' ∷ t)) s
      ≡ ending (
          print_loop string_target host args
            (length (p ++ (b'%' ∷ b'%' ∷ t)))
            (next 0)
            (b'%' ∷ t)
            (more (started s) (p ++ (b'%' ∷ []))))
unfolding print
print-doubled host args p t s h = ap ending (
    print_loop-append host args (length (p ++ (b'%' ∷ b'%' ∷ t))) (next 0) p (b'%' ∷ t) (started s)
      h
    ∙ ap
        (λ r. on_target string_target host r [] >>= λ s1. do
          s2 ← on_target string_target host (string_target.put b'%' s1.target) s1.stores
          print_loop string_target host args (length (p ++ (b'%' ∷ b'%' ∷ t))) (next 0) (b'%' ∷ t)
              s2)
        (put_nonempty-string host p (started s).target)
    ∙ ap
        (λ u.
          print_loop string_target host args (length (p ++ (b'%' ∷ b'%' ∷ t))) (next 0) (b'%' ∷ t)
            (record { target = record { text = u; initial = length s.text }; stores = [] }))
        (append_assoc s.text p (b'%' ∷ [])))
