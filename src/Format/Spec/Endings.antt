-- ===== src/Format/Spec/Endings.antt =====
-- The first loop of convert and the choice of an argument end: each round takes at least one character.
use wrutil.Common.{
  ℕ, zero, suc, ◌+◌, ◌-◌, ◌*◌, ◌≤◌, ◌<◌, ◌==◌, leb, ◌≡◌, ◌∙◌, sym, arith, true, ◌&&◌, Option, none,
  some, List, [], ◌∷◌, length, and_true,
}
use mathlib.Core.Bool.{true≢false}
use wrutil.Format.{Text, Arg, Outcome, done, failed, thrown, undefined, stuck, ◌>>=◌}
use wrutil.Format.Doubles.{is_digit}
use wrutil.Format.Digits.Values.{stop_or_go}
use wrutil.Format.Spec.{
  first, tail, number_from, read_number, Index, next, explicit, Parse, get_arg, indexed, following,
  with_flag, no_flag, is_none, flags_loop, star,
}

-- The step gives an error, or a result that has a property.
abbrev pub Ends : {A : Type 0} → (A → Type 0) → Outcome A → Type 0
Ends P (done a) = P a
Ends P (failed e) = Unit
Ends P thrown = ⊥
Ends P undefined = ⊥
Ends P stuck = ⊥

pub Ends-bind :
    {A B : Type 0} (P : A → Type 0) (Q : B → Type 0) (r : Outcome A) (f : A → Outcome B)
    → Ends P r
    → ((a : A) → P a → Ends Q (f a))
    → Ends Q (r >>= f)
Ends-bind P Q (done a) f h k = k a h
Ends-bind P Q (failed e) f h k = tt
Ends-bind P Q thrown f h k = absurd h
Ends-bind P Q undefined f h k = absurd h
Ends-bind P Q stuck f h k = absurd h

length-number_from : (n : ℕ) (t : Text) → length (number_from n t).1 ≤ length t
length-number_from n [] = omega arith
length-number_from n (c ∷ t) =
    stop_or_go (λ (r : ℕ × Text). length r.1 ≤ suc (length t)) (is_digit c) _ _
      (λ d. omega (arith, length-number_from (n * 10 + (c - b'0')) t)) (λ d. omega arith)

pub length-read_number :
    (c : ℕ) (t : Text) → is_digit c ≡ true → length (read_number (c ∷ t)).1 ≤ length t
unfolding read_number
length-read_number c t d =
    stop_or_go (λ (r : ℕ × Text). length r.1 ≤ length t) (is_digit c) _ _
      (λ e. length-number_from (0 * 10 + (c - b'0')) t) (λ e. absurd (true≢false (sym d ∙ e)))

pub length-read_number_le : (t : Text) → length (read_number t).1 ≤ length t
unfolding read_number
length-read_number_le t = length-number_from 0 t

pub length-tail : (t : Text) → length (tail t) ≤ length t
length-tail [] = omega arith
length-tail (c ∷ t) = omega arith

abbrev pub Within : ℕ → Parse → Type 0
Within n p = length p.spec ≤ n

pub within : (n m : ℕ) (r : Outcome Parse) → n ≤ m → Ends (Within n) r → Ends (Within m) r
within n m (done p) h k = omega (arith, h, k)
within n m (failed e) h k = tt
within n m thrown h k = absurd k
within n m undefined h k = absurd k
within n m stuck h k = absurd k

pub elim_Ends :
    {A B : Type 0} (P : B → Type 0) (o : Option A) (e : Outcome B) (f : A → Outcome B)
    → Ends P e
    → ((a : A) → Ends P (f a))
    → Ends P (elim o [ none ↦ e | some a ↦ f a ])
elim_Ends P none e f h k = h
elim_Ends P (some a) e f h k = k a

pub indexed-Ends :
    (args : List Arg) (index : Index) (n : ℕ) → Ends (λ (a : Arg). Unit) (indexed args index n)
unfolding indexed
indexed-Ends args explicit n = elim_Ends _ (get_arg args _) _ done tt (λ a. tt)
indexed-Ends args (next zero) n = elim_Ends _ (get_arg args _) _ done tt (λ a. tt)
indexed-Ends args (next (suc k)) n =
    stop_or_go (Ends (λ (a : Arg). Unit)) (leb (length args) _) _ _ (λ t. tt) (λ f. tt)

pub following-Ends :
    (args : List Arg) (index : Index) → Ends (λ (a : Arg × Index). Unit) (following args index)
unfolding following
following-Ends args explicit = tt
following-Ends args (next k) =
    elim_Ends _ (get_arg args k) _ (λ a. done (a, next (suc k))) tt (λ a. tt)

pub flags_loop-Ends :
    (args : List Arg) (fuel : ℕ) (p : Parse) (spec : Text)
    → length spec < fuel
    → Ends (Within (length spec)) (flags_loop args fuel (record p { spec = spec }))
unfolding flags_loop
flags_loop-Ends args zero p spec h = absurd (omega arith)
flags_loop-Ends args (suc fuel) p [] h = omega arith
flags_loop-Ends args (suc fuel) p (c ∷ t) h =
    let n = read_number (c ∷ t) in
    elim_Ends (Within (suc (length t))) (with_flag c p.flags) _
      (λ f. flags_loop args fuel (record p { flags = f; spec = t }))
      (stop_or_go (Ends (Within (suc (length t))))
        (is_digit c && (no_flag p.flags && is_none p.arg)) _ _
        (λ d.
          stop_or_go (Ends (Within (suc (length t)))) (first n.1 == b'$') _ _
            (λ e.
              Ends-bind (λ (a : Arg). Unit) (Within (suc (length t))) (indexed args p.index n.0) _
                (indexed-Ends args p.index n.0)
                (λ a u.
                  let l = length-read_number c t ((and_true (is_digit c) _ d).0) in
                  within (length (tail n.1)) (suc (length t)) _ (omega (arith, l, length-tail n.1))
                    (flags_loop-Ends args fuel (record p { arg = some a; index = explicit })
                      (tail n.1) (omega (arith, h, l, length-tail n.1)))))
            (λ e. omega arith))
        (λ d. omega arith))
      (λ f.
        within (length t) (suc (length t)) _ (omega arith)
          (flags_loop-Ends args fuel (record p { flags = f }) t (omega (arith, h))))

pub star-Ends :
    (args : List Arg) (p : Parse) (spec : Text)
    → Ends
        (λ (r : Arg × Parse). length r.1.spec ≤ length spec)
        (star args (record p { spec = spec }))
unfolding star
star-Ends args p spec =
    stop_or_go (Ends (λ (r : Arg × Parse). length r.1.spec ≤ length spec)) (is_digit (first spec)) _
      _
      (λ d.
        stop_or_go (Ends (λ (r : Arg × Parse). length r.1.spec ≤ length spec))
          (first (read_number spec).1 == b'$') _ _
          (λ e.
            Ends-bind (λ (a : Arg). Unit) _ (indexed args p.index (read_number spec).0) _
              (indexed-Ends args p.index (read_number spec).0)
              (λ a u. omega (arith, length-tail (read_number spec).1, length-read_number_le spec)))
          (λ e. tt))
      (λ d.
        Ends-bind (λ (a : Arg × Index). Unit) _ (following args p.index) _
          (following-Ends args p.index) (λ a u. omega arith))
