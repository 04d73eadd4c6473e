-- ===== src/Format/Digits/Values.antt =====
-- The digits that the loops of toDecStr, toOctStr and toHexBinStr write.
use wrutil.Common.{
  ℕ, zero, suc, ◌+◌, ◌-◌, ◌*◌, ◌/◌, ◌%◌, ◌^◌, ◌≤◌, ◌<◌, ◌==◌, if◌then◌else◌, ◌≡◌, refl, ap, ◌∙◌,
  sym, arith, Bool, true, false, ◌&&◌, List, [], ◌∷◌, ◌++◌, map, length, length-append, All,
  All-append, ==_iff, and_true, true_and,
}
use mathlib.Core.Path.{subst}
use native.Mathlib.Nat.{le-div_iff_mul-le, div-lt_iff_lt-mul, mod-lt, mul_comm, pow-suc, pow-zero}
use mathlib.Core.Bool.{true≢false}
use native.Mathlib.Omega.{div_any}
use wrutil.Format.{Text, Conv, written}
use wrutil.Format.Digits.{digit_char, digit_loop}

-- The number that digits stand for, the first one counting most.
abbrev pub number : ℕ → ℕ → List ℕ → ℕ
number base n [] = n
number base n (d ∷ ds) = number base (n * base + d) ds

number-append :
    (base n : ℕ) (ds : List ℕ) (d : ℕ)
    → number base n (ds ++ (d ∷ [])) ≡ number base n ds * base + d
number-append base n [] d = refl
number-append base n (e ∷ ds) d = number-append base (n * base + e) ds d

-- `ds` are the digits of `v` in a base, at least `k` of them and at least one, and no more than those that the value
-- needs.
pub record Numeral (base v k : ℕ) (ds : List ℕ) : Type 0 where
  pub value : number base 0 ds ≡ v
  pub digits : All (λ d. d < base) ds
  pub enough : k ≤ length ds
  pub some_digit : 1 ≤ length ds
  pub tight : (m : ℕ) → length ds ≡ suc (suc m) → k < length ds → base ^ suc m ≤ v

pub quotient_small : (b v n : ℕ) → 0 < b → v < b ^ suc n → v / b < b ^ n
quotient_small b v n h k =
    (div-lt_iff_lt-mul {k = b} {x = v} {y = b ^ n} h).1 (subst (λ p. v < p) (pow-suc b n) k)

divided : (b v : ℕ) → v / b * b + v % b ≡ v
divided b v = ap (λ (t : ℕ). t + v % b) (mul_comm (v / b) b) ∙ div_any v b

quotient_large : (b v n : ℕ) → 0 < b → b ^ n ≤ v / b → b ^ suc n ≤ v
quotient_large b v n h k =
    subst (λ p. p ≤ v) (sym (pow-suc b n)) ((le-div_iff_mul-le {k = b} {x = b ^ n} {y = v} h).0 k)

quotient_positive : (a k : ℕ) → (a == 0 && k == 0) ≡ false → k ≡ 0 → 1 ≤ a
quotient_positive zero k f e = absurd (true≢false (sym ((==_iff k 0).1 e) ∙ f))
quotient_positive (suc a) k f e = omega arith

Numeral-last_tight :
    (base v k : ℕ) (ds : List ℕ)
    → 0 < base
    → (v / base == 0 && k - 1 == 0) ≡ false
    → Numeral base (v / base) (k - 1) ds
    → (m : ℕ) → length ds ≡ suc m
    → k ≤ length ds
    → base ^ suc m ≤ v
Numeral-last_tight base v k ds h f n zero e l = quotient_large base v zero h (
    subst (λ p. p ≤ v / base) (sym (pow-zero base))
      (quotient_positive (v / base) (k - 1) f (omega (arith, e, l))))
Numeral-last_tight base v k ds h f n (suc m) e l =
    quotient_large base v (suc m) h (n.tight m e (omega (arith, e, l)))

-- One round puts the last digit behind those of the quotient.
pub Numeral-last :
    (base v k : ℕ) (ds : List ℕ)
    → 0 < base
    → (v / base == 0 && k - 1 == 0) ≡ false
    → Numeral base (v / base) (k - 1) ds
    → Numeral base v k (ds ++ (v % base ∷ []))
Numeral-last base v k ds h f n =
    let e : length (ds ++ (v % base ∷ [])) ≡ suc (length ds) =
      length-append ds (v % base ∷ []) ∙ omega arith in
    record {
      value =
          number-append base 0 ds (v % base)
          ∙ ap (λ (q : ℕ). q * base + v % base) n.value
          ∙ divided base v;
      digits = All-append (λ d. d < base) ds (v % base ∷ []) n.digits (mod-lt v h, tt);
      enough = omega (arith, e, n.enough);
      some_digit = omega (arith, e);
      tight = λ m i j.
          Numeral-last_tight base v k ds h f n m (omega (arith, e, i)) (omega (arith, e, j));
    }

pub single : (base v k : ℕ) → 0 < base → v / base ≡ 0 → k - 1 ≡ 0 → Numeral base v k (v % base ∷ [])
single base v k h e f = record {
  value = ap (λ (q : ℕ). q * base + v % base) (sym e) ∙ divided base v;
  digits = (mod-lt v h, tt);
  enough = omega (arith, f);
  some_digit = omega arith;
  tight = λ m i j. absurd (omega (arith, i));
}

pub map-append-one :
    (upper : Bool) (ds : List ℕ) (d : ℕ) (text : Text)
    → map (digit_char upper) (ds ++ (d ∷ [])) ++ text
      ≡ map (digit_char upper) ds ++ (digit_char upper d ∷ text)
map-append-one upper [] d text = refl
map-append-one upper (e ∷ ds) d text =
    ap (λ t. digit_char upper e ∷ t) (map-append-one upper ds d text)

-- What a loop writes in front of a text: the digits, as characters, in at most `n` places.
pub record Writes (upper : Bool) (base v k n : ℕ) (text : Text) (out : Conv Text) : Type 0 where
  pub ds : List ℕ
  pub out_is : out ≡ written (map (digit_char upper) ds ++ text)
  pub numeral : Numeral base v k ds
  pub short : length ds ≤ n

Writes-last :
    (upper : Bool) (base v k n : ℕ) (text : Text) (out : Conv Text)
    → 0 < base
    → (v / base == 0 && k - 1 == 0) ≡ false
    → Writes upper base (v / base) (k - 1) n (digit_char upper (v % base) ∷ text) out
    → Writes upper base v k (suc n) text out
Writes-last upper base v k n text out h f w = record {
  ds = w.ds ++ (v % base ∷ []);
  out_is = w.out_is ∙ ap written (sym (map-append-one upper w.ds (v % base) text));
  numeral = Numeral-last base v k w.ds h f w.numeral;
  short = omega (arith, w.short, length-append w.ds (v % base ∷ []));
}

pub ended_at : (a k : ℕ) → (a == 0 && k == 0) ≡ true → (a ≡ 0) × (k ≡ 0)
ended_at a k t =
    let both = and_true (a == 0) (k == 0) t in ((==_iff a 0).0 both.0, (==_iff k 0).0 both.1)

pub going : (a k : ℕ) → a < 1 → k < 1 → (a == 0 && k == 0) ≡ true
going a k h e =
    true_and (a == 0) (k == 0) ((==_iff a 0).1 (omega arith)) ((==_iff k 0).1 (omega arith))

Writes-one :
    (upper : Bool) (base v k n : ℕ) (text : Text)
    → 0 < base
    → (v / base == 0 && k - 1 == 0) ≡ true
    → Writes upper base v k (suc n) text (written (digit_char upper (v % base) ∷ text))
Writes-one upper base v k n text h t =
    let (e, f) = ended_at (v / base) (k - 1) t in
    record {
      ds = v % base ∷ [];
      out_is = refl;
      numeral = single base v k h e f;
      short = omega arith;
    }

-- The test at the end of a round.
pub stop_or_go :
    {A : Type 0} (P : A → Type 0) (b : Bool) (x y : A)
    → (b ≡ true → P x)
    → (b ≡ false → P y)
    → P (if b then x else y)
stop_or_go P true x y f g = f refl
stop_or_go P false x y f g = g refl

pub digit_loop-Writes :
    (base : ℕ) (upper : Bool) (room n v k : ℕ) (text : Text)
    → 0 < base
    → v < base ^ suc n
    → k ≤ suc n
    → n < room
    → Writes upper base v k (suc n) text (digit_loop base upper room v k text)
unfolding digit_loop
digit_loop-Writes base upper zero n v k text b h e l = absurd (omega arith)
digit_loop-Writes base upper (suc room) zero v k text b h e l =
    stop_or_go (Writes upper base v k 1 text) (v / base == 0 && k - 1 == 0) _ _
      (Writes-one upper base v k 0 text b)
      (λ f. absurd (
        true≢false (
          sym (
            going (v / base) (k - 1)
              (subst (λ p. v / base < p) (pow-zero base) (quotient_small base v zero b h))
              (omega arith))
          ∙ f)))
digit_loop-Writes base upper (suc room) (suc n) v k text b h e l =
    stop_or_go (Writes upper base v k (suc (suc n)) text) (v / base == 0 && k - 1 == 0) _ _
      (Writes-one upper base v k (suc n) text b)
      (λ f. Writes-last upper base v k (suc n) text _ b f (
        digit_loop-Writes base upper room n (v / base) (k - 1) _ b
          (quotient_small base v (suc n) b h) (omega arith) (omega arith)))
