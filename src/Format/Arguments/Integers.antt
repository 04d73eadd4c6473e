-- ===== src/Format/Arguments/Integers.antt =====
-- Values of type int, printed by %d.
use wrutil.Common.{
  ℕ, ◌+◌, ◌-◌, ◌<◌, ltb, min, if◌then◌else◌, ◌≡◌, ◌≢◌, refl, sym, ap, ◌∙◌, arith, Bool, true, false,
  List, [], ◌∷◌, ◌++◌, map, length, codes, lt→ltb, le→ltb, Bool-cases, inl, inr, ltb→lt, ltb→le,
}
use mathlib.Core.Path.{subst}
use wrutil.Format.{Text, no_flags, Outcome, done, ◌>>=◌, Host}
use wrutil.Format.Arguments.{
  integer_value, int_value, set_integer, extend_sign, set_arg, print_values, print_string,
}
use wrutil.Format.Digits.{digit_char, sign_of}
use wrutil.Format.Digits.Values.{Numeral}
use wrutil.Format.Print.Decimal.{magnitude, is_negative, print-Decimal}

-- What is printed for an int: a sign below zero, and the digits.
pub record IntText (w : ℕ) (out : Outcome (Text × ℕ)) : Type 0 where
  pub ds : List ℕ
  pub numeral : Numeral 10 (if ltb w 0x80000000 then w else 0x100000000 - w) 0 ds
  pub out_is : out ≡ (
      let t = (if ltb w 0x80000000 then [] else b'-' ∷ []) ++ map (digit_char false) ds in
      done (t, min (length t) 0x7fffffffffffffff))

extend_sign-low : (w : ℕ) → ltb w 0x80000000 ≡ true → extend_sign 32 w ≡ w
unfolding extend_sign
extend_sign-low w t = rw t

extend_sign-high : (w : ℕ) → ltb w 0x80000000 ≡ false → extend_sign 32 w ≡ w + 0xffffffff00000000
unfolding extend_sign
extend_sign-high w f = rw f

extend_sign-magnitude :
    (w : ℕ)
    → w < 0x100000000
    → magnitude (extend_sign 32 w) ≡ (if ltb w 0x80000000 then w else 0x100000000 - w)
extend_sign-magnitude w h = elim (Bool-cases (ltb w 0x80000000)) [
  | inl t ↦
      let l = ltb→lt w 0x80000000 t in
      let small : ltb w 0x8000000000000000 ≡ true =
        lt→ltb w 0x8000000000000000 (omega (arith, l)) in
      ap (λ (v : ℕ). magnitude v) (extend_sign-low w t) ∙ rw (small, t)
  | inr f ↦
      let l = ltb→le w 0x80000000 f in
      let v = w + 0xffffffff00000000 in
      let large : ltb v 0x8000000000000000 ≡ false =
        le→ltb v 0x8000000000000000 (omega (arith, l)) in
      let same : 0x10000000000000000 - v ≡ 0x100000000 - w = omega arith in
      ap (λ (u : ℕ). magnitude u) (extend_sign-high w f)
      ∙ ap (λ b. if b then v else 0x10000000000000000 - v) large
      ∙ same
      ∙ sym (ap (λ b. if b then w else 0x100000000 - w) f)
]

extend_sign-is_negative :
    (w : ℕ)
    → w < 0x100000000
    → is_negative (extend_sign 32 w) ≡ (if ltb w 0x80000000 then false else true)
extend_sign-is_negative w h = elim (Bool-cases (ltb w 0x80000000)) [
  | inl t ↦
      let l = ltb→lt w 0x80000000 t in
      let small : ltb w 0x8000000000000000 ≡ true =
        lt→ltb w 0x8000000000000000 (omega (arith, l)) in
      ap is_negative (extend_sign-low w t) ∙ rw (small, t)
  | inr f ↦
      let l = ltb→le w 0x80000000 f in
      let v = w + 0xffffffff00000000 in
      let large : ltb v 0x8000000000000000 ≡ false =
        le→ltb v 0x8000000000000000 (omega (arith, l)) in
      ap is_negative (extend_sign-high w f)
      ∙ ap (λ b. if b then false else true) large
      ∙ sym (ap (λ b. if b then false else true) f)
]

not_least : (w : ℕ) → w < 0x100000000 → extend_sign 32 w ≢ 0x8000000000000000
not_least w h e = elim (Bool-cases (ltb w 0x80000000)) [
  | inl t ↦ let l = ltb→lt w 0x80000000 t in let k = extend_sign-low w t in omega (arith, l, k, e)
  | inr f ↦ let l = ltb→le w 0x80000000 f in let k = extend_sign-high w f in omega (arith, l, k, e)
]

sign_text :
    (b : Bool) → sign_of no_flags (if b then false else true) ≡ (if b then [] else b'-' ∷ [])
sign_text true = refl
sign_text false = refl

-- For every int, the least one included, print to a string with %d gives the sign of a negative
-- number and the decimal digits of its magnitude, no more than it needs, and the number of
-- characters.
pub print_string-IntText :
    (host : Host) (w : ℕ)
    → w < 0x100000000
    → IntText w (print_string host (integer_value (int_value w) ∷ []) (codes "%d"))
unfolding print_string print_values set_arg set_integer
print_string-IntText host w h =
    let d =
      print-Decimal host (extend_sign 32 w) (record { text = []; initial = 0 }) (not_least w h) in
    let text_is : sign_of no_flags (is_negative (extend_sign 32 w))
        ≡ (if ltb w 0x80000000 then [] else b'-' ∷ []) =
      ap (sign_of no_flags) (extend_sign-is_negative w h) ∙ sign_text (ltb w 0x80000000) in
    record {
      ds = d.ds;
      numeral = subst (λ m. Numeral 10 m 0 d.ds) (extend_sign-magnitude w h) d.numeral;
      out_is =
          ap (λ r. r >>= λ out. done (out.0.target.text, out.1)) d.out_is
          ∙ ap
              (λ sign. done (
                sign ++ map (digit_char false) d.ds,
                min (length (sign ++ map (digit_char false) d.ds)) 0x7fffffffffffffff,
              ))
              text_is;
    }
