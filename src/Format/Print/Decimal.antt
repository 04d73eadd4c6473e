-- ===== src/Format/Print/Decimal.antt =====
-- print of one signed integer by %d.
use wrutil.Common.{
  ℕ, ◌-◌, ◌<◌, ◌^◌, ◌==◌, ltb, if◌then◌else◌, ◌≡◌, ◌≢◌, refl, ap, ◌∙◌, arith, Bool, true, false,
  List, [], ◌∷◌, ◌++◌, map, length, codes, ne→==, Bool-cases, inl, inr, ltb→lt,
}
use wrutil.Format.{int_t, Flags, no_flags, written, Field, Outcome, done, Host}
use wrutil.Format.Digits.{digit_char, to_dec, to_dec_signed, sign_of}
use wrutil.Format.Digits.Values.{Numeral}
use wrutil.Format.Digits.Numerals.{Shows, to_dec-Shows}
use wrutil.Format.Doubles.{is_digit}
use wrutil.Format.Fields.{int_field}
use wrutil.Format.Layout.{layout, fill_char, gap_of}
use wrutil.Format.Spec.{
  parse_spec, flags_loop, width_loop, skip_length, choose_arg, read_number, following,
}
use wrutil.Format.Targets.{StringState, string_target, put_chunks}
use wrutil.Format.Print.{State, print, print_loop, convert, format, format_arg, put_field}
use wrutil.Format.Print.Percent.{appended, count_of}

-- The magnitude of a pattern of 64 bits, and whether it is negative.
abbrev pub magnitude : ℕ → ℕ
magnitude w = if ltb w 0x8000000000000000 then w else 0x10000000000000000 - w

abbrev pub is_negative : ℕ → Bool
is_negative w = if ltb w 0x8000000000000000 then false else true

-- What print writes for a number: the sign and the digits.
pub record Decimal (w : ℕ) (s : StringState) (out : Outcome (State StringState × ℕ)) : Type 0 where
  pub ds : List ℕ
  pub numeral : Numeral 10 (magnitude w) 0 ds
  pub out_is : out ≡ appended s (sign_of no_flags (is_negative w) ++ map (digit_char false) ds)

to_dec_signed-magnitude :
    (host : Host) (flags : Flags) (precis w n : ℕ)
    → w ≢ 0x8000000000000000
    → to_dec_signed host flags precis w n ≡ to_dec host flags precis (is_negative w) (magnitude w) n
unfolding to_dec_signed
to_dec_signed-magnitude host flags precis w n h =
    let e : (w == 0x8000000000000000) ≡ false = ne→== w 0x8000000000000000 h in
    elim (Bool-cases (ltb w 0x8000000000000000)) [ inl t ↦ rw t | inr f ↦ rw (f, e) ]

print_field :
    (host : Host) (w : ℕ) (s : StringState) (f : Field)
    → to_dec_signed host no_flags 0 w 80 ≡ written f
    → print string_target host (int_t w ∷ []) (codes "%d") s ≡ appended s (f.prefix ++ f.body)
unfolding print print_loop convert format format_arg put_field parse_spec flags_loop width_loop
    skip_length choose_arg read_number following int_field layout fill_char gap_of put_chunks
    is_digit
print_field host w s f h = rw h (
    ap
      (λ n. done (
        record {
          target = record { text = s.text ++ (f.prefix ++ f.body); initial = length s.text };
          stores = [];
        },
        n,
      ))
      (count_of s.text (f.prefix ++ f.body)))

magnitude_small : (w : ℕ) → magnitude w < 10 ^ 20
magnitude_small w = elim (Bool-cases (ltb w 0x8000000000000000)) [
  | inl t ↦
      let l = ltb→lt w 0x8000000000000000 t in let e : magnitude w ≡ w = rw t in omega (arith, e, l)
  | inr f ↦ let e : magnitude w ≡ 0x10000000000000000 - w = rw f in omega (arith, e)
]

-- For every value of 64 bits but the least one, print with %d appends the sign of a negative
-- number and the decimal digits of the magnitude, and counts them.
pub print-Decimal :
    (host : Host) (w : ℕ) (s : StringState)
    → w ≢ 0x8000000000000000
    → Decimal w s (print string_target host (int_t w ∷ []) (codes "%d") s)
print-Decimal host w s h =
    let shows : Shows false 10 (magnitude w) 0 (λ t. sign_of no_flags (is_negative w))
        (to_dec host no_flags 0 (is_negative w) (magnitude w) 80) =
      to_dec-Shows host no_flags 0 (is_negative w) (magnitude w) 19 80 refl (magnitude_small w)
        (omega arith) (omega arith) in
    record {
      ds = shows.ds;
      numeral = shows.numeral;
      out_is =
          print_field host w s _ (to_dec_signed-magnitude host no_flags 0 w 80 h ∙ shows.out_is);
    }
