-- ===== src/Format/Digits/Numerals.antt =====
-- The fields of toDecStr, toOctStr and toHexBinStr: the prefix and the digits of the value.
use wrutil.Common.{
  ℕ, zero, suc, ◌+◌, ◌-◌, ◌/◌, ◌%◌, ◌^◌, ◌≤◌, ◌<◌, ◌==◌, leb, if◌then◌else◌, ◌≡◌, refl, ap, ◌∙◌,
  sym, arith, Bool, true, false, not, ◌&&◌, List, [], ◌∷◌, map, append-nil, length, ne→==, lt→ltb,
  none,
}
use mathlib.Core.Bool.{true≢false}
use mathlib.Core.Path.{subst}
use wrutil.Format.{Text, Flags, Conv, written, Field, Host}
use wrutil.Format.Digits.{
  start_groups, digit_char, digit_loop, to_hex_bin, hex_prefix, to_oct, octal_prefix, to_dec,
  dec_loop, refill, place, with_sign, then_field, sign_of, first_is, is_upper, is_binary,
}
use wrutil.Format.Digits.Values.{Numeral, Writes, digit_loop-Writes}

-- A field with the digits of a number behind a prefix, which may depend on the digits.
pub record Shows (upper : Bool) (base v k : ℕ) (prefix : Text → Text) (out : Conv Field)
    : Type 0 where
  pub ds : List ℕ
  pub numeral : Numeral base v k ds
  pub out_is :
      out
      ≡ written
          (record { prefix = prefix (map (digit_char upper) ds); body = map (digit_char upper) ds })

length-map : (upper : Bool) (ds : List ℕ) → length (map (digit_char upper) ds) ≡ length ds
length-map upper [] = refl
length-map upper (d ∷ ds) = ap suc (length-map upper ds)

-- From the digits to the field: the last step gives the prefix where the digits are short.
Writes-Shows :
    (upper : Bool) (base v k n : ℕ) (out : Conv Text) (prefix : Text → Text) (f : Text → Conv Field)
    → ((t : Text) → length t ≤ n → f t ≡ written (record { prefix = prefix t; body = t }))
    → Writes upper base v k n [] out
    → Shows upper base v k prefix (then_field out f)
Writes-Shows upper base v k n out prefix f h w = record {
  ds = w.ds;
  numeral = w.numeral;
  out_is =
      ap (λ o. then_field o f) (w.out_is ∙ ap written (append-nil (map (digit_char upper) w.ds)))
      ∙ h (map (digit_char upper) w.ds) (omega (arith, w.short, length-map upper w.ds));
}

abbrev pub base_of : ℕ → ℕ
base_of conv = if is_binary conv then 2 else 16

hex_prefix_room :
    (alt : Bool) (prefix : Text) (bufsize : ℕ) (t : Text)
    → length t + 2 ≤ bufsize
    → hex_prefix alt prefix bufsize t
      ≡ written (record { prefix = if alt then prefix else []; body = t })
unfolding hex_prefix
hex_prefix_room false prefix bufsize t h = refl
hex_prefix_room true prefix bufsize t h =
    let a : (bufsize - length t == 0) ≡ false = ne→== _ _ (λ e. omega arith) in
    let b : (bufsize - length t == 1) ≡ false = ne→== _ _ (λ e. omega arith) in rw (a, b)

-- `0x`, `0X`, `0b` or `0B`
abbrev pub radix : ℕ → Text
radix conv =
    b'0'
    ∷ (if is_binary conv
        then (if is_upper conv then b'B' else b'b')
        else if is_upper conv
        then b'X'
        else b'x')
    ∷ []

base_positive : (b : Bool) → 0 < (if b then 2 else 16)
base_positive true = omega arith
base_positive false = omega arith

-- The zero that # puts in front of octal digits.
abbrev pub octal_zero : Flags → Text → Text
octal_zero flags t = if flags.alt_form && not (first_is b'0' t) then b'0' ∷ [] else []

octal_prefix_lem :
    (flags : Flags) (t : Text)
    → octal_prefix flags t ≡ written (record { prefix = octal_zero flags t; body = t })
unfolding octal_prefix
octal_prefix_lem flags t = refl

-- Behind a test that fails.
pub otherwise :
    {A : Type 0} (P : A → Type 0) (b : Bool) (x y : A) → b ≡ false → P y → P (if b then x else y)
otherwise P true x y h p = absurd (true≢false h)
otherwise P false x y h p = p

pub room_not_zero : (room : ℕ) → 0 < room → (room == 0) ≡ false
room_not_zero room h = ne→== _ _ (λ e. omega arith)

-- In a buffer with room for n + 1 digits and two more characters, toHexBinStr writes the digits of
-- a value below the base to the power of n + 1, at least as many as the precision asks for and at
-- least one, and otherwise no more than the value needs, behind 0x, 0X, 0b or 0B where the flag #
-- is set.
pub to_hex_bin-Shows :
    (flags : Flags) (precis conv v n bufsize : ℕ)
    → v < base_of conv ^ suc n
    → precis ≤ suc n
    → n + 3 ≤ bufsize
    → Shows
        (is_upper conv)
        (base_of conv)
        v
        precis
        (λ t. if flags.alt_form then radix conv else [])
        (to_hex_bin flags precis conv v bufsize)
unfolding to_hex_bin
to_hex_bin-Shows flags precis conv v n bufsize h e l =
    let z : (bufsize == 0) ≡ false = room_not_zero bufsize (omega arith) in
    otherwise
      (Shows (is_upper conv) (base_of conv) v precis
        (λ t. if flags.alt_form then radix conv else []))
      (bufsize == 0) _ _ z
      (Writes-Shows (is_upper conv) (base_of conv) v precis (suc n) _ _ _
        (λ t i. hex_prefix_room flags.alt_form (radix conv) bufsize t (omega (arith, i)))
        (digit_loop-Writes (base_of conv) (is_upper conv) bufsize n v precis []
          (base_positive (is_binary conv)) h e (omega arith)))

-- In a buffer with room for n + 1 digits and one more character, toOctStr writes the octal digits
-- of a value below 8 to the power of n + 1, at least as many as the precision asks for and at
-- least one, and otherwise no more than the value needs, behind a zero where the flag # is set and
-- no zero comes first.
pub to_oct-Shows :
    (flags : Flags) (precis v n bufsize : ℕ)
    → v < 8 ^ suc n
    → precis ≤ suc n
    → n + 2 ≤ bufsize
    → Shows false 8 v precis (octal_zero flags) (to_oct flags precis v bufsize)
unfolding to_oct
to_oct-Shows flags precis v n bufsize h e l =
    let z : (bufsize == 0) ≡ false = room_not_zero bufsize (omega arith) in
    otherwise (Shows false 8 v precis (octal_zero flags)) (bufsize == 0) _ _ z (
      Writes-Shows false 8 v precis (suc n) _ (octal_zero flags) (octal_prefix flags)
        (λ t i. octal_prefix_lem flags t)
        (digit_loop-Writes 8 false (bufsize - 1) n v precis [] (omega arith) h e (omega arith)))

-- Without groups, the loop of toDecStr is the one of the other conversions.
pub dec_loop-plain :
    (sep room v k : ℕ) (text : Text)
    → dec_loop sep room (record { grouping = []; gi = 0; size = none }) v k text
      ≡ digit_loop 10 false room v k text
unfolding dec_loop digit_loop refill place
dec_loop-plain sep zero v k text = refl
dec_loop-plain sep (suc room) v k text =
    let same : digit_char false (v % 10) ≡ b'0' + v % 10 = rw (lt→ltb (v % 10) 10 (omega arith)) in
    rw (same, dec_loop-plain sep room (v / 10) (k - 1) ((b'0' + v % 10) ∷ text))

pub with_sign_room :
    (bufsize : ℕ) (sign t : Text)
    → length sign + length t ≤ bufsize
    → with_sign bufsize sign t ≡ written (record { prefix = sign; body = t })
unfolding with_sign
with_sign_room bufsize sign t h =
    let e : leb (length sign + length t) bufsize ≡ true = ground arith in rw e

one_sign :
    (negative plus space : Bool)
    → length {A = ℕ} (
        if negative then b'-' ∷ [] else if plus then b'+' ∷ [] else if space then b' ' ∷ [] else [])
      ≤ 1
one_sign true plus space = omega arith
one_sign false true space = omega arith
one_sign false false true = omega arith
one_sign false false false = omega arith

pub sign_short : (flags : Flags) (negative : Bool) → length (sign_of flags negative) ≤ 1
sign_short flags negative = one_sign negative flags.show_pos_sign flags.pad_pos_sign

-- Without the flag ', in a buffer with room for `n + 1` digits and one more character, toDecStr writes the
-- decimal digits of a magnitude below 10 to the power of `n + 1`: at least as many as the precision asks for
-- and at least one, behind the sign.
pub to_dec-Shows :
    (host : Host) (flags : Flags) (precis : ℕ) (negative : Bool) (v n bufsize : ℕ)
    → flags.group_thou ≡ false
    → v < 10 ^ suc n
    → precis ≤ suc n
    → n + 2 ≤ bufsize
    → Shows false 10 v precis
        (λ t. sign_of flags negative)
        (to_dec host flags precis negative v bufsize)
unfolding to_dec
to_dec-Shows host flags precis negative v n bufsize g h e l =
    let z : (bufsize == 0) ≡ false = room_not_zero bufsize (omega arith) in
    let plain : dec_loop host.sep bufsize (start_groups host flags) v precis []
        ≡ digit_loop 10 false bufsize v precis [] =
      ap
        (λ b.
          dec_loop host.sep bufsize
            (record { grouping = if b then host.grouping else []; gi = 0; size = none }) v precis
            [])
        g
      ∙ dec_loop-plain host.sep bufsize v precis [] in
    otherwise (Shows false 10 v precis (λ t. sign_of flags negative)) (bufsize == 0) _ _ z (
      Writes-Shows false 10 v precis (suc n) _ (λ t. sign_of flags negative)
        (with_sign bufsize (sign_of flags negative))
        (λ t i.
          with_sign_room bufsize (sign_of flags negative) t
            (omega (arith, i, sign_short flags negative)))
        (subst (Writes false 10 v precis (suc n) []) (sym plain)
          (digit_loop-Writes 10 false bufsize n v precis [] (omega arith) h e (omega arith))))
