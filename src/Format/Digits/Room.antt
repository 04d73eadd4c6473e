-- ===== src/Format/Digits/Room.antt =====
-- Precisions that the buffer of Target::format has no room for.
use wrutil.Common.{
  ℕ, zero, suc, ◌-◌, ◌/◌, ◌%◌, ◌<◌, ◌==◌, if◌then◌else◌, ◌≡◌, refl, ap, ◌∙◌, arith, Bool, true,
  false, ◌&&◌, [], ◌∷◌, ne→==, none,
}
use wrutil.Format.{Text, Flags, no_space, Host}
use wrutil.Format.Digits.{
  digit_loop, digit_char, dec_loop, to_dec, to_oct, to_hex_bin, with_sign, start_groups, sign_of,
  then_field, octal_prefix, hex_prefix, is_upper,
}
use wrutil.Format.Digits.Numerals.{otherwise, room_not_zero, dec_loop-plain, base_of, radix}

and_false : (a b : Bool) → b ≡ false → (a && b) ≡ false
and_false true b h = h
and_false false b h = refl

digit_loop-no_space :
    (base : ℕ) (upper : Bool) (room v k : ℕ) (text : Text)
    → room < k
    → digit_loop base upper room v k text ≡ no_space
unfolding digit_loop
digit_loop-no_space base upper zero v k text h = refl
digit_loop-no_space base upper (suc room) v k text h =
    otherwise (λ o. o ≡ no_space) (v / base == 0 && k - 1 == 0) _ _
      (and_false (v / base == 0) (k - 1 == 0) (ne→== (k - 1) 0 (λ e. omega (arith, e))))
      (digit_loop-no_space base upper room (v / base) (k - 1) (digit_char upper (v % base) ∷ text)
        (omega arith))

-- Where the precision is greater than the buffer, toHexBinStr, toOctStr and, without the flag ',
-- toDecStr find no space, whatever the value.
pub precis-no_space :
    (host : Host) (flags : Flags) (precis conv v bufsize : ℕ) (negative : Bool)
    → flags.group_thou ≡ false
    → bufsize < precis
    → (to_hex_bin flags precis conv v bufsize ≡ no_space)
      × (to_oct flags precis v bufsize ≡ no_space)
      × (to_dec host flags precis negative v bufsize ≡ no_space)
unfolding to_hex_bin to_oct to_dec
precis-no_space host flags precis conv v zero negative g h = (refl, refl, refl)
precis-no_space host flags precis conv v (suc n) negative g h =
    let room = room_not_zero (suc n) (omega arith) in
    let plain : dec_loop host.sep (suc n) (start_groups host flags) v precis []
        ≡ digit_loop 10 false (suc n) v precis [] =
      ap
        (λ b.
          dec_loop host.sep (suc n)
            (record { grouping = if b then host.grouping else []; gi = 0; size = none }) v precis
            [])
        g
      ∙ dec_loop-plain host.sep (suc n) v precis [] in
    (
      otherwise (λ o. o ≡ no_space) (suc n == 0) _ _ room
          (ap (λ o. then_field o (hex_prefix flags.alt_form (radix conv) (suc n)))
            (digit_loop-no_space (base_of conv) (is_upper conv) (suc n) v precis [] h)),
      otherwise (λ o. o ≡ no_space) (suc n == 0) _ _ room
          (ap (λ o. then_field o (octal_prefix flags))
            (digit_loop-no_space 8 false (suc n - 1) v precis [] (omega arith))),
      otherwise (λ o. o ≡ no_space) (suc n == 0) _ _ room
          (ap (λ o. then_field o (with_sign (suc n) (sign_of flags negative)))
            (plain ∙ digit_loop-no_space 10 false (suc n) v precis [] h)),
    )
