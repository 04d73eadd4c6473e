-- ===== src/Format/Doubles.antt =====
-- toDecStr and toHexStr on doubles. The digits of the first one come from the C library.
use mathlib.Core.List.{reverse}
use wrutil.Common.{
  ℕ, zero, suc, ◌+◌, ◌-◌, ◌*◌, ◌/◌, ◌%◌, ◌^◌, ◌==◌, ltb, leb, if◌then◌else◌, Bool, true, false, not,
  ◌&&◌, ◌||◌, Option, none, some, [], ◌∷◌, ◌++◌, length, map, take, drop,
}
use wrutil.Format.{Text, Params, no_flags, Field, Conv, written, no_space, outside, Host}
use wrutil.Format.Digits.{Groups, refill, place, digit_char, is_upper, to_dec_signed}

abbrev exponent_bits : ℕ → ℕ
exponent_bits bits = bits / 2 ^ 52 % 2048

abbrev mantissa_bits : ℕ → ℕ
mantissa_bits bits = bits % 2 ^ 52

abbrev sign_bit : ℕ → Bool
sign_bit bits = bits / 2 ^ 63 == 1

-- `std::isfinite`
abbrev pub is_finite : ℕ → Bool
is_finite bits = not (exponent_bits bits == 0x7ff)

-- The format for the C library.
abbrev pub c_format : Params → Text
c_format p =
    b'%'
    ∷ ((if p.flags.pad_pos_sign then b' ' ∷ [] else if p.flags.show_pos_sign then b'+' ∷ [] else [])
        ++ ((if p.flags.have_precis then b'.' ∷ b'*' ∷ [] else [])
            ++ ((if p.conv == b'F' then b'f' else p.conv) ∷ [])))

to_upper : ℕ → ℕ
to_upper c = if leb b'a' c && leb c b'z' then c - 32 else c

abbrev starts : Text → Text → Bool
starts [] t = true
starts (c ∷ cs) [] = false
starts (c ∷ cs) (d ∷ ds) = if c == d then starts cs ds else false

-- `strstr` of the decimal point: what stands in front of it and behind it.
abbrev at_point : Text → Text → Option (Text × Text)
at_point dp [] = none
at_point dp (c ∷ t) =
    if starts dp (c ∷ t)
    then some ([], drop (length dp) (c ∷ t))
    else elim (at_point dp t) [ none ↦ none | some (front, behind) ↦ some (c ∷ front, behind) ]

unfoldable pub is_digit : ℕ → Bool
is_digit c = leb b'0' c && leb c b'9'

-- The loop on the digits in front of the point, from the last one on; `body` is where the sign was
-- reached. A round that only reads the next group is made together with the one that follows.
whole_loop : ℕ → ℕ → Groups → Text → Text → Option Text → Conv (Text × Option Text)
whole_loop sep room g [] text body = written (text, body)
whole_loop sep zero g (c ∷ cs) text body = no_space
whole_loop sep (suc room) g (c ∷ cs) text body =
    let erased : Groups = record { grouping = []; gi = g.gi; size = g.size } in
    let sign = whole_loop sep room erased cs (c ∷ text) (some text) in
    let plain = whole_loop sep room g cs (c ∷ text) body in
    let digit : Conv (Text × Option Text) = elim (refill g) [
      | none ↦ outside
      | some g' ↦
          let next = place g' in
          if next.0
          then whole_loop sep room next.1 cs (c ∷ text) body
          else whole_loop sep room next.1 (c ∷ cs) (sep ∷ text) body
    ] in
    elim g.grouping [ [] ↦ plain | _ ∷ _ ↦ if is_digit c then digit else sign ]

-- Without a sign in a grouped number `body` stays null, and the whole text is the prefix.
abbrev cut_body : Text × Option Text → Field
cut_body (text, none) = record { prefix = []; body = text }
cut_body (text, some body) = record { prefix = take (length text - length body) text; body = body }

parts_field : Host → ℕ → Groups → Text → Text → Conv Field
unfolding whole_loop
parts_field host bufsize g front tail =
    elim (whole_loop host.sep (bufsize - 1 - length tail) g (reverse front) tail none) [
      | written r ↦ written (cut_body r)
      | no_space ↦ no_space
      | outside ↦ outside
    ]

-- What is written of the text that `snprintf` gave.
unfoldable pub lay_out_double : Host → Params → ℕ → ℕ → Text → Conv Field
unfolding parts_field
lay_out_double host p bits bufsize printed =
    let g : Groups = record {
      grouping = if is_finite bits && p.flags.group_thou then host.grouping else [];
      gi = 0;
      size = none;
    } in
    elim (at_point host.c_point printed) [
      | some (front, behind) ↦ parts_field host bufsize g front (host.point ∷ behind)
      | none ↦ parts_field host bufsize g printed (if p.flags.alt_form then host.point ∷ [] else [])
    ]

-- `toDecStr<double>`. The text for `snprintf` has 80 bytes, but the code goes by the size that it
-- would have.
unfoldable pub to_dec_double : Host → Params → ℕ → ℕ → Conv Field
unfolding to_upper
to_dec_double host p bits bufsize =
    elim (host.c_print (c_format p) (if p.flags.have_precis then some p.precis else none) bits) [
      | none ↦ no_space
      | some printed ↦
          if ltb (length printed) 80
          then lay_out_double host p bits bufsize
              (if p.conv == b'F' && not (is_finite bits) then map to_upper printed else printed)
          else outside
    ]

-- The mantissa of `toHexStr`, rounded to the precision; `none` where the shift is not below 64.
abbrev pub round_mantissa : Params → ℕ → Option ℕ
round_mantissa p m =
    if p.flags.have_precis && ltb p.precis 14
    then (if p.precis == 13
        then none
        else let shift = 4 * (12 - p.precis) in
          let kept = m / 2 ^ shift in
          let rounded = if leb 8 (kept % 16) then kept + 16 else kept in
          some (rounded / 16 * 16 * 2 ^ shift % 2 ^ 64))
    else some m

-- The loop of `toHexStr`, which puts out digits and the point; `text` is what is there so far.
hex_loop : Host → Params → ℕ → ℕ → ℕ → Bool → Text → Conv Text
hex_loop host p zero m digits point text = no_space
hex_loop host p (suc room) m digits point text =
    let at_dot = digits == 1 && not point in
    let m' = if at_dot then m else m * 16 % 2 ^ 56 in
    let digits' = if at_dot then digits else digits + 1 in
    let point' = at_dot || point in
    let text' =
      text
      ++ ((if at_dot then host.point else digit_char (is_upper p.conv) (m / 2 ^ 52 % 16)) ∷ []) in
    let more = hex_loop host p room m' digits' point' text' in
    if (m' == 0 && leb 1 digits')
      && ((not p.flags.have_precis || ltb p.precis digits') && (point' || not p.flags.alt_form))
    then written text'
    else more

-- `p` and the exponent, a pattern of 64 bits
hex_exponent : Host → Params → ℕ → Text → ℕ → Text → Conv Field
hex_exponent host p bufsize prefix exponent digits =
    let used = length prefix + length digits in
    if used == bufsize
    then outside
    else elim (to_dec_signed host (record no_flags { show_pos_sign = true }) 0 exponent
        (bufsize - used - 1)) [
          | written e ↦ written (record {
            prefix = prefix;
            body = digits ++ ((if is_upper p.conv then b'P' else b'p') ∷ (e.prefix ++ e.body));
          })
          | no_space ↦ no_space
          | outside ↦ outside
        ]

abbrev hex_sign : Params → ℕ → Text
hex_sign p bits =
    if sign_bit bits
    then b'-' ∷ []
    else if p.flags.pad_pos_sign
    then b' ' ∷ []
    else if p.flags.show_pos_sign
    then b'+' ∷ []
    else []

abbrev word_of : Params → Text → Text
word_of p t = if is_upper p.conv then map (λ c. c - 32) t else t

hex_number : Host → Params → ℕ → ℕ → Conv Field
unfolding hex_loop hex_exponent
hex_number host p bits bufsize =
    let e = exponent_bits bits in
    let exponent = if e == 0 then 0 else if leb 0x3ff e then e - 0x3ff else 2 ^ 64 - (0x3ff - e) in
    let prefix = hex_sign p bits ++ (b'0' ∷ (if is_upper p.conv then b'X' else b'x') ∷ []) in
    elim (round_mantissa p (if e == 0 then mantissa_bits bits else mantissa_bits bits + 2 ^ 52)) [
      | none ↦ outside
      | some m ↦ elim (hex_loop host p (bufsize - length prefix) m 0 false []) [
        | written digits ↦ hex_exponent host p bufsize prefix exponent digits
        | no_space ↦ no_space
        | outside ↦ outside
      ]
    ]

-- `toHexStr<double>`
unfoldable pub to_hex_double : Host → Params → ℕ → ℕ → Conv Field
unfolding hex_number
to_hex_double host p bits bufsize =
    if ltb bufsize 4
    then no_space
    else if is_finite bits
    then hex_number host p bits bufsize
    else if mantissa_bits bits == 0
    then written
        (record { prefix = []; body = hex_sign p bits ++ word_of p (b'i' ∷ b'n' ∷ b'f' ∷ []) })
    else written (record { prefix = []; body = word_of p (b'n' ∷ b'a' ∷ b'n' ∷ []) })
