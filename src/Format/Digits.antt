-- ===== src/Format/Digits.antt =====
-- toDecStr, toOctStr and toHexBinStr on integers. A buffer is filled from its end; its room is the
-- number of bytes that are left in front of the text, and a loop runs on it.
pub mod Values
pub mod Room
pub mod Numerals
pub mod Grouping
pub mod Separators
use wrutil.Common.{
  ℕ, zero, suc, ◌+◌, ◌-◌, ◌/◌, ◌%◌, ◌==◌, ltb, leb, if◌then◌else◌, Bool, true, false, not, ◌&&◌,
  ◌||◌, Option, none, some, List, [], ◌∷◌, ◌++◌, length, get_or,
}
use wrutil.Format.{Text, Flags, Params, Field, Conv, written, no_space, outside, Host}

-- `SetSignAndValue`, the sign in front of a number
abbrev pub sign_of : Flags → Bool → Text
sign_of flags negative =
    if negative
    then b'-' ∷ []
    else if flags.show_pos_sign
    then b'+' ∷ []
    else if flags.pad_pos_sign
    then b' ' ∷ []
    else []

-- `grouping` (which is empty when it does not apply any more), `gi` and `grp_size`, of which `none`
-- is negative.
pub record Groups : Type 0 where
  pub grouping : List ℕ
  pub gi : ℕ
  pub size : Option ℕ

abbrev pub char_max : ℕ
char_max = 127

-- The next group; `none` where `--gi` would leave the string.
unfoldable pub load_group : Groups → Option Groups
load_group g =
    if get_or g.grouping g.gi 0 == char_max
    then some (record { grouping = []; gi = g.gi; size = g.size })
    else if leb (length g.grouping) g.gi || get_or g.grouping g.gi 0 == 0
    then (if g.gi == 0
        then none
        else some (record {
          grouping = g.grouping;
          gi = g.gi;
          size = some (get_or g.grouping (g.gi - 1) 0);
        }))
    else some
        (record { grouping = g.grouping; gi = g.gi + 1; size = some (get_or g.grouping g.gi 0) })

abbrev pub is_empty : List ℕ → Bool
is_empty [] = true
is_empty (x ∷ xs) = false

abbrev pub is_negative : Option ℕ → Bool
is_negative none = true
is_negative (some n) = false

-- The first test of a round.
unfoldable pub refill : Groups → Option Groups
unfolding load_group
refill g = if not (is_empty g.grouping) && is_negative g.size then load_group g else some g

abbrev pub count_down : Option ℕ → Bool × Option ℕ
count_down none = (false, none)
count_down (some zero) = (false, none)
count_down (some (suc n)) = (true, some n)

-- Whether a digit comes next, or a separator.
unfoldable pub place : Groups → Bool × Groups
place g =
    if is_empty g.grouping
    then (true, g)
    else let next = count_down g.size in
      (next.0, record { grouping = g.grouping; gi = g.gi; size = next.1 })

-- The loop of `toDecStr`; `k` digits of the precision are still to come.
unfoldable pub dec_loop : ℕ → ℕ → Groups → ℕ → ℕ → Text → Conv Text
dec_loop sep zero g value k text = elim (refill g) [ none ↦ outside | some g' ↦ no_space ]
dec_loop sep (suc room) g value k text = elim (refill g) [
  | none ↦ outside
  | some g' ↦
      let next = place g' in
      let value' = if next.0 then value / 10 else value in
      let k' = if next.0 then k - 1 else k in
      let text' = (if next.0 then b'0' + value % 10 else sep) ∷ text in
      let more = dec_loop sep room next.1 value' k' text' in
      if value' == 0 && k' == 0 then written text' else more
]

-- The sign goes in front of the digits, if there is room.
unfoldable pub with_sign : ℕ → Text → Text → Conv Field
with_sign bufsize sign body =
    if leb (length sign + length body) bufsize
    then written (record { prefix = sign; body = body })
    else no_space

abbrev pub then_field : Conv Text → (Text → Conv Field) → Conv Field
then_field (written t) f = f t
then_field no_space f = no_space
then_field outside f = outside

abbrev pub start_groups : Host → Flags → Groups
start_groups host flags = record {
  grouping = if flags.group_thou then host.grouping else [];
  gi = 0;
  size = none;
}

-- `toDecStr` of a magnitude with its sign
unfoldable pub to_dec : Host → Flags → ℕ → Bool → ℕ → ℕ → Conv Field
unfolding with_sign
to_dec host flags precis negative value bufsize =
    if bufsize == 0
    then no_space
    else then_field (dec_loop host.sep bufsize (start_groups host flags) value precis [])
        (with_sign bufsize (sign_of flags negative))

-- `toDecStr<intmax_t>`: the least value has no negation.
unfoldable pub to_dec_signed : Host → Flags → ℕ → ℕ → ℕ → Conv Field
to_dec_signed host flags precis w bufsize =
    if ltb w 0x8000000000000000
    then to_dec host flags precis false w bufsize
    else if w == 0x8000000000000000
    then outside
    else to_dec host flags precis true (0x10000000000000000 - w) bufsize

abbrev pub digit_char : Bool → ℕ → ℕ
digit_char upper d =
    if ltb d 10 then b'0' + d else if upper then b'A' + (d - 10) else b'a' + (d - 10)

-- The loops of `toOctStr` and `toHexBinStr`.
unfoldable pub digit_loop : ℕ → Bool → ℕ → ℕ → ℕ → Text → Conv Text
digit_loop base upper zero value k text = no_space
digit_loop base upper (suc room) value k text =
    let text' = digit_char upper (value % base) ∷ text in
    let more = digit_loop base upper room (value / base) (k - 1) text' in
    if value / base == 0 && k - 1 == 0 then written text' else more

abbrev pub first_is : ℕ → Text → Bool
first_is c [] = false
first_is c (x ∷ xs) = x == c

unfoldable pub octal_prefix : Flags → Text → Conv Field
octal_prefix flags body = written (record {
  prefix = if flags.alt_form && not (first_is b'0' body) then b'0' ∷ [] else [];
  body = body;
})

-- `toOctStr`, which leaves the first byte of the buffer to the prefix
unfoldable pub to_oct : Flags → ℕ → ℕ → ℕ → Conv Field
unfolding octal_prefix
to_oct flags precis value bufsize =
    if bufsize == 0
    then no_space
    else then_field (digit_loop 8 false (bufsize - 1) value precis []) (octal_prefix flags)

-- The prefix has two characters, but the test asks for room for one.
unfoldable pub hex_prefix : Bool → Text → ℕ → Text → Conv Field
hex_prefix alt_form prefix bufsize body =
    if not alt_form
    then written (record { prefix = []; body = body })
    else if bufsize - length body == 0
    then no_space
    else if bufsize - length body == 1
    then outside
    else written (record { prefix = prefix; body = body })

abbrev pub is_upper : ℕ → Bool
is_upper c = leb b'A' c && leb c b'Z'

abbrev pub is_binary : ℕ → Bool
is_binary c = c == b'b' || c == b'B'

-- `toHexBinStr`
unfoldable pub to_hex_bin : Flags → ℕ → ℕ → ℕ → ℕ → Conv Field
unfolding hex_prefix
to_hex_bin flags precis conv value bufsize =
    if bufsize == 0
    then no_space
    else then_field
        (digit_loop (if is_binary conv then 2 else 16) (is_upper conv) bufsize value precis [])
        (hex_prefix flags.alt_form
          (b'0'
            ∷ (if is_binary conv
                then (if is_upper conv then b'B' else b'b')
                else if is_upper conv
                then b'X'
                else b'x')
            ∷ [])
          bufsize)
