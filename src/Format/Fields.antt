-- ===== src/Format/Fields.antt =====
-- The switches of Target::format: what is printed of an argument under a conversion. Its buffer has 80
-- bytes, and a conversion that finds no room leaves the field empty.
pub mod Endings
use wrutil.Common.{
  ℕ, ◌-◌, ◌+◌, ◌%◌, ◌^◌, ◌==◌, ltb, leb, if◌then◌else◌, Bool, true, false, not, ◌&&◌, ◌||◌, Option,
  none, some, List, [], ◌∷◌, min, take, length,
}
use wrutil.Utf8.{utf8_seq}
use wrutil.Format.{
  Text, Flags, Params, no_flags, Arg, void_t, int_t, uint_t, dbl_t, str_t, pint_t, other_t, Error,
  invalid, range, bad_sequence, Outcome, done, failed, undefined, ◌>>=◌, Field, no_field, Conv,
  written, no_space, outside, Host,
}
use wrutil.Format.Digits.{to_dec, to_dec_signed, to_oct, to_hex_bin}
use wrutil.Format.Doubles.{to_dec_double, to_hex_double, is_finite}
use wrutil.Format.Layout.{mem_char}

abbrev pub buf_size : ℕ
buf_size = 80

-- The code does not look at what a conversion returns.
abbrev pub converted : Conv Field → Outcome Field
converted (written f) = done f
converted no_space = done no_field
converted outside = undefined

abbrev pub body_only : Text → Field
body_only t = record { prefix = []; body = t }

abbrev pub is_floating : ℕ → Bool
is_floating c = mem_char c (b'e' ∷ b'E' ∷ b'f' ∷ b'F' ∷ b'g' ∷ b'G' ∷ b'a' ∷ b'A' ∷ [])

-- The conversions of a double to a text.
unfoldable pub floating_field : Host → Params → ℕ → Outcome Field
floating_field host p bits = converted (
    if p.conv == b'a' || p.conv == b'A'
    then to_hex_double host p bits buf_size
    else to_dec_double host p bits buf_size)

-- `%c`: the test is on the signed value, so a negative number passes it.
unfoldable pub char_field : ℕ → Outcome Field
char_field w =
    if leb (2 ^ 63) w || (ltb w 0xd800 || (leb 0xe000 w && leb w 0x10ffff))
    then done (body_only (utf8_seq (w % 2 ^ 32)))
    else failed bad_sequence

unfoldable pub wide_field : Host → ℕ → Outcome Field
wide_field host w =
    if leb w 0x7fffffff
    then elim (host.wide w) [ none ↦ failed bad_sequence | some t ↦ done (body_only t) ]
    else failed bad_sequence

-- `INT_T` and `UINT_T`; `conv` may be another one than that of the parameters.
unfoldable pub int_field : Host → Params → ℕ → Bool → ℕ → Outcome Field
unfolding floating_field char_field wide_field
int_field host p conv signed w =
    if conv == b'd' || conv == b'i'
    then converted (
        if signed
        then to_dec_signed host p.flags p.precis w buf_size
        else to_dec host p.flags p.precis false w buf_size)
    else if conv == b'o'
    then converted (to_oct p.flags p.precis w buf_size)
    else if conv == b'u'
    then converted (to_dec host p.flags p.precis false w buf_size)
    else if conv == b'p'
    then converted (to_hex_bin (record p.flags { alt_form = true }) p.precis p.conv w buf_size)
    else if mem_char conv (b'X' ∷ b'x' ∷ b'B' ∷ b'b' ∷ [])
    then converted (to_hex_bin p.flags p.precis p.conv w buf_size)
    else if is_floating conv
    then floating_field host p (if signed then host.int_to_double w else host.uint_to_double w)
    else if conv == b's' || conv == b'S'
    then converted (
        if signed
        then to_dec_signed host no_flags 1 w buf_size
        else to_dec host no_flags 1 false w buf_size)
    else if conv == b'c'
    then char_field w
    else if conv == b'C'
    then wide_field host w
    else if conv == b'n'
    then done no_field
    else failed invalid

-- `DBL_T`; a conversion that no case names leaves the field empty.
unfoldable pub double_field : Host → Params → ℕ → Outcome Field
unfolding floating_field
double_field host p bits =
    if p.conv == b'd' || p.conv == b'i'
    then converted (to_dec_signed host p.flags p.precis (host.round_int bits) buf_size)
    else if p.conv == b'o'
    then converted (to_oct p.flags p.precis (host.round_uint bits) buf_size)
    else if p.conv == b'u'
    then converted (to_dec host p.flags p.precis false (host.round_uint bits) buf_size)
    else if mem_char p.conv (b'X' ∷ b'x' ∷ b'B' ∷ b'b' ∷ [])
    then converted (to_hex_bin p.flags p.precis p.conv (host.round_uint bits) buf_size)
    else if is_floating p.conv
    then floating_field host p bits
    else if p.conv == b's' || p.conv == b'S'
    then elim (host.c_print (b'%' ∷ b'f' ∷ []) none bits) [
      | none ↦ failed invalid
      | some t ↦ if ltb (length t) buf_size then done (body_only t) else undefined
    ]
    else if p.conv == b'c' || p.conv == b'C'
    then elim (host.double_to_int bits) [
      | none ↦ failed bad_sequence
      | some w ↦ int_field host p p.conv true w
    ]
    else if p.conv == b'p'
    then failed invalid
    else done no_field

-- `STR_T`
unfoldable pub string_field : Host → Params → ℕ → Text → Outcome Field
unfolding floating_field
string_field host p conv t =
    if conv == b'd' || conv == b'i'
    then int_field host p p.conv true (host.stol t)
    else if mem_char conv (b'o' ∷ b'u' ∷ b'x' ∷ b'X' ∷ b'b' ∷ b'B' ∷ b'p' ∷ [])
    then int_field host p p.conv false (host.stoul t)
    else if is_floating conv
    then floating_field host p (host.stod t)
    else if conv == b'c' || conv == b'C'
    then failed invalid
    else if conv == b's' || conv == b'S'
    then done (body_only (if p.flags.have_precis then take (min p.precis (length t)) t else t))
    else done no_field
