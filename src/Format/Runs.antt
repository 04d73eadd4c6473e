-- ===== src/Format/Runs.antt =====
-- Formatted texts for one host: a C locale with commas for thousands, and no doubles.
use wrutil.Common.{List, ℕ, replicate, ◌≡◌, refl, arith, true, false, none, [], ◌∷◌, codes, length}
use wrutil.Format.{
  Field, no_space, ◌>>=◌, Text, int_t, uint_t, str_t, Host, Outcome, done, undefined, no_flags,
  Flags,
}
use wrutil.Format.Targets.{StringState, string_target, BufferState, buffer_target, put_chunks}
use wrutil.Format.Digits.{
  dec_loop, refill, place, to_dec, to_dec_signed, digit_loop, to_oct, to_hex_bin,
}
use wrutil.Format.Doubles.{is_digit}
use wrutil.Format.Fields.{int_field, string_field}
use wrutil.Format.Layout.{one, many, flatten, layout, fill_char, gap_of}
use wrutil.Format.Spec.{
  next, parse_spec, flags_loop, width_loop, skip_length, choose_arg, read_number, indexed,
  following,
}
use wrutil.Format.Digits.Numerals.{Shows, to_hex_bin-Shows, to_oct-Shows, octal_zero}
use wrutil.Format.Digits.Room.{precis-no_space}
use wrutil.Format.Digits.Separators.{GroupedField, to_dec-GroupedField}
use wrutil.Format.Fields.Endings.{Finishes}
use wrutil.Format.Layout.Widths.{padded, layout_lem}
use wrutil.Format.Layout.Lengths.{layout-length}
use wrutil.Format.Print.Decimal.{Decimal, print-Decimal}
use wrutil.Format.Print.Percent.{appended, ending, more, started, print-Plain, print-doubled}
use wrutil.Format.Print.Endings.{print_values-Finishes}
use wrutil.Format.Arguments.{
  Value, integer_value, short_value, int_value, print_values, print_string,
}
use wrutil.Format.Arguments.Integers.{IntText, print_string-IntText}
use wrutil.Format.Targets.Streams.{StreamState, io_stream_target, c_stream_target}
use wrutil.Format.Targets.Ends.{Terminated, put_chunks-Terminated}
use wrutil.Format.Targets.Overflow.{Fails, put_chunks-Fails}
use wrutil.Format.Print.{State, print, print_loop, convert, format, format_arg, put_field}

abbrev host : Host
host = record {
  c_print = λ f p bits. none;
  c_point = b'.' ∷ [];
  point = b'.';
  grouping = 3 ∷ [];
  sep = b',';
  round_int = λ bits. 0;
  round_uint = λ bits. 0;
  int_to_double = λ w. 0;
  uint_to_double = λ w. 0;
  double_to_uint = λ bits. 0;
  double_to_int = λ bits. none;
  stol = λ t. 0;
  stoul = λ t. 0;
  stod = λ t. 0;
  stoull = λ t. none;
  wide = λ w. none;
  error_text = codes "ok";
}

abbrev empty : StringState
empty = record { text = []; initial = 0 }

abbrev printed : Text → Outcome (State StringState × ℕ)
printed t = done (record { target = record { text = t; initial = 0 }; stores = [] }, length t)

grouped :
    print string_target host (int_t 1234567 ∷ []) (codes "<%'12d>") empty
    ≡ printed (codes "<   1,234,567>")
unfolding print print_loop convert format format_arg put_field parse_spec flags_loop width_loop
    skip_length choose_arg read_number following int_field to_dec to_dec_signed dec_loop refill
    place layout fill_char gap_of put_chunks is_digit
grouped = refl

zeros :
    print string_target host (int_t 0xfffffffffffffffb ∷ []) (codes "%06d|%%") empty
    ≡ printed (codes "-00005|%")
unfolding print print_loop convert format format_arg put_field parse_spec flags_loop width_loop
    skip_length choose_arg read_number following int_field to_dec to_dec_signed dec_loop refill
    place layout fill_char gap_of put_chunks is_digit
zeros = refl

indexes :
    print string_target host (str_t (codes "ab") ∷ uint_t 255 ∷ []) (codes "%2$#x %1$.1s") empty
    ≡ printed (codes "0xff a")
unfolding print print_loop convert format format_arg put_field parse_spec flags_loop width_loop
    skip_length choose_arg read_number indexed int_field string_field to_hex_bin digit_loop layout
    fill_char gap_of put_chunks is_digit
indexes = refl

-- The second sign begins a specification.
doubled : print string_target host (int_t 7 ∷ []) (codes "%%d") empty ≡ printed (codes "%7")
unfolding print print_loop convert format format_arg put_field parse_spec flags_loop width_loop
    skip_length choose_arg read_number following int_field to_dec to_dec_signed dec_loop refill
    place layout fill_char gap_of put_chunks is_digit
doubled = refl

-- Nothing stands behind the width, and the reading goes on behind the text.
overread : print string_target host (str_t (codes "ab") ∷ []) (codes "%5") empty ≡ undefined
unfolding print print_loop convert format format_arg put_field parse_spec flags_loop width_loop
    skip_length choose_arg read_number following string_field layout fill_char gap_of put_chunks
    is_digit
overread = refl

-- The least value has no negation.
least : print string_target host (int_t 0x8000000000000000 ∷ []) (codes "%d") empty ≡ undefined
unfolding print print_loop convert format format_arg put_field parse_spec flags_loop width_loop
    skip_length choose_arg read_number following int_field to_dec_signed is_digit
least = refl

print-Decimal_example :
    Decimal 42 empty (print string_target host (int_t 42 ∷ []) (codes "%d") empty)
print-Decimal_example = print-Decimal host 42 empty (λ e. omega (arith, e))

abbrev eight : BufferState
eight = record { cells = replicate 8 1; pos = 3 }

abbrev nothing_sent : StreamState
nothing_sent = record { sent = []; count = 0 }

abbrev one_number : List Value
one_number = integer_value (short_value 0xfffe) ∷ []

print_values-Finishes_example :
    Finishes (print_values string_target host one_number (codes "<%5d%%>") empty)
    × Finishes (print_values buffer_target host one_number (codes "<%5d%%>") eight)
    × Finishes (print_values io_stream_target host one_number (codes "<%5d%%>") nothing_sent)
    × Finishes (
        print_values
          (c_stream_target (λ sent t. length t))
          host
          one_number
          (codes "<%5d%%>")
          nothing_sent)
print_values-Finishes_example =
    print_values-Finishes host one_number (codes "<%5d%%>") (λ sent t. length t) empty eight
      nothing_sent

print_string-IntText_example :
    IntText 0x80000000 (print_string host (integer_value (int_value 0x80000000) ∷ []) (codes "%d"))
print_string-IntText_example = print_string-IntText host 0x80000000 (omega arith)

comma : is_digit b',' ≡ false
unfolding is_digit
comma = refl

abbrev grouping : Flags
grouping = record no_flags { group_thou = true }

to_dec-GroupedField_example :
    GroupedField b',' (b'-' ∷ []) 1234567 1 (to_dec host grouping 1 true 1234567 80)
to_dec-GroupedField_example =
    to_dec-GroupedField host grouping 1 true 1234567 6 80 (omega arith, tt) comma (omega arith)
      (omega arith) (omega arith)

abbrev alternative : Flags
alternative = record no_flags { alt_form = true }

to_hex_bin-Shows_example :
    Shows false 16 255 1 (λ t. codes "0x") (to_hex_bin alternative 1 b'x' 255 80)
to_hex_bin-Shows_example =
    to_hex_bin-Shows alternative 1 b'x' 255 1 80 (omega arith) (omega arith) (omega arith)

to_oct-Shows_example : Shows false 8 8 3 (octal_zero alternative) (to_oct alternative 3 8 80)
to_oct-Shows_example = to_oct-Shows alternative 3 8 2 80 (omega arith) (omega arith) (omega arith)

abbrev wide_zeros : Flags
wide_zeros = record no_flags { zero_pad = true; have_width = true }

abbrev minus_seven : Field
minus_seven = record { prefix = b'-' ∷ []; body = b'7' ∷ [] }

layout_lem_example :
    flatten (layout wide_zeros 5 b'd' minus_seven)
    ≡ padded false false
        (fill_char wide_zeros b'd')
        (gap_of wide_zeros 5 minus_seven)
        (b'-' ∷ [])
        (b'7' ∷ [])
layout_lem_example = layout_lem wide_zeros 5 b'd' minus_seven

layout-length_example : length (flatten (layout wide_zeros 5 b'd' minus_seven)) ≡ 5
layout-length_example = layout-length wide_zeros 5 b'd' minus_seven

put_chunks-Terminated_example :
    Terminated (codes "abc") (
      put_chunks buffer_target (many (codes "ab") ∷ one b'c' ∷ []) (buffer_target.begin eight)
      >>= buffer_target.finish)
    × (put_chunks string_target (many (codes "ab") ∷ one b'c' ∷ []) empty
        ≡ done (record { text = codes "abc"; initial = 0 }))
put_chunks-Terminated_example =
    put_chunks-Terminated (many (codes "ab") ∷ one b'c' ∷ []) eight (omega arith)

put_chunks-Fails_example : Fails (
    put_chunks buffer_target
      (one b'a' ∷ many (codes "too long") ∷ one b'b' ∷ [])
      (buffer_target.begin eight)
    >>= buffer_target.finish)
put_chunks-Fails_example =
    put_chunks-Fails (one b'a' ∷ []) (one b'b' ∷ []) (codes "too long") eight (omega arith)
      (omega arith)

print-Plain_example :
    print string_target host [] (codes "plain") empty ≡ appended empty (codes "plain")
print-Plain_example =
    print-Plain host [] (codes "plain") empty (refl, (refl, (refl, (refl, (refl, tt)))))

print-doubled_example :
    print string_target host (int_t 7 ∷ []) (codes "9%%d") empty
    ≡ ending (
        print_loop string_target host
          (int_t 7 ∷ [])
          4
          (next 0)
          (codes "%d")
          (more (started empty) (codes "9%")))
print-doubled_example = print-doubled host (int_t 7 ∷ []) (codes "9") (codes "d") empty (refl, tt)

precis-no_space_example :
    (to_hex_bin no_flags 81 b'x' 255 80 ≡ no_space)
    × (to_oct no_flags 81 255 80 ≡ no_space)
    × (to_dec host no_flags 81 false 255 80 ≡ no_space)
precis-no_space_example = precis-no_space host no_flags 81 b'x' 255 80 false refl (omega arith)
