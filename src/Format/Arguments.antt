-- ===== src/Format/Arguments.antt =====
-- TypeHandler and the overloads of print in Format.h: from the values of a call to the arguments. A value
-- of an integer type is its bit pattern in that type. Of a call that fails the error is kept, not what has been
-- printed before.
pub mod Integers
use wrutil.Common.{
  ℕ, ◌+◌, ◌-◌, ◌*◌, ◌^◌, ◌==◌, ltb, if◌then◌else◌, Bool, true, false, none, List, [], ◌∷◌, map,
  get_or,
}
use wrutil.Format.{
  Text, FormatFn, Arg, int_t, uint_t, dbl_t, str_t, pint_t, other_t, Outcome, done, ◌>>=◌, Host,
}
use wrutil.Format.Targets.{Target, StringState, string_target, BufferState, buffer_target}
use wrutil.Format.Print.{State, print}

-- The integer types with a handler in Format.h.
pub data Integer : Type 0 where
  bool_value : Bool → Integer
  char_value : ℕ → Integer
  signed_char_value : ℕ → Integer
  unsigned_char_value : ℕ → Integer
  wchar_value : ℕ → Integer
  char16_value : ℕ → Integer
  char32_value : ℕ → Integer
  short_value : ℕ → Integer
  unsigned_short_value : ℕ → Integer
  int_value : ℕ → Integer
  unsigned_int_value : ℕ → Integer
  long_value : ℕ → Integer
  unsigned_long_value : ℕ → Integer
  long_long_value : ℕ → Integer
  unsigned_long_long_value : ℕ → Integer

-- The other types with a handler in Format.h, `std::string` for the views as well. A C string has a zero behind its bytes.
pub data Value : Type 0 where
  integer_value : Integer → Value
  -- a float as the double that it is converted to
  float_value : ℕ → Value
  double_value : ℕ → Value
  string_value : Text → Value
  c_string_value : Text → Value
  -- the address and the 64-bit pattern of the value there
  int16_pointer : ℕ → ℕ → Value
  uint16_pointer : ℕ → ℕ → Value
  int32_pointer : ℕ → ℕ → Value
  uint32_pointer : ℕ → ℕ → Value
  int64_pointer : ℕ → ℕ → Value
  uint64_pointer : ℕ → ℕ → Value
  other_pointer : ℕ → Value

-- The conversion of a signed value of `bits` bits to `intmax_t`
unfoldable pub extend_sign : ℕ → ℕ → ℕ
extend_sign bits w = if ltb w (2 ^ (bits - 1)) then w else w + (2 ^ 64 - 2 ^ bits)

-- `strlen`
abbrev pub until_zero : Text → Text
until_zero [] = []
until_zero (c ∷ t) = if c == 0 then [] else c ∷ until_zero t

-- `TypeHandler<T>::set` for an integer type
unfoldable pub set_integer : Integer → Arg
unfolding extend_sign
set_integer (bool_value true) = int_t 1
set_integer (bool_value false) = int_t 0
set_integer (char_value w) = int_t (extend_sign 8 w)
set_integer (signed_char_value w) = int_t (extend_sign 8 w)
set_integer (unsigned_char_value w) = uint_t w
set_integer (wchar_value w) = int_t (extend_sign 32 w)
set_integer (char16_value w) = int_t w
set_integer (char32_value w) = int_t w
set_integer (short_value w) = int_t (extend_sign 16 w)
set_integer (unsigned_short_value w) = uint_t w
set_integer (int_value w) = int_t (extend_sign 32 w)
set_integer (unsigned_int_value w) = uint_t w
set_integer (long_value w) = int_t w
set_integer (unsigned_long_value w) = uint_t w
set_integer (long_long_value w) = int_t w
set_integer (unsigned_long_long_value w) = uint_t w

-- `TypeHandler<T>::set`
unfoldable pub set_arg : Value → Arg
unfolding set_integer
set_arg (integer_value i) = set_integer i
set_arg (float_value bits) = dbl_t bits
set_arg (double_value bits) = dbl_t bits
set_arg (string_value t) = str_t t
set_arg (c_string_value t) = str_t (until_zero t)
set_arg (int16_pointer address w) = pint_t 0x7fff true address w
set_arg (uint16_pointer address w) = pint_t 0xffff false address w
set_arg (int32_pointer address w) = pint_t 0x7fffffff true address w
set_arg (uint32_pointer address w) = pint_t 0xffffffff false address w
set_arg (int64_pointer address w) = pint_t 0x7fffffffffffffff true address w
set_arg (uint64_pointer address w) = pint_t 0xffffffffffffffff false address w
set_arg (other_pointer address) = other_t address none

-- `Arg::setArray`
abbrev pub set_array : List Value → List Arg
set_array [] = []
set_array (v ∷ vs) = set_arg v ∷ set_array vs

-- `print` of a call with values
unfoldable pub print_values :
    {S : Type 0} → Target S → Host → List Value → Text → S → Outcome (State S × ℕ)
print_values target host values fmt s = print target host (set_array values) fmt s

-- `print` to a string, whose old contents are replaced
unfoldable pub print_string : Host → List Value → Text → Outcome (Text × ℕ)
unfolding print_values
print_string host values fmt = do
  out ← print_values string_target host values fmt (record { text = []; initial = 0 })
  done (out.0.target.text, out.1)

-- `print` to a buffer
unfoldable pub print_buffer : Host → List ℕ → List Value → Text → Outcome (List ℕ × ℕ)
unfolding print_values
print_buffer host cells values fmt = do
  out ← print_values buffer_target host values fmt (record { cells = cells; pos = 0 })
  done (out.0.target.cells, out.1)
