-- ===== src/Format.antt =====
-- src/Format.cxx and include/wrutil/Format.h: formatted output in the manner of printf. A text is the
-- list of its bytes, and the flags of a conversion are the fields of a record. An integer argument is its
-- 64-bit pattern, which both members of the union read; a double is its bit pattern, too.
pub mod Digits
pub mod Doubles
pub mod Layout
pub mod Fields
pub mod Spec
pub mod Arguments
pub mod Print
pub mod Targets
mod Runs
use wrutil.Common.{ℕ, Bool, true, false, Option, List}

abbrev pub Text : Type 0
Text = List ℕ

pub record Flags : Type 0 where
  pub alt_form : Bool
  pub zero_pad : Bool
  pub left_align : Bool
  pub centre_align : Bool
  pub pad_pos_sign : Bool
  pub show_pos_sign : Bool
  pub group_thou : Bool
  pub have_width : Bool
  pub have_precis : Bool

abbrev pub no_flags : Flags
no_flags = record {
  alt_form = false;
  zero_pad = false;
  left_align = false;
  centre_align = false;
  pad_pos_sign = false;
  show_pos_sign = false;
  group_thou = false;
  have_width = false;
  have_precis = false;
}

-- `Params` without the target and the argument, which are handed over beside it.
pub record Params : Type 0 where
  pub flags : Flags
  pub width : ℕ
  pub precis : ℕ
  pub conv : ℕ

-- What a formatter of a program's own type writes, and whether it succeeds.
abbrev pub FormatFn : Type 0
FormatFn = Params → Text × Bool

pub data Arg : Type 0 where
  void_t : Arg
  int_t : ℕ → Arg
  uint_t : ℕ → Arg
  dbl_t : ℕ → Arg
  str_t : Text → Arg
  -- The largest value of the pointed type, whether it is signed, the address and the 64-bit pattern of
  -- the value there.
  pint_t : ℕ → Bool → ℕ → ℕ → Arg
  other_t : ℕ → Option FormatFn → Arg

-- The values of errno that the code sets.
pub data Error : Type 0 where
  invalid : Error
  range : Error
  bad_sequence : Error

-- How a step ends: with a result, with -1 and errno, by an exception, in undefined behaviour (a read or a write outside
-- of its object, a signed overflow), or out of fuel.
pub data Outcome (A : Type 0) : Type 0 where
  done : A → Outcome A
  failed : Error → Outcome A
  thrown : Outcome A
  undefined : Outcome A
  stuck : Outcome A

infixl 5 ◌>>=◌
abbrev pub ◌>>=◌ : {A B : Type 0} → Outcome A → (A → Outcome B) → Outcome B
done a >>= f = f a
failed e >>= f = failed e
thrown >>= f = thrown
undefined >>= f = undefined
stuck >>= f = stuck

-- `NumConvResults`: the bytes from `prefix` to `body`, and those from `body` on.
pub record Field : Type 0 where
  pub prefix : Text
  pub body : Text

abbrev pub no_field : Field
no_field = record { prefix = List.[]; body = List.[] }

-- What a conversion into the buffer gives: a field, a null pointer for want of room, or undefined
-- behaviour.
pub data Conv (A : Type 0) : Type 0 where
  written : A → Conv A
  no_space : Conv A
  outside : Conv A

-- What the code takes from the C library and from locales. Doubles are bit patterns.
pub record Host : Type 0 where
  -- `snprintf` of one double with a format and, for `*`, a precision
  pub c_print : Text → Option ℕ → ℕ → Option Text
  -- `localeconv()->decimal_point`
  pub c_point : Text
  -- `decimal_point`, `grouping` and `thousands_sep` of `std::numpunct`
  pub point : ℕ
  pub grouping : List ℕ
  pub sep : ℕ
  -- the conversions between doubles and integers, after `round` or without
  pub round_int : ℕ → ℕ
  pub round_uint : ℕ → ℕ
  pub int_to_double : ℕ → ℕ
  pub uint_to_double : ℕ → ℕ
  pub double_to_uint : ℕ → ℕ
  pub double_to_int : ℕ → Option ℕ
  -- `std::stol`, `std::stoul` and `std::stod`, with what the code takes on an exception, and `std::stoull`
  pub stol : Text → ℕ
  pub stoul : Text → ℕ
  pub stod : Text → ℕ
  pub stoull : Text → Option ℕ
  -- `codecvt::out` of one wide character
  pub wide : ℕ → Option Text
  -- `strerror(errno)`
  pub error_text : Text
