-- ===== src/Format/Spec.antt =====
-- The first part of convert: the parser of a conversion specification, from behind the per cent sign
-- to the conversion character. At the end of the text the terminating zero is read.
pub mod Endings
pub mod Termination
pub mod Unargued
use wrutil.Common.{
  ℕ, zero, suc, ◌+◌, ◌-◌, ◌*◌, ◌%◌, ◌^◌, ◌==◌, ltb, leb, min, if◌then◌else◌, Bool, true, false, not,
  ◌&&◌, ◌||◌, Option, none, some, List, [], ◌∷◌, length,
}
use wrutil.Format.{
  Text, Flags, Params, no_flags, Arg, void_t, int_t, uint_t, dbl_t, str_t, pint_t, other_t, Error,
  invalid, range, Outcome, done, failed, stuck, ◌>>=◌, Host,
}
use wrutil.Format.Doubles.{is_digit}

abbrev pub uint_max : ℕ
uint_max = 0xffffffffffffffff

-- `toUInt`; the code does not look at `ok`, so a value that is not usable counts as the number that is
-- left in `val`: 0, or ERANGE for a negative number behind a pointer.
unfoldable pub to_uint : Host → Arg → ℕ
to_uint host void_t = 0
to_uint host (int_t w) = if ltb w (2 ^ 63) then w else 0
to_uint host (uint_t w) = w
to_uint host (dbl_t bits) = host.double_to_uint bits
to_uint host (str_t t) = elim (host.stoull t) [ none ↦ 0 | some n ↦ n ]
to_uint host (pint_t most signed address w) = if signed && leb (2 ^ 63) w then 34 else w
to_uint host (other_t address f) = 0

-- `*spec`
abbrev pub first : Text → ℕ
first [] = 0
first (c ∷ t) = c

abbrev pub tail : Text → Text
tail [] = []
tail (c ∷ t) = t

-- `strtoul` at a digit: the number, which stops at the greatest one, and the text behind it.
abbrev pub number_from : ℕ → Text → ℕ × Text
number_from n [] = (min n uint_max, [])
number_from n (c ∷ t) =
    if is_digit c then number_from (n * 10 + (c - b'0')) t else (min n uint_max, c ∷ t)

unfoldable pub read_number : Text → ℕ × Text
unfolding is_digit
read_number t = number_from 0 t

-- `next_arg_ix`, which is negative once explicit indices are used.
pub data Index : Type 0 where
  next : ℕ → Index
  explicit : Index

pub record Parse : Type 0 where
  pub flags : Flags
  pub width : ℕ
  pub precis : ℕ
  pub arg : Option Arg
  pub index : Index
  pub spec : Text

abbrev pub get_arg : List Arg → ℕ → Option Arg
get_arg [] i = none
get_arg (a ∷ args) zero = some a
get_arg (a ∷ args) (suc i) = get_arg args i

-- The argument of an explicit index `n`, from 1 on.
unfoldable pub indexed : List Arg → Index → ℕ → Outcome Arg
indexed args (next (suc k)) n =
    if leb (length args) ((n + uint_max) % 2 ^ 64) then failed range else failed invalid
indexed args index n = elim (get_arg args ((n + uint_max) % 2 ^ 64)) [
  | none ↦ failed range
  | some a ↦ done a
]

-- The argument that is next, and the index behind it.
unfoldable pub following : List Arg → Index → Outcome (Arg × Index)
following args explicit = failed invalid
following args (next k) = elim (get_arg args k) [
  | none ↦ failed invalid
  | some a ↦ done (a, next (suc k))
]

abbrev pub with_flag : ℕ → Flags → Option Flags
with_flag c f =
    if c == b'#'
    then some (record f { alt_form = true })
    else if c == b'0'
    then some (record f { zero_pad = true })
    else if c == b'-'
    then some (record f { left_align = true })
    else if c == b'='
    then some (record f { centre_align = true })
    else if c == b' '
    then some (record f { pad_pos_sign = true })
    else if c == b'+'
    then some (record f { show_pos_sign = true })
    else if c == b'\''
    then some (record f { group_thou = true })
    else none

-- `!flags`
abbrev pub no_flag : Flags → Bool
no_flag f = not (
    f.alt_form
    || (f.zero_pad
        || (f.left_align
            || (f.centre_align
                || (f.pad_pos_sign
                    || (f.show_pos_sign || (f.group_thou || (f.have_width || f.have_precis))))))))

abbrev pub is_none : Option Arg → Bool
is_none none = true
is_none (some a) = false

-- The loop in state `FLAGS`.
unfoldable pub flags_loop : List Arg → ℕ → Parse → Outcome Parse
unfolding read_number
flags_loop args zero p = stuck
flags_loop args (suc fuel) p = elim (with_flag (first p.spec) p.flags) [
  | some f ↦ flags_loop args fuel (record p { flags = f; spec = tail p.spec })
  | none ↦
      if is_digit (first p.spec) && (no_flag p.flags && is_none p.arg)
      then (let n = read_number p.spec in
          let indexed_arg = (do
            a ← indexed args p.index n.0
            flags_loop args fuel (record p { arg = some a; index = explicit; spec = tail n.1 })) in
          if first n.1 == b'$' then indexed_arg else done p)
      else done p
]

abbrev pub set_number : Bool → ℕ → Parse → Parse
set_number in_precis n p =
    if in_precis
    then record p { precis = n; flags = record p.flags { have_precis = true } }
    else record p { width = n; flags = record p.flags { have_width = true } }

-- The argument of `*`.
unfoldable pub star : List Arg → Parse → Outcome (Arg × Parse)
star args p =
    if is_digit (first p.spec)
    then (let n = read_number p.spec in
        if first n.1 == b'$'
        then (do
          a ← indexed args p.index n.0
          done (a, record p { index = explicit; spec = tail n.1 }))
        else failed invalid)
    else (do out ← following args p.index; done (out.0, record p { index = out.1 }))

-- The loop in the states `WIDTH` and `PRECIS`.
unfoldable pub width_loop : Host → List Arg → ℕ → Bool → Parse → Outcome Parse
unfolding star
width_loop host args zero in_precis p = stuck
width_loop host args (suc fuel) in_precis p =
    let starred = (do
      out ← star args (record p { spec = tail p.spec })
      width_loop host args fuel in_precis (set_number in_precis (to_uint host out.0) out.1)) in
    let dotted = width_loop host args fuel true (record p { spec = tail p.spec }) in
    let numbered =
      width_loop host args fuel in_precis (
        set_number in_precis (read_number p.spec).0 (record p { spec = (read_number p.spec).1 })) in
    if first p.spec == b'*'
    then starred
    else if first p.spec == b'.' && not in_precis
    then dotted
    else if is_digit (first p.spec)
    then numbered
    else done p

-- The state `LEN`: the length modifiers, which are not used.
unfoldable pub skip_length : Text → Text
skip_length t =
    if first t == b'h' || first t == b'l'
    then if first (tail t) == first t then tail (tail t) else tail t
    else if first t == b'L'
        || (first t == b'q' || (first t == b'j' || (first t == b'z' || first t == b't')))
    then tail t
    else t

-- The choice of the argument in the state `CONV`.
unfoldable pub choose_arg : List Arg → Parse → Outcome Parse
choose_arg args p =
    if is_none p.arg && not (first p.spec == b'm')
    then (do out ← following args p.index; done (record p { arg = some out.0; index = out.1 }))
    else done p

abbrev pub is_explicit : Index → Bool
is_explicit explicit = true
is_explicit (next n) = false

-- All of `convert` in front of the call of `format`.
unfoldable pub parse_spec : Host → List Arg → Index → Text → Outcome Parse
unfolding flags_loop width_loop skip_length choose_arg
parse_spec host args index spec = do
  p ←
      flags_loop args (suc (length spec))
        (record { flags = no_flags; width = 0; precis = 0; arg = none; index = index; spec = spec })
  q ←
      if is_explicit p.index && is_none p.arg
      then failed invalid
      else width_loop host args (suc (suc (length p.spec))) false p
  choose_arg args (record q { spec = skip_length q.spec })
