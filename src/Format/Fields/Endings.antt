-- ===== src/Format/Fields/Endings.antt =====
-- The conversions of Target::format end.
use wrutil.Common.{ℕ, ltb, if◌then◌else◌, Bool, true, false, Option, none, some, [], ◌∷◌, length}
use wrutil.Format.{
  invalid, bad_sequence, Text, Params, Error, Outcome, thrown, done, failed, undefined, Field, Conv,
  written, no_space, outside, Host,
}
use wrutil.Format.Fields.{
  buf_size, converted, body_only, floating_field, char_field, wide_field, int_field, double_field,
  string_field,
}

-- The fuel was enough.
pub data Finishes {A : Type 0} : Outcome A → Type 0 where
  with_result : {a : A} → Finishes (done a)
  with_error : {e : Error} → Finishes (failed e)
  with_exception : Finishes thrown
  with_undefined : Finishes undefined

pub branches :
    {A : Type 0} (b : Bool) (x y : Outcome A)
    → Finishes x
    → Finishes y
    → Finishes (if b then x else y)
branches true x y h k = h
branches false x y h k = k

pub optional_case :
    {A B : Type 0} (o : Option A) (e : Outcome B) (f : A → Outcome B)
    → Finishes e
    → ((a : A) → Finishes (f a))
    → Finishes (elim o [ none ↦ e | some a ↦ f a ])
optional_case none e f h k = h
optional_case (some a) e f h k = k a

pub converted-Finishes : (c : Conv Field) → Finishes (converted c)
converted-Finishes (written f) = with_result
converted-Finishes no_space = with_result
converted-Finishes outside = with_undefined

floating_field-Finishes :
    (host : Host) (p : Params) (bits : ℕ) → Finishes (floating_field host p bits)
unfolding floating_field
floating_field-Finishes host p bits = converted-Finishes _

char_field-Finishes : (w : ℕ) → Finishes (char_field w)
unfolding char_field
char_field-Finishes w = branches _ _ _ with_result with_error

wide_field-Finishes : (host : Host) (w : ℕ) → Finishes (wide_field host w)
unfolding wide_field
wide_field-Finishes host w =
    branches _ _ _
      (optional_case (host.wide w) _ (λ t. done (body_only t)) with_error (λ t. with_result))
      with_error

pub int_field-Finishes :
    (host : Host) (p : Params) (conv : ℕ) (signed : Bool) (w : ℕ)
    → Finishes (int_field host p conv signed w)
unfolding int_field
int_field-Finishes host p conv signed w =
    search
      (
        branches, converted-Finishes, char_field-Finishes, wide_field-Finishes, with_error,
        with_result,
      )
      depth 14

printed_field :
    (o : Option Text)
    → Finishes (elim o [
      | none ↦ failed invalid
      | some t ↦ if ltb (length t) buf_size then done (body_only t) else undefined
    ])
printed_field none = with_error
printed_field (some t) = branches (ltb (length t) buf_size) _ _ with_result with_undefined

narrowed_field :
    (host : Host) (p : Params) (o : Option ℕ)
    → Finishes (elim o [ none ↦ failed bad_sequence | some w ↦ int_field host p p.conv true w ])
narrowed_field host p none = with_error
narrowed_field host p (some w) = int_field-Finishes host p p.conv true w

pub double_field-Finishes :
    (host : Host) (p : Params) (bits : ℕ) → Finishes (double_field host p bits)
unfolding double_field
double_field-Finishes host p bits =
    search
      (
        branches,
        converted-Finishes,
        printed_field (host.c_print (b'%' ∷ b'f' ∷ []) none bits),
        narrowed_field host p (host.double_to_int bits),
        with_error,
        with_result,
      )
      depth 14

pub string_field-Finishes :
    (host : Host) (p : Params) (conv : ℕ) (t : Text) → Finishes (string_field host p conv t)
unfolding string_field
string_field-Finishes host p conv t =
    search (branches, int_field-Finishes, floating_field-Finishes, with_error, with_result) depth 14
