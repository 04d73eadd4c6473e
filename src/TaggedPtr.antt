-- ===== src/TaggedPtr.antt =====
-- include/wrutil/tagged_ptr.h, wr::tagged_ptr: a pointer and a tag of `n` bits in one word of 64 bits.
-- A value is the word; a setter throws invalid_argument where it answers `none`.
pub mod Order
mod Runs
use wrutil.Common.{
  ℕ, ◌+◌, ◌-◌, ◌*◌, ◌^◌, ◌%◌, bit_and, bit_or, ltb, leb, ◌==◌, if◌then◌else◌, Bool, true, false,
  not, ◌&&◌, ◌||◌, Option, none, some, ◌>>=◌,
}

-- `uintptr_t(-1L) << N_TAG_BITS`
abbrev pub ptr_mask : ℕ → ℕ
ptr_mask n = (2 ^ 64 - 1) * 2 ^ n % 2 ^ 64

abbrev pub tag_mask : ℕ → ℕ
tag_mask n = 2 ^ 64 - 1 - ptr_mask n

abbrev pub ptr : ℕ → ℕ → ℕ
ptr n bits = bit_and bits (ptr_mask n)

abbrev pub tag : ℕ → ℕ → ℕ
tag n bits = bit_and bits (tag_mask n)

-- `ptr(p)`
unfoldable pub set_ptr : ℕ → ℕ → ℕ → Option ℕ
set_ptr n p bits =
    if not (bit_and p (tag_mask n) == 0) then none else some (bit_or (bit_and bits (tag_mask n)) p)

-- `tag(t)`
unfoldable pub set_tag : ℕ → ℕ → ℕ → Option ℕ
set_tag n t bits =
    if not (bit_and t (ptr_mask n) == 0) then none else some (bit_or (bit_and bits (ptr_mask n)) t)

-- `set(p, t)`
unfoldable pub set_both : ℕ → ℕ → ℕ → ℕ → Option ℕ
unfolding set_ptr set_tag
set_both n p t bits = set_ptr n p bits >>= λ b. set_tag n t b

-- `operator<` and the other three
unfoldable pub less : ℕ → ℕ → ℕ → Bool
less n a b = ltb (ptr n a) (ptr n b) || (ptr n a == ptr n b && ltb (tag n a) (tag n b))

unfoldable pub at_most : ℕ → ℕ → ℕ → Bool
at_most n a b = a == b || (ptr n a == ptr n b && leb (tag n a) (tag n b))

unfoldable pub at_least : ℕ → ℕ → ℕ → Bool
at_least n a b = a == b || (ptr n a == ptr n b && leb (tag n b) (tag n a))

unfoldable pub greater : ℕ → ℕ → ℕ → Bool
greater n a b = ltb (ptr n b) (ptr n a) || (ptr n a == ptr n b && ltb (tag n b) (tag n a))
