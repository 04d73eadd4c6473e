-- ===== src/TaggedPtr/Runs.antt =====
-- Concrete tagged pointers.
use wrutil.Common.{◌≡◌, refl, arith, true, false, ◌||◌, some, none}
use wrutil.TaggedPtr.{set_both, ptr, less, greater, at_most, at_least}
use wrutil.TaggedPtr.Order.{at_most_apart}

packed : set_both 3 4096 5 0 ≡ some 4101
unfolding set_both
packed = refl

unaligned : set_both 3 4097 5 0 ≡ none
unfolding set_both
unaligned = refl

taken_apart : ptr 3 4101 ≡ 4096
taken_apart = refl

at_most_apart_example :
    ((less 3 4101 8195 || less 3 8195 4101) ≡ true)
    × (less 3 4101 8195 ≡ greater 3 8195 4101)
    × (at_most 3 4101 8195 ≡ false)
    × (at_least 3 4101 8195 ≡ false)
at_most_apart_example = at_most_apart 3 4101 8195 (λ h. omega (arith, h))
