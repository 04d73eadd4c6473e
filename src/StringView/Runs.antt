-- ===== src/StringView/Runs.antt =====
-- Concrete runs of the view, and the theorems at concrete inputs.
use Prim.Native.Nat.{compare, Ordering}
use wrutil.Common.{ℕ, ◌+◌, ◌≡◌, refl, arith, List, [], ◌++◌, codes, All}
use wrutil.Algorithm.{is_prefix}
use wrutil.StringView.{npos, rfind, trim, split_char, rsplit_char}
use wrutil.StringView.Trim.{IsSpace, NoSpaceAtFront, NoSpaceAtBack, trim_lem}

trim_run : trim (codes "  a b ") ≡ codes "a b"
unfolding trim
trim_run = refl

trim_blank : trim (codes "   ") ≡ []
unfolding trim
trim_blank = refl

trim_empty : trim [] ≡ []
unfolding trim
trim_empty = refl

split_run : split_char b',' (codes "a,b,c") ≡ (codes "a", codes "b,c")
unfolding split_char
split_run = refl

rsplit_run : rsplit_char b'.' (codes "en_GB.utf8") ≡ (codes "en_GB", codes "utf8")
unfolding rsplit_char
rsplit_run = refl

-- `rfind` on a view searches from `pos` on, where std::string_view searches up to `pos`.
rfind_run : rfind (codes "a") 1 (codes "abc") ≡ npos
unfolding rfind is_prefix
rfind_run = refl

trim_lem_example :
    (a : List ℕ) × (b : List ℕ) × (codes " x y" ≡ a ++ (trim (codes " x y") ++ b))
    × All IsSpace a
    × All IsSpace b
    × NoSpaceAtFront (trim (codes " x y"))
    × NoSpaceAtBack (trim (codes " x y"))
trim_lem_example = trim_lem (codes " x y") (omega arith)

-- ASCII letters in lower case.
abbrev lower : ℕ → ℕ
lower c = elim (compare c b'A') [
  | Ordering.lt ↦ c
  | _ ↦ elim (compare c b'Z') [ Ordering.gt ↦ c | _ ↦ c + 32 ]
]
