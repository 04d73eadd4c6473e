-- ===== src/Charset.antt =====
-- src/utf8.cxx, is_utf8 of the name of a character set; `to_lower` is that of the C library.
mod Runs
use Prim.Native.Nat.{Ordering}
use wrutil.Common.{ℕ, Bool, true, false, ◌||◌, List, [], ◌∷◌, codes}
use wrutil.StringView.{trim, compare_nocase}

charset_names : List (List ℕ)
charset_names =
    codes "utf8"
    ∷ codes "utf-8"
    ∷ codes "ibm-1208"
    ∷ codes "ibm-1209"
    ∷ codes "ibm-5304"
    ∷ codes "ibm-5305"
    ∷ codes "ibm-13496"
    ∷ codes "ibm-13497"
    ∷ codes "ibm-17592"
    ∷ codes "ibm-17593"
    ∷ codes "windows-65001"
    ∷ codes "65001"
    ∷ codes "cp65001"
    ∷ codes "cp1208"
    ∷ codes "x-utf_8j"
    ∷ codes "unicode-1-1-utf-8"
    ∷ codes "unicode-2-0-utf-8"
    ∷ []

equal_order : Ordering → Bool
equal_order Ordering.lt = false
equal_order Ordering.eq = true
equal_order Ordering.gt = false

is_one_of : (ℕ → ℕ) → List ℕ → List (List ℕ) → Bool
unfolding equal_order compare_nocase
is_one_of to_lower v [] = false
is_one_of to_lower v (name ∷ names) =
    equal_order (compare_nocase to_lower v name) || is_one_of to_lower v names

unfoldable pub is_utf8 : (ℕ → ℕ) → List ℕ → Bool
unfolding charset_names is_one_of
is_utf8 to_lower name = is_one_of to_lower (trim name) charset_names
