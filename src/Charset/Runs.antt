-- ===== src/Charset/Runs.antt =====
-- Concrete names of character sets.
use wrutil.Common.{ℕ, ◌+◌, ◌≡◌, refl, true, false, ◌&&◌, if◌then◌else◌, leb, codes}
use wrutil.StringView.{trim}
use wrutil.Charset.{is_utf8}

ascii_lower : ℕ → ℕ
ascii_lower c = if leb 65 c && leb c 90 then c + 32 else c

upper_case : is_utf8 ascii_lower (codes " UTF-8 ") ≡ true
unfolding is_utf8 ascii_lower trim
upper_case = refl

other : is_utf8 ascii_lower (codes "latin1") ≡ false
unfolding is_utf8 ascii_lower trim
other = refl
