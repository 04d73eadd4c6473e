-- ===== src/Common/Bits.antt =====
-- `&` with a mask of low bits and `|` of fields that do not overlap, as arithmetic.
use Prim.Native.Nat.{ℕ, zero, suc, ◌+◌, ◌-◌, ◌*◌, ◌/◌, ◌%◌, ◌^◌, ◌≤◌, ◌<◌, min, max}
use Prim.Native.Nat.{bit_and, bit_or, digits, bit_and-bitwise, bit_or-bitwise}
use mathlib.Core.Path.{◌≡◌, refl, ap, ◌∙◌}
use native.Mathlib.Nat.{pow-suc, one-le-pow, div-add-mod', mod-lt}
use native.Mathlib.Omega.{arith}

-- The digit recursion behind the native operations gives one result for all fuel that suffices.
module _ (rest : ℕ → ℕ) (bit : ℕ → ℕ → ℕ) where
  enough : (n m a b : ℕ) → a ≤ n → a ≤ m → digits rest bit n a b ≡ digits rest bit m a b
  enough zero zero a b hn hm = refl
  enough zero (suc m) zero b hn hm = refl
  enough (suc n) zero zero b hn hm = refl
  enough (suc n) (suc m) zero b hn hm = refl
  enough zero (suc m) (suc a) b hn hm = absurd (omega arith)
  enough (suc n) zero (suc a) b hn hm = absurd (omega arith)
  enough (suc n) (suc m) (suc a) b hn hm =
      rw (enough n m (suc a / 2) (b / 2) (omega arith) (omega arith))

and_low : (a b : ℕ) → bit_and a b ≡ bit_and (a / 2) (b / 2) * 2 + min (a % 2) (b % 2)
and_low zero b = rw (bit_and-bitwise 0 b, bit_and-bitwise 0 (b / 2)) (omega arith)
and_low (suc a) b = omega (
  arith,
  bit_and-bitwise (suc a) b,
  bit_and-bitwise (suc a / 2) (b / 2),
  enough (λ _. 0) min a (suc a / 2) (suc a / 2) (b / 2) (omega arith) (omega arith),
)

or_low : (a b : ℕ) → bit_or a b ≡ bit_or (a / 2) (b / 2) * 2 + max (a % 2) (b % 2)
or_low zero b = rw (bit_or-bitwise 0 b, bit_or-bitwise 0 (b / 2)) (omega arith)
or_low (suc a) b = omega (
  arith,
  bit_or-bitwise (suc a) b,
  bit_or-bitwise (suc a / 2) (b / 2),
  enough (λ y. y) max a (suc a / 2) (suc a / 2) (b / 2) (omega arith) (omega arith),
)

-- `a & 0` and `a | 0`, by a bound on `a` that halves.
and_or_zero : (n a : ℕ) → a ≤ n → (bit_and a 0 ≡ 0) × (bit_or a 0 ≡ a)
and_or_zero n zero h = (refl, refl)
and_or_zero zero (suc a) h = absurd (omega arith)
and_or_zero (suc n) (suc a) h =
    let (p, q) = and_or_zero n (suc a / 2) (omega arith) in
    (omega (arith, and_low (suc a) 0), omega (arith, or_low (suc a) 0))

double_half : (t s : ℕ) → s ≡ t * 2 → (s / 2 ≡ t) × (s % 2 ≡ 0)
double_half t s e = omega arith

shl_one : (k q : ℕ) → q * 2 ^ suc k ≡ q * 2 ^ k * 2
shl_one k q = omega (arith, ap (λ (t : ℕ). q * t) (pow-suc 2 k))

-- Masking the `k` low bits of two fields leaves the lower one.
bit_and-fields : (k q r : ℕ) → r < 2 ^ k → bit_and (q * 2 ^ k + r) (2 ^ k - 1) ≡ r
bit_and-fields zero q r h = omega (arith, (and_or_zero (q * 1 + r) (q * 1 + r) (omega arith)).0)
bit_and-fields (suc k) q r h =
    and_low _ _ ∙ rw (left, right, bit_and-fields k q (r / 2) (omega (arith, pow-suc 2 k))) tail
  where
    pos : 1 ≤ 2 ^ k
    pos = one-le-pow k 2 (omega arith)

    left : (q * 2 ^ suc k + r) / 2 ≡ q * 2 ^ k + r / 2
    left = omega (arith, shl_one k q)

    right : (2 ^ suc k - 1) / 2 ≡ 2 ^ k - 1
    right = omega (arith, pow-suc 2 k, pos)

    tail : r / 2 * 2 + min ((q * 2 ^ suc k + r) % 2) ((2 ^ suc k - 1) % 2) ≡ r
    tail = omega (arith, pow-suc 2 k, shl_one k q, pos)

-- `a & (2^k - 1)` is the remainder by `2^k`.
pub bit_and-low : (k a : ℕ) → bit_and a (2 ^ k - 1) ≡ a % 2 ^ k
bit_and-low k a =
    rw (div-add-mod' a (2 ^ k)) at
      (bit_and-fields k (a / 2 ^ k) (a % 2 ^ k) (mod-lt a (one-le-pow k 2 (omega arith))))

-- `(q << k) | r` is a sum when `r` has `k` bits.
pub bit_or-fields : (k q r : ℕ) → r < 2 ^ k → bit_or (q * 2 ^ k) r ≡ q * 2 ^ k + r
bit_or-fields zero q r h = omega (arith, (and_or_zero (q * 1) (q * 1) (omega arith)).1, zero_r)
  where
    zero_r : bit_or (q * 1) r ≡ bit_or (q * 1) 0
    zero_r = ap (λ (t : ℕ). bit_or (q * 1) t) (omega arith)
bit_or-fields (suc k) q r h =
    or_low _ _ ∙ rw (left, bit_or-fields k q (r / 2) (omega (arith, pow-suc 2 k))) tail
  where
    left : q * 2 ^ suc k / 2 ≡ q * 2 ^ k
    left = (double_half (q * 2 ^ k) (q * 2 ^ suc k) (shl_one k q)).0

    tail : (q * 2 ^ k + r / 2) * 2 + max (q * 2 ^ suc k % 2) (r % 2) ≡ q * 2 ^ suc k + r
    tail = omega (arith, shl_one k q)
