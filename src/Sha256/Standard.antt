-- ===== src/Sha256/Standard.antt =====
-- The hash function of FIPS 180-4, written from the standard: the constants are the first 32 bits of the
-- fractional parts of roots of primes, and the schedule is given by its recurrence. A word is a number
-- below 2^32.
pub mod Rounds
pub mod Words
pub mod Meets
use wrutil.Common.{
  ℕ, zero, suc, ◌+◌, ◌-◌, ◌*◌, ◌/◌, ◌%◌, ◌^◌, ◌<◌, leb, if◌then◌else◌, bit_and, bit_or, bit_xor,
  ◌≡◌, List, [], ◌∷◌, ◌++◌, length, get_or, map, replicate, All,
}
use wrutil.Sha256.Block.{Registers}

abbrev word : ℕ → ℕ
word n = n % 2 ^ 32

-- The first 64 primes.
abbrev pub primes : List ℕ
primes =
    2 ∷ 3 ∷ 5 ∷ 7 ∷ 11 ∷ 13 ∷ 17 ∷ 19 ∷ 23 ∷ 29 ∷ 31 ∷ 37 ∷ 41 ∷ 43 ∷ 47 ∷ 53 ∷ 59 ∷ 61 ∷ 67 ∷ 71
    ∷ 73 ∷ 79 ∷ 83 ∷ 89 ∷ 97 ∷ 101 ∷ 103 ∷ 107 ∷ 109 ∷ 113 ∷ 127 ∷ 131 ∷ 137 ∷ 139 ∷ 149 ∷ 151 ∷ 157
    ∷ 163 ∷ 167 ∷ 173 ∷ 179 ∷ 181 ∷ 191 ∷ 193 ∷ 197 ∷ 199 ∷ 211 ∷ 223 ∷ 227 ∷ 229 ∷ 233 ∷ 239 ∷ 241
    ∷ 251 ∷ 257 ∷ 263 ∷ 269 ∷ 271 ∷ 277 ∷ 281 ∷ 283 ∷ 293 ∷ 307 ∷ 311 ∷ []

-- The greatest number above `found`, by at most `2 ^ bits - 1`, whose power is not greater than `n`.
abbrev pub root : ℕ → ℕ → ℕ → ℕ → ℕ
root power n zero found = found
root power n (suc bits) found =
    root power n bits (if leb ((found + 2 ^ bits) ^ power) n then found + 2 ^ bits else found)

-- The first 32 bits of the fractional part of a root.
abbrev pub square_root : ℕ → ℕ
square_root p = word (root 2 (p * 2 ^ 64) 40 0)

abbrev pub cube_root : ℕ → ℕ
cube_root p = word (root 3 (p * 2 ^ 96) 40 0)

-- The constant of a round.
abbrev pub constant : ℕ → ℕ
constant t = get_or (map cube_root primes) t 0

abbrev pub first_hash : Registers
first_hash = record {
  a = square_root 2;
  b = square_root 3;
  c = square_root 5;
  d = square_root 7;
  e = square_root 11;
  f = square_root 13;
  g = square_root 17;
  h = square_root 19;
}

-- ROTR and SHR
abbrev rotr : ℕ → ℕ → ℕ
rotr n x = bit_or (x / 2 ^ n) (word (x * 2 ^ (32 - n)))

abbrev shr : ℕ → ℕ → ℕ
shr n x = x / 2 ^ n

abbrev xor3 : ℕ → ℕ → ℕ → ℕ
xor3 x y z = bit_xor (bit_xor x y) z

abbrev choice : ℕ → ℕ → ℕ → ℕ
choice x y z = bit_xor (bit_and x y) (bit_and (2 ^ 32 - 1 - x) z)

abbrev majority : ℕ → ℕ → ℕ → ℕ
majority x y z = xor3 (bit_and x y) (bit_and x z) (bit_and y z)

-- The word at a place of a block, its first byte counting most.
abbrev pub word_at : List ℕ → ℕ → ℕ
word_at block t =
    ((get_or block (t * 4) 0 * 256 + get_or block (t * 4 + 1) 0) * 256 + get_or block (t * 4 + 2) 0)
      * 256
    + get_or block (t * 4 + 3) 0

-- The message schedule of a block.
pub record Schedule (block : List ℕ) (w : ℕ → ℕ) : Type 0 where
  pub first : (t : ℕ) → t < 16 → w t ≡ word_at block t
  pub later :
      (t : ℕ)
      → t < 48
      → w (t + 16)
        ≡ word (
            xor3 (rotr 17 (w (t + 14))) (rotr 19 (w (t + 14))) (shr 10 (w (t + 14)))
            + w (t + 9)
            + xor3 (rotr 7 (w (t + 1))) (rotr 18 (w (t + 1))) (shr 3 (w (t + 1)))
            + w t)

-- One round.
abbrev pub step : Registers → ℕ → ℕ → Registers
step r k w =
    let t1 =
      word (r.h + xor3 (rotr 6 r.e) (rotr 11 r.e) (rotr 25 r.e) + choice r.e r.f r.g + k + w) in
    let t2 = word (xor3 (rotr 2 r.a) (rotr 13 r.a) (rotr 22 r.a) + majority r.a r.b r.c) in
    record {
      a = word (t1 + t2);
      b = r.a;
      c = r.b;
      d = r.c;
      e = word (r.d + t1);
      f = r.e;
      g = r.f;
      h = r.g;
    }

-- `n` rounds, from round `t` on.
abbrev pub run : (ℕ → ℕ) → (ℕ → ℕ) → ℕ → ℕ → Registers → Registers
run k w t zero r = r
run k w t (suc n) r = run k w (suc t) n (step r (k t) (w t))

abbrev pub sum : Registers → Registers → Registers
sum r s = record {
  a = word (r.a + s.a);
  b = word (r.b + s.b);
  c = word (r.c + s.c);
  d = word (r.d + s.d);
  e = word (r.e + s.e);
  f = word (r.f + s.f);
  g = word (r.g + s.g);
  h = word (r.h + s.h);
}

-- What a block makes of a hash value.
pub record Compressed (h : Registers) (block : List ℕ) (out : Registers) : Type 0 where
  pub w : ℕ → ℕ
  pub schedule : Schedule block w
  pub result : out ≡ sum h (run constant w 0 64 h)

-- What a message of whole blocks makes of a hash value.
pub data Hashes : Registers → List ℕ → Registers → Type 0 where
  nothing : {h : Registers} → Hashes h [] h
  block_first :
      {h h' out : Registers} {block rest : List ℕ}
      → length block ≡ 64
      → Compressed h block h'
      → Hashes h' rest out
      → Hashes h (block ++ rest) out

-- The number that bytes stand for, the first one counting most.
abbrev pub value : ℕ → List ℕ → ℕ
value n [] = n
value n (b ∷ bytes) = value (n * 256 + b) bytes

-- A message with the bit 1 behind it, as few zeros as fill the last block, and its size in bits in eight bytes.
pub record Padded (message padded : List ℕ) : Type 0 where
  pub zeros : ℕ
  pub size : List ℕ
  pub shape : padded ≡ message ++ (0x80 ∷ (replicate zeros 0 ++ size))
  pub fewest : zeros < 64
  pub whole : length padded % 64 ≡ 0
  pub eight : length size ≡ 8
  pub bytes : All (λ b. b < 256) size
  pub counted : value 0 size ≡ length message * 8

-- A hash value is the digest of a message.
pub record IsDigest (message : List ℕ) (d : Registers) : Type 0 where
  pub padded : List ℕ
  pub padding : Padded message padded
  pub hashes : Hashes first_hash padded d
