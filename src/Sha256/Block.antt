-- ===== src/Sha256/Block.antt =====
-- src/SHA256.cxx, SHA256::computeBlock and the functions that it uses: the compression of one
-- block of 64 bytes into the eight words of the hash. All words are uint32_t.
use wrutil.Common.{
  ℕ, zero, suc, ◌+◌, ◌-◌, ◌*◌, ◌/◌, ◌%◌, ◌^◌, bit_and, bit_or, bit_xor, List, [], ◌∷◌, get_or,
}
use mathlib.Core.List.{reverse}

abbrev u32 : ℕ → ℕ
u32 n = n % 2 ^ 32

unfoldable pub rotate_right : ℕ → ℕ → ℕ
rotate_right x bits = bit_or (x / 2 ^ bits) (u32 (x * 2 ^ (32 - bits)))

-- `~x`
unfoldable pub complement : ℕ → ℕ
complement x = 2 ^ 32 - 1 - x

unfoldable pub ch : ℕ → ℕ → ℕ → ℕ
unfolding complement
ch x y z = bit_xor (bit_and x y) (bit_and (complement x) z)

unfoldable pub maj : ℕ → ℕ → ℕ → ℕ
maj x y z = bit_xor (bit_xor (bit_and x y) (bit_and x z)) (bit_and y z)

-- SIGMA0 and SIGMA1 of the rounds
unfoldable pub big_sigma0 : ℕ → ℕ
unfolding rotate_right
big_sigma0 x = bit_xor (bit_xor (rotate_right x 2) (rotate_right x 13)) (rotate_right x 22)

unfoldable pub big_sigma1 : ℕ → ℕ
unfolding rotate_right
big_sigma1 x = bit_xor (bit_xor (rotate_right x 6) (rotate_right x 11)) (rotate_right x 25)

-- sigma0 and sigma1 of the schedule
unfoldable pub sigma0 : ℕ → ℕ
unfolding rotate_right
sigma0 x = bit_xor (bit_xor (rotate_right x 7) (rotate_right x 18)) (x / 2 ^ 3)

unfoldable pub sigma1 : ℕ → ℕ
unfolding rotate_right
sigma1 x = bit_xor (bit_xor (rotate_right x 17) (rotate_right x 19)) (x / 2 ^ 10)

-- The table K_.
abbrev pub round_constants : List ℕ
round_constants =
    0x428a2f98 ∷ 0x71374491 ∷ 0xb5c0fbcf ∷ 0xe9b5dba5 ∷ 0x3956c25b ∷ 0x59f111f1 ∷ 0x923f82a4
    ∷ 0xab1c5ed5 ∷ 0xd807aa98 ∷ 0x12835b01 ∷ 0x243185be ∷ 0x550c7dc3 ∷ 0x72be5d74 ∷ 0x80deb1fe
    ∷ 0x9bdc06a7 ∷ 0xc19bf174 ∷ 0xe49b69c1 ∷ 0xefbe4786 ∷ 0x0fc19dc6 ∷ 0x240ca1cc ∷ 0x2de92c6f
    ∷ 0x4a7484aa ∷ 0x5cb0a9dc ∷ 0x76f988da ∷ 0x983e5152 ∷ 0xa831c66d ∷ 0xb00327c8 ∷ 0xbf597fc7
    ∷ 0xc6e00bf3 ∷ 0xd5a79147 ∷ 0x06ca6351 ∷ 0x14292967 ∷ 0x27b70a85 ∷ 0x2e1b2138 ∷ 0x4d2c6dfc
    ∷ 0x53380d13 ∷ 0x650a7354 ∷ 0x766a0abb ∷ 0x81c2c92e ∷ 0x92722c85 ∷ 0xa2bfe8a1 ∷ 0xa81a664b
    ∷ 0xc24b8b70 ∷ 0xc76c51a3 ∷ 0xd192e819 ∷ 0xd6990624 ∷ 0xf40e3585 ∷ 0x106aa070 ∷ 0x19a4c116
    ∷ 0x1e376c08 ∷ 0x2748774c ∷ 0x34b0bcb5 ∷ 0x391c0cb3 ∷ 0x4ed8aa4a ∷ 0x5b9cca4f ∷ 0x682e6ff3
    ∷ 0x748f82ee ∷ 0x78a5636f ∷ 0x84c87814 ∷ 0x8cc70208 ∷ 0x90befffa ∷ 0xa4506ceb ∷ 0xbef9a3f7
    ∷ 0xc67178f2 ∷ []

-- The block's bytes as words, after the loop over htonl on a little-endian machine.
unfoldable pub words : List ℕ → List ℕ
words (a ∷ b ∷ c ∷ d ∷ rest) = (((a * 256 + b) * 256 + c) * 256 + d) ∷ words rest
words _ = []

-- The loop over `j` from 16 on; the words stand newest first, so that `w[j - k]` is entry `k - 1`.
unfoldable pub extend : ℕ → List ℕ → List ℕ
unfolding sigma0 sigma1
extend zero w = w
extend (suc rounds) w =
    extend rounds
      (u32 (sigma1 (get_or w 1 0) + get_or w 6 0 + sigma0 (get_or w 14 0) + get_or w 15 0) ∷ w)

unfoldable pub schedule : List ℕ → List ℕ
unfolding words extend
schedule block = reverse (extend 48 (reverse (words block)))

pub record Registers : Type 0 where
  pub a : ℕ
  pub b : ℕ
  pub c : ℕ
  pub d : ℕ
  pub e : ℕ
  pub f : ℕ
  pub g : ℕ
  pub h : ℕ

-- One pass of the loop over `j`, for the constant `k` and the word `w`.
unfoldable pub round : Registers → ℕ → ℕ → Registers
unfolding big_sigma0 big_sigma1 ch maj
round r k w =
    let t1 = u32 (r.h + big_sigma1 r.e + ch r.e r.f r.g + k + w) in
    let t2 = u32 (big_sigma0 r.a + maj r.a r.b r.c) in
    record {
      a = u32 (t1 + t2);
      b = r.a;
      c = r.b;
      d = r.c;
      e = u32 (r.d + t1);
      f = r.e;
      g = r.f;
      h = r.g;
    }

unfoldable pub rounds : Registers → List ℕ → List ℕ → Registers
unfolding round
rounds r (k ∷ ks) (w ∷ ws) = rounds (round r k w) ks ws
rounds r ks ws = r

-- `h[i] += reg.hash[i]`
unfoldable pub add_registers : Registers → Registers → Registers
add_registers r s = record {
  a = u32 (r.a + s.a);
  b = u32 (r.b + s.b);
  c = u32 (r.c + s.c);
  d = u32 (r.d + s.d);
  e = u32 (r.e + s.e);
  f = u32 (r.f + s.f);
  g = u32 (r.g + s.g);
  h = u32 (r.h + s.h);
}

-- The hash that `computeBlock` leaves in `h`.
unfoldable pub compress : Registers → List ℕ → Registers
unfolding rounds schedule add_registers
compress h block = add_registers h (rounds h round_constants (schedule block))

-- The bytes that it leaves in the first sixteen words of `w`, which it swaps in place.
unfoldable pub swap_bytes : List ℕ → List ℕ
swap_bytes (a ∷ b ∷ c ∷ d ∷ rest) = d ∷ c ∷ b ∷ a ∷ swap_bytes rest
swap_bytes _ = []
