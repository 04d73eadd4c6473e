-- ===== src/Sha256/Runs.antt =====
-- Concrete runs, and the theorems at concrete inputs.
use wrutil.Common.{
  ◌*◌, ◌^◌, ◌≤◌, ◌≡◌, ◌≢◌, refl, arith, none, some, ◌>>=◌, [], ◌∷◌, ◌++◌, codes, replicate,
}
use wrutil.Sha256.Block.{Registers, compress, swap_bytes}
use wrutil.Sha256.{Sha256, reset, append, finish, hash, chash, initial_hash}
use wrutil.Sha256.Append.{append_first_block}
use wrutil.Sha256.Padding.{Stands}
use wrutil.Sha256.Pieces.{append-Stands}
use wrutil.Sha256.Standard.{IsDigest}
use wrutil.Sha256.Standard.Meets.{hash-IsDigest}
use wrutil.Sha256.Hex.{finish_undetected}

abbrev fresh : Sha256
fresh = record { hash_words = initial_hash; buffer = replicate 64 0; total_length = 0 }

-- The example of FIPS 180-4.
abc :
    (append (codes "abc") fresh >>= hash >>= λ r. some r.0)
    ≡ some (record {
      a = 0xba7816bf;
      b = 0x8f01cfea;
      c = 0x414140de;
      d = 0x5dae2223;
      e = 0xb00361a3;
      f = 0x96177a9c;
      g = 0xb410ff61;
      h = 0xf20015ad;
    })
unfolding append hash finish compress swap_bytes
abc = refl

reset_again : reset (record fresh { total_length = 9 }) ≡ fresh
unfolding reset
reset_again = refl

append_first_block_example :
    append (replicate 64 0x61 ++ (0x62 ∷ [])) fresh
    ≡ append (replicate 64 0x61 ++ (0x63 ∷ [])) fresh
append_first_block_example =
    append_first_block (replicate 64 0x61 ++ (0x62 ∷ [])) (replicate 64 0x61 ++ (0x63 ∷ [])) fresh
      refl refl

fresh-Stands : Stands fresh []
fresh-Stands = (
  0,
  [],
  [],
  refl,
  record {
    compressed = refl;
    blocks = refl;
    short = omega arith;
    size = refl;
    buffered = refl;
    counted = refl;
  },
)

append-Stands_example :
    (t : Sha256) × (append (codes "abc") fresh ≡ some t) × Stands t ([] ++ codes "abc")
append-Stands_example =
    append-Stands fresh [] (codes "abc") fresh-Stands (omega arith) (omega arith)

hash-IsDigest_example :
    (d : Registers) × IsDigest [] d
    × ((hash fresh >>= λ r. some r.0) ≡ some d)
    × (chash fresh ≡ some (d, fresh))
hash-IsDigest_example = hash-IsDigest fresh [] fresh-Stands (omega arith)

abbrev huge : Sha256
huge = record fresh { total_length = 3 * 2 ^ 60 }

finish_undetected_example : (2 ^ 64 ≤ 3 * 2 ^ 60 * 8) × (finish huge ≢ none)
finish_undetected_example = finish_undetected huge (omega arith) (omega arith)
