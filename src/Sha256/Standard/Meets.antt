-- ===== src/Sha256/Standard/Meets.antt =====
-- The digest of a message is the one of the standard.
use wrutil.Common.{
  ℕ, zero, suc, ◌+◌, ◌-◌, ◌*◌, ◌/◌, ◌%◌, ◌^◌, ◌<◌, ◌≡◌, refl, ap, ◌∙◌, arith, some, ◌>>=◌, List, [],
  ◌∷◌, ◌++◌, length, length-append, length-replicate, length-take, length-drop, take, drop,
  replicate, take-append-drop, get_or,
}
use mathlib.Core.Path.{subst}
use wrutil.Sha256.{Sha256, initial_hash, big_endian, hash, chash}
use wrutil.Sha256.Block.{Registers, compress, rounds, round_constants, schedule}
use wrutil.Sha256.Padding.{compress_blocks, pad, digest, Stands}
use wrutil.Sha256.Digest.{hash-digest}
use wrutil.Sha256.Standard.{sum, Compressed, Hashes, nothing, block_first, Padded, IsDigest, value}
use wrutil.Sha256.Standard.Rounds.{initial_hash-first_hash, rounds-constant, add_registers-sum}
use wrutil.Sha256.Standard.Words.{length-schedule, schedule-Schedule}

compress-Compressed :
    (h : Registers) (block : List ℕ) → length block ≡ 64 → Compressed h block (compress h block)
unfolding compress
compress-Compressed h block e = record {
  w = λ t. get_or (schedule block) t 0;
  schedule = schedule-Schedule block e;
  result =
      add_registers-sum h (rounds h round_constants (schedule block))
      ∙ ap (sum h) (rounds-constant h (schedule block) (length-schedule block e));
}

compress_blocks-Hashes :
    (n : ℕ) (h : Registers) (bytes : List ℕ)
    → length bytes ≡ n * 64
    → Hashes h bytes (compress_blocks n h bytes)
compress_blocks-Hashes zero h [] e = nothing
compress_blocks-Hashes zero h (x ∷ bytes) e = absurd (omega (arith, e))
compress_blocks-Hashes (suc n) h bytes e =
    let size : length (take 64 bytes) ≡ 64 = omega (arith, e, length-take 64 bytes) in
    subst (λ (b : List ℕ). Hashes h b (compress_blocks (suc n) h bytes)) (take-append-drop 64 bytes)
      (block_first size (compress-Compressed h (take 64 bytes) size) (
        compress_blocks-Hashes n (compress h (take 64 bytes)) (drop 64 bytes)
          (omega (arith, e, length-drop 64 bytes))))

length-pad :
    (message : List ℕ)
    → length (pad message) ≡ length message + (119 - length message % 64) % 64 + 9
length-pad message =
    let zeros = (119 - length message % 64) % 64 in
    omega (
      arith,
      length-append message (0x80 ∷ (replicate zeros 0 ++ big_endian 8 (length message * 8))),
      length-append (replicate {A = ℕ} zeros 0) (big_endian 8 (length message * 8)),
      length-replicate {A = ℕ} zeros 0,
    )

big_endian-value : (n : ℕ) → n < 2 ^ 64 → value 0 (big_endian 8 n) ≡ n
big_endian-value n h = omega arith

pad-Padded : (message : List ℕ) → length message < 2 ^ 61 → Padded message (pad message)
pad-Padded message h = record {
  zeros = (119 - length message % 64) % 64;
  size = big_endian 8 (length message * 8);
  shape = refl;
  fewest = omega arith;
  whole = omega (arith, length-pad message);
  eight = refl;
  bytes = (
    omega arith,
    (
      omega arith,
      (omega arith, (omega arith, (omega arith, (omega arith, (omega arith, (omega arith, tt)))))),
    ),
  );
  counted = big_endian-value (length message * 8) (omega (arith, h));
}

digest-IsDigest : (message : List ℕ) → length message < 2 ^ 61 → IsDigest message (digest message)
digest-IsDigest message h = record {
  padded = pad message;
  padding = pad-Padded message h;
  hashes =
      subst (λ r. Hashes r (pad message) (digest message)) initial_hash-first_hash
        (compress_blocks-Hashes (length (pad message) / 64) initial_hash (pad message)
          (omega (arith, length-pad message)));
}

-- On a state that stands for a message below 2^61 bytes, `hash` and `chash` give the digest that FIPS 180-4 defines
-- for it, and `chash` leaves the state alone.
pub hash-IsDigest :
    (s : Sha256) (message : List ℕ)
    → Stands s message
    → length message < 2 ^ 61
    → (d : Registers) × IsDigest message d
      × ((hash s >>= λ r. some r.0) ≡ some d)
      × (chash s ≡ some (d, s))
hash-IsDigest s message stands small =
    let (hashed, kept) = hash-digest s message stands small in
    (digest message, digest-IsDigest message small, hashed, kept)
