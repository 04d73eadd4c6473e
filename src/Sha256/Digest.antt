-- ===== src/Sha256/Digest.antt =====
-- `hash` and `chash`, and the digest of the message that the state stands for.
use wrutil.Common.{
  ℕ, suc, ◌+◌, ◌-◌, ◌*◌, ◌/◌, ◌%◌, ◌^◌, ◌≤◌, ◌<◌, ltb, ltb→lt, ltb→le, lt→ltb, le→ltb, ◌≡◌, refl,
  ap, ◌∙◌, sym, arith, true, false, Bool-cases, inl, inr, Option, none, some, ◌>>=◌, List, [], ◌∷◌,
  ◌++◌, append_assoc, append-nil, length, length-append, length-replicate, replicate, replicate-add,
}
use mathlib.Core.Path.{ap₂}
use wrutil.Sha256.Block.{Registers, compress, swap_bytes}
use wrutil.Sha256.{Sha256, write_at, initial_hash, big_endian, mark_and_pad, finish, hash, chash}
use wrutil.Sha256.Padding.{
  compress_blocks, pad, digest, Holds, Stands, Front, write_at-Front, Front-all,
  compress_blocks-append, length-swap_bytes, buffer-Front,
}

module _ (n : ℕ) (full rest : List ℕ) (blocks : length full ≡ n * 64)
    (short : length rest < 64) where
  abbrev message : List ℕ
  message = full ++ rest

  abbrev size_bytes : List ℕ
  size_bytes = big_endian 8 (length message * 8)

  abbrev one_block : List ℕ
  one_block = rest ++ (0x80 ∷ (replicate (55 - length rest) 0 ++ size_bytes))

  abbrev first_of_two : List ℕ
  first_of_two = rest ++ (0x80 ∷ replicate (63 - length rest) 0)

  abbrev second_of_two : List ℕ
  second_of_two = replicate 56 0 ++ size_bytes

  rest_of : length message % 64 ≡ length rest
  rest_of = omega (arith, length-append full rest)

  pub length-one_block : length rest ≤ 55 → length one_block ≡ 64
  length-one_block h = omega (
    arith,
    length-append rest (0x80 ∷ (replicate (55 - length rest) 0 ++ size_bytes)),
    length-append (replicate {A = ℕ} (55 - length rest) 0) size_bytes,
    length-replicate {A = ℕ} (55 - length rest) 0,
  )

  pub length-first_of_two : length first_of_two ≡ 64
  length-first_of_two = omega (
    arith,
    length-append rest (0x80 ∷ replicate (63 - length rest) 0),
    length-replicate {A = ℕ} (63 - length rest) 0,
  )

  pad_one : length rest ≤ 55 → pad message ≡ full ++ one_block
  pad_one h =
      ap (λ (z : ℕ). message ++ (0x80 ∷ (replicate z 0 ++ size_bytes))) zeros
      ∙ append_assoc full rest _
    where
      zeros : (119 - length message % 64) % 64 ≡ 55 - length rest
      zeros = omega (arith, rest_of)

  pad_two : 56 ≤ length rest → pad message ≡ (full ++ first_of_two) ++ second_of_two
  pad_two h = ap (λ (z : List ℕ). message ++ (0x80 ∷ (z ++ size_bytes))) zeros ∙ simp append_assoc
    where
      count : (119 - length message % 64) % 64 ≡ (63 - length rest) + 56
      count = omega (arith, rest_of)

      zeros :
          replicate {A = ℕ} ((119 - length message % 64) % 64) 0
          ≡ replicate (63 - length rest) 0 ++ replicate 56 0
      zeros =
          ap (λ (k : ℕ). replicate {A = ℕ} k 0) count ∙ sym (replicate-add (63 - length rest) 56 0)

  -- The digest where the padding fits the block of the rest.
  pub digest_one :
      length rest ≤ 55 → digest message ≡ compress (compress_blocks n initial_hash full) one_block
  digest_one h =
      ap₂ (λ (k : ℕ) (m : List ℕ). compress_blocks k initial_hash m) count (pad_one h)
      ∙ compress_blocks-append n initial_hash full one_block blocks (length-one_block h)
    where
      count : length (pad message) / 64 ≡ suc n
      count = omega (arith, ap length (pad_one h), length-append full one_block, length-one_block h)

  -- The digest where it takes one more block.
  pub digest_two :
      56 ≤ length rest
      → digest message
        ≡ compress (compress (compress_blocks n initial_hash full) first_of_two) second_of_two
  digest_two h =
      ap₂ (λ (k : ℕ) (m : List ℕ). compress_blocks k initial_hash m) count (pad_two h)
      ∙ compress_blocks-append (suc n) initial_hash (full ++ first_of_two) second_of_two
          (omega (arith, size)) refl
      ∙ ap (λ (r : Registers). compress r second_of_two)
          (compress_blocks-append n initial_hash full first_of_two blocks length-first_of_two)
    where
      size : length (full ++ first_of_two) ≡ suc n * 64
      size = omega (arith, length-append full first_of_two, length-first_of_two)

      count : length (pad message) / 64 ≡ suc (suc n)
      count =
          omega
            (arith, ap length (pad_two h), length-append (full ++ first_of_two) second_of_two, size)

module _ {s : Sha256} {n : ℕ} {full rest : List ℕ} (holds : Holds s n full rest)
    (small : length full + length rest < 2 ^ 61) where
  abbrev start : ℕ
  start = s.total_length % 64

  abbrev bits : ℕ
  bits = s.total_length * 8 % 2 ^ 64

  start-rest : start ≡ length rest
  start-rest = omega (arith, holds.counted, holds.blocks, holds.short)

  size_fits : ltb bits s.total_length ≡ false
  size_fits = le→ltb _ _ (omega (arith, holds.counted))

  -- The eight bytes at the end of the buffer.
  sized : big_endian 8 bits ≡ size_bytes n full rest holds.blocks holds.short
  sized = ap (big_endian 8) (omega_bits holds.counted)
    where
      omega_bits : s.total_length ≡ length full + length rest → bits ≡ length (full ++ rest) * 8
      omega_bits e = omega (arith, length-append full rest)

  marked : Front (write_at start (0x80 ∷ []) s.buffer) (rest ++ (0x80 ∷ []))
  marked =
      write_at-Front start s.buffer rest (0x80 ∷ []) (buffer-Front holds) start-rest
        (omega (arith, holds.short))

  -- The buffer once `zeros` zeros are written behind the mark.
  zeroed :
      (zeros : ℕ)
      → length rest + zeros < 64
      → Front
          (write_at (start + 1) (replicate zeros 0) (write_at start (0x80 ∷ []) s.buffer))
          ((rest ++ (0x80 ∷ [])) ++ replicate zeros 0)
  zeroed zeros h =
      write_at-Front (start + 1) _ (rest ++ (0x80 ∷ [])) (replicate zeros 0) marked
        (omega (arith, start-rest, length-append rest (0x80 ∷ [])))
        (omega (arith, length-append rest (0x80 ∷ []), length-replicate {A = ℕ} zeros 0))

  -- The last write fills the buffer.
  sealed :
      (buffer front : List ℕ)
      → Front buffer front
      → length front ≡ 56
      → write_at 56 (big_endian 8 bits) buffer ≡ front ++ big_endian 8 bits
  sealed buffer front f h =
      Front-all _ _ (write_at-Front 56 buffer front (big_endian 8 bits) f (sym h) (omega arith))
        (length-append front (big_endian 8 bits) ∙ omega arith)

  -- Up to 55 bytes of rest the padding stays in the block.
  padded_one :
      length rest ≤ 55
      → ((mark_and_pad s).hash_words ≡ s.hash_words)
        × Front (mark_and_pad s).buffer ((rest ++ (0x80 ∷ [])) ++ replicate (55 - length rest) 0)
  padded_one h = elim (Bool-cases (ltb 8 (64 - start - 1))) [
    | inl e ↦
        let zeros : 64 - start - 1 - 8 ≡ 55 - length rest = omega (arith, start-rest) in
        unfold mark_and_pad in rw e (refl, rw zeros (zeroed (55 - length rest) (omega arith)))
    | inr e ↦
        let exact : length rest ≡ 55 = omega (arith, start-rest, ltb→le _ _ e) in
        let none_left : 55 - length rest ≡ 0 = omega arith in
        let eight : ltb (64 - start - 1) 8 ≡ false = le→ltb _ _ (omega (arith, start-rest)) in
        unfold mark_and_pad in rw (e, eight) (refl, rw (none_left, append-nil) marked)
  ]

  -- From 56 bytes on it takes a block of its own.
  padded_two :
      56 ≤ length rest
      → ((mark_and_pad s).hash_words
          ≡ compress s.hash_words (first_of_two n full rest holds.blocks holds.short))
        × Front (mark_and_pad s).buffer (replicate 56 0)
  padded_two h =
      unfold mark_and_pad in
      rw (many, few)
        (
          ap (compress s.hash_words) block,
          write_at-Front 0 _ [] (replicate 56 0) (_, refl, swapped) refl (omega arith),
        )
    where
      many : ltb 8 (64 - start - 1) ≡ false
      many = le→ltb _ _ (omega (arith, start-rest))

      few : ltb (64 - start - 1) 8 ≡ true
      few = lt→ltb _ _ (omega (arith, start-rest))

      left : 64 - start - 1 ≡ 63 - length rest
      left = omega (arith, start-rest)

      two : List ℕ
      two = first_of_two n full rest holds.blocks holds.short

      block :
          write_at (start + 1) (replicate (64 - start - 1) 0) (write_at start (0x80 ∷ []) s.buffer)
          ≡ first_of_two n full rest holds.blocks holds.short
      block =
          ap (λ (k : ℕ). write_at (start + 1) (replicate k 0) (write_at start (0x80 ∷ []) s.buffer))
            left
          ∙ Front-all _ _ (zeroed (63 - length rest) (omega (arith, holds.short))) (
              ap length (append_assoc rest (0x80 ∷ []) (replicate (63 - length rest) 0))
              ∙ length-first_of_two n full rest holds.blocks holds.short)
          ∙ append_assoc rest (0x80 ∷ []) (replicate (63 - length rest) 0)

      swapped :
          length (
            swap_bytes (
              write_at
                (start + 1)
                (replicate (64 - start - 1) 0)
                (write_at start (0x80 ∷ []) s.buffer)))
          ≡ 64
      swapped =
          length-swap_bytes 16 _
            (ap length block ∙ length-first_of_two n full rest holds.blocks holds.short)

  finish_words :
      (finish s >>= λ t. some t.hash_words)
      ≡ some (
          compress
            (mark_and_pad s).hash_words
            (write_at 56 (big_endian 8 bits) (mark_and_pad s).buffer))
  finish_words = unfold finish in rw size_fits

  abbrev front_one : ℕ → List ℕ
  front_one zeros = (rest ++ (0x80 ∷ [])) ++ replicate zeros 0

  length-front_one : (zeros : ℕ) → length rest + zeros ≡ 55 → length (front_one zeros) ≡ 56
  length-front_one zeros h = omega (
    arith,
    length-append (rest ++ (0x80 ∷ [])) (replicate zeros 0),
    length-append rest (0x80 ∷ []),
    length-replicate {A = ℕ} zeros 0,
  )

  finish-digest : (finish s >>= λ t. some t.hash_words) ≡ some (digest (full ++ rest))
  finish-digest =
      finish_words
      ∙ ap some (elim (Bool-cases (ltb (length rest) 56)) [
        | inl e ↦
            let h : length rest ≤ 55 = omega (arith, ltb→lt _ _ e) in
            let (words, buffer) = padded_one h in
            ap₂ compress words (
              sealed _ (front_one (55 - length rest)) buffer
                (length-front_one (55 - length rest) (omega arith))
              ∙ ap (λ (z : List ℕ). front_one (55 - length rest) ++ z) sized
              ∙ simp append_assoc)
            ∙ ap (λ (r : Registers). compress r (one_block n full rest holds.blocks holds.short))
                holds.compressed
            ∙ sym (digest_one n full rest holds.blocks holds.short h)
        | inr e ↦
            let h : 56 ≤ length rest = ltb→le _ _ e in
            let (words, buffer) = padded_two h in
            ap₂ compress words (
              sealed _ (replicate 56 0) buffer refl
              ∙ ap (λ (z : List ℕ). replicate 56 0 ++ z) sized)
            ∙ ap
                (λ (r : Registers).
                  compress (compress r (first_of_two n full rest holds.blocks holds.short))
                    (second_of_two n full rest holds.blocks holds.short))
                holds.compressed
            ∙ sym (digest_two n full rest holds.blocks holds.short h)
      ])

with_state : Sha256 → Sha256 → Option (Registers × Sha256)
with_state s t = some (t.hash_words, s)

both :
    (o : Option Sha256) (s : Sha256) (d : Registers)
    → (o >>= λ t. some t.hash_words) ≡ some d
    → ((o >>= (λ t. with_state t t) >>= λ r. some r.0) ≡ some d)
      × ((o >>= with_state s) ≡ some (d, s))
unfolding with_state
both none s d h = (h, cc)
both (some t) s d h = (h, cc)

-- On a state that stands for a message below 2^61 bytes, `hash` and `chash` give the digest of that
-- message, and `chash` leaves the state alone.
pub hash-digest :
    (s : Sha256) (message : List ℕ)
    → Stands s message
    → length message < 2 ^ 61
    → ((hash s >>= λ r. some r.0) ≡ some (digest message)) × (chash s ≡ some (digest message, s))
hash-digest s message (n, full, rest, e, holds) small =
    let fits : length full + length rest < 2 ^ 61 =
      omega (arith, ap length e, length-append full rest) in
    let found = finish-digest holds fits ∙ ap (λ (m : List ℕ). some (digest m)) (sym e) in
    unfold hash chash with_state in both (finish s) s (digest message) found
