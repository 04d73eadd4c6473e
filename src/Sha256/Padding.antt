-- ===== src/Sha256/Padding.antt =====
-- The incremental hash against the message as a whole: `append` within one block, and the padding.
use wrutil.Common.{
  ℕ, zero, suc, ◌+◌, ◌-◌, ◌*◌, ◌/◌, ◌%◌, ◌≤◌, ◌<◌, ◌≡◌, ap, ◌∙◌, sym, arith, List, [], ◌∷◌, ◌++◌,
  append_assoc, append-nil, length, length-append, length-drop, take, drop, take-length,
  take-append_le, drop-append_le, drop-append_add, take-append-drop, take_all, replicate,
}
use mathlib.Core.Path.{ap₂}
use wrutil.Sha256.Block.{Registers, compress, swap_bytes}
use wrutil.Sha256.{Sha256, position, write_at, initial_hash, big_endian}

-- The compression of `n` blocks, one after the other.
abbrev pub compress_blocks : ℕ → Registers → List ℕ → Registers
compress_blocks zero r bytes = r
compress_blocks (suc n) r bytes = compress_blocks n (compress r (take 64 bytes)) (drop 64 bytes)

-- The message with the bit 1, as few zeros as fill the last block, and its size in bits.
abbrev pub pad : List ℕ → List ℕ
pad message =
    message
    ++ (0x80
        ∷ (replicate ((119 - length message % 64) % 64) 0 ++ big_endian 8 (length message * 8)))

-- The hash of a whole message.
abbrev pub digest : List ℕ → Registers
digest message = compress_blocks (length (pad message) / 64) initial_hash (pad message)

-- The state stands for `full ++ rest`: `n` blocks are compressed and the rest is in the buffer.
pub record Holds (s : Sha256) (n : ℕ) (full rest : List ℕ) : Type 0 where
  pub compressed : s.hash_words ≡ compress_blocks n initial_hash full
  pub blocks : length full ≡ n * 64
  pub short : length rest < 64
  pub size : length s.buffer ≡ 64
  pub buffered : take (length rest) s.buffer ≡ rest
  pub counted : s.total_length ≡ length full + length rest

-- The message so far, cut into whole blocks and a rest.
abbrev pub Stands : Sha256 → List ℕ → Type 0
Stands s message = (n : ℕ) × (full rest : List ℕ) × (message ≡ full ++ rest) × Holds s n full rest

-- The buffer of 64 bytes begins with `front`.
abbrev pub Front : List ℕ → List ℕ → Type 0
Front buffer front = (back : List ℕ) × (buffer ≡ front ++ back) × (length buffer ≡ 64)

pub write_at-Front :
    (pos : ℕ) (buffer front bytes : List ℕ)
    → Front buffer front
    → pos ≡ length front
    → length front + length bytes ≤ 64
    → Front (write_at pos bytes buffer) (front ++ bytes)
write_at-Front pos buffer front bytes (back, e, n) h fits =
    (drop (length bytes) back, written ∙ sym (append_assoc front bytes _), size)
  where
    written : write_at pos bytes buffer ≡ front ++ (bytes ++ drop (length bytes) back)
    written =
        ap (λ (t : List ℕ). take pos t ++ (bytes ++ drop (pos + length bytes) t)) e
        ∙ ap₂ (λ (x y : List ℕ). x ++ (bytes ++ y))
            (ap (λ (k : ℕ). take k (front ++ back)) h ∙ take-length front back)
            (drop-append_add _ (length bytes) front back (omega arith))

    total : 64 ≡ length front + length back
    total = sym n ∙ ap length e ∙ length-append front back

    size : length (write_at pos bytes buffer) ≡ 64
    size =
        ap length written
        ∙ length-append front (bytes ++ drop (length bytes) back)
        ∙ omega (
          arith,
          length-append bytes (drop (length bytes) back),
          length-drop (length bytes) back,
          total,
        )

pub Front-all : (buffer front : List ℕ) → Front buffer front → length front ≡ 64 → buffer ≡ front
Front-all buffer front ([], e, n) h = e ∙ append-nil front
Front-all buffer front (x ∷ back, e, n) h =
    absurd (omega (arith, ap length e, length-append front (x ∷ back)))

pub compress_blocks-append :
    (n : ℕ) (r : Registers) (full block : List ℕ)
    → length full ≡ n * 64
    → length block ≡ 64
    → compress_blocks (suc n) r (full ++ block) ≡ compress (compress_blocks n r full) block
compress_blocks-append zero r [] block h k = ap (compress r) (take_all 64 block (omega arith))
compress_blocks-append zero r (x ∷ full) block h k = absurd (omega arith)
compress_blocks-append (suc n) r full block h k =
    ap₂ (λ (x y : List ℕ). compress_blocks (suc n) (compress r x) y)
      (take-append_le 64 full block (omega arith)) (drop-append_le 64 full block (omega arith))
    ∙ compress_blocks-append n (compress r (take 64 full)) (drop 64 full) block
        (omega (arith, length-drop 64 full)) k

pub length-swap_bytes :
    (n : ℕ) (bytes : List ℕ) → length bytes ≡ n * 4 → length (swap_bytes bytes) ≡ n * 4
unfolding swap_bytes
length-swap_bytes n [] h = h
length-swap_bytes n (a ∷ []) h = absurd (omega arith)
length-swap_bytes n (a ∷ b ∷ []) h = absurd (omega arith)
length-swap_bytes n (a ∷ b ∷ c ∷ []) h = absurd (omega arith)
length-swap_bytes zero (a ∷ b ∷ c ∷ d ∷ rest) h = absurd (omega arith)
length-swap_bytes (suc n) (a ∷ b ∷ c ∷ d ∷ rest) h =
    omega (arith, length-swap_bytes n rest (omega arith))

module _ {s : Sha256} {n : ℕ} {full rest : List ℕ} (holds : Holds s n full rest) where
  pub buffer-Front : Front s.buffer rest
  buffer-Front = (
    drop (length rest) s.buffer,
    sym (take-append-drop (length rest) s.buffer)
        ∙ ap (λ (t : List ℕ). t ++ drop (length rest) s.buffer) holds.buffered,
    holds.size,
  )

  pub position-rest : position s ≡ length rest
  position-rest = omega (arith, holds.counted, holds.blocks, holds.short)
