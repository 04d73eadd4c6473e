-- ===== src/Sha256/Pieces.antt =====
-- `append` of a piece that ends in the current block.
use wrutil.Common.{
  ℕ, zero, suc, ◌+◌, ◌-◌, ◌^◌, ◌≤◌, ◌<◌, ltb, ltb→lt, ltb→le, ◌≡◌, refl, ap, ◌∙◌, sym, arith,
  Bool-cases, inl, inr, some, List, [], ◌∷◌, ◌++◌, append_assoc, append-nil, length, length-append,
  take, take-length, take_all,
}
use mathlib.Core.Path.{subst}
use wrutil.Sha256.Block.{Registers, compress}
use wrutil.Sha256.{
  Sha256, position, write_at, copy_in, fill_block, append_loop, append, initial_hash,
}
use wrutil.Sha256.Padding.{
  Holds, Stands, Front, write_at-Front, Front-all, compress_blocks-append, length-swap_bytes,
  buffer-Front, position-rest,
}

no_bytes : (rest bytes : List ℕ) → 0 ≡ length bytes → rest ++ bytes ≡ rest
no_bytes rest [] e = append-nil rest
no_bytes rest (x ∷ bytes) e = absurd (omega arith)

module _ {s : Sha256} {n : ℕ} {full rest : List ℕ} (holds : Holds s n full rest) (bytes : List ℕ)
    (small : length full + length rest + length bytes < 2 ^ 61) where
  -- The buffer after a copy of the whole piece.
  copied :
      (k : ℕ)
      → k ≡ length bytes
      → length rest + length bytes ≤ 64
      → Front (write_at (position s) (take k bytes) s.buffer) (rest ++ bytes)
  copied k e fits = rw (take_all k bytes (omega arith)) (
      write_at-Front (position s) s.buffer rest bytes (buffer-Front holds) (position-rest holds)
        fits)

  copy_in-Holds :
      (k : ℕ)
      → k ≡ length bytes
      → length rest + length bytes < 64
      → Holds (copy_in k bytes s) n full (rest ++ bytes)
  copy_in-Holds k e fits =
      let (back, same, size) = copied k e (omega arith) in
      record {
        compressed = holds.compressed;
        blocks = holds.blocks;
        short = omega (arith, length-append rest bytes);
        size = size;
        buffered = ap (take (length (rest ++ bytes))) same ∙ take-length (rest ++ bytes) back;
        counted = omega (arith, length-append rest bytes, holds.counted);
      }

  fill_block-Holds :
      (k : ℕ)
      → k ≡ length bytes
      → length rest + length bytes ≡ 64
      → Holds (fill_block k bytes s) (suc n) (full ++ (rest ++ bytes)) []
  fill_block-Holds k e fits =
      let block : write_at (position s) (take k bytes) s.buffer ≡ rest ++ bytes =
        Front-all _ (rest ++ bytes) (copied k e (omega arith))
          (omega (arith, length-append rest bytes)) in
      let whole : length (rest ++ bytes) ≡ 64 = omega (arith, length-append rest bytes) in
      record {
        compressed =
            ap (compress s.hash_words) block
            ∙ ap (λ (r : Registers). compress r (rest ++ bytes)) holds.compressed
            ∙ sym (compress_blocks-append n initial_hash full (rest ++ bytes) holds.blocks whole);
        blocks = omega (arith, length-append full (rest ++ bytes), holds.blocks, whole);
        short = omega arith;
        size = length-swap_bytes 16 _ (ap length block ∙ whole);
        buffered = refl;
        counted = omega (arith, length-append full (rest ++ bytes), whole, holds.counted);
      }

  step :
      (fuel k : ℕ)
      → k ≡ length bytes
      → k ≤ fuel
      → length rest + length bytes ≤ 64
      → (t : Sha256) × (append_loop fuel bytes k s ≡ some t) × Stands t (full ++ (rest ++ bytes))
  unfolding append_loop
  step fuel zero e f fits =
      (s, refl, (n, full, rest, ap (λ (t : List ℕ). full ++ t) (no_bytes rest bytes e), holds))
  step zero (suc k) e f fits = absurd (omega arith)
  step (suc fuel) (suc k) e f fits = elim (Bool-cases (ltb (suc k) (64 - position s))) [
    | inl h ↦ (
      copy_in (suc k) bytes s,
      rw h,
      (
        n,
        full,
        rest ++ bytes,
        refl,
        copy_in-Holds (suc k) e (omega (arith, ltb→lt _ _ h, position-rest holds)),
      ),
    )
    | inr h ↦
        let room = 64 - position s in
        let exact : room ≡ suc k = omega (arith, ltb→le _ _ h, position-rest holds, holds.short) in
        let done : suc k - room ≡ 0 = omega arith in
        (
          fill_block room bytes s,
          rw h (ap (λ (j : ℕ). append_loop fuel bytes j (fill_block room bytes s)) done),
          (
            suc n,
            full ++ (rest ++ bytes),
            [],
            sym (append-nil _),
            fill_block-Holds room (exact ∙ e)
                (omega (arith, exact, position-rest holds, holds.short)),
          ),
        )
  ]

-- A piece that is no longer than the room left in the current block is appended to the message
-- that the state stands for.
pub append-Stands :
    (s : Sha256) (message bytes : List ℕ)
    → Stands s message
    → length message + length bytes < 2 ^ 61
    → length bytes ≤ 64 - position s
    → (t : Sha256) × (append bytes s ≡ some t) × Stands t (message ++ bytes)
unfolding append
append-Stands s message bytes (n, full, rest, e, holds) small fits =
    let size : length message ≡ length full + length rest = ap length e ∙ length-append full rest in
    let (t, done, stands) =
      step holds bytes (omega (arith, size)) (length bytes) (length bytes) refl (omega arith)
        (omega (arith, position-rest holds, holds.short)) in
    (
      t,
      done,
      subst (Stands t)
          (sym (append_assoc full rest bytes) ∙ ap (λ (m : List ℕ). m ++ bytes) (sym e)) stands,
    )
