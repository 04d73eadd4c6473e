-- ===== src/Sha256/Append.antt =====
-- `append`: its end, its count, and the bytes of the message that reach the hash.
use wrutil.Common.{
  ℕ, zero, suc, ◌+◌, ◌-◌, ◌%◌, ◌^◌, ◌≤◌, ltb, ltb→lt, ltb→le, ◌≡◌, refl, ap, ◌∙◌, sym, arith,
  Bool-cases, inl, inr, some, List, length, take, take-take,
}
use wrutil.Sha256.{Sha256, position, copy_in, fill_block, append_loop, append}

append_loop-total :
    (fuel : ℕ) (bytes : List ℕ) (size : ℕ) (s : Sha256)
    → size ≤ fuel
    → (t : Sha256) × (append_loop fuel bytes size s ≡ some t)
      × (t.total_length % 2 ^ 64 ≡ (s.total_length + size) % 2 ^ 64)
unfolding append_loop
append_loop-total fuel bytes zero s h = (s, refl, omega arith)
append_loop-total zero bytes (suc size) s h = absurd (omega arith)
append_loop-total (suc fuel) bytes (suc size) s h =
    elim (Bool-cases (ltb (suc size) (64 - position s))) [
      | inl e ↦ (copy_in (suc size) bytes s, rw e, omega arith)
      | inr e ↦
          let room = 64 - position s in
          let (t, done, total) =
            append_loop-total fuel bytes (suc size - room) (fill_block room bytes s)
              (omega arith) in
          (t, rw e done, omega (arith, total, ltb→le _ _ e))
    ]

-- `append` ends on every input, and adds the number of bytes to the length, modulo 2^64.
append-total_length :
    (bytes : List ℕ) (s : Sha256)
    → (t : Sha256) × (append bytes s ≡ some t)
      × (t.total_length % 2 ^ 64 ≡ (s.total_length + length bytes) % 2 ^ 64)
unfolding append
append-total_length bytes s = append_loop-total (length bytes) bytes (length bytes) s (omega arith)

take_more : (n m : ℕ) (xs ys : List ℕ) → n ≤ m → take m xs ≡ take m ys → take n xs ≡ take n ys
take_more n m xs ys h e = take-take n m xs h ∙ ap (take n) e ∙ sym (take-take n m ys h)

append_loop_first_block :
    (fuel : ℕ) (xs ys : List ℕ) (size : ℕ) (s : Sha256)
    → take 64 xs ≡ take 64 ys
    → append_loop fuel xs size s ≡ append_loop fuel ys size s
unfolding append_loop
append_loop_first_block fuel xs ys zero s e = refl
append_loop_first_block zero xs ys (suc size) s e = refl
append_loop_first_block (suc fuel) xs ys (suc size) s e =
    elim (Bool-cases (ltb (suc size) (64 - position s))) [
      | inl short ↦ rw (short, take_more (suc size) 64 xs ys (omega (arith, ltb→lt _ _ short)) e)
      | inr long ↦
          rw (long, take_more (64 - position s) 64 xs ys (omega arith) e)
            (append_loop_first_block fuel xs ys _ _ e)
    ]

-- Only the first 64 bytes and the size of what is appended reach the state: two messages of one
-- size that begin with the same 64 bytes have the same effect on every state.
pub append_first_block :
    (xs ys : List ℕ) (s : Sha256)
    → length xs ≡ length ys
    → take 64 xs ≡ take 64 ys
    → append xs s ≡ append ys s
unfolding append
append_first_block xs ys s n e =
    ap (λ (k : ℕ). append_loop k xs k s) n ∙ append_loop_first_block _ xs ys _ s e
