-- ===== src/Format/Targets/Overflow.antt =====
-- A FixedBufferTarget whose buffer is too short.
use wrutil.Common.{
  ◌+◌, ◌-◌, ◌≤◌, ◌<◌, ltb, ◌≡◌, refl, sym, arith, ◌⊎◌, inl, inr, true, false, List, [], ◌∷◌, ◌++◌,
  length, lt→ltb, le→ltb, min, take,
}
use mathlib.Core.Path.{subst}
use wrutil.Format.{Text, Outcome, done, failed, undefined, thrown, stuck, ◌>>=◌}
use wrutil.Format.Layout.{Chunk, one, many, flatten}
use wrutil.Format.Targets.{
  Target, BufferState, buffer_target, put_buffer, write_at, put_text_buffer, finish_buffer,
  put_chunks,
}
use wrutil.Format.Targets.Buffers.{put_chunks-Holds, begin_Holds, length-write_at}

-- Undefined behaviour or an exception.
abbrev pub Fails : {A : Type 0} → Outcome A → Type 0
Fails r = (r ≡ undefined) ⊎ (r ≡ thrown)

-- Nothing brings the position back.
beyond-Fails :
    (cs : List Chunk) (s : BufferState)
    → 0 < length s.cells
    → length s.cells ≤ s.pos
    → Fails (put_chunks buffer_target cs s >>= buffer_target.finish)
unfolding put_chunks buffer_target put_buffer put_text_buffer finish_buffer
beyond-Fails [] s p h = let e : ltb s.pos (length s.cells) ≡ false = le→ltb _ _ h in inl (rw e)
beyond-Fails (one c ∷ cs) s p h =
    let e : ltb s.pos (length s.cells - 1) ≡ false = le→ltb _ _ (omega arith) in
    let same : put_buffer c s ≡ done s = rw e in
    subst (λ r. Fails (r >>= (λ s'. put_chunks buffer_target cs s') >>= buffer_target.finish))
      (sym same) (beyond-Fails cs s p h)
beyond-Fails (many t ∷ cs) s p h =
    let e : ltb (length s.cells - 1) s.pos ≡ true = lt→ltb _ _ (omega arith) in inr (rw e)

bind_split :
    {A B C : Type 0} (r : Outcome A) (f : A → Outcome B) (g : B → Outcome C) (h : A → Outcome C)
    → ((a : A) → h a ≡ f a >>= g)
    → r >>= h ≡ r >>= f >>= g
bind_split (done a) f g h e = e a
bind_split (failed e') f g h e = refl
bind_split thrown f g h e = refl
bind_split undefined f g h e = refl
bind_split stuck f g h e = refl

put_chunks-append :
    {S : Type 0} (target : Target S) (xs ys : List Chunk) (s : S)
    → put_chunks target (xs ++ ys) s ≡ put_chunks target xs s >>= (λ s'. put_chunks target ys s')
unfolding put_chunks
put_chunks-append target [] ys s = refl
put_chunks-append target (one c ∷ xs) ys s =
    bind_split (target.put c s) (λ s'. put_chunks target xs s') (λ s'. put_chunks target ys s') _
      (put_chunks-append target xs ys)
put_chunks-append target (many t ∷ xs) ys s =
    bind_split (target.put_text t s) (λ s'. put_chunks target xs s') (λ s'. put_chunks target ys s')
      _ (put_chunks-append target xs ys)

-- A call of put with a text that does not fit into what is left of a buffer leads to undefined
-- behaviour or to an exception at the latest in end, whatever is put afterwards: the position has
-- moved by the whole length of the text, behind the buffer.
pub put_chunks-Fails :
    (before after : List Chunk) (t : Text) (s : BufferState)
    → length (flatten before) < length s.cells
    → length s.cells ≤ length (flatten before) + length t
    → Fails (
        put_chunks buffer_target (before ++ (many t ∷ after)) (buffer_target.begin s)
        >>= buffer_target.finish)
unfolding put_chunks buffer_target put_buffer put_text_buffer finish_buffer
put_chunks-Fails before after t s h l =
    let p =
      put_chunks-Holds (length s.cells) before [] (buffer_target.begin s) (begin_Holds s)
        (omega (arith, h)) in
    let s1 = p.state in
    let k = p.holds in
    let inside : ltb (length s1.cells - 1) s1.pos ≡ false =
      le→ltb _ _ (omega (arith, k.pos, k.size, h)) in
    let count = min (length t) (length s1.cells - 1 - s1.pos) in
    let moved : put_text_buffer t s1
        ≡ done
            (record { cells = write_at s1.pos (take count t) s1.cells; pos = s1.pos + length t }) =
      rw inside in
    let fails =
      beyond-Fails after
        (record { cells = write_at s1.pos (take count t) s1.cells; pos = s1.pos + length t })
        (omega (arith, k.size, h, length-write_at s1.pos (take count t) s1.cells))
        (omega (arith, k.size, k.pos, l, length-write_at s1.pos (take count t) s1.cells)) in
    let on_text =
      subst (λ r. Fails (r >>= (λ s'. put_chunks buffer_target after s') >>= finish_buffer))
        (sym moved) fails in
    subst (λ r. Fails (r >>= finish_buffer))
      (sym (put_chunks-append buffer_target before (many t ∷ after) (buffer_target.begin s)))
      (subst
        (λ r. Fails (r >>= (λ s'. put_chunks buffer_target (many t ∷ after) s') >>= finish_buffer))
        (sym p.is_done) on_text)
