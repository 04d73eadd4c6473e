-- ===== src/Format/Targets/Ends.antt =====
-- The end of a FixedBufferTarget, for what fits into its buffer.
use wrutil.Common.{
  true, ℕ, zero, suc, ◌<◌, ltb, if◌then◌else◌, ◌≡◌, refl, ap, ◌∙◌, sym, arith, List, [], ◌∷◌,
  length, take, set, get_or, lt→ltb,
}
use wrutil.Format.{Text, Outcome, done, undefined, ◌>>=◌}
use wrutil.Format.Layout.{Chunk, flatten}
use wrutil.Format.Targets.{string_target, BufferState, buffer_target, finish_buffer, put_chunks}
use wrutil.Format.Targets.Buffers.{Put, before, put_chunks-Holds, put_chunks-string, begin_Holds}

-- A buffer with a text behind which a zero stands.
pub record Terminated (t : Text) (r : Outcome BufferState) : Type 0 where
  pub state : BufferState
  pub is_done : r ≡ done state
  pub text : take (length t) state.cells ≡ t
  pub zero_behind : get_or state.cells (length t) 1 ≡ 0
  pub counted : buffer_target.count state ≡ length t

get_or-set : (xs : List ℕ) (i c d : ℕ) → i < length xs → get_or (set xs i c) i d ≡ c
get_or-set [] i c d h = absurd (omega arith)
get_or-set (x ∷ xs) zero c d h = refl
get_or-set (x ∷ xs) (suc i) c d h = get_or-set xs i c d (omega arith)

take-set_behind : (xs : List ℕ) (i c : ℕ) → take i (set xs i c) ≡ take i xs
take-set_behind [] i c = refl
take-set_behind (x ∷ xs) zero c = refl
take-set_behind (x ∷ xs) (suc i) c = ap (λ t. x ∷ t) (take-set_behind xs i c)

finish_buffer-Terminated :
    (n : ℕ) (t : Text) (r : Outcome BufferState)
    → Put n t r
    → length t < n
    → Terminated t (r >>= finish_buffer)
unfolding finish_buffer buffer_target
finish_buffer-Terminated n t r p l =
    let s = p.state in
    let h = p.holds in
    let room : ltb s.pos (length s.cells) ≡ true = lt→ltb _ _ (omega (arith, h.pos, h.size, l)) in
    record {
      state = record { cells = set s.cells s.pos 0; pos = s.pos };
      is_done =
          ap (λ o. o >>= finish_buffer) p.is_done
          ∙ ap
              (λ b.
                if b then done (record { cells = set s.cells s.pos 0; pos = s.pos }) else undefined)
              room;
      text =
          ap (λ (k : ℕ). take k (set s.cells s.pos 0)) (sym h.pos)
          ∙ take-set_behind s.cells s.pos 0
          ∙ before n t s h;
      zero_behind =
          ap (λ (k : ℕ). get_or (set s.cells s.pos 0) k 1) (sym h.pos)
          ∙ get_or-set s.cells s.pos 0 1 (omega (arith, h.pos, h.size, l));
      counted = h.pos;
    }

-- Where everything that is put is shorter than the buffer, begin, the calls of put and end of a
-- FixedBufferTarget leave the text that a StringTarget over an empty string collects, a zero
-- behind it, and its length as the count.
pub put_chunks-Terminated :
    (cs : List Chunk) (s : BufferState)
    → length (flatten cs) < length s.cells
    → Terminated
        (flatten cs)
        (put_chunks buffer_target cs (buffer_target.begin s) >>= buffer_target.finish)
      × (put_chunks string_target cs (record { text = []; initial = 0 })
          ≡ done (record { text = flatten cs; initial = 0 }))
unfolding buffer_target
put_chunks-Terminated cs s h = (
  finish_buffer-Terminated (length s.cells) (flatten cs) _
      (put_chunks-Holds (length s.cells) cs [] (buffer_target.begin s) (begin_Holds s)
        (omega (arith, h)))
      h,
  put_chunks-string cs (record { text = []; initial = 0 }),
)
