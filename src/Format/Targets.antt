-- ===== src/Format/Targets.antt =====
-- The targets: where formatted text goes. `put` of one character and `put` of a text are two functions,
-- and `end` may write, too.
pub mod Buffers
pub mod Ends
pub mod Overflow
pub mod Streams
use wrutil.Common.{
  ℕ, ◌+◌, ◌-◌, ◌==◌, ltb, leb, min, if◌then◌else◌, Bool, List, [], ◌∷◌, ◌++◌, length, take, set,
}
use wrutil.Format.{Text, Outcome, done, undefined, thrown, ◌>>=◌}
use wrutil.Format.Layout.{Chunk, one, many}

-- The virtual functions of `Target`.
pub record Target (S : Type 0) : Type 0 where
  pub begin : S → S
  pub put : ℕ → S → Outcome S
  pub put_text : Text → S → Outcome S
  pub finish : S → Outcome S
  pub count : S → ℕ

-- `StringTarget`
pub record StringState : Type 0 where
  pub text : Text
  pub initial : ℕ

abbrev pub string_target : Target StringState
string_target = record {
  begin = λ s. record { text = s.text; initial = length s.text };
  put = λ c s. done (record { text = s.text ++ (c ∷ []); initial = s.initial });
  put_text = λ t s. done (record { text = s.text ++ t; initial = s.initial });
  finish = λ s. done s;
  count = λ s. length s.text - s.initial;
}

-- `FixedBufferTarget`: the bytes of the buffer, and how far `pos_` is from its start.
pub record BufferState : Type 0 where
  pub cells : List ℕ
  pub pos : ℕ

-- `stop_ - buf_`, for a capacity above 0
abbrev pub stop_at : BufferState → ℕ
stop_at s = length s.cells - 1

unfoldable pub put_buffer : ℕ → BufferState → Outcome BufferState
put_buffer c s =
    if ltb s.pos (stop_at s)
    then done (record { cells = set s.cells s.pos c; pos = s.pos + 1 })
    else done s

-- `memcpy` to the position
abbrev pub write_at : ℕ → Text → List ℕ → List ℕ
write_at pos [] cells = cells
write_at pos (c ∷ t) cells = write_at (pos + 1) t (set cells pos c)

-- `numeric_cast` throws where the position is behind the last place; the position moves by the whole
-- length.
unfoldable pub put_text_buffer : Text → BufferState → Outcome BufferState
put_text_buffer t s =
    if ltb (stop_at s) s.pos
    then thrown
    else done (record {
      cells = write_at s.pos (take (min (length t) (stop_at s - s.pos)) t) s.cells;
      pos = s.pos + length t;
    })

-- `*pos_ = '\0'`
unfoldable pub finish_buffer : BufferState → Outcome BufferState
finish_buffer s =
    if ltb s.pos (length s.cells)
    then done (record { cells = set s.cells s.pos 0; pos = s.pos })
    else undefined

unfoldable pub buffer_target : Target BufferState
unfolding put_buffer put_text_buffer finish_buffer
buffer_target = record {
  begin = λ s. record { cells = s.cells; pos = 0 };
  put = put_buffer;
  put_text = put_text_buffer;
  finish = finish_buffer;
  count = λ s. s.pos;
}

-- The calls of `put` for a field.
module _ {S : Type 0} (target : Target S) where
  unfoldable pub put_chunks : List Chunk → S → Outcome S
  put_chunks [] s = done s
  put_chunks (one c ∷ cs) s = do s' ← target.put c s; put_chunks cs s'
  put_chunks (many t ∷ cs) s = do s' ← target.put_text t s; put_chunks cs s'
