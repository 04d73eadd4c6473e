-- ===== src/Format/Targets/Buffers.antt =====
-- StringTarget and FixedBufferTarget, for the same calls of put.
use wrutil.Common.{
  true, false, ℕ, zero, suc, ◌+◌, ◌-◌, ◌≤◌, ◌<◌, ltb, min, if◌then◌else◌, ◌≡◌, refl, ap, ◌∙◌, sym,
  arith, List, [], ◌∷◌, ◌++◌, append_assoc, append-nil, length, length-append, length-set, take,
  take_all, set, lt→ltb, le→ltb,
}
use mathlib.Core.Path.{subst}
use wrutil.Format.{Text, Outcome, done, thrown, ◌>>=◌}
use wrutil.Format.Layout.{Chunk, one, many, flatten}
use wrutil.Format.Targets.{
  StringState, string_target, BufferState, buffer_target, put_buffer, write_at, put_text_buffer,
  put_chunks,
}

-- A StringTarget appends everything that is put.
pub put_chunks-string :
    (cs : List Chunk) (s : StringState)
    → put_chunks string_target cs s
      ≡ done (record { text = s.text ++ flatten cs; initial = s.initial })
unfolding put_chunks
put_chunks-string [] s =
    ap (λ t. done (record { text = t; initial = s.initial })) (sym (append-nil s.text))
put_chunks-string (one c ∷ cs) s =
    put_chunks-string cs (record { text = s.text ++ (c ∷ []); initial = s.initial })
    ∙ ap (λ t. done (record { text = t; initial = s.initial }))
        (append_assoc s.text (c ∷ []) (flatten cs))
put_chunks-string (many t ∷ cs) s =
    put_chunks-string cs (record { text = s.text ++ t; initial = s.initial })
    ∙ ap (λ u. done (record { text = u; initial = s.initial })) (append_assoc s.text t (flatten cs))

-- The buffer of `n` bytes begins with the text, and the position is behind it.
pub record Holds (n : ℕ) (t : Text) (s : BufferState) : Type 0 where
  pub text : take (length t) s.cells ≡ t
  pub pos : s.pos ≡ length t
  pub size : length s.cells ≡ n

take-set :
    (xs : List ℕ) (i c : ℕ) → i < length xs → take (suc i) (set xs i c) ≡ take i xs ++ (c ∷ [])
take-set [] i c h = absurd (omega arith)
take-set (x ∷ xs) zero c h = refl
take-set (x ∷ xs) (suc i) c h = ap (λ t. x ∷ t) (take-set xs i c (omega arith))

pub length-write_at :
    (pos : ℕ) (t : Text) (cells : List ℕ) → length (write_at pos t cells) ≡ length cells
length-write_at pos [] cells = refl
length-write_at pos (c ∷ t) cells =
    length-write_at (pos + 1) t (set cells pos c) ∙ length-set cells pos c

take-write_at :
    (pos : ℕ) (t : Text) (cells : List ℕ)
    → pos + length t ≤ length cells
    → take (pos + length t) (write_at pos t cells) ≡ take pos cells ++ t
take-write_at pos [] cells h =
    let e : pos + 0 ≡ pos = omega arith in
    ap (λ (k : ℕ). take k cells) e ∙ sym (append-nil (take pos cells))
take-write_at pos (c ∷ t) cells h =
    let e : pos + length (c ∷ t) ≡ pos + 1 + length t = omega arith in
    let f : pos + 1 ≡ suc pos = omega arith in
    ap (λ (k : ℕ). take k (write_at (pos + 1) t (set cells pos c))) e
    ∙ take-write_at (pos + 1) t (set cells pos c) (omega (arith, h, length-set cells pos c))
    ∙ ap (λ (k : ℕ). take k (set cells pos c) ++ t) f
    ∙ ap (λ u. u ++ t) (take-set cells pos c (omega (arith, h)))
    ∙ append_assoc (take pos cells) (c ∷ []) t

-- A call of put that fits, and what the state is afterwards.
pub record Put (n : ℕ) (t : Text) (r : Outcome BufferState) : Type 0 where
  pub state : BufferState
  pub is_done : r ≡ done state
  pub holds : Holds n t state

pub before : (n : ℕ) (t : Text) (s : BufferState) → Holds n t s → take s.pos s.cells ≡ t
before n t s h = ap (λ (k : ℕ). take k s.cells) h.pos ∙ h.text

put_buffer-Holds :
    (n c : ℕ) (t : Text) (s : BufferState)
    → Holds n t s
    → length t + 1 < n
    → Put n (t ++ (c ∷ [])) (put_buffer c s)
unfolding put_buffer
put_buffer-Holds n c t s h l = record {
  state = record { cells = set s.cells s.pos c; pos = s.pos + 1 };
  is_done =
      let e : ltb s.pos (length s.cells - 1) ≡ true =
        lt→ltb _ _ (omega (arith, h.pos, h.size, l)) in
      rw e;
  holds = record {
    text =
        (let e : length (t ++ (c ∷ [])) ≡ suc s.pos =
            omega (arith, h.pos, length-append t (c ∷ [])) in
          ap (λ (k : ℕ). take k (set s.cells s.pos c)) e
          ∙ take-set s.cells s.pos c (omega (arith, h.pos, h.size, l))
          ∙ ap (λ u. u ++ (c ∷ [])) (before n t s h));
    pos = omega (arith, h.pos, length-append t (c ∷ []));
    size = length-set s.cells s.pos c ∙ h.size;
  };
}

put_text_buffer-Holds :
    (n : ℕ) (u t : Text) (s : BufferState)
    → Holds n t s
    → length t + length u < n
    → Put n (t ++ u) (put_text_buffer u s)
unfolding put_text_buffer
put_text_buffer-Holds n u t s h l =
    let all : min (length u) (length s.cells - 1 - s.pos) ≡ length u =
      omega (arith, h.pos, h.size, l) in
    let inside : ltb (length s.cells - 1) s.pos ≡ false =
      le→ltb _ _ (omega (arith, h.pos, h.size, l)) in
    let whole : take (min (length u) (length s.cells - 1 - s.pos)) u ≡ u =
      ap (λ (k : ℕ). take k u) all ∙ take_all (length u) u (omega arith) in
    record {
      state = record { cells = write_at s.pos u s.cells; pos = s.pos + length u };
      is_done =
          ap
            (λ b.
              if b
              then thrown
              else done (record {
                cells =
                    write_at s.pos (take (min (length u) (length s.cells - 1 - s.pos)) u) s.cells;
                pos = s.pos + length u;
              }))
            inside
          ∙ ap (λ v. done (record { cells = write_at s.pos v s.cells; pos = s.pos + length u }))
              whole;
      holds = record {
        text =
            (let e : length (t ++ u) ≡ s.pos + length u = omega (arith, h.pos, length-append t u) in
              ap (λ (k : ℕ). take k (write_at s.pos u s.cells)) e
              ∙ take-write_at s.pos u s.cells (omega (arith, h.pos, h.size, l))
              ∙ ap (λ v. v ++ u) (before n t s h));
        pos = omega (arith, h.pos, length-append t u);
        size = length-write_at s.pos u s.cells ∙ h.size;
      };
    }

-- One call after another.
Put-followed :
    (n : ℕ) (t : Text) (r : Outcome BufferState) (f : BufferState → Outcome BufferState) (u : Text)
    → Put n t r
    → ((s : BufferState) → Holds n t s → Put n u (f s))
    → Put n u (r >>= f)
Put-followed n t r f u p next =
    let q = next p.state p.holds in
    record { state = q.state; is_done = ap (λ o. o >>= f) p.is_done ∙ q.is_done; holds = q.holds }

pub put_chunks-Holds :
    (n : ℕ) (cs : List Chunk) (t : Text) (s : BufferState)
    → Holds n t s
    → length t + length (flatten cs) < n
    → Put n (t ++ flatten cs) (put_chunks buffer_target cs s)
unfolding put_chunks buffer_target put_buffer put_text_buffer
put_chunks-Holds n [] t s h l =
    subst (λ u. Put n u (done s)) (sym (append-nil t))
      (record { state = s; is_done = refl; holds = h })
put_chunks-Holds n (one c ∷ cs) t s h l =
    Put-followed n (t ++ (c ∷ [])) (put_buffer c s) _ (t ++ (c ∷ flatten cs))
      (put_buffer-Holds n c t s h (omega (arith, l)))
      (λ s' k.
        subst (λ u. Put n u (put_chunks buffer_target cs s')) (append_assoc t (c ∷ []) (flatten cs))
          (put_chunks-Holds n cs (t ++ (c ∷ [])) s' k (omega (arith, l, length-append t (c ∷ [])))))
put_chunks-Holds n (many u ∷ cs) t s h l =
    let e = length-append u (flatten cs) in
    Put-followed n (t ++ u) (put_text_buffer u s) _ (t ++ (u ++ flatten cs))
      (put_text_buffer-Holds n u t s h (omega (arith, l, e)))
      (λ s' k.
        subst (λ v. Put n v (put_chunks buffer_target cs s')) (append_assoc t u (flatten cs))
          (put_chunks-Holds n cs (t ++ u) s' k (omega (arith, l, e, length-append t u))))

-- A buffer that `begin` has been called on.
pub begin_Holds : (s : BufferState) → Holds (length s.cells) [] (buffer_target.begin s)
unfolding buffer_target
begin_Holds s = record { text = refl; pos = refl; size = refl }
