-- ===== src/Format/Targets/Streams.antt =====
-- IOStreamTarget and CStreamTarget. `sent` are the characters that have been handed to the stream.
use wrutil.Common.{
  ℕ, ◌+◌, List, [], ◌∷◌, ◌++◌, length, ◌≡◌, sym, ap, ◌∙◌, arith, append_assoc, append-nil,
  length-append,
}
use wrutil.Format.{Text, done}
use wrutil.Format.Layout.{Chunk, one, many, flatten}
use wrutil.Format.Targets.{Target, put_chunks}

pub record StreamState : Type 0 where
  pub sent : Text
  pub count : ℕ

-- `IOStreamTarget`
abbrev pub io_stream_target : Target StreamState
io_stream_target = record {
  begin = λ s. record { sent = s.sent; count = 0 };
  put = λ c s. done (record { sent = s.sent ++ (c ∷ []); count = s.count + 1 });
  put_text = λ t s. done (record { sent = s.sent ++ t; count = s.count + length t });
  finish = λ s. done s;
  count = λ s. s.count;
}

-- `CStreamTarget`, over what `fwrite` returns for a text after what has been sent before.
abbrev pub c_stream_target : (Text → Text → ℕ) → Target StreamState
c_stream_target fwrite = record {
  begin = λ s. record { sent = s.sent; count = 0 };
  put = λ c s. done (record { sent = s.sent ++ (c ∷ []); count = s.count + 1 });
  put_text = λ t s. done (record { sent = s.sent ++ t; count = s.count + fwrite s.sent t });
  finish = λ s. done s;
  count = λ s. s.count;
}

-- An IOStreamTarget hands over everything that is put, and counts it.
pub put_chunks-io_stream :
    (cs : List Chunk) (s : StreamState)
    → put_chunks io_stream_target cs s
      ≡ done (record { sent = s.sent ++ flatten cs; count = s.count + length (flatten cs) })
unfolding put_chunks
put_chunks-io_stream [] s =
    let e : s.count ≡ s.count + 0 = omega arith in
    ap (λ t. done (record { sent = t; count = s.count })) (sym (append-nil s.sent))
    ∙ ap (λ (n : ℕ). done (record { sent = s.sent ++ []; count = n })) e
put_chunks-io_stream (one c ∷ cs) s =
    let e : s.count + 1 + length (flatten cs) ≡ s.count + length (c ∷ flatten cs) = omega arith in
    put_chunks-io_stream cs (record { sent = s.sent ++ (c ∷ []); count = s.count + 1 })
    ∙ ap (λ t. done (record { sent = t; count = s.count + 1 + length (flatten cs) }))
        (append_assoc s.sent (c ∷ []) (flatten cs))
    ∙ ap (λ (n : ℕ). done (record { sent = s.sent ++ (c ∷ flatten cs); count = n })) e
put_chunks-io_stream (many t ∷ cs) s =
    let e : s.count + length t + length (flatten cs) ≡ s.count + length (t ++ flatten cs) =
      omega (arith, length-append t (flatten cs)) in
    put_chunks-io_stream cs (record { sent = s.sent ++ t; count = s.count + length t })
    ∙ ap (λ u. done (record { sent = u; count = s.count + length t + length (flatten cs) }))
        (append_assoc s.sent t (flatten cs))
    ∙ ap (λ (n : ℕ). done (record { sent = s.sent ++ (t ++ flatten cs); count = n })) e
