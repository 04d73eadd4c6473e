-- ===== src/U8StringView/Text.antt =====
-- What a view stands for: the code points from one address to another. `Code` is one code point, which
-- `++` and `--` step over.
use mathlib.Core.Path.{subst}
use wrutil.Common.{
  ℕ, zero, suc, ◌+◌, ◌≤◌, ◌<◌, ◌≡◌, refl, sym, ap, ◌∙◌, arith, Bool, true, false, List, [], ◌∷◌,
  ◌++◌, All, length, length-append,
}
use wrutil.Utf8.{is_continuation, utf8_char, utf8_inc, utf8_seq}
use wrutil.Utf8.RoundTrip.{utf8_char-utf8_seq_iff, utf8_inc-utf8_seq, utf8_seq-sequence}
use wrutil.Utf8.Back.{Shape, sequence-Shape}
use wrutil.U8StringView.{Memory, window, code_at, next_at, back_at, skip_back}

pub record Code (mem : Memory) (i c : ℕ) : Type 0 where
  pub code : code_at mem i ≡ c
  pub back : back_at mem (next_at mem i) ≡ i
  pub onward : i < next_at mem i

abbrev pub Text : Memory → ℕ → List ℕ → ℕ → Type 0
Text mem i [] e = i ≡ e
Text mem i (c ∷ cs) e = Code mem i c × Text mem (next_at mem i) cs e

pub Text-length : (mem : Memory) (i : ℕ) (cs : List ℕ) (e : ℕ) → Text mem i cs e → i + length cs ≤ e
Text-length mem i [] e t = omega (arith, t)
Text-length mem i (c ∷ cs) e (here, t) =
    omega (arith, here.onward, Text-length mem (next_at mem i) cs e t)

-- The bytes stand in the memory from `i` on.
abbrev pub Holds : Memory → ℕ → List ℕ → Type 0
Holds mem i [] = Unit
Holds mem i (b ∷ bs) = (mem i ≡ b) × Holds mem (suc i) bs

abbrev pub encode : List ℕ → List ℕ
encode [] = []
encode (c ∷ cs) = utf8_seq c ++ encode cs

window-Holds :
    (mem : Memory) (n i : ℕ) (bs : List ℕ)
    → Holds mem i bs
    → length bs ≤ n
    → (p : List ℕ) × (window mem n i ≡ bs ++ p)
window-Holds mem n i [] h f = (window mem n i, refl)
window-Holds mem zero i (b ∷ bs) h f = absurd (omega arith)
window-Holds mem (suc n) i (b ∷ bs) (e, h) f =
    let (p, w) = window-Holds mem n (suc i) bs h (omega arith) in (p, rw (e, w) refl)

Holds-append :
    (mem : Memory) (i : ℕ) (front bs : List ℕ)
    → Holds mem i (front ++ bs)
    → Holds mem i front × Holds mem (i + length front) bs
Holds-append mem i [] bs h = (tt, subst (λ (k : ℕ). Holds mem k bs) (omega arith) h)
Holds-append mem i (a ∷ front) bs (e, h) =
    let (first, back) = Holds-append mem (suc i) front bs h in
    ((e, first), subst (λ (k : ℕ). Holds mem k bs) (omega arith) back)

stay : (mem : Memory) (p : ℕ) → is_continuation (mem p) ≡ false → skip_back mem p ≡ p
stay mem p e = rw e refl

move : (mem : Memory) (p : ℕ) → is_continuation (mem (suc p)) ≡ true → skip_back mem (suc p) ≡ p
move mem p e = rw e (omega arith)

here-Holds :
    (mem : Memory) (i b : ℕ) (v : Bool)
    → mem i ≡ b
    → is_continuation b ≡ v
    → is_continuation (mem i) ≡ v
here-Holds mem i b v e h = ap is_continuation e ∙ h

start :
    (mem : Memory) (p : ℕ) → back_at mem (suc p) ≡ skip_back mem (skip_back mem (skip_back mem p))
unfolding back_at
start mem p = ap (λ (q : ℕ). skip_back mem (skip_back mem (skip_back mem q))) (omega arith)

-- From behind a first byte and its continuation bytes `--` leads to the first byte.
back-Shape :
    (mem : Memory) (i b : ℕ) (tail : List ℕ)
    → Holds mem i (b ∷ tail)
    → Shape (b ∷ tail)
    → back_at mem (i + length (b ∷ tail)) ≡ i
back-Shape mem i b [] (e, _) (h, _, _) =
    let s = stay mem i (here-Holds mem i b false e h) in
    ap (back_at mem) (omega arith) ∙ start mem i ∙ rw (s, s, s) refl
back-Shape mem i b (x ∷ []) (e, (ex, _)) (h, (hx, _), _) =
    let s = stay mem i (here-Holds mem i b false e h) in
    let m = move mem i (here-Holds mem (suc i) x true ex hx) in
    ap (back_at mem) (omega arith) ∙ start mem (suc i) ∙ rw (m, s, s) refl
back-Shape mem i b (x ∷ y ∷ []) (e, (ex, (ey, _))) (h, (hx, (hy, _)), _) =
    let s = stay mem i (here-Holds mem i b false e h) in
    let m = move mem i (here-Holds mem (suc i) x true ex hx) in
    let n = move mem (suc i) (here-Holds mem (suc (suc i)) y true ey hy) in
    ap (back_at mem) (omega arith) ∙ start mem (suc (suc i)) ∙ rw (n, m, s) refl
back-Shape mem i b (x ∷ y ∷ z ∷ []) (e, (ex, (ey, (ez, _)))) (h, (hx, (hy, (hz, _))), _) =
    let m = move mem i (here-Holds mem (suc i) x true ex hx) in
    let n = move mem (suc i) (here-Holds mem (suc (suc i)) y true ey hy) in
    let o = move mem (suc (suc i)) (here-Holds mem (suc (suc (suc i))) z true ez hz) in
    ap (back_at mem) (omega arith) ∙ start mem (suc (suc (suc i))) ∙ rw (o, n, m) refl
back-Shape mem i b (x ∷ y ∷ z ∷ w ∷ tail) h (_, _, n) = absurd (omega arith)

-- A code point below 0x10000, encoded.
one-Code :
    (mem : Memory) (i c b : ℕ) (tail : List ℕ)
    → c < 0x10000
    → utf8_seq c ≡ b ∷ tail
    → Holds mem i (b ∷ tail)
    → Code mem i c × (next_at mem i ≡ i + length (b ∷ tail))
unfolding code_at next_at
one-Code mem i c b tail f e h =
    let s : Shape (b ∷ tail) = subst Shape (sym (utf8_seq-sequence c) ∙ e) (sequence-Shape c) in
    let (_, _, short) = s in
    let (p, w) = window-Holds mem 4 i (b ∷ tail) h (omega (arith, short)) in
    let sizes = utf8_inc-utf8_seq c b tail (omega arith) e in
    let next : i + utf8_inc (mem i) ≡ i + length (b ∷ tail) =
      ap (λ (k : ℕ). i + k) (ap utf8_inc h.0 ∙ sizes.1 ∙ sym sizes.0) in
    (
      record {
        code =
            ap (λ (t : List ℕ). (utf8_char t).0) (w ∙ ap (λ (t : List ℕ). t ++ p) (sym e))
            ∙ ap (λ (r : ℕ × List ℕ). r.0) ((utf8_char-utf8_seq_iff c p).1 f);
        back = ap (back_at mem) next ∙ back-Shape mem i b tail h s;
        onward = omega (arith, next);
      },
      next,
    )

some_bytes : (c : ℕ) → (b : ℕ) × (tail : List ℕ) × (utf8_seq c ≡ b ∷ tail)
some_bytes c = from (utf8_seq c) (subst Shape (sym (utf8_seq-sequence c)) (sequence-Shape c))
  where
    from : (bs : List ℕ) → Shape bs → (b : ℕ) × (tail : List ℕ) × (bs ≡ b ∷ tail)
    from [] s = absurd s
    from (b ∷ tail) s = (b, tail, refl)

-- Where the memory holds code points below 0x10000 as utf8_seq encodes them, a view of these bytes
-- stands for the code points: reading gives each one, ++ leads to the next one and -- back.
pub encode-Text :
    (mem : Memory) (i : ℕ) (cs : List ℕ)
    → All (λ c. c < 0x10000) cs
    → Holds mem i (encode cs)
    → Text mem i cs (i + length (encode cs))
encode-Text mem i [] f h = omega arith
encode-Text mem i (c ∷ cs) (small, f) h =
    let (b, tail, e) = some_bytes c in
    let (front, rest) = Holds-append mem i (utf8_seq c) (encode cs) h in
    let (here, next) = one-Code mem i c b tail small e (subst (Holds mem i) e front) in
    let at : next_at mem i ≡ i + length (utf8_seq c) =
      next ∙ ap (λ (t : List ℕ). i + length t) (sym e) in
    let end : next_at mem i + length (encode cs) ≡ i + length (utf8_seq c ++ encode cs) =
      omega (arith, at, length-append (utf8_seq c) (encode cs)) in
    (
      here,
      subst (Text mem (next_at mem i) cs) end (
          encode-Text mem (next_at mem i) cs f
            (subst (λ (k : ℕ). Holds mem k (encode cs)) (sym at) rest)),
    )

pub Text-append :
    (mem : Memory) (i : ℕ) (xs ys : List ℕ) (e : ℕ)
    → Text mem i (xs ++ ys) e
    → (m : ℕ) × Text mem i xs m × Text mem m ys e
Text-append mem i [] ys e t = (i, refl, t)
Text-append mem i (x ∷ xs) ys e (here, t) =
    let (m, front, back) = Text-append mem (next_at mem i) xs ys e t in (m, (here, front), back)

pub append-Text :
    (mem : Memory) (i : ℕ) (xs ys : List ℕ) (m e : ℕ)
    → Text mem i xs m
    → Text mem m ys e
    → Text mem i (xs ++ ys) e
append-Text mem i [] ys m e front t = subst (λ (k : ℕ). Text mem k ys e) (sym front) t
append-Text mem i (x ∷ xs) ys m e (here, front) t =
    (here, append-Text mem (next_at mem i) xs ys m e front t)
