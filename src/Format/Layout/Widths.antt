-- ===== src/Format/Layout/Widths.antt =====
-- What the calls of put at the end of Target::format write, as one text.
use wrutil.Common.{
  ℕ, zero, suc, ◌-◌, ◌/◌, ◌==◌, ltb, if◌then◌else◌, ◌≡◌, refl, ap, ◌∙◌, sym, arith, Bool, true,
  false, not, ◌&&◌, ◌||◌, List, [], ◌∷◌, ◌++◌, append_assoc, append-nil, replicate,
}
use wrutil.Common.{==_iff, lt→ltb}
use mathlib.Core.Bool.{true≢false}
use wrutil.Format.{Text, Flags, Field}
use wrutil.Format.Layout.{
  Chunk, one, many, flatten, layout, fill_char, gap_of, is_numeric, is_empty,
}

flatten-append : (xs ys : List Chunk) → flatten (xs ++ ys) ≡ flatten xs ++ flatten ys
flatten-append [] ys = refl
flatten-append (one c ∷ xs) ys = ap (λ t. c ∷ t) (flatten-append xs ys)
flatten-append (many t ∷ xs) ys =
    ap (λ u. t ++ u) (flatten-append xs ys) ∙ sym (append_assoc t (flatten xs) (flatten ys))

flatten-replicate : (n c : ℕ) → flatten (replicate n (one c)) ≡ replicate n c
flatten-replicate zero c = refl
flatten-replicate (suc n) c = ap (λ t. c ∷ t) (flatten-replicate n c)

-- The text with `gap` fill characters.
abbrev pub padded : Bool → Bool → ℕ → ℕ → Text → Text → Text
padded left centre fill gap prefix body =
    if left
    then prefix ++ (body ++ replicate gap fill)
    else if fill == b'0'
    then prefix ++ (replicate gap b'0' ++ body)
    else let before = if centre then gap / 2 else gap in
      replicate before fill ++ (prefix ++ (body ++ replicate (gap - before) fill))

put_behind :
    (prefix body : Text) (gap fill : ℕ)
    → flatten (many (prefix ++ body) ∷ replicate gap (one fill))
      ≡ prefix ++ (body ++ replicate gap fill)
put_behind prefix body gap fill =
    ap (λ t. (prefix ++ body) ++ t) (flatten-replicate gap fill)
    ∙ append_assoc prefix body (replicate gap fill)

put_around :
    (prefix body : Text) (before after fill : ℕ)
    → flatten (replicate before (one fill) ++ (many (prefix ++ body) ∷ replicate after (one fill)))
      ≡ replicate before fill ++ (prefix ++ (body ++ replicate after fill))
put_around prefix body before after fill =
    flatten-append (replicate before (one fill)) _
    ∙ ap (λ t. t ++ flatten (many (prefix ++ body) ∷ replicate after (one fill)))
        (flatten-replicate before fill)
    ∙ ap (λ t. replicate before fill ++ t) (put_behind prefix body after fill)

-- The calls, with the tests as arguments: whether the fill character is a zero, and whether there is a gap.
abbrev calls : Bool → Bool → Bool → Bool → ℕ → ℕ → Text → Text → List Chunk
calls zeros wide left centre fill gap prefix body =
    let left_gap = if centre then gap / 2 else gap in
    let split = zeros && not (is_empty prefix) in
    if wide && not left
    then (if split then many prefix ∷ [] else [])
      ++ (replicate left_gap (one fill)
          ++ (many (if split then body else prefix ++ body)
              ∷ replicate (gap - left_gap) (one fill)))
    else many (prefix ++ body) ∷ replicate gap (one fill)

abbrev pub pads : Bool → Bool → Bool → ℕ → ℕ → Text → Text → Text
pads zeros left centre fill gap prefix body =
    if left
    then prefix ++ (body ++ replicate gap fill)
    else if zeros
    then prefix ++ (replicate gap b'0' ++ body)
    else let before = if centre then gap / 2 else gap in
      replicate before fill ++ (prefix ++ (body ++ replicate (gap - before) fill))

zeros_first :
    (body : Text) (gap : ℕ)
    → flatten (replicate gap (one b'0') ++ (many body ∷ replicate (gap - gap) (one b'0')))
      ≡ replicate gap b'0' ++ body
zeros_first body gap =
    let none_left : gap - gap ≡ 0 = omega arith in
    put_around [] body gap (gap - gap) b'0'
    ∙ ap (λ (n : ℕ). replicate gap b'0' ++ (body ++ replicate n b'0')) none_left
    ∙ ap (λ t. replicate gap b'0' ++ t) (append-nil body)

calls-pads :
    (zeros left centre : Bool) (fill gap : ℕ) (prefix body : Text)
    → (zeros ≡ true → (fill ≡ b'0') × (left ≡ false) × (centre ≡ false))
    → flatten (calls zeros true left centre fill gap prefix body)
      ≡ pads zeros left centre fill gap prefix body
calls-pads zeros true centre fill gap prefix body h = put_behind prefix body gap fill
calls-pads false false true fill gap prefix body h =
    put_around prefix body (gap / 2) (gap - gap / 2) fill
calls-pads false false false fill gap prefix body h = put_around prefix body gap (gap - gap) fill
calls-pads true false true fill gap prefix body h = absurd (true≢false ((h refl).2))
calls-pads true false false fill gap [] body h =
    ap (λ c. flatten (replicate gap (one c) ++ (many body ∷ replicate (gap - gap) (one c))))
      ((h refl).0)
    ∙ zeros_first body gap
calls-pads true false false fill gap (c ∷ prefix) body h =
    ap
      (λ d.
        (c ∷ prefix)
        ++ flatten (replicate gap (one d) ++ (many body ∷ replicate (gap - gap) (one d))))
      ((h refl).0)
    ∙ ap (λ t. (c ∷ prefix) ++ t) (zeros_first body gap)

no_gap :
    (zeros left centre : Bool) (fill : ℕ) (prefix body : Text)
    → flatten (calls zeros false left centre fill 0 prefix body)
      ≡ pads zeros left centre fill 0 prefix body
no_gap zeros true centre fill prefix body = append_assoc prefix body []
no_gap true false centre fill prefix body = append-nil (prefix ++ body)
no_gap false false true fill prefix body = append_assoc prefix body []
no_gap false false false fill prefix body = append_assoc prefix body []

-- Zeros do not go with an alignment.
fill_zero :
    (flags : Flags) (conv : ℕ)
    → (fill_char flags conv == b'0') ≡ true
    → (fill_char flags conv ≡ b'0') × (flags.left_align ≡ false) × (flags.centre_align ≡ false)
unfolding fill_char
fill_zero flags conv h =
    let aligned =
      go (is_numeric conv) flags.have_precis flags.centre_align flags.left_align flags.zero_pad h in
    ((==_iff _ _).0 h, aligned.0, aligned.1)
  where
    go :
        (n p c l z : Bool)
        → ((if n && (not (p || (c || l)) && z) then b'0' else b' ') == b'0') ≡ true
        → (l ≡ false) × (c ≡ false)
    go false p c l z h = absurd (true≢false (sym h))
    go true true c l z h = absurd (true≢false (sym h))
    go true false true l z h = absurd (true≢false (sym h))
    go true false false true z h = absurd (true≢false (sym h))
    go true false false false z h = (refl, refl)

-- A field is written with its gap: where it is left aligned, behind it; where the fill character
-- is a zero, between the prefix and the rest; otherwise half of it, or all of it unless the field
-- is centred, in front and the rest behind.
pub layout_lem :
    (flags : Flags) (width conv : ℕ) (f : Field)
    → flatten (layout flags width conv f)
      ≡ padded flags.left_align flags.centre_align
          (fill_char flags conv)
          (gap_of flags width f)
          f.prefix
          f.body
unfolding layout
layout_lem flags width conv f = go (gap_of flags width f)
  where
    go :
        (gap : ℕ)
        → flatten (
            calls
              (fill_char flags conv == b'0')
              (ltb 0 gap)
              flags.left_align
              flags.centre_align
              (fill_char flags conv)
              gap
              f.prefix
              f.body)
          ≡ padded flags.left_align flags.centre_align (fill_char flags conv) gap f.prefix f.body
    go zero =
        no_gap (fill_char flags conv == b'0') flags.left_align flags.centre_align
          (fill_char flags conv) f.prefix f.body
    go (suc n) =
        let wide : ltb 0 (suc n) ≡ true = lt→ltb 0 (suc n) (omega arith) in
        ap
          (λ b. flatten (
            calls (fill_char flags conv == b'0') b flags.left_align flags.centre_align
              (fill_char flags conv) (suc n) f.prefix f.body))
          wide
        ∙ calls-pads (fill_char flags conv == b'0') flags.left_align flags.centre_align
            (fill_char flags conv) (suc n) f.prefix f.body (fill_zero flags conv)
