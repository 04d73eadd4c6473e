-- ===== src/Sha256/Standard/Words.antt =====
-- The words that computeBlock extends a block to, and the schedule of the standard.
use wrutil.Common.{
  ℕ, zero, suc, ◌+◌, ◌*◌, ◌%◌, ◌^◌, ◌<◌, ltb, Bool-cases, inl, inr, ltb→lt, ltb→le, ◌≡◌, refl, ap,
  ◌∙◌, sym, arith, List, [], ◌∷◌, ◌++◌, length, length-reverse, get_or,
}
use mathlib.Core.List.{reverse, reverse-append, reverse-reverse}
use wrutil.Sha256.Block.{words, extend, sigma0, sigma1, rotate_right, schedule}
use wrutil.Sha256.Standard.{Schedule, word_at}

get_or-append_low : (xs ys : List ℕ) (i : ℕ) → i < length xs → get_or (xs ++ ys) i 0 ≡ get_or xs i 0
get_or-append_low [] ys i h = absurd (omega arith)
get_or-append_low (x ∷ xs) ys zero h = refl
get_or-append_low (x ∷ xs) ys (suc i) h = get_or-append_low xs ys i (omega arith)

get_or-append_end : (xs : List ℕ) (y i : ℕ) → i ≡ length xs → get_or (xs ++ (y ∷ [])) i 0 ≡ y
get_or-append_end [] y i h = ap (λ (k : ℕ). get_or (y ∷ []) k 0) h
get_or-append_end (x ∷ xs) y zero h = absurd (omega (arith, h))
get_or-append_end (x ∷ xs) y (suc i) h = get_or-append_end xs y i (omega (arith, h))

-- The words in the order of the schedule, from those with the newest first.
abbrev in_order : List ℕ → ℕ → ℕ
in_order v t = get_or (reverse v) t 0

in_order_older : (x : ℕ) (v : List ℕ) (t : ℕ) → t < length v → in_order (x ∷ v) t ≡ in_order v t
in_order_older x v t h =
    ap (λ (u : List ℕ). get_or u t 0) (reverse-append (x ∷ []) v)
    ∙ get_or-append_low (reverse v) (x ∷ []) t (omega (arith, h, length-reverse v))

in_order_newest : (x : ℕ) (v : List ℕ) (t : ℕ) → t ≡ length v → in_order (x ∷ v) t ≡ x
in_order_newest x v t h =
    ap (λ (u : List ℕ). get_or u t 0) (reverse-append (x ∷ []) v)
    ∙ get_or-append_end (reverse v) x t (omega (arith, h, length-reverse v))

in_order-get_or : (v : List ℕ) (t i : ℕ) → t + suc i ≡ length v → in_order v t ≡ get_or v i 0
in_order-get_or [] t i h = absurd (omega (arith, h))
in_order-get_or (x ∷ v) t zero h = in_order_newest x v t (omega (arith, h))
in_order-get_or (x ∷ v) t (suc i) h =
    in_order_older x v t (omega (arith, h)) ∙ in_order-get_or v t i (omega (arith, h))

-- The recurrence.
abbrev later : ℕ → ℕ → ℕ → ℕ → ℕ
later x y z u = (sigma1 x + y + sigma0 z + u) % 2 ^ 32

-- `n` words in front of sixteen others obey the recurrence.
record Obeys (v : List ℕ) (n : ℕ) : Type 0 where
  size : length v ≡ n + 16
  rule :
      (t : ℕ)
      → t < n
      → in_order v (t + 16)
        ≡ later (in_order v (t + 14)) (in_order v (t + 9)) (in_order v (t + 1)) (in_order v t)

abbrev next_word : List ℕ → ℕ
next_word v = later (get_or v 1 0) (get_or v 6 0) (get_or v 14 0) (get_or v 15 0)

later_same :
    {x x' y y' z z' u u' : ℕ}
    → x ≡ x'
    → y ≡ y'
    → z ≡ z'
    → u ≡ u'
    → later x y z u ≡ later x' y' z' u'
later_same {x = x} {x' = x'} {y = y} {y' = y'} {z = z} {z' = z'} {u = u} {u' = u'} e f g h =
    ap (λ (t : ℕ). later t y z u) e
    ∙ ap (λ (t : ℕ). later x' t z u) f
    ∙ ap (λ (t : ℕ). later x' y' t u) g
    ∙ ap (λ (t : ℕ). later x' y' z' t) h

Obeys-rule :
    (v : List ℕ) (n : ℕ)
    → Obeys v n
    → (t : ℕ) → t < suc n
    → in_order (next_word v ∷ v) (t + 16)
      ≡ later
          (in_order (next_word v ∷ v) (t + 14))
          (in_order (next_word v ∷ v) (t + 9))
          (in_order (next_word v ∷ v) (t + 1))
          (in_order (next_word v ∷ v) t)
Obeys-rule v n o t h =
    let older : (i : ℕ) → i < t + 16 → in_order (next_word v ∷ v) i ≡ in_order v i =
      λ i l. in_order_older (next_word v) v i (omega (arith, o.size, h, l)) in
    elim (Bool-cases (ltb t n)) [
      | inl e ↦
          let l = ltb→lt t n e in
          in_order_older (next_word v) v (t + 16) (omega (arith, o.size, l))
          ∙ o.rule t l
          ∙ sym (
              later_same (older (t + 14) (omega arith)) (older (t + 9) (omega arith))
                (older (t + 1) (omega arith)) (older t (omega arith)))
      | inr e ↦
          let l = ltb→le t n e in
          in_order_newest (next_word v) v (t + 16) (omega (arith, o.size, h, l))
          ∙ sym (
              later_same
                (older (t + 14) (omega arith)
                  ∙ in_order-get_or v (t + 14) 1 (omega (arith, o.size, h, l)))
                (older (t + 9) (omega arith)
                  ∙ in_order-get_or v (t + 9) 6 (omega (arith, o.size, h, l)))
                (older (t + 1) (omega arith)
                  ∙ in_order-get_or v (t + 1) 14 (omega (arith, o.size, h, l)))
                (older t (omega arith) ∙ in_order-get_or v t 15 (omega (arith, o.size, h, l))))
    ]

Obeys-next : (v : List ℕ) (n : ℕ) → Obeys v n → Obeys (next_word v ∷ v) (suc n)
Obeys-next v n o = record { size = omega (arith, o.size); rule = λ t h. Obeys-rule v n o t h }

-- The loop keeps the rule, and the words that it began with.
record Extends (v : List ℕ) (m n : ℕ) (out : List ℕ) : Type 0 where
  obeys : Obeys out (m + n)
  kept : (t : ℕ) → t < length v → in_order out t ≡ in_order v t

extend-Extends : (m n : ℕ) (v : List ℕ) → Obeys v n → Extends v m n (extend m v)
unfolding extend
extend-Extends zero n v o = record {
  obeys = record { size = omega (arith, o.size); rule = λ t h. o.rule t (omega (arith, h)) };
  kept = λ t h. refl;
}
extend-Extends (suc m) n v o =
    let more = extend-Extends m (suc n) (next_word v ∷ v) (Obeys-next v n o) in
    record {
      obeys = record {
        size = omega (arith, more.obeys.size);
        rule = λ t h. more.obeys.rule t (omega (arith, h));
      };
      kept = λ t h. more.kept t (omega (arith, h)) ∙ in_order_older (next_word v) v t h;
    }

length-words : (n : ℕ) (block : List ℕ) → length block ≡ n * 4 → length (words block) ≡ n
unfolding words
length-words zero [] h = refl
length-words zero (x ∷ block) h = absurd (omega (arith, h))
length-words (suc n) (a ∷ b ∷ c ∷ d ∷ block) h = ap suc (length-words n block (omega (arith, h)))
length-words (suc n) [] h = absurd (omega (arith, h))
length-words (suc n) (a ∷ []) h = absurd (omega (arith, h))
length-words (suc n) (a ∷ b ∷ []) h = absurd (omega (arith, h))
length-words (suc n) (a ∷ b ∷ c ∷ []) h = absurd (omega (arith, h))

words-word_at :
    (n : ℕ) (block : List ℕ) (t : ℕ)
    → length block ≡ n * 4
    → t < n
    → get_or (words block) t 0 ≡ word_at block t
unfolding words
words-word_at zero block t h l = absurd (omega arith)
words-word_at (suc n) (a ∷ b ∷ c ∷ d ∷ block) zero h l = refl
words-word_at (suc n) (a ∷ b ∷ c ∷ d ∷ block) (suc t) h l =
    words-word_at n block t (omega (arith, h)) (omega arith)
    ∙ omega (
      arith,
      byte (suc t * 4) (t * 4) (omega arith),
      byte (suc t * 4 + 1) (t * 4 + 1) (omega arith),
      byte (suc t * 4 + 2) (t * 4 + 2) (omega arith),
      byte (suc t * 4 + 3) (t * 4 + 3) (omega arith),
    )
  where
    byte :
        (i j : ℕ)
        → i ≡ suc (suc (suc (suc j)))
        → get_or (a ∷ b ∷ c ∷ d ∷ block) i 0 ≡ get_or block j 0
    byte i j e = ap (λ (k : ℕ). get_or (a ∷ b ∷ c ∷ d ∷ block) k 0) e
words-word_at (suc n) [] t h l = absurd (omega (arith, h))
words-word_at (suc n) (a ∷ []) t h l = absurd (omega (arith, h))
words-word_at (suc n) (a ∷ b ∷ []) t h l = absurd (omega (arith, h))
words-word_at (suc n) (a ∷ b ∷ c ∷ []) t h l = absurd (omega (arith, h))

block_words :
    (block : List ℕ)
    → length block ≡ 64
    → Extends (reverse (words block)) 48 0 (extend 48 (reverse (words block)))
block_words block h = extend-Extends 48 0 (reverse (words block)) (record {
  size = omega (arith, length-reverse (words block), length-words 16 block h);
  rule = λ t l. absurd (omega arith);
})

pub length-schedule : (block : List ℕ) → length block ≡ 64 → length (schedule block) ≡ 64
unfolding schedule
length-schedule block h =
    omega
      (arith, length-reverse (extend 48 (reverse (words block))), (block_words block h).obeys.size)

-- The words of computeBlock are the schedule of the block.
pub schedule-Schedule :
    (block : List ℕ) → length block ≡ 64 → Schedule block (λ t. get_or (schedule block) t 0)
unfolding schedule sigma0 sigma1 rotate_right
schedule-Schedule block h =
    let all = block_words block h in
    record {
      first = λ t l.
          all.kept t (omega (arith, length-reverse (words block), length-words 16 block h, l))
          ∙ ap (λ (u : List ℕ). get_or u t 0) (reverse-reverse (words block))
          ∙ words-word_at 16 block t h l;
      later = λ t l. all.obeys.rule t (omega arith);
    }
