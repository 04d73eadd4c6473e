-- ===== src/Format/Digits/Grouping.antt =====
-- The groups of digits that toDecStr separates.
use wrutil.Common.{
  ℕ, zero, suc, ◌+◌, ◌-◌, ◌/◌, ◌%◌, ◌≤◌, ◌<◌, ◌==◌, ltb, leb, if◌then◌else◌, ◌≡◌, refl, ap, ◌∙◌,
  sym, arith, Bool, true, false, ◌&&◌, ◌||◌, ltb→lt, ltb→le, ne→==, ==_self, List, [], ◌∷◌, ◌++◌,
  map, length, get_or, All, Option, none, some, Bool-cases, inl, inr,
}
use mathlib.Core.Bool.{true≢false}
use wrutil.Format.{Text, Conv, written}
use wrutil.Format.Digits.{digit_char, refill, load_group, Groups}
use wrutil.Format.Digits.Values.{
  Numeral, Numeral-last, single, ended_at, map-append-one, stop_or_go,
}
use wrutil.Format.Digits.Numerals.{otherwise}

-- The groups have at least one digit each, and `gi` is at most one place behind the last one.
pub data Ready : List ℕ → ℕ → Type 0 where
  over : {gi : ℕ} → Ready [] gi
  running :
      {g : ℕ} {gs : List ℕ} {gi : ℕ}
      → All (λ n. 0 < n) (g ∷ gs)
      → gi ≤ suc (length gs)
      → Ready (g ∷ gs) gi

get_or_positive : (gs : List ℕ) (i : ℕ) → All (λ n. 0 < n) gs → i < length gs → 0 < get_or gs i 0
get_or_positive [] i h l = absurd (omega arith)
get_or_positive (g ∷ gs) zero (p, h) l = p
get_or_positive (g ∷ gs) (suc i) (p, h) l = get_or_positive gs i h (omega arith)

le→leb : (n i : ℕ) → i < n → leb n i ≡ false
le→leb n i h = ground arith

at_most : (n i : ℕ) → n ≤ i → leb n i ≡ true
at_most n i h = ground arith

false_or : (a b : Bool) → a ≡ false → b ≡ false → (a || b) ≡ false
false_or a b h k = rw (h, k)

-- What a refill gives: groups that are over, or at least one digit before the next separator.
pub data Filled : Option Groups → Type 0 where
  ended :
      {gi : ℕ} {size : Option ℕ} → Filled (some (record { grouping = []; gi = gi; size = size }))
  counted :
      {gs : List ℕ} {gi : ℕ} {n : ℕ}
      → 0 < n
      → Ready gs gi
      → Filled (some (record { grouping = gs; gi = gi; size = some n }))

at_end : (n i e : ℕ) → (i < n → 0 < e) → (leb n i || (e == 0)) ≡ true → n ≤ i
at_end n i e h t = elim (Bool-cases (ltb i n)) [
  | inl l ↦
      let m : leb n i ≡ false = le→leb n i (ltb→lt i n l) in
      let z : (e == 0) ≡ false = ne→== e 0 (λ q. omega (arith, q, h (ltb→lt i n l))) in
      absurd (true≢false (sym t ∙ false_or (leb n i) (e == 0) m z))
  | inr r ↦ ltb→le i n r
]

inside : (n i : ℕ) (b : Bool) → (leb n i || b) ≡ false → i < n
inside n i b f = elim (Bool-cases (ltb i n)) [
  | inl l ↦ ltb→lt i n l
  | inr r ↦ absurd (true≢false (sym (ap (λ c. c || b) (at_most n i (ltb→le i n r))) ∙ f))
]

load_group-Filled :
    (g : ℕ) (gs : List ℕ) (gi : ℕ) (size : Option ℕ)
    → Ready (g ∷ gs) gi
    → Filled (load_group (record { grouping = g ∷ gs; gi = gi; size = size }))
unfolding load_group
load_group-Filled g gs gi size (running all h) =
    let positive = get_or_positive (g ∷ gs) gi all in
    stop_or_go Filled (get_or (g ∷ gs) gi 0 == 127) _ _ (λ t. ended)
      (λ f.
        stop_or_go Filled (leb (suc (length gs)) gi || (get_or (g ∷ gs) gi 0 == 0)) _ _
          (λ t.
            let end = at_end (suc (length gs)) gi (get_or (g ∷ gs) gi 0) positive t in
            otherwise Filled (gi == 0) _ _ (ne→== gi 0 (λ z. omega (arith, z, end))) (
              counted (get_or_positive (g ∷ gs) (gi - 1) all (omega (arith, end, h)))
                (running all h)))
          (λ k.
            let l = inside (suc (length gs)) gi (get_or (g ∷ gs) gi 0 == 0) k in
            counted (positive l) (running all (omega (arith, l)))))

-- `refill` where the groups have been counted down, and where not.
pub refill_next :
    (gs : List ℕ) (gi : ℕ)
    → Ready gs gi
    → Filled (refill (record { grouping = gs; gi = gi; size = none }))
unfolding refill
refill_next [] gi r = ended
refill_next (g ∷ gs) gi r = load_group-Filled g gs gi none r

-- A text without its separators.
abbrev pub without : ℕ → Text → Text
without sep [] = []
without sep (c ∷ t) = if c == sep then without sep t else c ∷ without sep t

-- No digit is the separator.
abbrev pub Distinct : ℕ → Type 0
Distinct sep = (d : ℕ) → d < 10 → (digit_char false d == sep) ≡ false

-- What the loop writes in front of a text: at most `m` characters, which are the digits when the
-- separators are left out.
pub record Grouped (sep v k m : ℕ) (text : Text) (out : Conv Text) : Type 0 where
  pub t : Text
  pub ds : List ℕ
  pub out_is : out ≡ written t
  pub digits : without sep t ≡ map (digit_char false) ds ++ without sep text
  pub numeral : Numeral 10 v k ds
  pub short : length t ≤ m + length text

module _ (sep : ℕ) (distinct : Distinct sep) where
  without-digit :
      (d : ℕ) (text : Text)
      → d < 10
      → without sep (digit_char false d ∷ text) ≡ digit_char false d ∷ without sep text
  without-digit d text h =
      ap (λ b. if b then without sep text else digit_char false d ∷ without sep text) (distinct d h)

  pub Grouped-one :
      (v k m : ℕ) (text : Text)
      → 0 < m
      → (v / 10 == 0 && k - 1 == 0) ≡ true
      → Grouped sep v k m text (written (digit_char false (v % 10) ∷ text))
  Grouped-one v k m text h t =
      let (e, f) = ended_at (v / 10) (k - 1) t in
      record {
        t = digit_char false (v % 10) ∷ text;
        ds = v % 10 ∷ [];
        out_is = refl;
        digits = without-digit (v % 10) text (omega arith);
        numeral = single 10 v k (omega arith) e f;
        short = omega (arith, h);
      }

  pub Grouped-last :
      (v k m n : ℕ) (text : Text) (out : Conv Text)
      → n < m
      → (v / 10 == 0 && k - 1 == 0) ≡ false
      → Grouped sep (v / 10) (k - 1) n (digit_char false (v % 10) ∷ text) out
      → Grouped sep v k m text out
  Grouped-last v k m n text out h f w = record {
    t = w.t;
    ds = w.ds ++ (v % 10 ∷ []);
    out_is = w.out_is;
    digits =
        w.digits
        ∙ ap (λ t. map (digit_char false) w.ds ++ t) (without-digit (v % 10) text (omega arith))
        ∙ sym (map-append-one false w.ds (v % 10) (without sep text));
    numeral = Numeral-last 10 v k w.ds (omega arith) f w.numeral;
    short = omega (arith, w.short, h);
  }

  pub Grouped-sep :
      (v k m n : ℕ) (text : Text) (out : Conv Text)
      → n < m
      → Grouped sep v k n (sep ∷ text) out
      → Grouped sep v k m text out
  Grouped-sep v k m n text out h w = record {
    t = w.t;
    ds = w.ds;
    out_is = w.out_is;
    digits = w.digits ∙ ap (λ t. map (digit_char false) w.ds ++ t) (dropped text);
    numeral = w.numeral;
    short = omega (arith, w.short, h);
  }
    where
      dropped : (text : Text) → without sep (sep ∷ text) ≡ without sep text
      dropped text = ap (λ b. if b then without sep text else sep ∷ without sep text) (==_self sep)
