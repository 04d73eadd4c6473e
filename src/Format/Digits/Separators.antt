-- ===== src/Format/Digits/Separators.antt =====
-- The loop of toDecStr with groups of digits.
use wrutil.Common.{
  ℕ, zero, suc, ◌+◌, ◌-◌, ◌*◌, ◌/◌, ◌%◌, ◌^◌, ◌≤◌, ◌<◌, ◌==◌, leb, true_and, ne→==, if◌then◌else◌,
  ◌≡◌, refl, ap, ◌∙◌, sym, arith, Bool, true, false, ◌&&◌, List, [], ◌∷◌, map, Option, none, some,
  lt→ltb, All, append-nil,
}
use mathlib.Core.Bool.{true≢false}
use mathlib.Core.Path.{subst}
use wrutil.Format.{Text, Flags, Conv, written, outside, Field, Host}
use wrutil.Format.Digits.{
  digit_char, to_dec, dec_loop, refill, place, Groups, with_sign, sign_of, then_field,
}
use wrutil.Format.Digits.Values.{Numeral, stop_or_go, going, quotient_small}
use wrutil.Format.Digits.Numerals.{otherwise, room_not_zero, sign_short, with_sign_room}
use wrutil.Format.Digits.Grouping.{
  Ready, over, running, Filled, ended, counted, refill_next, Distinct, Grouped, Grouped-one,
  Grouped-last, Grouped-sep, without,
}
use wrutil.Format.Doubles.{is_digit}

-- Whether a separator comes next.
abbrev cost : List ℕ → Option ℕ → ℕ
cost [] size = 0
cost (g ∷ gs) none = 0
cost (g ∷ gs) (some zero) = 1
cost (g ∷ gs) (some (suc n)) = 0

cost_small : (gs : List ℕ) (size : Option ℕ) → cost gs size ≤ 1
cost_small [] size = omega arith
cost_small (g ∷ gs) none = omega arith
cost_small (g ∷ gs) (some zero) = omega arith
cost_small (g ∷ gs) (some (suc n)) = omega arith

cost-none : (gs : List ℕ) → cost gs none ≡ 0
cost-none [] = refl
cost-none (g ∷ gs) = refl

-- A round of the loop behind `refill`.
abbrev round : ℕ → ℕ → ℕ → ℕ → Text → Bool × Groups → Conv Text
round sep room v k text next =
    let value' = if next.0 then v / 10 else v in
    let k' = if next.0 then k - 1 else k in
    let text' = (if next.0 then b'0' + v % 10 else sep) ∷ text in
    let more = dec_loop sep room next.1 value' k' text' in
    if value' == 0 && k' == 0 then written text' else more

abbrev Busy : Option ℕ → ℕ → ℕ → Type 0
Busy none v k = Unit
Busy (some i) v k = (v == 0 && k == 0) ≡ false

abbrev Works : ℕ → ℕ → Type 0
Works sep room =
    (gs : List ℕ) (gi : ℕ) (size : Option ℕ) (v k n : ℕ) (text : Text)
    → Ready gs gi
    → Busy size v k
    → v < 10 ^ suc n
    → k ≤ suc n
    → cost gs size + 2 * n < room
    → Grouped sep v k (cost gs size + 2 * n + 1) text
        (dec_loop sep room (record { grouping = gs; gi = gi; size = size }) v k text)

busy : (size : Option ℕ) (v k : ℕ) → (v == 0 && k == 0) ≡ false → Busy size v k
busy none v k f = tt
busy (some i) v k f = f

same : (v : ℕ) → digit_char false (v % 10) ≡ b'0' + v % 10
same v = rw (lt→ltb (v % 10) 10 (omega arith))

last_digit : (v k : ℕ) → v < 10 ^ suc zero → k ≤ suc zero → (v / 10 == 0 && k - 1 == 0) ≡ true
last_digit v k h e = going (v / 10) (k - 1) (quotient_small 10 v zero (omega arith) h) (omega arith)

module _ (sep : ℕ) (distinct : Distinct sep) where
  -- A round that writes a digit.
  digit_round :
      (room : ℕ)
      → Works sep room
      → (gs : List ℕ) (gi : ℕ) (size : Option ℕ) (m v k n : ℕ) (text : Text) → Ready gs gi
      → v < 10 ^ suc n
      → k ≤ suc n
      → 2 * n < suc room
      → 2 * n < m
      → Grouped sep v k m text (
          if v / 10 == 0 && k - 1 == 0
          then written ((b'0' + v % 10) ∷ text)
          else dec_loop sep room
              (record { grouping = gs; gi = gi; size = size })
              (v / 10)
              (k - 1)
              ((b'0' + v % 10) ∷ text))
  digit_round room ih gs gi size m v k zero text r h e l q =
      stop_or_go (Grouped sep v k m text) (v / 10 == 0 && k - 1 == 0) _ _
        (λ t.
          subst (λ d. Grouped sep v k m text (written (d ∷ text))) (same v)
            (Grouped-one sep distinct v k m text (omega (arith, q)) t))
        (λ f. absurd (true≢false (sym (last_digit v k h e) ∙ f)))
  digit_round room ih gs gi size m v k (suc n) text r h e l q =
      stop_or_go (Grouped sep v k m text) (v / 10 == 0 && k - 1 == 0) _ _
        (λ t.
          subst (λ d. Grouped sep v k m text (written (d ∷ text))) (same v)
            (Grouped-one sep distinct v k m text (omega (arith, q)) t))
        (λ f.
          Grouped-last sep distinct v k m (cost gs size + 2 * n + 1) text _
            (omega (arith, cost_small gs size, q)) f
            (subst
              (λ d. Grouped sep (v / 10) (k - 1) (cost gs size + 2 * n + 1) (d ∷ text) (
                dec_loop sep room (record { grouping = gs; gi = gi; size = size }) (v / 10) (k - 1)
                  ((b'0' + v % 10) ∷ text)))
              (sym (same v))
              (ih gs gi size (v / 10) (k - 1) n ((b'0' + v % 10) ∷ text) r
                (busy size (v / 10) (k - 1) f) (quotient_small 10 v (suc n) (omega arith) h)
                (omega arith) (omega (arith, cost_small gs size, l)))))

  -- The round that the test of `refill` leads to.
  Filled-round :
      (room : ℕ)
      → Works sep room
      → (o : Option Groups) (m v k n : ℕ) (text : Text) (cases : Option Groups → Conv Text)
      → Filled o
      → v < 10 ^ suc n
      → k ≤ suc n
      → 2 * n < suc room
      → 2 * n < m
      → ((g : Groups) → cases (some g) ≡ round sep room v k text (place g))
      → Grouped sep v k m text (cases o)
  unfolding place
  Filled-round room ih _ m v k n text cases (ended {gi = gi} {size = size}) h e l q step =
      subst (Grouped sep v k m text) (sym (step _))
        (digit_round room ih [] gi size m v k n text over h e l q)
  Filled-round room ih _ m v k n text cases (counted {gs = gs} {gi = gi} {n = zero} p r) h e l q
        step =
      absurd (omega (arith, p))
  Filled-round room ih _ m v k n text cases (counted {gs = []} {gi = gi} {n = suc i} p r) h e l q
        step =
      subst (Grouped sep v k m text) (sym (step _))
        (digit_round room ih [] gi (some (suc i)) m v k n text over h e l q)
  Filled-round room ih _ m v k n text cases (counted {gs = g ∷ gs} {gi = gi} {n = suc i} p r) h e l
        q step =
      subst (Grouped sep v k m text) (sym (step _))
        (digit_round room ih (g ∷ gs) gi (some i) m v k n text r h e l q)

  dec_loop-Works : (room : ℕ) → Works sep room
  unfolding dec_loop place refill
  dec_loop-Works zero gs gi size v k n text r b h e l = absurd (omega arith)
  dec_loop-Works (suc room) gs gi none v k n text r b h e l =
      Filled-round room (dec_loop-Works room)
        (refill (record { grouping = gs; gi = gi; size = none })) _ v k n text
        (λ o. elim o [ none ↦ outside | some g' ↦ round sep room v k text (place g') ])
        (refill_next gs gi r) h e (omega (arith, l)) (omega arith) (λ g. refl)
  dec_loop-Works (suc room) [] gi (some i) v k n text r b h e l =
      digit_round room (dec_loop-Works room) [] gi (some i) _ v k n text r h e (omega (arith, l))
        (omega arith)
  dec_loop-Works (suc room) (g ∷ gs) gi (some (suc i)) v k n text r b h e l =
      digit_round room (dec_loop-Works room) (g ∷ gs) gi (some i) _ v k n text r h e
        (omega (arith, l)) (omega arith)
  dec_loop-Works (suc room) (g ∷ gs) gi (some zero) v k n text r b h e l =
      otherwise (Grouped sep v k (1 + 2 * n + 1) text) (v == 0 && k == 0) _ _ b (
        Grouped-sep sep distinct v k _ _ text _ (omega arith)
          (dec_loop-Works room (g ∷ gs) gi none v k n (sep ∷ text) r tt h e (omega (arith, l))))

-- A decimal field with separators.
pub record GroupedField (sep : ℕ) (sign : Text) (v k : ℕ) (out : Conv Field) : Type 0 where
  pub body : Text
  pub ds : List ℕ
  pub out_is : out ≡ written (record { prefix = sign; body = body })
  pub digits : without sep body ≡ map (digit_char false) ds
  pub numeral : Numeral 10 v k ds

start_Ready :
    (host : Host) (flags : Flags)
    → All (λ g. 0 < g) host.grouping
    → Ready (if flags.group_thou then host.grouping else []) 0
start_Ready host flags all = go flags.group_thou host.grouping all
  where
    go : (b : Bool) (gs : List ℕ) → All (λ g. 0 < g) gs → Ready (if b then gs else []) 0
    go false gs all = over
    go true [] all = over
    go true (g ∷ gs) all = running all (omega arith)

le→leb : (a b : ℕ) → a ≤ b → leb a b ≡ true
le→leb a b h = ground arith

is_digit-Distinct : (sep : ℕ) → is_digit sep ≡ false → Distinct sep
unfolding is_digit
is_digit-Distinct sep f d h =
    let e : digit_char false d ≡ b'0' + d = rw (lt→ltb d 10 h) in
    let digit : is_digit (b'0' + d) ≡ true =
      true_and _ _ (le→leb b'0' (b'0' + d) (omega arith)) (le→leb (b'0' + d) b'9' (omega arith)) in
    ne→== _ _ (λ i. true≢false (sym digit ∙ ap is_digit (sym e ∙ i) ∙ f))

-- Where every group of the locale has at least one digit and the separator is no digit, toDecStr
-- writes a magnitude below 10 to the power of n + 1 with its sign into a buffer of at least 2 * (n
-- + 1) bytes, with or without the flag ': without the separators, what follows the sign are the
-- decimal digits, at least as many as the precision asks for and at least one, and otherwise no
-- more than the value needs.
pub to_dec-GroupedField :
    (host : Host) (flags : Flags) (precis : ℕ) (negative : Bool) (v n bufsize : ℕ)
    → All (λ g. 0 < g) host.grouping
    → is_digit host.sep ≡ false
    → v < 10 ^ suc n
    → precis ≤ suc n
    → 2 * n + 2 ≤ bufsize
    → GroupedField host.sep
        (sign_of flags negative)
        v
        precis
        (to_dec host flags precis negative v bufsize)
unfolding to_dec
to_dec-GroupedField host flags precis negative v n bufsize all f h e l =
    let w =
      dec_loop-Works host.sep (is_digit-Distinct host.sep f) bufsize
        (if flags.group_thou then host.grouping else []) 0 none v precis n []
        (start_Ready host flags all) tt h e
        (omega (arith, l, cost-none (if flags.group_thou then host.grouping else []))) in
    let sign = sign_of flags negative in
    otherwise (GroupedField host.sep sign v precis) (bufsize == 0) _ _
      (room_not_zero bufsize (omega (arith, l)))
      (record {
        body = w.t;
        ds = w.ds;
        out_is =
            ap (λ o. then_field o (with_sign bufsize sign)) w.out_is
            ∙ with_sign_room bufsize sign w.t (
                omega (
                  arith,
                  w.short,
                  l,
                  sign_short flags negative,
                  cost-none (if flags.group_thou then host.grouping else []),
                ));
        digits = w.digits ∙ append-nil (map (digit_char false) w.ds);
        numeral = w.numeral;
      })
