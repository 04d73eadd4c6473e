-- ===== src/ArgV/Contents.antt =====
-- What a builder of arguments holds, and how an insertion changes it.
use wrutil.Common.{
  ℕ, zero, suc, ◌+◌, ◌-◌, ◌==◌, ◌≡◌, ◌≢◌, refl, sym, ap, ◌∙◌, arith, false, Bool-cases, ◌⊎◌, inl,
  inr, List, [], ◌∷◌, ◌++◌, All, length, drop, map,
}
use mathlib.Core.Path.{subst}
use wrutil.ArgV.{ArgvBuilder, c_string, freeze, thaw, read, insert}

-- The arguments of a builder.
abbrev pub contents : ArgvBuilder → List (List ℕ)
contents b = map (read b) b.args

-- A zero stands in the text.
abbrev pub HasEnd : List ℕ → Type 0
HasEnd [] = ⊥
HasEnd (c ∷ v) = (c ≡ 0) ⊎ HasEnd v

-- Behind each offset of the thawed builder there is a zero.
abbrev pub Valid : ArgvBuilder → Type 0
Valid b = All (λ p. HasEnd (drop p (thaw b).bytes)) (thaw b).args

abbrev pub NoZero : List ℕ → Type 0
NoZero v = All (λ c. c ≢ 0) v

-- The texts at offsets.
abbrev texts : List ℕ → List ℕ → List (List ℕ)
texts bytes ps = map (λ p. c_string (drop p bytes)) ps

c_string-NoZero : (v : List ℕ) → NoZero v → c_string (v ++ (0 ∷ [])) ≡ v
c_string-NoZero [] h = refl
c_string-NoZero (c ∷ v) (n, h) =
    let differ : (c == 0) ≡ false = ground (arith, n) in
    rw differ (ap (λ (w : List ℕ). c ∷ w) (c_string-NoZero v h))

c_string-HasEnd : (v w : List ℕ) → HasEnd v → c_string (v ++ w) ≡ c_string v
c_string-HasEnd [] w h = absurd h
c_string-HasEnd (c ∷ v) w h = elim (Bool-cases (c == 0)) [
  | inl z ↦ rw z refl
  | inr z ↦ rw z (elim h [
    | inl same ↦ absurd (ground (arith, z, same))
    | inr later ↦ ap (λ (t : List ℕ). c ∷ t) (c_string-HasEnd v w later)
  ])
]

ends_before : (v w : List ℕ) → HasEnd v → HasEnd (v ++ w)
ends_before [] w h = absurd h
ends_before (c ∷ v) w (inl z) = inl z
ends_before (c ∷ v) w (inr h) = inr (ends_before v w h)

ends_at_zero : (v : List ℕ) → HasEnd (v ++ (0 ∷ []))
ends_at_zero [] = inl refl
ends_at_zero (c ∷ v) = inr (ends_at_zero v)

-- An offset with a zero behind it lies in the bytes, so `drop` does not reach what is added.
drop-more : (p : ℕ) (v w : List ℕ) → HasEnd (drop p v) → drop p (v ++ w) ≡ drop p v ++ w
drop-more zero v w h = refl
drop-more (suc p) [] w h = absurd h
drop-more (suc p) (c ∷ v) w h = drop-more p v w h

drop-all : (v w : List ℕ) → drop (length v) (v ++ w) ≡ w
drop-all [] w = refl
drop-all (c ∷ v) w = drop-all v w

texts-more :
    (bytes more ps : List ℕ) (last : ℕ)
    → All (λ p. HasEnd (drop p bytes)) ps
    → texts (bytes ++ more) (ps ++ (last ∷ []))
      ≡ texts bytes ps ++ (c_string (drop last (bytes ++ more)) ∷ [])
texts-more bytes more [] last h = refl
texts-more bytes more (p ∷ ps) last (e, h) =
    rw (drop-more p bytes more e, c_string-HasEnd (drop p bytes) more e)
      (ap (λ (t : List (List ℕ)). c_string (drop p bytes) ∷ t) (texts-more bytes more ps last h))

ends-more :
    (bytes more ps : List ℕ) (last : ℕ)
    → All (λ p. HasEnd (drop p bytes)) ps
    → HasEnd (drop last (bytes ++ more))
    → All (λ p. HasEnd (drop p (bytes ++ more))) (ps ++ (last ∷ []))
ends-more bytes more [] last h k = (k, tt)
ends-more bytes more (p ∷ ps) last (e, h) k = (
  rw (drop-more p bytes more e) (ends_before (drop p bytes) more e),
  ends-more bytes more ps last h k,
)

offset : (base p : ℕ) → base + p - base ≡ p
offset base p = omega arith

map_through :
    (h g : ℕ → List ℕ) (f : ℕ → ℕ)
    → ((p : ℕ) → h p ≡ g (f p))
    → (ps : List ℕ) → map h ps ≡ map g (map f ps)
map_through h g f e [] = refl
map_through h g f e (p ∷ ps) = rw (e p) (ap (λ t. g (f p) ∷ t) (map_through h g f e ps))

contents-thaw : (b : ArgvBuilder) → contents b ≡ texts (thaw b).bytes (thaw b).args
unfolding read thaw
contents-thaw b = elim (Bool-cases b.frozen) [
  | inl f ↦ rw f (map_through _ _ _ (λ p. refl) b.args)
  | inr f ↦ rw f refl
]

contents-freeze : (b : ArgvBuilder) → contents (freeze b) ≡ contents b
unfolding read freeze
contents-freeze b = elim (Bool-cases b.frozen) [
  | inl f ↦ rw f refl
  | inr f ↦ rw f (
      sym (
        map_through _ _ _ (λ p. ap (λ (k : ℕ). c_string (drop k b.bytes)) (sym (offset b.base p)))
          b.args))
]

-- The builder after an insertion.
abbrev inserted : (List ℕ → ℕ) → List ℕ → ArgvBuilder → ArgvBuilder
inserted place arg t = record {
  args = t.args ++ (length t.bytes ∷ []);
  bytes = t.bytes ++ (arg ++ (0 ∷ []));
  base = place (t.bytes ++ (arg ++ (0 ∷ [])));
  frozen = false;
}

insert_lem :
    (place : List ℕ → ℕ) (pos : ℕ) (arg : List ℕ) (b : ArgvBuilder)
    → insert place pos arg b ≡ inserted place arg (thaw b)
unfolding insert thaw
insert_lem place pos arg b = elim (Bool-cases b.frozen) [ inl f ↦ rw f refl | inr f ↦ rw f refl ]

-- An insertion at any position leaves the arguments that were there and adds the new one at the end,
-- in a well-formed builder, and to freeze it does not change them; the new argument has no zero.
pub insert-contents :
    (place : List ℕ → ℕ) (pos : ℕ) (arg : List ℕ) (b : ArgvBuilder)
    → Valid b
    → NoZero arg
    → Valid (insert place pos arg b)
      × (contents (insert place pos arg b) ≡ contents b ++ (arg ∷ []))
      × (contents (freeze (insert place pos arg b)) ≡ contents b ++ (arg ∷ []))
insert-contents place pos arg b v n =
    let t = thaw b in
    let more = arg ++ (0 ∷ []) in
    let all = drop-all t.bytes more in
    let ends : HasEnd (drop (length t.bytes) (t.bytes ++ more)) = rw all (ends_at_zero arg) in
    let last : c_string (drop (length t.bytes) (t.bytes ++ more)) ≡ arg =
      rw all (c_string-NoZero arg n) in
    let valid : Valid (inserted place arg t) =
      unfold thaw in ends-more t.bytes more t.args (length t.bytes) v ends in
    let grown : contents (inserted place arg t) ≡ contents b ++ (arg ∷ []) =
      unfold read in
      (texts-more t.bytes more t.args (length t.bytes) v
        ∙ ap (λ (l : List ℕ). texts t.bytes t.args ++ (l ∷ [])) last
        ∙ ap (λ (l : List (List ℕ)). l ++ (arg ∷ [])) (sym (contents-thaw b))) in
    let same = insert_lem place pos arg b in
    let there = ap contents same ∙ grown in
    (subst Valid (sym same) valid, there, contents-freeze (insert place pos arg b) ∙ there)
