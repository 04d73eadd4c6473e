-- ===== src/U8StringView/Trim.antt =====
-- trim_left, trim_right and trim of u8string_view, with the test for spaces as a parameter.
use wrutil.Common.{
  ℕ, zero, suc, ◌-◌, ◌≤◌, ltb, ◌≡◌, refl, sym, ap, ◌∙◌, arith, Bool, true, false, List, [], ◌∷◌,
  ◌++◌, All, length,
}
use wrutil.U8StringView.{
  Memory, next_at, back_at, forward, backward, skip_spaces, skip_spaces_back, trim_left, trim_right,
  trim,
}
use wrutil.U8StringView.Text.{Text, Text-length, append-Text}
use wrutil.U8StringView.Walk.{Walk, Text-Walk, onto, steps, Stops, skip_spaces-Walk}
use wrutil.U8StringView.Views.{onto-length, onto-All, steps-forward, back_to, reverse_Walk}

-- From the end of a text `--` and `++` lead to the end again.
Text-turn :
    (mem : Memory) (i c : ℕ) (cs : List ℕ) (e : ℕ)
    → Text mem i (c ∷ cs) e
    → next_at mem (back_at mem e) ≡ e
Text-turn mem i c [] e (here, t) =
    ap (λ (k : ℕ). next_at mem (back_at mem k)) (sym t) ∙ ap (next_at mem) here.back ∙ t
Text-turn mem i c (d ∷ cs) e (here, t) = Text-turn mem (next_at mem i) d cs e t

not_less : (i b : ℕ) → i ≡ b → ltb b i ≡ false
not_less i b h = ground (arith, h)

skip_spaces_back-Walk :
    (mem : Memory) (space : ℕ → Bool) (n i : ℕ) (zs ys : List ℕ) (b : ℕ)
    → Walk (backward mem) i (zs ++ ys) b
    → All (λ c. space c ≡ true) zs
    → Stops space ys
    → length zs ≤ n
    → next_at mem (back_at mem (steps (backward mem) (length zs) i))
      ≡ steps (backward mem) (length zs) i
    → skip_spaces_back mem space n i b ≡ steps (backward mem) (length zs) i
unfolding skip_spaces_back
skip_spaces_back-Walk mem space zero i [] ys b w a s f turn = refl
skip_spaces_back-Walk mem space zero i (z ∷ zs) ys b w a s f turn = absurd (omega arith)
skip_spaces_back-Walk mem space (suc n) i [] [] b (h, k) a s f turn = rw (not_less i b h) refl
skip_spaces_back-Walk mem space (suc n) i [] (y ∷ ys) b (hc, less, _, _) a s f turn =
    rw (less, hc, s) turn
skip_spaces_back-Walk mem space (suc n) i (z ∷ zs) ys b (hc, less, _, w) (m, a) s f turn =
    rw (less, hc, m)
      (skip_spaces_back-Walk mem space n (back_at mem i) zs ys b w a s (omega arith) turn)

module _ (mem : Memory) (space : ℕ → Bool) where
  -- On a view that stands for code points, some of which are no spaces, trim takes away all spaces
  -- at both ends and nothing else.
  pub trim-Text :
      (b : ℕ) (xs : List ℕ) (l : ℕ) (y : ℕ) (ys : List ℕ) (r : ℕ) (zs : List ℕ) (e : ℕ)
      → Text mem b xs l
      → Text mem l (y ∷ ys) r
      → Text mem r zs e
      → All (λ c. space c ≡ true) xs
      → All (λ c. space c ≡ true) zs
      → space y ≡ false
      → Stops space (onto (y ∷ ys) [])
      → trim mem space (record { begin = b; end = e }) ≡ record { begin = l; end = r }
  unfolding trim trim_left trim_right
  trim-Text b xs l y ys r zs e t u v left right first last =
      let inner = append-Text mem l (y ∷ ys) zs r e u v in
      let whole = append-Text mem b xs ((y ∷ ys) ++ zs) l e t inner in
      let from_left : skip_spaces (forward mem) space (e - b) b e ≡ l =
        skip_spaces-Walk (forward mem) space (e - b) b xs ((y ∷ ys) ++ zs) e
          (Text-Walk mem b _ e whole) left first
          (omega (arith, Text-length mem b xs l t, Text-length mem l ((y ∷ ys) ++ zs) e inner))
        ∙ steps-forward mem b xs l t in
      let size_back : length (onto zs []) ≡ length zs = onto-length zs [] ∙ omega arith in
      let stop : steps (backward mem) (length (onto zs [])) e ≡ r =
        ap (λ (k : ℕ). steps (backward mem) k e) size_back ∙ back_to mem r zs e v in
      let from_right : skip_spaces_back mem space (e - l) e l ≡ r =
        skip_spaces_back-Walk mem space (e - l) e (onto zs []) (onto (y ∷ ys) []) l
          (reverse_Walk mem l (y ∷ ys) zs e inner) (onto-All (λ c. space c ≡ true) zs [] right tt)
          last (omega (arith, size_back, Text-length mem r zs e v, Text-length mem l (y ∷ ys) r u))
          (ap (λ (k : ℕ). next_at mem (back_at mem k)) stop ∙ Text-turn mem l y ys r u ∙ sym stop)
        ∙ stop in
      rw (from_left, from_right) refl
