-- ===== src/Format/Layout/Lengths.antt =====
-- The length of what Target::format writes for a field.
use wrutil.Common.{
  ℕ, ◌+◌, ◌-◌, ◌/◌, ◌≤◌, ◌==◌, ltb, max, if◌then◌else◌, ◌≡◌, ap, ◌∙◌, arith, Bool, true, false,
  ◌&&◌, ◌++◌, length, length-append, replicate, length-replicate,
}
use wrutil.Common.{Bool-cases, inl, inr, ltb→le, ltb→lt}
use wrutil.Format.{Text, Flags, Field}
use wrutil.Format.Layout.{flatten, layout, fill_char, gap_of, size_of}
use wrutil.Format.Layout.Widths.{pads, layout_lem}

before_small : (centre : Bool) (gap : ℕ) → (if centre then gap / 2 else gap) ≤ gap
before_small true gap = omega arith
before_small false gap = omega arith

size_and_gap :
    (have : Bool) (width size : ℕ)
    → size + (if have && ltb size width then width - size else 0)
      ≡ (if have then max width size else size)
size_and_gap false width size = omega arith
size_and_gap true width size = elim (Bool-cases (ltb size width)) [
  | inl t ↦
      let l = ltb→lt size width t in
      ap (λ b. size + (if b then width - size else 0)) t ∙ omega (arith, l)
  | inr f ↦
      let l = ltb→le size width f in
      ap (λ b. size + (if b then width - size else 0)) f ∙ omega (arith, l)
]

length-pads :
    (zeros left centre : Bool) (fill gap : ℕ) (prefix body : Text)
    → length (pads zeros left centre fill gap prefix body) ≡ length prefix + length body + gap
length-pads zeros true centre fill gap prefix body =
    length-append prefix _
    ∙ omega (arith, length-append body (replicate gap fill), length-replicate gap fill)
length-pads true false centre fill gap prefix body =
    length-append prefix _
    ∙ omega (arith, length-append (replicate gap b'0') body, length-replicate {A = ℕ} gap b'0')
length-pads false false centre fill gap prefix body =
    go (if centre then gap / 2 else gap) (before_small centre gap)
  where
    go :
        (before : ℕ)
        → before ≤ gap
        → length (replicate before fill ++ (prefix ++ (body ++ replicate (gap - before) fill)))
          ≡ length prefix + length body + gap
    go before h =
        length-append (replicate before fill) _
        ∙ omega (
          arith,
          h,
          length-append prefix (body ++ replicate (gap - before) fill),
          length-append body (replicate (gap - before) fill),
          length-replicate before fill,
          length-replicate (gap - before) fill,
        )

-- The length of a field is the width where one is given and it is greater; otherwise nothing is
-- added or cut.
pub layout-length :
    (flags : Flags) (width conv : ℕ) (f : Field)
    → length (flatten (layout flags width conv f))
      ≡ (if flags.have_width then max width (size_of f) else size_of f)
unfolding gap_of
layout-length flags width conv f =
    ap length (layout_lem flags width conv f)
    ∙ length-pads (fill_char flags conv == b'0') flags.left_align flags.centre_align
        (fill_char flags conv) (gap_of flags width f) f.prefix f.body
    ∙ size_and_gap flags.have_width width (size_of f)
