-- ===== src/ArgV/Runs.antt =====
-- Concrete command lines.
use wrutil.Common.{ℕ, ◌≡◌, refl, arith, inl, inr, List, [], ◌∷◌, ◌++◌, codes, true}
use wrutil.ArgV.{ArgvBuilder, freeze, insert, to_argv, thaw, read}
use wrutil.StringView.{remove_prefix, remove_suffix}
use wrutil.ArgV.Contents.{contents, Valid, insert-contents}

-- An allocator that keeps every text at one address.
place : List ℕ → ℕ
place bytes = 4096

command :
    contents (to_argv place (codes "cc -o 'a b'  c"))
    ≡ codes "cc" ∷ codes "-o" ∷ codes "a b" ∷ codes "c" ∷ []
unfolding to_argv read remove_suffix remove_prefix place
command = refl

abbrev frozen_one : ArgvBuilder
frozen_one = record { args = 4096 ∷ []; bytes = codes "cc" ++ (0 ∷ []); base = 4096; frozen = true }

frozen_one-Valid : Valid frozen_one
unfolding thaw
frozen_one-Valid = (inr (inr (inl refl)), tt)

insert-contents_example :
    Valid (insert place 0 (codes "x") frozen_one)
    × (contents (insert place 0 (codes "x") frozen_one) ≡ contents frozen_one ++ (codes "x" ∷ []))
    × (contents (freeze (insert place 0 (codes "x") frozen_one))
        ≡ contents frozen_one ++ (codes "x" ∷ []))
insert-contents_example =
    insert-contents place 0 (codes "x") frozen_one frozen_one-Valid (omega arith, tt)
