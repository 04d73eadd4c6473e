-- ===== src/Option/Runs.antt =====
-- Concrete command lines.
use wrutil.Common.{ℕ, ◌≡◌, ◌≢◌, ◌⊎◌, refl, min, arith, true, some, List, [], ◌∷◌, ◌++◌, codes}
use wrutil.Option.Table.{
  Action, proceed, OptionDef, Entry, takes_arg, match, insert_entry, find_entry,
}
use wrutil.Option.Choose.{done, stuck}
use wrutil.Option.Setup.{build}
use wrutil.StringView.{find_first_of, split_char, trim, trim_left, compare_views, has_prefix}
use wrutil.Option.Parse.{parse}
use wrutil.Option.Lookup.{Sorted, insert_entry-Sorted}
use wrutil.Option.Shortest.{find_entry_shortest}
use wrutil.Option.Progress.{parse-weight}
use wrutil.Option.Progress.Texts.{weight}
use wrutil.Option.SubOptions.{read_to, parse_sub_options}
use wrutil.Option.SubProgress.{EndsWithin, parse_sub_options-EndsWithin}

-- A handler that notes what it is called with.
abbrev Note : Type 0
Note = List (List ℕ × List ℕ)

note : Action Note
note opt arg rest seen = (proceed 0, seen ++ ((opt, arg) ∷ []))

abbrev table : List (OptionDef Note)
table =
    record { names = codes "-v" ∷ codes "--verbose" ∷ []; flags = 0; action = some note }
    ∷ record { names = codes "-o" ∷ codes "--output" ∷ []; flags = 1; action = some note }
    ∷ record { names = codes "-x" ∷ []; flags = 0; action = some note }
    ∷ record { names = [] ∷ []; flags = 0; action = some note }
    ∷ []

command :
    parse 20 table
      (codes "-vx" ∷ codes "--output=a.txt" ∷ codes "b" ∷ codes "-o" ∷ codes "c" ∷ [])
      0
      []
    ≡ done 5 (
        (codes "-v", [])
        ∷ (codes "-x", [])
        ∷ (codes "--output", codes "a.txt")
        ∷ ([], codes "b")
        ∷ (codes "-o", codes "c")
        ∷ [])
unfolding parse note trim compare_views has_prefix
command = refl

-- With a handler for unknown options that wants its argument separate, `--=x` is never used up.
abbrev separate_unknown : List (OptionDef Note)
separate_unknown =
    record { names = codes "--verbose" ∷ codes "<UNKNOWN>" ∷ []; flags = 17; action = some note }
    ∷ []

abbrev unused : List (List ℕ)
unused = codes "--=x" ∷ []

endless : parse 9 separate_unknown unused 0 [] ≡ stuck
unfolding parse note trim compare_views has_prefix
endless = refl

abbrev short_output : Entry Note
short_output = record {
  stem = codes "o";
  opt = record { names = []; flags = 1; action = some note };
}

abbrev long_output : Entry Note
long_output = record {
  stem = codes "output";
  opt = record { names = []; flags = 1; action = some note };
}

outputs-Sorted : Sorted (short_output ∷ long_output ∷ [])
unfolding compare_views
outputs-Sorted = ((refl, tt), (tt, tt))

insert_entry-Sorted_example : Sorted (insert_entry long_output (short_output ∷ long_output ∷ []))
insert_entry-Sorted_example =
    insert_entry-Sorted long_output (short_output ∷ long_output ∷ []) outputs-Sorted

short_found : find_entry (short_output ∷ long_output ∷ []) (codes "output=x") 0 ≡ some short_output
unfolding find_entry has_prefix compare_views
short_found = refl

long_matches : match long_output (codes "output=x") 0 ≡ true
unfolding match has_prefix compare_views trim_left
long_matches = refl

find_entry_shortest_example :
    ((rest : List ℕ) × (codes "output=x" ≡ codes "o" ++ rest))
    × ((more : List ℕ) × (codes "output" ≡ codes "o" ++ more))
    × ((takes_arg short_output.opt ≡ true) ⊎ (◌≢◌ {A = ℕ} 0 0) ⊎ (codes "output=x" ≡ codes "o"))
find_entry_shortest_example =
    find_entry_shortest (short_output ∷ []) [] short_output long_output (codes "output=x") 0
      outputs-Sorted short_found long_matches

abbrev with_unknown : List (OptionDef Note)
with_unknown =
    record { names = codes "--verbose" ∷ codes "<UNKNOWN>" ∷ []; flags = 1; action = some note }
    ∷ []

parse-weight_example : parse (weight unused) with_unknown unused 0 [] ≢ stuck
unfolding build
parse-weight_example = parse-weight with_unknown unused 0 [] refl

column : ℕ → List ℕ
column k = k ∷ []

abbrev sub_options : List (OptionDef Note)
sub_options =
    record { names = codes "ro" ∷ []; flags = 0; action = some note }
    ∷ record { names = codes "size" ∷ []; flags = 1; action = some note }
    ∷ []

mount :
    parse_sub_options 17 column sub_options (codes "-o") (codes "ro, size = 10 ,ro") 0 []
    ≡ read_to 17 ((codes "ro", []) ∷ (codes "size", codes "10") ∷ (codes "ro", []) ∷ [])
unfolding parse_sub_options note trim compare_views has_prefix find_first_of split_char
mount = refl

parse_sub_options-EndsWithin_example :
    EndsWithin
      (min 0 5)
      5
      (parse_sub_options 5 column sub_options (codes "-o") (codes "ro,ro") 0 [])
parse_sub_options-EndsWithin_example =
    parse_sub_options-EndsWithin 5 column sub_options (codes "-o") (codes "ro,ro") 0 []
      (omega arith)
