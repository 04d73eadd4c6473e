-- ===== src/Option/Setup.antt =====
-- src/Option.cxx: Option::prefix, and the first loop of Option::parse, which sorts the names of the
-- options into groups by prefix.
use wrutil.Common.{
  ℕ, ◌==◌, if◌then◌else◌, Bool, true, false, ◌&&◌, ◌||◌, Option, none, some, List, [], ◌∷◌, length,
  drop, codes,
}
use wrutil.Option.Table.{OptionDef, Group, insert}

-- `Option::prefix` on a system that is not Windows.
unfoldable pub prefix : List ℕ → List ℕ
prefix [] = []
prefix (c ∷ []) = if c == b'-' || c == b'+' then c ∷ [] else []
prefix (c ∷ d ∷ name) =
    if c == b'-'
    then (if d == b'-' then c ∷ d ∷ [] else c ∷ [])
    else if c == b'+'
    then c ∷ []
    else []

unfoldable pub same_text : List ℕ → List ℕ → Bool
same_text [] [] = true
same_text [] (d ∷ w) = false
same_text (c ∷ v) [] = false
same_text (c ∷ v) (d ∷ w) = c == d && same_text v w

-- Option::UNKNOWN
abbrev pub unknown_name : List ℕ
unknown_name = codes "<UNKNOWN>"

module _ (S : Type 0) where
  -- What the first loop of `parse` builds: the groups by prefix and the two special handlers.
  pub record Tables : Type 0 where
    pub groups : List (List ℕ × Group S)
    pub unknown : Option (OptionDef S)
    pub nonopt : Option (OptionDef S)

module _ {S : Type 0} where
  -- `prefixes.find(pfx)`
  unfoldable pub find_group : List (List ℕ × Group S) → List ℕ → Option (Group S)
  unfolding same_text
  find_group [] pfx = none
  find_group ((q, g) ∷ groups) pfx = if same_text q pfx then some g else find_group groups pfx

  -- The group of a prefix, made where it is missing, with one more option.
  add_to_group : List (List ℕ × Group S) → List ℕ → List ℕ → OptionDef S → List (List ℕ × Group S)
  unfolding same_text insert
  add_to_group [] pfx stem o =
      (pfx, insert stem o (record { entries = []; short_only = length pfx == 1 })) ∷ []
  add_to_group ((q, g) ∷ groups) pfx stem o =
      if same_text q pfx
      then (q, insert stem o g) ∷ groups
      else (q, g) ∷ add_to_group groups pfx stem o

  unfoldable pub add_name : OptionDef S → List ℕ → Tables S → Tables S
  unfolding same_text add_to_group prefix
  add_name o name t =
      if same_text name unknown_name
      then record t { unknown = some o }
      else if length name == 0
      then record t { nonopt = some o }
      else (let pfx = prefix name in
          record t { groups = add_to_group t.groups pfx (drop (length pfx) name) o })

  add_names : OptionDef S → List (List ℕ) → Tables S → Tables S
  unfolding add_name
  add_names o [] t = t
  add_names o (name ∷ names) t = add_names o names (add_name o name t)

  unfoldable pub build : List (OptionDef S) → Tables S → Tables S
  unfolding add_names
  build [] t = t
  build (o ∷ options) t = build options (add_names o o.names t)

  abbrev pub no_tables : Tables S
  no_tables = record { groups = []; unknown = none; nonopt = none }
