-- ===== src/Exclusions/Merge.antt =====
-- `MergeExclusions` of sbom-generator-shared/exclusions/exclusions.go.
use bjorn2scan.Base.{String, List, [], ◌∷◌, ◌++◌, str_eq, if◌then◌else◌, holds}

-- The local variables of the loop; the keys of the map `seen` are a list.
pub record Merging : Type 0 where
  pub seen : List String
  pub result : List String

abbrev pub add_pattern : Merging → String → Merging
add_pattern m p =
    if str_eq p ""
    then m
    else if holds p m.seen
    then m
    else record { seen = p ∷ m.seen; result = m.result ++ p ∷ [] }

unfoldable pub add_list : Merging → List String → Merging
add_list m [] = m
add_list m (p ∷ ps) = add_list (add_pattern m p) ps

unfoldable pub add_lists : Merging → List (List String) → Merging
unfolding add_list
add_lists m [] = m
add_lists m (l ∷ ls) = add_lists (add_list m l) ls

unfoldable pub merge_exclusions : List (List String) → List String
unfolding add_lists
merge_exclusions ls = (add_lists (record { seen = []; result = [] }) ls).result
