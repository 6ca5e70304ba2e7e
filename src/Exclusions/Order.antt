-- ===== src/Exclusions/Order.antt =====
-- `MergeExclusions` of sbom-generator-shared/exclusions against a description without a map: the
-- first occurrences of the texts that are not empty.
use bjorn2scan.Base.{
  ◌≡◌, refl, sym, ◌∙◌, ap, String, List, [], ◌∷◌, ◌++◌, str_eq, arith, append_assoc, append-nil,
  Bool-cases, inl, inr, holds, without, first_occurrences, not_empty, concat, without-none,
  without-more, without-seen,
}
use bjorn2scan.Exclusions.Merge.{Merging, add_pattern, add_list, add_lists, merge_exclusions}

pub add_list-lem :
    (m : Merging) (ps : List String)
    → (add_list m ps).result ≡ m.result ++ without m.seen (first_occurrences (not_empty ps))
unfolding add_list
add_list-lem m [] = sym (append-nil m.result)
add_list-lem m (p ∷ ps) = elim (Bool-cases (str_eq p "")) [
  | inl e ↦ ground (arith, add_list-lem m ps)
  | inr e ↦ elim (Bool-cases (holds p m.seen)) [
    | inl h ↦
        ground
          (arith, add_list-lem m ps, without-seen p m.seen (first_occurrences (not_empty ps)) h)
    | inr h ↦ ground (
      arith,
      add_list-lem (record { seen = p ∷ m.seen; result = m.result ++ p ∷ [] }) ps,
      without-more p m.seen (first_occurrences (not_empty ps)),
      append_assoc m.result (p ∷ []) (without (p ∷ m.seen) (first_occurrences (not_empty ps))),
    )
  ]
]

pub add_list-append :
    (m : Merging) (ps qs : List String) → add_list m (ps ++ qs) ≡ add_list (add_list m ps) qs
unfolding add_list
add_list-append m [] qs = refl
add_list-append m (p ∷ ps) qs = add_list-append (add_pattern m p) ps qs

add_lists-concat : (m : Merging) (ls : List (List String)) → add_lists m ls ≡ add_list m (concat ls)
unfolding add_lists add_list
add_lists-concat m [] = refl
add_lists-concat m (l ∷ ls) =
    add_lists-concat (add_list m l) ls ∙ sym (add_list-append m l (concat ls))

-- The merge of some lists is the list of the first occurrences, in order, of the texts in them that
-- are not empty.
pub merge_exclusions-first_occurrences :
    (ls : List (List String)) → merge_exclusions ls ≡ first_occurrences (not_empty (concat ls))
unfolding merge_exclusions
merge_exclusions-first_occurrences ls =
    ap (λ m. m.result) (add_lists-concat (record { seen = []; result = [] }) ls)
    ∙ add_list-lem (record { seen = []; result = [] }) (concat ls)
    ∙ without-none (first_occurrences (not_empty (concat ls)))
