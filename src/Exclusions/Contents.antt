-- ===== src/Exclusions/Contents.antt =====
-- What the lists of sbom-generator-shared/exclusions hold.
use bjorn2scan.Base.{
  ◌≡◌, ◌≢◌, sym, ◌∙◌, ap, String, true, not, ◌&&◌, ◌||◌, List, [], ◌∷◌, ◌++◌, str_eq, eq_iff, arith,
  Bool-cases, inl, inr, Result-cases, subst, holds, Distinct, not_empty, concat,
  first_occurrences-Distinct, holds-first_occurrences, holds-not_empty, holds-append,
}
use bjorn2scan.Exclusions.Merge.{merge_exclusions}
use bjorn2scan.Exclusions.Order.{merge_exclusions-first_occurrences}
use bjorn2scan.Exclusions.Mounts.{Files}
use bjorn2scan.Exclusions.Patterns.{
  HostExclusionConfig, default_host_exclusions, network_patterns, build_exclusions,
}

-- The merge of some lists holds exactly the texts of the lists that are not empty, each once.
pub holds-merge_exclusions :
    (ls : List (List String))
    → Distinct (merge_exclusions ls)
      × ((p : String) → holds p (merge_exclusions ls) ≡ (not (str_eq p "") && holds p (concat ls)))
holds-merge_exclusions ls = (
  subst Distinct (sym (merge_exclusions-first_occurrences ls))
      (first_occurrences-Distinct (not_empty (concat ls))),
  λ p.
      ap (holds p) (merge_exclusions-first_occurrences ls)
      ∙ holds-first_occurrences p (not_empty (concat ls))
      ∙ holds-not_empty p (concat ls),
)

pub holds-merge_two :
    (p : String) (xs ys : List String)
    → holds p (merge_exclusions (xs ∷ ys ∷ [])) ≡ (not (str_eq p "") && (holds p xs || holds p ys))
holds-merge_two p xs ys = ground (
  arith,
  (holds-merge_exclusions (xs ∷ ys ∷ [])).1 p,
  holds-append p xs (ys ++ []),
  holds-append p ys [],
)

merge_three :
    (p : String) (xs ys zs : List String)
    → p ≢ ""
    → (holds p xs || holds p zs) ≡ true
    → holds p (merge_exclusions (merge_exclusions (xs ∷ ys ∷ []) ∷ zs ∷ [])) ≡ true
merge_three p xs ys zs ne h = ground (
  arith,
  eq_iff p "",
  holds-merge_two p xs ys,
  holds-merge_two p (merge_exclusions (xs ∷ ys ∷ [])) zs,
)

-- Whatever the file of the mounts says, and also where it cannot be read, the list for a host has
-- no text twice and holds every default pattern and every extra pattern that is not empty.
pub build_exclusions-keeps :
    (files : Files) (c : HostExclusionConfig) (p : String)
    → p ≢ ""
    → (holds p default_host_exclusions || holds p c.extra_exclusions) ≡ true
    → Distinct (build_exclusions files c).0 × (holds p (build_exclusions files c).0 ≡ true)
unfolding build_exclusions
build_exclusions-keeps files c p ne h = elim (Bool-cases c.auto_detect_nfs) [
  | inr e ↦ (
    ground (arith, (holds-merge_exclusions (default_host_exclusions ∷ c.extra_exclusions ∷ [])).0),
    ground (arith, eq_iff p "", holds-merge_two p default_host_exclusions c.extra_exclusions),
  )
  | inl e ↦ elim (Result-cases (network_patterns files c)) [
    | inr (x, f) ↦ (
      ground
          (arith, (holds-merge_exclusions (default_host_exclusions ∷ c.extra_exclusions ∷ [])).0),
      ground (arith, eq_iff p "", holds-merge_two p default_host_exclusions c.extra_exclusions),
    )
    | inl (ps, f) ↦
        let found = merge_exclusions (default_host_exclusions ∷ ps ∷ []) in
        (
          ground (arith, (holds-merge_exclusions (found ∷ c.extra_exclusions ∷ [])).0),
          ground (arith, merge_three p default_host_exclusions ps c.extra_exclusions ne h),
        )
  ]
]
