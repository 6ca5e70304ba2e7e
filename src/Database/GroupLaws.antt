-- ===== src/Database/GroupLaws.antt =====
-- What the grouping of the artifacts in StoreNodeSBOM of scanner-core/database/nodes.go gives.
use mathlib.Core.List.{append-nil, append_assoc}
use bjorn2scan.Base.{
  ◌≡◌, refl, sym, Bool, true, false, List, [], ◌∷◌, ◌++◌, Option, none, some, eq_iff, arith,
  if◌then◌else◌, Bool-cases, inl, inr, ◌≤◌, length, length-append, All,
}
use bjorn2scan.Database.Tables.{Bytes, Artifact, PackageKey}
use bjorn2scan.Database.Grouping.{
  put_in, gather, PackageGroup, same_package, artifact_key, in_group, start_package, join_package,
  group_packages,
}

-- The raw artifacts of a key, in the order of the SBOM.
unfoldable pub raws : PackageKey → List (Option Artifact) → List Bytes
raws k [] = []
raws k (none ∷ rest) = raws k rest
raws k (some a ∷ rest) =
    let tail = raws k rest in if same_package k (artifact_key a) then a.raw ∷ tail else tail

-- The instances of the groups of a key.
unfoldable pub instances_of : PackageKey → List PackageGroup → List Bytes
instances_of k [] = []
instances_of k (g ∷ gs) =
    let rest = instances_of k gs in if same_package k g.key then g.instances ++ rest else rest

unfoldable pub has_group : PackageKey → List PackageGroup → Bool
has_group k [] = false
has_group k (g ∷ gs) = if same_package k g.key then true else has_group k gs

-- No two groups have one key.
abbrev pub HasUniqueKeys : List PackageGroup → Type 0
HasUniqueKeys [] = Unit {0}
HasUniqueKeys (g ∷ gs) = (has_group g.key gs ≡ false) × HasUniqueKeys gs

same_package_trans :
    (a b c : PackageKey) → same_package a b ≡ true → same_package c a ≡ same_package c b
same_package_trans a b c h =
    ground (arith, eq_iff a.name b.name, eq_iff a.version b.version, eq_iff a.type_name b.type_name)

same_package_sym : (a b : PackageKey) → same_package a b ≡ same_package b a
same_package_sym a b = ground (
  arith,
  eq_iff a.name b.name,
  eq_iff b.name a.name,
  eq_iff a.version b.version,
  eq_iff b.version a.version,
  eq_iff a.type_name b.type_name,
  eq_iff b.type_name a.type_name,
)

abbrev put : Artifact → List PackageGroup → List PackageGroup
put = put_in in_group start_package join_package

has_group-put :
    (k : PackageKey) (a : Artifact) (gs : List PackageGroup)
    → has_group k gs ≡ false
    → same_package k (artifact_key a) ≡ false
    → has_group k (put a gs) ≡ false
unfolding has_group put_in
has_group-put k a [] h d = ground arith
has_group-put k a (g ∷ gs) h d = ground (arith, has_group-put k a gs)

HasUniqueKeys-put :
    (a : Artifact) (gs : List PackageGroup) → HasUniqueKeys gs → HasUniqueKeys (put a gs)
unfolding put_in has_group
HasUniqueKeys-put a [] u = (refl, tt)
HasUniqueKeys-put a (g ∷ gs) u =
    ground (arith, has_group-put g.key a gs u.0, HasUniqueKeys-put a gs u.1)

instances_of-none :
    (k j : PackageKey) (gs : List PackageGroup)
    → same_package k j ≡ true
    → has_group j gs ≡ false
    → instances_of k gs ≡ []
unfolding instances_of has_group
instances_of-none k j [] e h = refl
instances_of-none k j (g ∷ gs) e h = ground (
  arith,
  same_package_trans k j g.key e,
  same_package_sym g.key k,
  same_package_sym g.key j,
  instances_of-none k j gs e,
)

instances_of-put :
    (k : PackageKey) (a : Artifact) (gs : List PackageGroup)
    → HasUniqueKeys gs
    → instances_of k (put a gs)
      ≡ instances_of k gs ++ (if same_package k (artifact_key a) then a.raw ∷ [] else [])
unfolding instances_of put_in
instances_of-put k a [] u = ground arith
instances_of-put k a (g ∷ gs) u = elim (Bool-cases (same_package g.key (artifact_key a))) [
  | inl e ↦ elim (Bool-cases (same_package k g.key)) [
    | inl h ↦ ground (
      arith,
      same_package_trans g.key (artifact_key a) k e,
      instances_of-none k g.key gs h u.0,
      append-nil g.instances,
      append-nil (g.instances ++ a.raw ∷ []),
    )
    | inr h ↦
        ground
          (arith, same_package_trans g.key (artifact_key a) k e, append-nil (instances_of k gs))
  ]
  | inr e ↦
      let rest : List Bytes = if same_package k (artifact_key a) then a.raw ∷ [] else [] in
      ground (arith, instances_of-put k a gs u.1, append_assoc g.instances (instances_of k gs) rest)
]

-- Each group has an artifact.
abbrev pub HasInstances : List PackageGroup → Type 0
HasInstances = All (λ g. 1 ≤ length g.instances)

HasInstances-put :
    (a : Artifact) (gs : List PackageGroup) → HasInstances gs → HasInstances (put a gs)
unfolding put_in
HasInstances-put a [] h = (ground arith, tt)
HasInstances-put a (g ∷ gs) h =
    ground (arith, length-append g.instances (a.raw ∷ []), HasInstances-put a gs h.1)

gather-laws :
    (artifacts : List (Option Artifact)) (gs : List PackageGroup)
    → HasUniqueKeys gs
    → HasInstances gs
    → HasUniqueKeys (gather in_group start_package join_package artifacts gs)
      × HasInstances (gather in_group start_package join_package artifacts gs)
      × ((k : PackageKey)
          → instances_of k (gather in_group start_package join_package artifacts gs)
            ≡ instances_of k gs ++ raws k artifacts)
unfolding gather raws
gather-laws [] gs u h = (u, h, λ k. sym (append-nil (instances_of k gs)))
gather-laws (none ∷ rest) gs u h = gather-laws rest gs u h
gather-laws (some a ∷ rest) gs u h =
    let (unique, more, all) =
      gather-laws rest (put a gs) (HasUniqueKeys-put a gs u) (HasInstances-put a gs h) in
    (
      unique,
      more,
      λ k.
          let one : List Bytes = if same_package k (artifact_key a) then a.raw ∷ [] else [] in
          ground (
            arith,
            all k,
            instances_of-put k a gs u,
            append_assoc (instances_of k gs) one (raws k rest),
          ),
    )

-- The grouping of StoreNodeSBOM loses no artifact and mixes none: no two groups have one name, version
-- and type, each group has an artifact, and the instances of a key are exactly the artifacts of the
-- SBOM with that key that can be read, in their order.
pub group_packages-laws :
    (artifacts : List (Option Artifact))
    → HasUniqueKeys (group_packages artifacts)
      × HasInstances (group_packages artifacts)
      × ((k : PackageKey) → instances_of k (group_packages artifacts) ≡ raws k artifacts)
unfolding group_packages instances_of
group_packages-laws artifacts = gather-laws artifacts [] tt tt
