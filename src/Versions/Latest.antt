-- ===== src/Versions/Latest.antt =====
-- What `FindLatestVersion` of k8s-update-controller/controller/version.go finds.
use bjorn2scan.Base.{
  ◌≡◌, ◌⊎◌, inl, inr, refl, ◌∙◌, String, true, false, Bool-cases, List, [], ◌∷◌, Option, none, some,
  ok, arith, eq_iff, Result-cases, All, All-map, Memᴰ, subst,
}
use bjorn2scan.Versions.{
  Semver, VersionConstraints, should_update, beats, consider, latest_of, find_latest_version,
}
use bjorn2scan.Versions.Policy.{HasPrecedence}

-- A listed version that parses as `v`, is newer than the current one, and is accepted.
pub record IsCandidate (s : Semver) (c : VersionConstraints) (current : String) (cur : s.Version)
    (t : String) (v : s.Version) : Type 0 where
  pub parsed : s.parse t ≡ ok v
  pub newer : s.greater v cur ≡ true
  pub accepted : (should_update s c current t).0 ≡ true

-- No candidate of the list would take the place of the latest version found.
abbrev IsUnbeaten :
    (s : Semver)
    → VersionConstraints
    → String
    → s.Version
    → List String
    → Option (s.Version × String)
    → Type 0
IsUnbeaten s c current cur ts latest =
    All (λ t. (v : s.Version) → IsCandidate s c current cur t v → beats s v latest ≡ false) ts

module _ (s : Semver) (laws : HasPrecedence s) (c : VersionConstraints) (current : String)
    (cur : s.Version) where
  consider-keeps :
      (t : String) (latest : Option (s.Version × String)) (w : s.Version)
      → beats s w latest ≡ false
      → beats s w (consider s c current cur t latest) ≡ false
  unfolding consider
  consider-keeps t none w h = ground arith
  consider-keeps t (some (x, u)) w h = elim (Result-cases (s.parse t)) [
    | inr (z, e) ↦ ground arith
    | inl (v, e) ↦ elim (Bool-cases (s.greater w v)) [
      | inl g ↦ ground (arith, laws.transitive w v x)
      | inr g ↦ ground arith
    ]
  ]

  consider-covers :
      (t : String) (latest : Option (s.Version × String)) (v : s.Version)
      → IsCandidate s c current cur t v
      → beats s v (consider s c current cur t latest) ≡ false
  unfolding consider
  consider-covers t none v h = ground (arith, h.parsed, h.newer, h.accepted, laws.irreflexive v)
  consider-covers t (some (x, u)) v h =
      ground (arith, h.parsed, h.newer, h.accepted, laws.irreflexive v)

  consider-picks :
      (t : String) (latest : Option (s.Version × String))
      → (consider s c current cur t latest ≡ latest)
        ⊎ ((v : s.Version) × IsCandidate s c current cur t v
            × (consider s c current cur t latest ≡ some (v, t)))
  unfolding consider
  consider-picks t latest = elim (Result-cases (s.parse t)) [
    | inr (z, e) ↦ inl (ground arith)
    | inl (v, e) ↦ elim (Bool-cases (s.greater v cur)) [
      | inr g ↦ inl (ground arith)
      | inl g ↦ elim (Bool-cases (beats s v latest)) [
        | inr b ↦ inl (ground arith)
        | inl b ↦ elim (Bool-cases ((should_update s c current t).0)) [
          | inr a ↦ inl (ground arith)
          | inl a ↦ inr (v, record { parsed = e; newer = g; accepted = a }, ground arith)
        ]
      ]
    ]
  ]

  latest_of-keeps :
      (ts : List String) (latest : Option (s.Version × String)) (w : s.Version)
      → beats s w latest ≡ false
      → beats s w (latest_of s c current cur ts latest) ≡ false
  unfolding latest_of
  latest_of-keeps [] latest w h = h
  latest_of-keeps (t ∷ ts) latest w h =
      latest_of-keeps ts (consider s c current cur t latest) w (consider-keeps t latest w h)

  latest_of-covers :
      (ts : List String) (latest : Option (s.Version × String))
      → IsUnbeaten s c current cur ts (latest_of s c current cur ts latest)
  unfolding latest_of
  latest_of-covers [] latest = tt
  latest_of-covers (t ∷ ts) latest = (
    λ v h. latest_of-keeps ts (consider s c current cur t latest) v (consider-covers t latest v h),
    latest_of-covers ts (consider s c current cur t latest),
  )

  latest_of-picks :
      (ts : List String) (latest : Option (s.Version × String))
      → (latest_of s c current cur ts latest ≡ latest)
        ⊎ ((t : String) × (v : s.Version) × Memᴰ t ts
            × IsCandidate s c current cur t v
            × (latest_of s c current cur ts latest ≡ some (v, t)))
  unfolding latest_of
  latest_of-picks [] latest = inl refl
  latest_of-picks (t ∷ ts) latest = elim (latest_of-picks ts (consider s c current cur t latest)) [
    | inr (u, v, i, h, e) ↦ inr (u, v, Memᴰ.tail i, h, e)
    | inl e ↦ elim (consider-picks t latest) [
      | inl f ↦ inl (e ∙ f)
      | inr (v, h, f) ↦ inr (t, v, Memᴰ.head refl, h, e ∙ f)
    ]
  ]

-- Where the current version parses and a version is listed, the result is a candidate of the list
-- that no other candidate of the list is greater than, or it is the current version and the list
-- has no candidate.
pub find_latest_version-latest :
    (s : Semver) (c : VersionConstraints) (current : String) (cur : s.Version) (t : String)
    (ts : List String)
    → HasPrecedence s
    → s.parse current ≡ ok cur
    → ((r : String) × (v : s.Version) × (find_latest_version s c current (t ∷ ts) ≡ ok r)
        × Memᴰ r (t ∷ ts)
        × IsCandidate s c current cur r v
        × All
            (λ u. (w : s.Version) → IsCandidate s c current cur u w → s.greater w v ≡ false)
            (t ∷ ts))
      ⊎ ((find_latest_version s c current (t ∷ ts) ≡ ok current)
          × All (λ u. (w : s.Version) → ¬ (IsCandidate s c current cur u w)) (t ∷ ts))
unfolding find_latest_version
find_latest_version-latest s c current cur t ts laws e =
    elim (latest_of-picks s laws c current cur (t ∷ ts) none) [
      | inl f ↦ inr (
        ground arith,
        All-map (λ u h w k. cc (h w k)) (t ∷ ts)
            (subst (IsUnbeaten s c current cur (t ∷ ts)) f
              (latest_of-covers s laws c current cur (t ∷ ts) none)),
      )
      | inr (r, v, i, h, f) ↦ inl (
        r,
        v,
        ground (arith, eq_iff r "", laws.no_empty v, h.parsed),
        i,
        h,
        subst (IsUnbeaten s c current cur (t ∷ ts)) f
            (latest_of-covers s laws c current cur (t ∷ ts) none),
      )
    ]
