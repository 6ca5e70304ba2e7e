-- ===== src/Versions/Policy.antt =====
-- What an accepted release of bjorn2scan-agent/updater/version.go is.
use bjorn2scan.Base.{
  ◌<◌, ◌≤◌, ◌≡◌, ◌≢◌, ◌⊎◌, ◌↔◌, String, Bool, true, false, ok, arith, eq_iff, Result-cases, inl,
  inr,
}
use bjorn2scan.Versions.{
  Semver, VersionConstraints, outside, check_levels, check_versions, should_update,
}

-- The precedence of semantic versions, as far as the policy uses it.
pub record HasPrecedence (s : Semver) : Type 0 where
  pub up :
      (v w : s.Version)
      → s.greater v w ≡ true
      → (s.major w < s.major v) ⊎ ((s.major v ≡ s.major w) × (s.minor w ≤ s.minor v))
  pub irreflexive : (v : s.Version) → s.greater v v ≡ false
  pub transitive :
      (u v w : s.Version) → s.greater u v ≡ true → s.greater v w ≡ true → s.greater u w ≡ true
  pub no_empty : (v : s.Version) → s.parse "" ≢ ok v

-- A step from `cur` to `v` that the constraints allow.
pub record IsAllowed (s : Semver) (c : VersionConstraints) (cur v : s.Version) : Type 0 where
  pub newer : s.greater v cur ≡ true
  pub not_below :
      (b : s.Version) → c.min_version ≢ "" → s.parse c.min_version ≡ ok b → s.less v b ≡ false
  pub not_above :
      (b : s.Version) → c.max_version ≢ "" → s.parse c.max_version ≡ ok b → s.greater v b ≡ false
  pub same_major : c.auto_update_major ≡ false → s.major v ≡ s.major cur
  pub same_minor : c.auto_update_minor ≡ false → s.major v ≡ s.major cur → s.minor v ≡ s.minor cur

module _ (s : Semver) (test : s.Version → Bool) (bound : String) where
  outside-out :
      (b : s.Version)
      → outside s test bound ≡ false
      → bound ≢ ""
      → s.parse bound ≡ ok b
      → test b ≡ false
  outside-out b h ne e = ground (arith, eq_iff bound "")

  outside-in :
      ((b : s.Version) → bound ≢ "" → s.parse bound ≡ ok b → test b ≡ false)
      → outside s test bound ≡ false
  outside-in h = elim (Result-cases (s.parse bound)) [
    | inl (b, e) ↦ ground (arith, eq_iff bound "", h b)
    | inr (x, e) ↦ ground arith
  ]

module _ (s : Semver) (laws : HasPrecedence s) (c : VersionConstraints) (cur v : s.Version) where
  check_versions-IsAllowed : (check_versions s c cur v).0 ≡ true → IsAllowed s c cur v
  unfolding check_versions check_levels
  check_versions-IsAllowed h = record {
    newer = ground arith;
    not_below = λ b ne e. outside-out s (s.less v) c.min_version b (ground arith) ne e;
    not_above = λ b ne e. outside-out s (s.greater v) c.max_version b (ground arith) ne e;
    same_major = λ e. ground (arith, laws.up v cur);
    same_minor = λ e m. ground (arith, laws.up v cur);
  }

  IsAllowed-check_versions : IsAllowed s c cur v → (check_versions s c cur v).0 ≡ true
  unfolding check_versions check_levels
  IsAllowed-check_versions a = ground (
    arith,
    a.newer,
    outside-in s (s.less v) c.min_version a.not_below,
    outside-in s (s.greater v) c.max_version a.not_above,
    a.same_major,
    a.same_minor,
  )

-- Without a pinned version, between two versions that parse, an update is accepted exactly when the
-- candidate is newer, is within the bounds that are set and parse, keeps the major unless majors may
-- change, and keeps the minor within a major unless minors may change.
pub should_update-IsAllowed :
    (s : Semver) (c : VersionConstraints) (current candidate : String) (cur v : s.Version)
    → HasPrecedence s
    → c.pinned_version ≡ ""
    → s.parse current ≡ ok cur
    → s.parse candidate ≡ ok v
    → ((should_update s c current candidate).0 ≡ true) ↔ IsAllowed s c cur v
unfolding should_update
should_update-IsAllowed s c current candidate cur v laws p e f = (
  λ h. check_versions-IsAllowed s laws c cur v (ground (arith, eq_iff c.pinned_version "")),
  λ a. ground (arith, eq_iff c.pinned_version "", IsAllowed-check_versions s laws c cur v a),
)

-- With a pinned version, between two versions that parse, an update is accepted exactly when the
-- candidate is the pinned version and is not the current one: also an older one, one outside the
-- bounds, or one with another major.
should_update-pinned :
    (s : Semver) (c : VersionConstraints) (current candidate : String) (cur v : s.Version)
    → c.pinned_version ≢ ""
    → s.parse current ≡ ok cur
    → s.parse candidate ≡ ok v
    → ((should_update s c current candidate).0 ≡ true)
      ↔ ((candidate ≡ c.pinned_version) × (candidate ≢ current))
unfolding should_update
should_update-pinned s c current candidate cur v p e f = (
  λ h. ground (
    arith,
    eq_iff c.pinned_version "",
    eq_iff candidate c.pinned_version,
    eq_iff candidate current,
  ),
  λ a. ground (
    arith,
    eq_iff c.pinned_version "",
    eq_iff candidate c.pinned_version,
    eq_iff candidate current,
  ),
)
