-- ===== src/Versions.antt =====
-- Which release an updater takes: bjorn2scan-agent/updater/version.go, and its copy in
-- k8s-update-controller/controller/version.go, which also has `FindLatestVersion`.
-- github.com/Masterminds/semver is a parameter. A reason is a value in place of its text.
pub mod Policy
pub mod Latest
use Prim.Native.String.{◌++◌ as str_append}
use bjorn2scan.Base.{
  ℕ, String, Bool, true, false, not, ◌&&◌, List, [], ◌∷◌, Option, none, some, Result, ok, err, ltb,
  ◌==◌, str_eq, if◌then◌else◌,
}

pub record Semver : Type 1 where
  pub Version : Type 0
  pub parse : String → Result Version
  pub major : Version → ℕ
  pub minor : Version → ℕ
  pub greater : Version → Version → Bool
  pub less : Version → Version → Bool

pub record VersionConstraints : Type 0 where
  pub auto_update_minor : Bool
  pub auto_update_major : Bool
  pub pinned_version : String
  pub min_version : String
  pub max_version : String

-- The constraints of a checker: the defaults where none are given.
unfoldable pub new_version_checker : Option VersionConstraints → VersionConstraints
new_version_checker (some c) = c
new_version_checker none = record {
  auto_update_minor = true;
  auto_update_major = false;
  pinned_version = "";
  min_version = "";
  max_version = "";
}

pub data Reason : Type 0 where
  invalid_current invalid_candidate : String → String → Reason
  pinned_match : Reason
  pinned_to : String → Reason
  not_newer : Reason
  below_minimum above_maximum : String → Reason
  major_not_allowed : ℕ → ℕ → Reason
  minor_not_allowed : ℕ → ℕ → ℕ → ℕ → Reason
  satisfied : Reason

module _ (s : Semver) where
  open s use {Version, parse, major, minor, greater, less}

  -- A bound that is not set, or does not parse, bounds nothing.
  abbrev pub outside : (Version → Bool) → String → Bool
  outside test bound =
      if str_eq bound "" then false else elim (parse bound) [ ok v ↦ test v | err x ↦ false ]

  -- The checks of the majors and the minors.
  unfoldable pub check_levels : VersionConstraints → Version → Version → Bool × Reason
  check_levels c current candidate =
      if ltb (major current) (major candidate) && not c.auto_update_major
      then (false, major_not_allowed (major current) (major candidate))
      else if (major candidate == major current)
          && ltb (minor current) (minor candidate)
          && not c.auto_update_minor
      then (
        false,
        minor_not_allowed (major current) (minor current) (major candidate) (minor candidate),
      )
      else (true, satisfied)

  unfoldable pub check_versions : VersionConstraints → Version → Version → Bool × Reason
  unfolding check_levels
  check_versions c current candidate =
      if not (greater candidate current)
      then (false, not_newer)
      else if outside (less candidate) c.min_version
      then (false, below_minimum c.min_version)
      else if outside (greater candidate) c.max_version
      then (false, above_maximum c.max_version)
      else check_levels c current candidate

  unfoldable pub should_update : VersionConstraints → String → String → Bool × Reason
  unfolding check_versions
  should_update c current candidate = elim (parse current) [
    | err x ↦ (false, invalid_current current x)
    | ok cur ↦ elim (parse candidate) [
      | err x ↦ (false, invalid_candidate candidate x)
      | ok cand ↦
          if not (str_eq c.pinned_version "")
          then (if str_eq candidate c.pinned_version && not (str_eq candidate current)
              then (true, pinned_match)
              else (false, pinned_to c.pinned_version))
          else check_versions c cur cand
    ]
  ]

  -- `latestVer == nil || candidateVer.GreaterThan(latestVer)`.
  abbrev pub beats : Version → Option (Version × String) → Bool
  beats v none = true
  beats v (some (w, t)) = greater v w

  -- One turn of the loop, on the latest version so far and its text.
  unfoldable pub consider :
      VersionConstraints
      → String
      → Version
      → String
      → Option (Version × String)
      → Option (Version × String)
  unfolding should_update
  consider c current cur candidate latest = elim (parse candidate) [
    | err x ↦ latest
    | ok v ↦
        if greater v cur && beats v latest && (should_update c current candidate).0
        then some (v, candidate)
        else latest
  ]

  unfoldable pub latest_of :
      VersionConstraints
      → String
      → Version
      → List String
      → Option (Version × String)
      → Option (Version × String)
  unfolding consider
  latest_of c current cur [] latest = latest
  latest_of c current cur (t ∷ ts) latest =
      latest_of c current cur ts (consider c current cur t latest)

  -- `latestStr`, or the current version where it is empty.
  abbrev pub latest_or : String → Option (Version × String) → String
  latest_or current none = current
  latest_or current (some (v, t)) = if str_eq t "" then current else t

  unfoldable pub find_latest_version : VersionConstraints → String → List String → Result String
  unfolding latest_of
  find_latest_version c current [] = err "no candidate versions provided"
  find_latest_version c current (t ∷ ts) = elim (parse current) [
    | err x ↦ err (str_append "invalid current version: " x)
    | ok cur ↦ ok (latest_or current (latest_of c current cur (t ∷ ts) none))
  ]
