-- ===== src/Examples/Versions.antt =====
-- Releases on small inputs: versions of a major and a minor.
use bjorn2scan.Base.{
  ◌≡◌, ◌⊎◌, ◌↔◌, refl, ℕ, String, Bool, true, false, ◌&&◌, ◌||◌, [], ◌∷◌, Result, ok, err, str_eq,
  ltb, ◌==◌, if◌then◌else◌, arith, Memᴰ, All, none,
}
use bjorn2scan.Versions.{
  Semver, VersionConstraints, new_version_checker, should_update, find_latest_version, pinned_match,
}
use bjorn2scan.Versions.Policy.{HasPrecedence, IsAllowed, should_update-IsAllowed}
use bjorn2scan.Versions.Latest.{IsCandidate, find_latest_version-latest}

abbrev parse_pair : String → Result (ℕ × ℕ)
parse_pair t =
    if str_eq t "1.2"
    then ok (1, 2)
    else if str_eq t "1.3"
    then ok (1, 3)
    else if str_eq t "2.0"
    then ok (2, 0)
    else err "invalid"

abbrev above : ℕ × ℕ → ℕ × ℕ → Bool
above (a, b) (c, d) = ltb c a || (a == c && ltb d b)

abbrev pairs : Semver
pairs = record {
  Version = ℕ × ℕ;
  parse = parse_pair;
  major = λ v. v.0;
  minor = λ v. v.1;
  greater = above;
  less = λ v w. above w v;
}

pairs-HasPrecedence : HasPrecedence pairs
pairs-HasPrecedence = record {
  up = λ v w h. ground arith;
  irreflexive = λ v. ground arith;
  transitive = λ u v w h k. ground arith;
  no_empty = λ v e. cc e;
}

should_update-IsAllowed_example :
    ((should_update pairs (new_version_checker none) "1.2" "1.3").0 ≡ true)
    ↔ IsAllowed pairs (new_version_checker none) (1, 2) (1, 3)
unfolding new_version_checker
should_update-IsAllowed_example =
    should_update-IsAllowed pairs (new_version_checker none) "1.2" "1.3" (1, 2) (1, 3)
      pairs-HasPrecedence refl refl refl

abbrev pinned : VersionConstraints
pinned = record {
  auto_update_minor = false;
  auto_update_major = false;
  pinned_version = "1.2";
  min_version = "1.3";
  max_version = "";
}

-- A pinned version is taken although it is older.
back_to_pinned : should_update pairs pinned "2.0" "1.2" ≡ (true, pinned_match)
unfolding should_update
back_to_pinned = refl

latest_in_major :
    find_latest_version pairs (new_version_checker none) "1.2" ("2.0" ∷ "x" ∷ "1.3" ∷ []) ≡ ok "1.3"
unfolding find_latest_version new_version_checker
latest_in_major = refl

find_latest_version-latest_example :
    ((r : String) × (v : ℕ × ℕ) × (find_latest_version pairs
          (new_version_checker none)
          "1.2"
          ("2.0" ∷ "1.3" ∷ [])
        ≡ ok r)
      × Memᴰ r ("2.0" ∷ "1.3" ∷ [])
      × IsCandidate pairs (new_version_checker none) "1.2" (1, 2) r v
      × All
          (λ u.
            (w : ℕ × ℕ)
            → IsCandidate pairs (new_version_checker none) "1.2" (1, 2) u w
            → above w v ≡ false)
          ("2.0" ∷ "1.3" ∷ []))
    ⊎ ((find_latest_version pairs (new_version_checker none) "1.2" ("2.0" ∷ "1.3" ∷ []) ≡ ok "1.2")
        × All
            (λ u. (w : ℕ × ℕ) → ¬ (IsCandidate pairs (new_version_checker none) "1.2" (1, 2) u w))
            ("2.0" ∷ "1.3" ∷ []))
find_latest_version-latest_example =
    find_latest_version-latest pairs (new_version_checker none) "1.2" (1, 2) "2.0" ("1.3" ∷ [])
      pairs-HasPrecedence refl
