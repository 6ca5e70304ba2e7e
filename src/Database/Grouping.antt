-- ===== src/Database/Grouping.antt =====
-- The grouping of the artifacts and of the matches in StoreNodeSBOM and StoreNodeVulnerabilities of
-- scanner-core/database/nodes.go: a map from keys to groups, as the list of its groups. The order in
-- which Go walks a map is left open by the language; here it is the order of first occurrence.
use bjorn2scan.Base.{
  ℕ, String, Bool, ◌&&◌, List, [], ◌∷◌, ◌++◌, Option, none, some, str_eq, if◌then◌else◌, ltb,
}
use bjorn2scan.Database.Tables.{Bytes, Artifact, Match, PackageKey, VulnerabilityKey}

module _ {A G : Type 0} (belongs : A → G → Bool) (start : A → G) (join : A → G → G) where
  -- `if existing, ok := groups[key]; ok`.
  unfoldable pub put_in : A → List G → List G
  put_in a [] = start a ∷ []
  put_in a (g ∷ gs) = let rest = put_in a gs in if belongs a g then join a g ∷ gs else g ∷ rest

  -- The loop; what cannot be read is skipped.
  unfoldable pub gather : List (Option A) → List G → List G
  unfolding put_in
  gather [] gs = gs
  gather (none ∷ rest) gs = gather rest gs
  gather (some a ∷ rest) gs = gather rest (put_in a gs)

-- `packageData`, with its key.
pub record PackageGroup : Type 0 where
  pub key : PackageKey
  pub language : String
  pub purl : String
  pub instances : List Bytes

abbrev pub same_package : PackageKey → PackageKey → Bool
same_package a b =
    str_eq a.name b.name && str_eq a.version b.version && str_eq a.type_name b.type_name

abbrev pub artifact_key : Artifact → PackageKey
artifact_key a = record { name = a.name; version = a.version; type_name = a.type_name }

abbrev pub in_group : Artifact → PackageGroup → Bool
in_group a g = same_package g.key (artifact_key a)

abbrev pub start_package : Artifact → PackageGroup
start_package a = record {
  key = artifact_key a;
  language = a.language;
  purl = a.purl;
  instances = a.raw ∷ [];
}

-- The first text that is not empty.
abbrev pub first_text : String → String → String
first_text old new = if str_eq old "" then new else old

abbrev pub join_package : Artifact → PackageGroup → PackageGroup
join_package a g = record g {
  language = first_text g.language a.language;
  purl = first_text g.purl a.purl;
  instances = g.instances ++ a.raw ∷ [];
}

unfoldable pub group_packages : List (Option Artifact) → List PackageGroup
unfolding gather
group_packages artifacts = gather in_group start_package join_package artifacts []

-- `vulnData`, with its key and without the scores.
pub record VulnerabilityGroup : Type 0 where
  pub key : VulnerabilityKey
  pub severity : String
  pub fix_status : String
  pub fix_version : String
  pub known_exploited : ℕ
  pub instances : List Bytes

abbrev pub same_vulnerability : VulnerabilityKey → VulnerabilityKey → Bool
same_vulnerability a b = str_eq a.cve_id b.cve_id && same_package a.in_package b.in_package

abbrev pub match_key : Match → VulnerabilityKey
match_key m = record {
  cve_id = m.cve_id;
  in_package = record {
    name = m.package_name;
    version = m.package_version;
    type_name = m.package_type;
  };
}

abbrev pub in_vulnerability : Match → VulnerabilityGroup → Bool
in_vulnerability m g = same_vulnerability g.key (match_key m)

abbrev pub start_vulnerability : Match → VulnerabilityGroup
start_vulnerability m = record {
  key = match_key m;
  severity = m.severity;
  fix_status = m.fix_state;
  fix_version = m.fix_version;
  known_exploited = m.known_exploited;
  instances = m.raw ∷ [];
}

abbrev pub join_vulnerability : Match → VulnerabilityGroup → VulnerabilityGroup
join_vulnerability m g = record g {
  known_exploited =
      if ltb g.known_exploited m.known_exploited then m.known_exploited else g.known_exploited;
  instances = g.instances ++ m.raw ∷ [];
}

unfoldable pub group_vulnerabilities : List (Option Match) → List VulnerabilityGroup
unfolding gather
group_vulnerabilities matches =
    gather in_vulnerability start_vulnerability join_vulnerability matches []
