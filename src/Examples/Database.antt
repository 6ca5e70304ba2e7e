-- ===== src/Examples/Database.antt =====
-- The tables of containers, the repairs and the storing of SBOMs on small inputs.
use bjorn2scan.Base.{
  ◌≡◌, refl, ℕ, map, ◌++◌, String, true, List, [], ◌∷◌, none, some, length, ◌==◌, if◌then◌else◌,
  Option,
}
use bjorn2scan.Container.{Container}
use bjorn2scan.Status.{generating_sbom}
use bjorn2scan.Database.Tables.{Engine, Bytes, Artifact, PackageKey, ImageRow, Db}
use bjorn2scan.Database.Calls.{Call, add, remove, set, cleanup_stale, cleanup_orphaned, run_calls}
use bjorn2scan.Database.Integrity.{IsSound}
use bjorn2scan.Database.Operations.{run_calls-IsSound}
use bjorn2scan.Database.Reconcile.{set_containers}
use bjorn2scan.Database.Keeping.{AllOrNothing}
use bjorn2scan.Database.Atomic.{Replaced, set_containers-AllOrNothing}
use bjorn2scan.Database.Grouping.{group_packages}
use bjorn2scan.Database.GroupLaws.{
  raws, instances_of, HasUniqueKeys, HasInstances, group_packages-laws,
}
use bjorn2scan.Database.Batches.{batch_insert, flat}
use bjorn2scan.Database.Maintenance.{reset_interrupted_scans, reap_stuck_scans}
use bjorn2scan.Scanning.Pipeline.{process_job}
use bjorn2scan.Scanning.Pipeline.Outcome.{Leaves}
use bjorn2scan.Scanning.Pipeline.Recovery.{IsScanned, IsLost, process_jobs}
use bjorn2scan.Scanning.Pipeline.Repair.{reset_interrupted_scans-IsScanned, reap_stuck_scans-IsLost}
use bjorn2scan.Examples.Containers.{container}
use bjorn2scan.Examples.Pipeline.{working, tools, new_row}
use bjorn2scan.Examples.Queue.{nginx, redis}

abbrev empty : Db
empty = record { images = []; containers = []; nodes = []; statements = 0 }

empty-IsSound : IsSound empty
empty-IsSound = record { unique_digests = tt; unique_ids = tt; references = tt }

abbrev two : List Container
two = container "a" "sha256:aa" ∷ container "b" "sha256:bb" ∷ []

-- The 9th statement fails.
abbrev unlucky : Engine
unlucky = record working { fault = λ n. if n == 8 then some "disk I/O error" else none }

abbrev calls : List Call
calls =
    set two
    ∷ add (container "a" "sha256:cc")
    ∷ remove (container "b" "sha256:bb").id
    ∷ cleanup_orphaned
    ∷ cleanup_stale []
    ∷ []

run_calls-IsSound_example : IsSound (run_calls unlucky calls empty)
run_calls-IsSound_example = run_calls-IsSound unlucky calls empty empty-IsSound

abbrev one_container : Db
one_container = (set_containers working (container "z" "sha256:zz" ∷ []) empty).1

set_containers-AllOrNothing_example :
    AllOrNothing
      (Replaced two (length one_container.containers))
      one_container
      (set_containers unlucky two one_container).0
      (set_containers unlucky two one_container).1
set_containers-AllOrNothing_example = set_containers-AllOrNothing unlucky two one_container

abbrev generating_row : ImageRow
generating_row = record new_row { status = generating_sbom }

abbrev interrupted : Db
interrupted = record empty { images = ("sha256:aa", generating_row) ∷ [] }

reset_interrupted_scans-IsScanned_example :
    Leaves "sha256:aa"
      (IsScanned (31 ∷ 1 ∷ []) (31 ∷ 2 ∷ 1 ∷ []))
      (process_job tools nginx)
      (reset_interrupted_scans working interrupted).1
reset_interrupted_scans-IsScanned_example =
    reset_interrupted_scans-IsScanned tools nginx (1 ∷ []) (31 ∷ 1 ∷ []) (31 ∷ 2 ∷ 1 ∷ [])
      (record { vulnerability_json = 2 ∷ 1 ∷ []; built = none }) interrupted generating_row
      (λ n. refl) refl refl refl refl refl refl refl

reap_stuck_scans-IsLost_example :
    Leaves "sha256:aa" IsLost
      (process_jobs tools (nginx ∷ redis ∷ nginx ∷ []))
      (reap_stuck_scans (λ k. true) (λ k. true) working interrupted).1
reap_stuck_scans-IsLost_example =
    reap_stuck_scans-IsLost tools (nginx ∷ redis ∷ nginx ∷ []) (λ k. true) (λ k. true) "sha256:aa"
      interrupted generating_row (λ n. refl) refl refl refl refl refl

abbrev artifact : String → String → Bytes → Artifact
artifact name version raw = record {
  name = name;
  version = version;
  type_name = "deb";
  language = "";
  purl = "";
  raw = raw;
}

abbrev pub artifacts : List (Option Artifact)
artifacts =
    some (artifact "bash" "5.2" (1 ∷ []))
    ∷ none
    ∷ some (artifact "zlib" "1.3" (2 ∷ []))
    ∷ some (artifact "bash" "5.2" (3 ∷ []))
    ∷ []

group_packages-laws_example :
    HasUniqueKeys (group_packages artifacts)
    × HasInstances (group_packages artifacts)
    × ((k : PackageKey) → instances_of k (group_packages artifacts) ≡ raws k artifacts)
group_packages-laws_example = group_packages-laws artifacts

-- Five rows of two columns; a statement leaves its groups of placeholders and its arguments.
abbrev five : Bytes
five = 1 ∷ 2 ∷ 3 ∷ 4 ∷ 5 ∷ []

abbrev two_columns : ℕ → Bytes
two_columns k = k ∷ 10 ∷ []

abbrev trace : ℕ → Bytes → Db → Db
trace n args db = record db {
  images = db.images ++ ("", record new_row { sbom = some (n ∷ args) }) ∷ [];
}

three_statements :
    map (λ e. e.1.sbom) (batch_insert working trace 2 2 (flat two_columns five) empty).1.images
    ≡ some (2 ∷ 1 ∷ 10 ∷ 2 ∷ 10 ∷ [])
      ∷ some (2 ∷ 3 ∷ 10 ∷ 4 ∷ 10 ∷ [])
      ∷ some (1 ∷ 5 ∷ 10 ∷ [])
      ∷ []
unfolding batch_insert
three_statements = refl
