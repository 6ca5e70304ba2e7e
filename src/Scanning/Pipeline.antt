-- ===== src/Scanning/Pipeline.antt =====
-- What the worker does with an image job outside the lock: `processJob` and
-- `processVulnerabilityScan` of scanner-core/scanning/queue.go. The SBOM retriever, grype and the
-- readiness of its database are parameters; time-outs are among the errors that these return.
pub mod Isolation
pub mod Outcome
pub mod Recovery
pub mod Repair
use Prim.Native.String.{◌++◌ as str_append}
use bjorn2scan.Base.{
  ℕ, String, Bool, true, false, not, ◌&&◌, ◌||◌, List, [], ◌∷◌, Option, none, some, Result, ok, err,
  if◌then◌else◌,
}
use bjorn2scan.Container.{ImageId}
use bjorn2scan.Status.{
  Status, pending, generating_sbom, sbom_failed, scanning_vulnerabilities, vuln_scan_failed,
  completed, other, has_sbom, has_vulnerabilities,
}
use bjorn2scan.Database.Tables.{Bytes, Engine, Db, M, ◌>>=◌, return}
use bjorn2scan.Database.Images.{get_image_status, update_status}
use bjorn2scan.Database.Blobs.{store_sbom, get_sbom, store_vulnerabilities}
use bjorn2scan.Scanning.Queue.{ScanJob}

pub record ScanResult : Type 0 where
  pub vulnerability_json : Bytes
  -- `DBStatus.Built`, where it is not the zero time.
  pub built : Option String

pub record Tools : Type 0 where
  pub engine : Engine
  pub sbom_retriever : ImageId → String → String → Result Bytes
  pub grype : Bytes → Result ScanResult
  -- The answer of `WaitForReady`; `none` where no checker is set.
  pub readiness : Option Bool

-- An error of `UpdateStatus` is only logged here.
abbrev fail_with : Tools → String → Status → String → M (Unit {0})
fail_with t digest status message = do r ← update_status t.engine digest status message; return tt

-- From the SBOM on: grype's scan, and storing its report.
unfoldable pub scan_and_store : Tools → String → Bytes → M (Unit {0})
scan_and_store t digest sbom_json = elim (t.grype sbom_json) [
  | err x ↦ fail_with t digest vuln_scan_failed x
  | ok result ↦ do
    r ← store_vulnerabilities t.engine digest result.vulnerability_json result.built
    elim r [ some x ↦ fail_with t digest vuln_scan_failed x | none ↦ return tt ]
]

-- `sbom_json` is `none` where the SBOM is to be read from the database.
unfoldable pub scan_with_sbom : Tools → String → Option Bytes → M (Unit {0})
scan_with_sbom t digest (some sbom_json) = scan_and_store t digest sbom_json
scan_with_sbom t digest none = do
  r ← get_sbom t.engine digest
  elim r [
    | err x ↦ fail_with t digest vuln_scan_failed (str_append "SBOM not available: " x)
    | ok sbom_json ↦ scan_and_store t digest sbom_json
  ]

-- Nothing is to be done for an image that has its report, unless the scan is forced.
unfoldable pub already_scanned : Tools → ScanJob → M Bool
already_scanned t job = elim job.force_scan [
  | true ↦ return false
  | false ↦ do
    r ← get_image_status t.engine job.image.digest
    return (elim r [ err x ↦ false | ok s ↦ has_vulnerabilities s ])
]

abbrev pub is_ready : Option Bool → Bool
is_ready none = true
is_ready (some b) = b

unfoldable pub process_vulnerability_scan : Tools → ScanJob → Option Bytes → M (Unit {0})
process_vulnerability_scan t job sbom_json = elim (is_ready t.readiness) [
  | false ↦ return tt
  | true ↦ do
    done ← already_scanned t job
    elim done [ true ↦ return tt | false ↦ scan_with_sbom t job.image.digest sbom_json ]
]

-- A failed query leaves the empty status, which is no constant.
abbrev pub status_or_empty : Result Status → Status
status_or_empty (ok s) = s
status_or_empty (err x) = other ""

-- Retrieving and storing the SBOM, and the scan behind it.
unfoldable pub generate_sbom : Tools → ScanJob → M (Unit {0})
generate_sbom t job = do
  u ← update_status t.engine job.image.digest generating_sbom ""
  elim u [
    | some x ↦ return tt
    | none ↦ elim (t.sbom_retriever job.image job.node_name job.container_runtime) [
      | err x ↦ fail_with t job.image.digest sbom_failed x
      | ok sbom_json ↦ do
        r ← store_sbom t.engine job.image.digest sbom_json
        elim r [
          | some x ↦ fail_with t job.image.digest sbom_failed x
          | none ↦ process_vulnerability_scan t job (some sbom_json)
        ]
    ]
  ]

-- The branch for an image whose status says that it has an SBOM.
unfoldable pub reuse_sbom : Tools → ScanJob → Status → M (Unit {0})
reuse_sbom t job status = elim (job.force_scan || not (has_vulnerabilities status)) [
  | true ↦ process_vulnerability_scan t job none
  | false ↦ return tt
]

unfoldable pub process_job : Tools → ScanJob → M (Unit {0})
process_job t job = do
  r ← get_image_status t.engine job.image.digest
  elim (has_sbom (status_or_empty r)) [
    | true ↦ reuse_sbom t job (status_or_empty r)
    | false ↦ generate_sbom t job
  ]
