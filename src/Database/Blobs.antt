-- ===== src/Database/Blobs.antt =====
-- Storing and reading the SBOM and the scan report of an image, and what the container manager asks
-- of an image: scanner-core/database/scanning.go.
use Prim.Native.String.{◌++◌ as str_append}
use bjorn2scan.Base.{
  String, Bool, true, false, ◌&&◌, ◌∷◌, Option, none, some, Result, ok, err, length, ltb,
}
use bjorn2scan.Status.{
  Status, pending, generating_sbom, sbom_failed, sbom_unavailable, scanning_vulnerabilities,
  vuln_scan_failed, completed, other,
}
use bjorn2scan.Database.Tables.{Bytes, Engine, ImageRow, M, ◌>>=◌, return}
use bjorn2scan.Database.Images.{select_row, update_where, get_image_status}

-- `id` of the row: an error where there is none.
unfoldable pub get_image_id : Engine → String → M (Option String)
get_image_id e digest = do
  r ← select_row e digest
  return (elim r [
    | err x ↦ some (str_append "failed to get image ID: " x)
    | ok none ↦ some "failed to get image ID: sql: no rows in result set"
    | ok (some row) ↦ none
  ])

abbrev pub with_sbom_done : String → ImageRow → ImageRow
with_sbom_done now row = record row {
  status = scanning_vulnerabilities;
  status_error = none;
  sbom_scanned_at = some now;
}

abbrev pub with_sbom_blob : Bytes → ImageRow → ImageRow
with_sbom_blob compressed row = record row { sbom_compressed = some compressed }

abbrev pub with_scan_done : String → Option String → ImageRow → ImageRow
with_scan_done now built row = record row {
  status = completed;
  status_error = none;
  vulns_scanned_at = some now;
  grype_db_built = built;
}

abbrev pub with_scan_blob : Bytes → ImageRow → ImageRow
with_scan_blob compressed row = record row { vulnerabilities_compressed = some compressed }

-- The update of the status and, behind the parsing, the one of the blob.
unfoldable pub store_sbom_rows : Engine → String → Bytes → M (Option String)
store_sbom_rows e digest compressed = do
  now ← λ db. (e.now db.statements, db)
  r ← update_where e digest (λ row. record row {
    status = scanning_vulnerabilities;
    status_error = none;
    sbom_scanned_at = some now;
  })
  elim r [
    | some x ↦ return (some (str_append "failed to update SBOM status: " x))
    | none ↦ do
      b ← update_where e digest (with_sbom_blob compressed)
      return (elim b [
        | some x ↦ some (str_append "failed to store compressed SBOM: " x)
        | none ↦ none
      ])
  ]

unfoldable pub store_sbom : Engine → String → Bytes → M (Option String)
store_sbom e digest sbom_json = do
  i ← get_image_id e digest
  elim i [
    | some x ↦ return (some x)
    | none ↦ elim (e.gzip sbom_json) [
      | err x ↦ return (some (str_append "failed to compress SBOM: " x))
      | ok compressed ↦ store_sbom_rows e digest compressed
    ]
  ]

-- `COALESCE`d text columns: the compressed bytes if there are any, else the old column's.
unfoldable pub stored : Engine → String → Option Bytes → Option Bytes → Result Bytes
stored e missing (some (b ∷ bs)) raw = e.gunzip (b ∷ bs)
stored e missing _ (some (b ∷ bs)) = ok (b ∷ bs)
stored e missing _ _ = err missing

unfoldable pub get_sbom : Engine → String → M (Result Bytes)
unfolding stored
get_sbom e digest = do
  r ← select_row e digest
  return (elim r [
    | err x ↦ err (str_append "failed to get SBOM: " x)
    | ok none ↦ err "image not found"
    | ok (some row) ↦ stored e "SBOM not available" row.sbom_compressed row.sbom
  ])

unfoldable pub get_vulnerabilities : Engine → String → M (Result Bytes)
unfolding stored
get_vulnerabilities e digest = do
  r ← select_row e digest
  return (elim r [
    | err x ↦ err (str_append "failed to get vulnerabilities: " x)
    | ok none ↦ err "image not found"
    | ok (some row) ↦
        stored e "vulnerabilities not available" row.vulnerabilities_compressed row.vulnerabilities
  ])

-- The build time of the grype database: the report's own, else the one that was passed.
abbrev pub grype_built : Option String → Option String → Option String
grype_built (some t) passed = some t
grype_built none passed = passed

unfoldable pub store_vulnerabilities_rows :
    Engine → String → Option String → Bytes → M (Option String)
store_vulnerabilities_rows e digest built compressed = do
  now ← λ db. (e.now db.statements, db)
  r ← update_where e digest (λ row. record row {
    status = completed;
    status_error = none;
    vulns_scanned_at = some now;
    grype_db_built = built;
  })
  elim r [
    | some x ↦ return (some (str_append "failed to update vulnerability status: " x))
    | none ↦ do
      b ← update_where e digest (with_scan_blob compressed)
      return (elim b [
        | some x ↦ some (str_append "failed to store compressed vulnerabilities: " x)
        | none ↦ none
      ])
  ]

unfoldable pub store_vulnerabilities : Engine → String → Bytes → Option String → M (Option String)
store_vulnerabilities e digest vuln_json built = do
  i ← get_image_id e digest
  elim i [
    | some x ↦ return (some x)
    | none ↦ elim (e.gzip vuln_json) [
      | err x ↦ return (some (str_append "failed to compress vulnerability JSON: " x))
      | ok compressed ↦
          store_vulnerabilities_rows e digest (grype_built (e.built_in_json vuln_json) built)
            compressed
    ]
  ]

-- The old scan status that the managers read.
pub data ScanStatus : Type 0 where
  pending_scan scanning scanned failed : ScanStatus

unfoldable pub scan_status : Status → ScanStatus
scan_status completed = scanned
scan_status scanning_vulnerabilities = scanned
scan_status vuln_scan_failed = scanned
scan_status generating_sbom = scanning
scan_status sbom_failed = failed
scan_status sbom_unavailable = failed
scan_status pending = pending_scan
scan_status (other s) = pending_scan

unfoldable pub get_image_scan_status : Engine → String → M (Result ScanStatus)
unfolding get_image_status scan_status
get_image_scan_status e digest = do
  r ← get_image_status e digest
  return (elim r [ err x ↦ err x | ok s ↦ ok (scan_status s) ])

-- `x_compressed IS NOT NULL OR (x IS NOT NULL AND LENGTH(x) > 0)`.
abbrev pub has_blob : Option Bytes → Option Bytes → Bool
has_blob (some c) raw = true
has_blob none (some r) = ltb 0 (length r)
has_blob none none = false

abbrev is_completed : Status → Bool
is_completed completed = true
is_completed _ = false

unfoldable pub is_complete_row : ImageRow → Bool
is_complete_row row =
    is_completed row.status
    && has_blob row.sbom_compressed row.sbom
    && has_blob row.vulnerabilities_compressed row.vulnerabilities

unfoldable pub is_scan_data_complete : Engine → String → M (Result Bool)
unfolding is_complete_row
is_scan_data_complete e digest = do
  r ← select_row e digest
  return (elim r [
    | err x ↦ err (str_append "failed to check scan data completeness: " x)
    | ok none ↦ ok false
    | ok (some row) ↦ ok (is_complete_row row)
  ])
