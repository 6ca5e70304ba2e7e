-- ===== src/Database/Images.antt =====
-- The `images` table and the operations on it that a scan uses:
-- scanner-core/database/scanning.go and images.go.
-- The tables of packages and vulnerabilities, which `parseSBOMData` and `parseVulnerabilityData`
-- fill (their errors are only logged), are left out.
use Prim.Native.String.{◌++◌ as str_append}
use bjorn2scan.Base.{
  String, str_eq, List, [], ◌∷◌, Option, none, some, Result, ok, err, if◌then◌else◌,
}
use bjorn2scan.Base.Maps.{get}
use bjorn2scan.Database.Tables.{Engine, ImageRow, M, ◌>>=◌, return, statement}
use bjorn2scan.Status.{
  Status, pending, sbom_failed, sbom_unavailable, scanning_vulnerabilities, vuln_scan_failed,
  completed,
}

-- `SELECT … FROM images WHERE digest = ?`: the row, if there is one.
unfoldable pub select_row : Engine → String → M (Result (Option ImageRow))
select_row e digest = do
  n ← statement
  λ db. elim (e.fault n) [ some x ↦ (err x, db) | none ↦ (ok (get digest db.images), db) ]

unfoldable pub update_row :
    String → (ImageRow → ImageRow) → List (String × ImageRow) → List (String × ImageRow)
update_row d f [] = []
update_row d f ((k, r) ∷ rs) = if str_eq k d then (k, f r) ∷ rs else (k, r) ∷ update_row d f rs

-- `UPDATE images SET … WHERE digest = ?`: the error, if it fails.
unfoldable pub update_where : Engine → String → (ImageRow → ImageRow) → M (Option String)
update_where e digest f = do
  n ← statement
  λ db. elim (e.fault n) [
    | some x ↦ (some x, db)
    | none ↦ (none, record db { images = update_row digest f db.images })
  ]

-- `COALESCE(a, b)`.
abbrev pub coalesce : Option String → Option String → Option String
coalesce none b = b
coalesce (some a) b = some a

unfoldable pub get_image_status : Engine → String → M (Result Status)
get_image_status e digest = do
  r ← select_row e digest
  return (elim r [
    | err x ↦ err (str_append "failed to get status: " x)
    | ok none ↦ ok pending
    | ok (some row) ↦ ok row.status
  ])

abbrev pub sbom_stamp : Status → String → Option String
sbom_stamp scanning_vulnerabilities now = some now
sbom_stamp sbom_failed now = some now
sbom_stamp sbom_unavailable now = some now
sbom_stamp _ now = none

abbrev pub vulns_stamp : Status → String → Option String
vulns_stamp completed now = some now
vulns_stamp vuln_scan_failed now = some now
vulns_stamp _ now = none

-- What `UpdateStatus` writes, at the time `now`.
abbrev pub with_status : Status → String → String → ImageRow → ImageRow
with_status status message now row = record row {
  status = status;
  status_error = some message;
  sbom_scanned_at = coalesce row.sbom_scanned_at (sbom_stamp status now);
  vulns_scanned_at = coalesce row.vulns_scanned_at (vulns_stamp status now);
}

unfoldable pub update_status : Engine → String → Status → String → M (Option String)
update_status e digest status message = do
  now ← λ db. (e.now db.statements, db)
  r ← update_where e digest (with_status status message now)
  return (elim r [ some x ↦ some (str_append "failed to update status: " x) | none ↦ none ])
