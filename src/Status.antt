-- ===== src/Status.antt =====
-- The scan status of an image or a node: scanner-core/database/status.go.
-- `other` stands for a text in the database's column that is none of the constants.
use bjorn2scan.Base.{String, Bool, true, false, str_eq, if◌then◌else◌}

pub data Status : Type 0 where
  pending generating_sbom sbom_failed sbom_unavailable : Status
  scanning_vulnerabilities vuln_scan_failed completed : Status
  other : String → Status

-- `Status(text)` of a column's text.
unfoldable pub of_text : String → Status
of_text s =
    if str_eq s "pending"
    then pending
    else if str_eq s "generating_sbom"
    then generating_sbom
    else if str_eq s "sbom_failed"
    then sbom_failed
    else if str_eq s "sbom_unavailable"
    then sbom_unavailable
    else if str_eq s "scanning_vulnerabilities"
    then scanning_vulnerabilities
    else if str_eq s "vuln_scan_failed"
    then vuln_scan_failed
    else if str_eq s "completed"
    then completed
    else other s

unfoldable pub to_text : Status → String
to_text pending = "pending"
to_text generating_sbom = "generating_sbom"
to_text sbom_failed = "sbom_failed"
to_text sbom_unavailable = "sbom_unavailable"
to_text scanning_vulnerabilities = "scanning_vulnerabilities"
to_text vuln_scan_failed = "vuln_scan_failed"
to_text completed = "completed"
to_text (other s) = s

unfoldable pub is_terminal : Status → Bool
is_terminal sbom_failed = true
is_terminal sbom_unavailable = true
is_terminal vuln_scan_failed = true
is_terminal completed = true
is_terminal _ = false

unfoldable pub is_error : Status → Bool
is_error sbom_failed = true
is_error vuln_scan_failed = true
is_error _ = false

unfoldable pub has_sbom : Status → Bool
has_sbom scanning_vulnerabilities = true
has_sbom vuln_scan_failed = true
has_sbom completed = true
has_sbom _ = false

unfoldable pub has_vulnerabilities : Status → Bool
has_vulnerabilities completed = true
has_vulnerabilities _ = false
