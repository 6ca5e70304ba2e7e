-- ===== src/Scanning/HostPipeline.antt =====
-- What the worker does with a host job outside the lock: `processHostJob` and
-- `processHostVulnerabilityScan` of scanner-core/scanning/queue.go. The SBOM retriever, grype and
-- the readiness of its database are parameters, as for an image job.
pub mod Outcome
pub mod Recovery
use Prim.Native.String.{◌++◌ as str_append}
use bjorn2scan.Base.{
  String, Bool, true, false, ◌||◌, List, [], Option, none, some, Result, ok, err, str_eq,
  if◌then◌else◌,
}
use bjorn2scan.Status.{generating_sbom, sbom_failed, vuln_scan_failed, Status}
use bjorn2scan.Database.Tables.{Bytes, Engine, Db, M, ◌>>=◌, return}
use bjorn2scan.Database.Nodes.{get_node_scan_status, update_node_status}
use bjorn2scan.Database.NodeScans.{store_node_sbom, get_node_sbom}
use bjorn2scan.Database.NodeReports.{store_node_vulnerabilities}
use bjorn2scan.Scanning.Queue.{HostScanJob}
use bjorn2scan.Scanning.Pipeline.{ScanResult, is_ready}

pub record HostTools : Type 0 where
  pub engine : Engine
  -- `none` where it is not configured.
  pub host_sbom_retriever : Option (String → Result Bytes)
  pub grype : Bytes → Result ScanResult
  -- The answer of `WaitForReady`; `none` where no checker is set.
  pub readiness : Option Bool

-- An error of `UpdateNodeStatus` is only logged here.
unfoldable pub fail_node : HostTools → String → Status → String → M (Unit {0})
unfolding update_node_status
fail_node t name status message = do r ← update_node_status t.engine name status message; return tt

-- `Built.Format(time.RFC3339)`, also of the zero time.
abbrev pub built_text : Option String → String
built_text none = "0001-01-01T00:00:00Z"
built_text (some t) = t

-- What follows the storing of the report.
abbrev pub after_report : HostTools → String → Result (Unit {0}) → M (Unit {0})
after_report t name (ok u) = return tt
after_report t name (err x) = fail_node t name vuln_scan_failed x

-- Storing the report, or grype's error.
abbrev pub store_scan : HostTools → String → Result ScanResult → M (Unit {0})
store_scan t name (err x) = fail_node t name vuln_scan_failed x
store_scan t name (ok result) = do
  r ← store_node_vulnerabilities t.engine name result.vulnerability_json (built_text result.built)
  after_report t name r

-- The SBOM as read from the database; nil bytes are empty.
abbrev pub bytes_or_empty : Option Bytes → Bytes
bytes_or_empty none = []
bytes_or_empty (some b) = b

abbrev pub scan_read : HostTools → String → Result (Option Bytes) → M (Unit {0})
scan_read t name (err x) = fail_node t name vuln_scan_failed (str_append "SBOM not available: " x)
scan_read t name (ok sbom_json) = store_scan t name (t.grype (bytes_or_empty sbom_json))

abbrev pub scan_sbom : HostTools → String → Option Bytes → M (Unit {0})
scan_sbom t name (some sbom_json) = store_scan t name (t.grype sbom_json)
scan_sbom t name none = do r ← get_node_sbom t.engine name; scan_read t name r

abbrev pub scan_ready : HostTools → String → Option Bytes → Bool → M (Unit {0})
scan_ready t name sbom_json true = scan_sbom t name sbom_json
scan_ready t name sbom_json false =
    fail_node t name vuln_scan_failed "cancelled while waiting for vulnerability database"

-- `sbom_json` is `none` where the SBOM is to be read from the database.
unfoldable pub process_host_vulnerability_scan :
    HostTools → HostScanJob → Option Bytes → M (Unit {0})
unfolding fail_node store_node_vulnerabilities get_node_sbom
process_host_vulnerability_scan t job sbom_json =
    scan_ready t job.node_name sbom_json (is_ready t.readiness)

abbrev pub after_sbom : HostTools → HostScanJob → Bytes → Result (Unit {0}) → M (Unit {0})
after_sbom t job sbom_json (err x) = fail_node t job.node_name sbom_failed x
after_sbom t job sbom_json (ok u) = process_host_vulnerability_scan t job (some sbom_json)

abbrev pub store_host_sbom : HostTools → HostScanJob → Result Bytes → M (Unit {0})
store_host_sbom t job (err x) = fail_node t job.node_name sbom_failed x
store_host_sbom t job (ok sbom_json) = do
  r ← store_node_sbom t.engine job.node_name sbom_json
  after_sbom t job sbom_json r

-- A job whose node could not be marked ends here.
abbrev pub retrieve_host_sbom :
    HostTools → HostScanJob → (String → Result Bytes) → Result (Unit {0}) → M (Unit {0})
retrieve_host_sbom t job retrieve (err x) = return tt
retrieve_host_sbom t job retrieve (ok u) = store_host_sbom t job (retrieve job.node_name)

abbrev pub start_host_scan : HostTools → HostScanJob → (String → Result Bytes) → M (Unit {0})
start_host_scan t job retrieve = do
  u ← update_node_status t.engine job.node_name generating_sbom ""
  retrieve_host_sbom t job retrieve u

-- An error of the query does not skip the scan.
abbrev pub is_scanned : Result String → Bool
is_scanned (err x) = false
is_scanned (ok status) = str_eq status "completed" || str_eq status "scanned"

abbrev pub scan_unless : HostTools → HostScanJob → (String → Result Bytes) → Bool → M (Unit {0})
scan_unless t job retrieve true = return tt
scan_unless t job retrieve false = start_host_scan t job retrieve

abbrev pub check_host : HostTools → HostScanJob → (String → Result Bytes) → Bool → M (Unit {0})
check_host t job retrieve true = start_host_scan t job retrieve
check_host t job retrieve false = do
  r ← get_node_scan_status t.engine job.node_name
  scan_unless t job retrieve (is_scanned r)

abbrev pub with_retriever : HostTools → HostScanJob → Option (String → Result Bytes) → M (Unit {0})
with_retriever t job none =
    fail_node t job.node_name sbom_failed "Host SBOM retriever not configured"
with_retriever t job (some retrieve) = check_host t job retrieve job.force_scan

unfoldable pub process_host_job : HostTools → HostScanJob → M (Unit {0})
unfolding fail_node process_host_vulnerability_scan update_node_status get_node_scan_status
    store_node_sbom
process_host_job t job = with_retriever t job t.host_sbom_retriever
