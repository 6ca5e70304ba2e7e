-- ===== src/Jobs/Rescan.antt =====
-- The rescan-database job: scanner-core/jobs/rescan_database_job.go and rescan_nodes_job.go, with
-- GetImagesNeedingRescan of scanner-core/database/queries.go, GetFirstContainerForImage of
-- scanner-core/database/scanning.go and GetNodesNeedingRescan of scanner-core/database/nodes.go. The
-- updater of grype's database is a parameter; the readiness setter is left out. Rows of images and
-- containers are kept in the order of `created_at`.
use Prim.Native.String.{◌++◌ as str_append, compare}
use text.Mathlib.Text.{is_lt}
use bjorn2scan.Base.{
  String, Bool, true, false, ◌&&◌, List, [], ◌∷◌, ◌++◌, Option, none, some, Result, ok, err, str_eq,
  if◌then◌else◌,
}
use bjorn2scan.Status.{Status, pending, completed, vuln_scan_failed}
use bjorn2scan.Database.Tables.{
  Engine, ImageRow, ContainerRow, NodeRow, M, ◌>>=◌, return, query, and_take,
}
use bjorn2scan.Database.Blobs.{has_blob}
use bjorn2scan.Database.Maintenance.{reap_stuck_scans}
use bjorn2scan.Database.Reconcile.{has_container}
use bjorn2scan.Scanning.Queue.{ScanJob, HostScanJob}

-- `a < b` on texts.
abbrev pub str_lt : String → String → Bool
str_lt a b = is_lt (compare a b)

-- `grype_db_built IS NULL OR grype_db_built < ?`.
abbrev pub is_stale : String → Option String → Bool
is_stale current none = true
is_stale current (some built) = str_lt built current

-- `status IN (?, ?)`.
abbrev pub is_retried : Status → Bool
is_retried completed = true
is_retried vuln_scan_failed = true
is_retried _ = false

unfoldable pub needs_rescan : String → ImageRow → Bool
needs_rescan current r =
    is_retried r.status && has_blob r.sbom_compressed r.sbom && is_stale current r.grype_db_built

unfoldable pub needing : String → List ContainerRow → List (String × ImageRow) → List String
unfolding has_container needs_rescan
needing current ks [] = []
needing current ks ((d, r) ∷ rs) =
    let rest = needing current ks rs in
    if has_container d ks && needs_rescan current r then d ∷ rest else rest

unfoldable pub reverse : List String → List String
reverse [] = []
reverse (x ∷ xs) = reverse xs ++ x ∷ []

-- `none` is the zero time; the newest images come first.
unfoldable pub get_images_needing_rescan : Engine → Option String → M (Result (List String))
unfolding needing reverse
get_images_needing_rescan e none = return (ok [])
get_images_needing_rescan e (some current) =
    and_take "failed to query images needing rescan: "
      (query e (λ db. reverse (needing current db.containers db.images))) (λ ds. return (ok ds))

unfoldable pub first_container : String → List ContainerRow → Option ContainerRow
first_container d [] = none
first_container d (k ∷ ks) = if str_eq k.image d then some k else first_container d ks

abbrev pub found_container : Option ContainerRow → Result ContainerRow
found_container none = err "no containers found for image"
found_container (some k) = ok k

unfoldable pub get_first_container_for_image : Engine → String → M (Result ContainerRow)
unfolding first_container
get_first_container_for_image e d =
    and_take "failed to get first container: " (query e (λ db. first_container d db.containers))
      (λ o. return (found_container o))

-- An image without a container is skipped.
abbrev pub force_scan_of : String → Result ContainerRow → List ScanJob → List ScanJob
force_scan_of d (err x) rest = rest
force_scan_of d (ok k) rest =
    record {
      image = record { reference = k.reference; digest = d };
      node_name = k.node_name;
      container_runtime = k.container_runtime;
      force_scan = true;
    }
    ∷ rest

unfoldable pub force_scans : Engine → List String → M (List ScanJob)
unfolding get_first_container_for_image
force_scans e [] = return []
force_scans e (d ∷ ds) =
    let more = force_scans e ds in
    do r ← get_first_container_for_image e d; rest ← more; return (force_scan_of d r rest)

-- `(completed or failed, and stale) or (pending, and with an older database)`.
abbrev pub node_needs_rescan : String → Option Status → Option String → Bool
node_needs_rescan current (some pending) (some built) = str_lt built current
node_needs_rescan current (some pending) none = false
node_needs_rescan current none built = false
node_needs_rescan current (some s) built = is_retried s && is_stale current built

unfoldable pub nodes_needing : String → List (String × NodeRow) → List HostScanJob
nodes_needing current [] = []
nodes_needing current ((name, r) ∷ rs) =
    let rest = nodes_needing current rs in
    if node_needs_rescan current r.status r.grype_db_built
    then record { node_name = name; force_scan = true } ∷ rest
    else rest

-- `RescanNodesOnDBUpdate`: the host jobs, or the error.
unfoldable pub rescan_nodes : Engine → String → M (Result (List HostScanJob))
unfolding nodes_needing
rescan_nodes e current =
    and_take "failed to get nodes needing rescan: " (query e (λ db. nodes_needing current db.nodes))
      (λ js. return (ok js))

-- The version of grype's database: `Built` in UTC, `none` for the zero time, and as it is formatted.
pub record Version : Type 0 where
  pub built_utc : Option String
  pub built : String

-- What CheckForUpdates and GetCurrentVersion answer.
pub record Updater : Type 0 where
  pub check : Option String
  pub current : Option Version

-- The job's result and the jobs that it asks the queue for.
pub record Requests : Type 0 where
  pub result : Result (Unit {0})
  pub scans : List ScanJob
  pub host_scans : List HostScanJob

abbrev pub no_requests : Result (Unit {0}) → Requests
no_requests r = record { result = r; scans = []; host_scans = [] }

-- An error of the nodes is only logged.
abbrev pub with_hosts : List ScanJob → Result (List HostScanJob) → Requests
with_hosts jobs (ok hosts) = record { result = ok tt; scans = jobs; host_scans = hosts }
with_hosts jobs (err x) = record { result = ok tt; scans = jobs; host_scans = [] }

abbrev pub rescan_hosts : Engine → Bool → Version → List ScanJob → M Requests
rescan_hosts e false v jobs = return (with_hosts jobs (ok []))
rescan_hosts e true v jobs = do r ← rescan_nodes e v.built; return (with_hosts jobs r)

abbrev pub rescan_images : Engine → Bool → Version → Result (List String) → M Requests
rescan_images e node_scanning v (err x) =
    return (no_requests (err (str_append "failed to get images needing rescan: " x)))
rescan_images e node_scanning v (ok ds) = do
  jobs ← force_scans e ds
  rescan_hosts e node_scanning v jobs

abbrev pub rescan_with : Engine → Bool → Option Version → M Requests
rescan_with e node_scanning none = return (no_requests (ok tt))
rescan_with e node_scanning (some v) = do
  ds ← get_images_needing_rescan e v.built_utc
  rescan_images e node_scanning v ds

abbrev pub rescan_checked : Engine → Bool → Updater → Option String → M Requests
rescan_checked e node_scanning u (some x) =
    return (no_requests (err (str_append "failed to check for updates: " x)))
rescan_checked e node_scanning u none = rescan_with e node_scanning u.current

-- An error of the reaper is only logged. `node_scanning`: whether SetNodeScanning has been called.
unfoldable pub run_rescan : (String → Bool) → (String → Bool) → Engine → Bool → Updater → M Requests
unfolding reap_stuck_scans get_images_needing_rescan force_scans rescan_nodes
run_rescan old_node old_image e node_scanning u = do
  r ← reap_stuck_scans old_node old_image e
  rescan_checked e node_scanning u u.check
