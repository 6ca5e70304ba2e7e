-- ===== src/Scanning/HostPipeline/Recovery.antt =====
-- A host job of scanner-core/scanning/queue.go where everything that it calls works.
use bjorn2scan.Base.{
  ◌≡◌, refl, sym, subst, String, true, List, map, Option, some, Result, ok, err, arith,
}
use bjorn2scan.Status.{generating_sbom}
use bjorn2scan.Database.Tables.{Bytes, Artifact, Match, NodeRow, Db}
use bjorn2scan.Database.Triples.{Triple, OnOk}
use bjorn2scan.Database.Success.{is_ok}
use bjorn2scan.Database.Rows.{IsQuiet}
use bjorn2scan.Database.Nodes.{update_node_status}
use bjorn2scan.Database.Grouping.{group_packages}
use bjorn2scan.Database.NodeRows.{NodeIs}
use bjorn2scan.Database.NodePackages.{HasSbom, with_key, store_node_sbom-HasSbom}
use bjorn2scan.Database.NodeMatches.{HasReport, store_node_vulnerabilities-HasReport}
use bjorn2scan.Database.NodeScans.{store_node_sbom, package_row}
use bjorn2scan.Database.NodeReports.{store_node_vulnerabilities}
use bjorn2scan.Database.NodeStores.{HasNode}
use bjorn2scan.Database.NodeSuccess.{store_node_sbom-ok, store_node_vulnerabilities-ok}
use bjorn2scan.Scanning.Queue.{HostScanJob}
use bjorn2scan.Scanning.Pipeline.{ScanResult, is_ready}
use bjorn2scan.Scanning.HostPipeline.{
  HostTools, built_text, after_report, store_scan, scan_ready, process_host_vulnerability_scan,
  after_sbom, store_host_sbom, retrieve_host_sbom, start_host_scan, check_host, with_retriever,
  process_host_job,
}
use bjorn2scan.Scanning.HostPipeline.Outcome.{update_node_status-NodeIs}

-- The packages of the artifacts and the vulnerabilities of the matches, both blobs, completed.
abbrev pub IsScannedNode :
    List (Option Artifact) → Bytes → List (Option Match) → Bytes → NodeRow → Type 0
IsScannedNode artifacts compressed matches report =
    HasReport (map package_row (group_packages artifacts)) (map with_key (group_packages artifacts))
      (some compressed) matches report

module _ (t : HostTools) (quiet : IsQuiet t.engine) (job : HostScanJob) (sbom_json : Bytes)
    (artifacts : List (Option Artifact)) (compressed : Bytes) (result : ScanResult)
    (matches : List (Option Match)) (report : Bytes)
    (read : t.engine.artifacts_of sbom_json ≡ ok artifacts)
    (packed : t.engine.gzip sbom_json ≡ ok compressed) (ready : is_ready t.readiness ≡ true)
    (scanned : t.grype sbom_json ≡ ok result)
    (matched : t.engine.matches_of result.vulnerability_json ≡ ok matches)
    (zipped : t.engine.gzip result.vulnerability_json ≡ ok report) where
  abbrev Scanned : Db → Type 0
  Scanned = NodeIs job.node_name (IsScannedNode artifacts compressed matches report)

  after_report-Scanned :
      (r : Result (Unit {0})) (db : Db)
      → is_ok r ≡ true
      → OnOk (λ _. Scanned) r db
      → Scanned (after_report t job.node_name r db).1
  after_report-Scanned (ok u) db h q = q
  after_report-Scanned (err x) db h q = ground (arith, h)

  store_scan-Scanned :
      Triple
        (NodeIs job.node_name (HasSbom artifacts compressed))
        (store_scan t job.node_name (ok result))
        (λ _. Scanned)
  store_scan-Scanned db (r, k, h) =
      let name = job.node_name in
      let built = built_text result.built in
      let m = store_node_vulnerabilities t.engine name result.vulnerability_json built in
      let (p, d, s, c) = h in
      after_report-Scanned (m db).0 (m db).1
        (store_node_vulnerabilities-ok t.engine quiet name result.vulnerability_json built matches
          report db (r, k, tt) matched zipped)
        (store_node_vulnerabilities-HasReport t.engine name built
          (map package_row (group_packages artifacts)) (map with_key (group_packages artifacts))
          (some compressed) result.vulnerability_json matches report r.vulnerabilities matched
          zipped db (r, k, (p, d, c, refl)))

  after_sbom-Scanned :
      (r : Result (Unit {0})) (db : Db)
      → is_ok r ≡ true
      → OnOk (λ _. NodeIs job.node_name (HasSbom artifacts compressed)) r db
      → Scanned (after_sbom t job sbom_json r db).1
  unfolding process_host_vulnerability_scan
  after_sbom-Scanned (ok u) db h q =
      subst (λ b. Scanned (scan_ready t job.node_name (some sbom_json) b db).1) (sym ready)
        (subst (λ o. Scanned (store_scan t job.node_name o db).1) (sym scanned)
          (store_scan-Scanned db q))
  after_sbom-Scanned (err x) db h q = ground (arith, h)

  store_host_sbom-Scanned :
      Triple (HasNode job.node_name) (store_host_sbom t job (ok sbom_json)) (λ _. Scanned)
  store_host_sbom-Scanned db k =
      let m = store_node_sbom t.engine job.node_name sbom_json in
      after_sbom-Scanned (m db).0 (m db).1
        (store_node_sbom-ok t.engine quiet job.node_name sbom_json artifacts compressed db k read
          packed)
        (store_node_sbom-HasSbom t.engine job.node_name sbom_json artifacts compressed db read
          packed)

  retrieve_host_sbom-Scanned :
      (retrieve : String → Result Bytes) (r : Result (Unit {0})) (db : Db)
      → retrieve job.node_name ≡ ok sbom_json
      → is_ok r ≡ true
      → HasNode job.node_name db
      → Scanned (retrieve_host_sbom t job retrieve r db).1
  retrieve_host_sbom-Scanned retrieve (err x) db e h k = ground (arith, h)
  retrieve_host_sbom-Scanned retrieve (ok u) db e h k =
      subst (λ o. Scanned (store_host_sbom t job o db).1) (sym e) (store_host_sbom-Scanned db k)

  start_host_scan-Scanned :
      (retrieve : String → Result Bytes)
      → retrieve job.node_name ≡ ok sbom_json
      → Triple (HasNode job.node_name) (start_host_scan t job retrieve) (λ _. Scanned)
  start_host_scan-Scanned retrieve e db k =
      let m = update_node_status t.engine job.node_name generating_sbom "" in
      let (done, k') =
        update_node_status-NodeIs t quiet job generating_sbom "" (λ r. Unit) (λ r. tt) db k in
      retrieve_host_sbom-Scanned retrieve (m db).0 (m db).1 e done k'

  -- Where the database, the retriever, the readers, gzip and grype all work, a forced host job ends
  -- with the node completed: its packages are the groups of the artifacts, its vulnerabilities those
  -- of the matches, and the compressed SBOM and report are stored, whatever the row held before.
  pub process_host_job-IsScanned :
      (retrieve : String → Result Bytes) (db : Db)
      → t.host_sbom_retriever ≡ some retrieve
      → retrieve job.node_name ≡ ok sbom_json
      → job.force_scan ≡ true
      → HasNode job.node_name db
      → NodeIs job.node_name
          (IsScannedNode artifacts compressed matches report)
          (process_host_job t job db).1
  unfolding process_host_job
  process_host_job-IsScanned retrieve db o e f k =
      subst (λ r. Scanned (with_retriever t job r db).1) (sym o)
        (subst (λ b. Scanned (check_host t job retrieve b db).1) (sym f)
          (start_host_scan-Scanned retrieve e db k))
