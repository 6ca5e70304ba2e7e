-- ===== src/Scanning/HostPipeline/Outcome.antt =====
-- How a host job of scanner-core/scanning/queue.go ends where the database works.
use Prim.Native.String.{◌++◌ as str_append}
use bjorn2scan.Base.{
  ◌≡◌, refl, sym, ap, subst, String, Bool, true, false, ◌||◌, Option, none, some, Result, ok, err,
  arith, Bool-cases, inl, inr, ◌∙◌,
}
use bjorn2scan.Base.Maps.{get}
use bjorn2scan.Status.{Status, is_terminal, to_text, generating_sbom, sbom_failed, vuln_scan_failed}
use bjorn2scan.Database.Tables.{Bytes, NodeRow, Db, M, return}
use bjorn2scan.Database.Triples.{
  Triple, OnOk, OnEither, query-Triple, and_take-Triple, and_then-Triple,
}
use bjorn2scan.Database.Keeping.{Keeps, and_take-Keeps, query-Keeps}
use bjorn2scan.Database.Success.{is_ok, and_then-Succeeds}
use bjorn2scan.Database.Rows.{IsQuiet}
use bjorn2scan.Database.Nodes.{
  select_node, update_node_where, update_node_status, with_node_status, get_node_scan_status,
  node_status_text, status_text,
}
use bjorn2scan.Database.NodeRows.{NodeIs, NodeIs-OfTables, update_node_where-Triple}
use bjorn2scan.Database.NodeScans.{store_node_sbom, get_node_sbom, node_sbom}
use bjorn2scan.Database.NodeReports.{store_node_vulnerabilities}
use bjorn2scan.Database.NodeStores.{
  HasNode, IsCompleted, store_node_sbom-Keeps, store_node_vulnerabilities-Either,
}
use bjorn2scan.Database.NodeSuccess.{update_node_where-Runs}
use bjorn2scan.Scanning.Queue.{HostScanJob}
use bjorn2scan.Scanning.Pipeline.{ScanResult, is_ready}
use bjorn2scan.Scanning.HostPipeline.{
  HostTools, fail_node, built_text, after_report, store_scan, bytes_or_empty, scan_read, scan_sbom,
  scan_ready, process_host_vulnerability_scan, after_sbom, store_host_sbom, retrieve_host_sbom,
  start_host_scan, is_scanned, scan_unless, check_host, with_retriever, process_host_job,
}

-- A terminal status, or one that counts as scanned.
abbrev pub is_settled : Option Status → Bool
is_settled none = false
is_settled (some s) = is_terminal s || is_scanned (ok (to_text s))

abbrev pub IsSettled : NodeRow → Type 0
IsSettled r = is_settled r.status ≡ true

succeeded :
    {A : Type 0} (Q : Db → Type 0) (r : Result A) (db : Db)
    → is_ok r ≡ true
    → OnOk (λ _. Q) r db
    → Q db
succeeded Q (ok a) db h q = q
succeeded Q (err x) db h q = ground (arith, h)

module _ (t : HostTools) (quiet : IsQuiet t.engine) (job : HostScanJob) where
  abbrev Ends : M (Unit {0}) → Type 0
  Ends m = Triple (HasNode job.node_name) m (λ _. NodeIs job.node_name IsSettled)

  pub update_node_status-NodeIs :
      (s : Status) (message : String) (Q : NodeRow → Type 0)
      → ((r : NodeRow) → Q (with_node_status s message r))
      → Triple
          (HasNode job.node_name)
          (update_node_status t.engine job.node_name s message)
          (λ r db. (is_ok r ≡ true) × NodeIs job.node_name Q db)
  unfolding update_node_status
  update_node_status-NodeIs s message Q h db k =
      let name = job.node_name in
      let m = update_node_status t.engine name s message in
      let done =
        and_then-Succeeds "failed to update node status: "
          (update_node_where t.engine name (with_node_status s message)) (return (ok tt))
          (update_node_where-Runs t.engine quiet name (with_node_status s message)) (λ db. refl)
          db in
      (
        done,
        succeeded (NodeIs name Q) (m db).0 (m db).1 done (
            and_then-Triple (HasNode name) (NodeIs name Q) (λ _. NodeIs name Q)
              "failed to update node status: "
              (update_node_where t.engine name (with_node_status s message)) (return (ok tt))
              (update_node_where-Triple t.engine name (with_node_status s message) (λ r. Unit) Q
                (λ r u. h r))
              (λ db h. h) db k),
      )

  fail_node-Ends :
      (s : Status) (message : String)
      → is_terminal s ≡ true
      → Ends (fail_node t job.node_name s message)
  unfolding fail_node
  fail_node-Ends s message h db k =
      (update_node_status-NodeIs s message IsSettled (λ r. ground (arith, h)) db k).1

  after_report-Ends :
      (r : Result (Unit {0})) (db : Db)
      → OnEither (HasNode job.node_name) (NodeIs job.node_name IsCompleted) r db
      → NodeIs job.node_name IsSettled (after_report t job.node_name r db).1
  unfolding is_terminal
  after_report-Ends (ok u) db (r, k, c) = (r, k, ground (arith, c))
  after_report-Ends (err x) db k = fail_node-Ends vuln_scan_failed x refl db k

  store_scan-Ends : (o : Result ScanResult) → Ends (store_scan t job.node_name o)
  unfolding is_terminal
  store_scan-Ends (err x) = fail_node-Ends vuln_scan_failed x refl
  store_scan-Ends (ok result) = λ db k.
      let m =
        store_node_vulnerabilities t.engine job.node_name result.vulnerability_json
          (built_text result.built) in
      after_report-Ends (m db).0 (m db).1 (
        store_node_vulnerabilities-Either t.engine job.node_name result.vulnerability_json
          (built_text result.built) db k)

  scan_read-Ends : (o : Result (Option Bytes)) → Ends (scan_read t job.node_name o)
  unfolding is_terminal
  scan_read-Ends (err x) =
      fail_node-Ends vuln_scan_failed (str_append "SBOM not available: " x) refl
  scan_read-Ends (ok b) = store_scan-Ends (t.grype (bytes_or_empty b))

  get_node_sbom-HasNode : Keeps (HasNode job.node_name) (get_node_sbom t.engine job.node_name)
  unfolding get_node_sbom select_node
  get_node_sbom-HasNode =
      and_take-Keeps (HasNode job.node_name) "failed to get node SBOM: "
        (select_node t.engine job.node_name) (λ o. return (node_sbom t.engine o))
        (query-Keeps (HasNode job.node_name) t.engine (λ db. get job.node_name db.nodes)
          (NodeIs-OfTables job.node_name (λ r. Unit)))
        (λ o db h. h)

  scan_sbom-Ends : (o : Option Bytes) → Ends (scan_sbom t job.node_name o)
  scan_sbom-Ends (some b) = store_scan-Ends (t.grype b)
  scan_sbom-Ends none = λ db k.
      let m = get_node_sbom t.engine job.node_name in
      scan_read-Ends (m db).0 (m db).1 (get_node_sbom-HasNode db k)

  scan_ready-Ends : (o : Option Bytes) (b : Bool) → Ends (scan_ready t job.node_name o b)
  unfolding is_terminal
  scan_ready-Ends o true = scan_sbom-Ends o
  scan_ready-Ends o false = fail_node-Ends vuln_scan_failed _ refl

  after_sbom-Ends : (b : Bytes) (r : Result (Unit {0})) → Ends (after_sbom t job b r)
  unfolding is_terminal process_host_vulnerability_scan
  after_sbom-Ends b (err x) = fail_node-Ends sbom_failed x refl
  after_sbom-Ends b (ok u) = scan_ready-Ends (some b) (is_ready t.readiness)

  store_host_sbom-Ends : (o : Result Bytes) → Ends (store_host_sbom t job o)
  unfolding is_terminal
  store_host_sbom-Ends (err x) = fail_node-Ends sbom_failed x refl
  store_host_sbom-Ends (ok b) = λ db k.
      let m = store_node_sbom t.engine job.node_name b in
      after_sbom-Ends b (m db).0 (m db).1 (store_node_sbom-Keeps t.engine job.node_name b db k)

  retrieve_host_sbom-Ends :
      (retrieve : String → Result Bytes) (r : Result (Unit {0}))
      → is_ok r ≡ true
      → Ends (retrieve_host_sbom t job retrieve r)
  retrieve_host_sbom-Ends retrieve (err x) h = ground (arith, h)
  retrieve_host_sbom-Ends retrieve (ok u) h = store_host_sbom-Ends (retrieve job.node_name)

  start_host_scan-Ends : (retrieve : String → Result Bytes) → Ends (start_host_scan t job retrieve)
  start_host_scan-Ends retrieve db k =
      let m = update_node_status t.engine job.node_name generating_sbom "" in
      let (done, k') = update_node_status-NodeIs generating_sbom "" (λ r. Unit) (λ r. tt) db k in
      retrieve_host_sbom-Ends retrieve (m db).0 done (m db).1 k'

  -- The status that has been read is the one of the row.
  abbrev HasText : String → Db → Type 0
  HasText text = NodeIs job.node_name (λ r. status_text r.status ≡ text)

  settled_status :
      (o : Option Status) → is_scanned (ok (status_text o)) ≡ true → is_settled o ≡ true
  settled_status none h = ground (arith, h)
  settled_status (some s) h = ground (arith, h)

  scan_unless-Ends :
      (retrieve : String → Result Bytes) (r : Result String) (db : Db)
      → OnOk HasText r db
      → HasNode job.node_name db
      → NodeIs job.node_name IsSettled (scan_unless t job retrieve (is_scanned r) db).1
  scan_unless-Ends retrieve (err x) db h k = start_host_scan-Ends retrieve db k
  scan_unless-Ends retrieve (ok text) db (r, g, e) k = elim (Bool-cases (is_scanned (ok text))) [
    | inl h ↦
        subst (λ b. NodeIs job.node_name IsSettled (scan_unless t job retrieve b db).1) (sym h)
          (r, g, settled_status r.status (ap (λ v. is_scanned (ok v)) e ∙ h))
    | inr h ↦
        subst (λ b. NodeIs job.node_name IsSettled (scan_unless t job retrieve b db).1) (sym h)
          (start_host_scan-Ends retrieve db k)
  ]

  answer-HasText :
      (o : Option NodeRow) (db : Db)
      → HasNode job.node_name db × (get job.node_name db.nodes ≡ o)
      → HasText (node_status_text o) db
  answer-HasText none db ((r, k, u), e) = ground (arith, k, e)
  answer-HasText (some q) db (h, e) = (q, e, refl)

  get_node_scan_status-HasText :
      (db : Db)
      → HasNode job.node_name db
      → OnOk HasText
          (get_node_scan_status t.engine job.node_name db).0
          (get_node_scan_status t.engine job.node_name db).1
        × HasNode job.node_name (get_node_scan_status t.engine job.node_name db).1
  unfolding get_node_scan_status select_node
  get_node_scan_status-HasText db k =
      let name = job.node_name in
      (
        and_take-Triple (HasNode name) (λ o db. HasNode name db × (get name db.nodes ≡ o)) HasText
            "failed to get node scan status: " (select_node t.engine name)
            (λ o. return (ok (node_status_text o)))
            (query-Triple (HasNode name) (λ o db. HasNode name db × (get name db.nodes ≡ o))
              t.engine (λ db. get name db.nodes) (NodeIs-OfTables name (λ r. Unit))
              (λ db h. (h, refl)))
            answer-HasText db k,
        and_take-Keeps (HasNode name) "failed to get node scan status: " (select_node t.engine name)
            (λ o. return (ok (node_status_text o)))
            (query-Keeps (HasNode name) t.engine (λ db. get name db.nodes)
              (NodeIs-OfTables name (λ r. Unit)))
            (λ o db h. h) db k,
      )

  check_host-Ends :
      (retrieve : String → Result Bytes) (b : Bool) → Ends (check_host t job retrieve b)
  check_host-Ends retrieve true = start_host_scan-Ends retrieve
  check_host-Ends retrieve false = λ db k.
      let m = get_node_scan_status t.engine job.node_name in
      let (text, k') = get_node_scan_status-HasText db k in
      scan_unless-Ends retrieve (m db).0 (m db).1 text k'

  with_retriever-Ends : (o : Option (String → Result Bytes)) → Ends (with_retriever t job o)
  unfolding is_terminal
  with_retriever-Ends none = fail_node-Ends sbom_failed _ refl
  with_retriever-Ends (some retrieve) = check_host-Ends retrieve job.force_scan

-- Where no statement of the database fails, a processed host job ends with its node in a terminal
-- status, or in one that counts as scanned, whatever the status before, and whatever the retriever,
-- the reader of the SBOM, grype, gzip and the readiness check answer.
pub process_host_job-IsSettled :
    (t : HostTools) (job : HostScanJob) (db : Db)
    → IsQuiet t.engine
    → HasNode job.node_name db
    → NodeIs job.node_name IsSettled (process_host_job t job db).1
unfolding process_host_job
process_host_job-IsSettled t job db quiet k =
    with_retriever-Ends t quiet job t.host_sbom_retriever db k
