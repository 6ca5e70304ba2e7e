-- ===== src/Scanning/Pipeline/Recovery.antt =====
-- When an image job of scanner-core/scanning/queue.go succeeds, and an image that never recovers.
use Prim.Native.String.{◌++◌ as str_append}
use bjorn2scan.Base.{
  ◌≡◌, refl, ◌∙◌, String, str_eq, eq_iff, true, false, not, ◌||◌, List, [], ◌∷◌, none, some, ok,
  arith, Bool-cases, inl, inr,
}
use bjorn2scan.Base.Maps.{get}
use bjorn2scan.Status.{
  Status, completed, has_sbom, has_vulnerabilities, generating_sbom, vuln_scan_failed,
}
use bjorn2scan.Database.Tables.{Bytes, ImageRow, Db, M, ◌>>=◌, return}
use bjorn2scan.Database.Images.{get_image_status, update_status, with_status}
use bjorn2scan.Database.Blobs.{
  store_sbom, get_sbom, stored, is_complete_row, with_scan_blob, with_scan_done, grype_built,
}
use bjorn2scan.Database.Rows.{IsQuiet, get_image_status_quiet, update_status_quiet}
use bjorn2scan.Database.Stores.{get_sbom_quiet, store_sbom_quiet, store_vulnerabilities_quiet}
use bjorn2scan.Scanning.Queue.{ScanJob}
use bjorn2scan.Scanning.Pipeline.{
  Tools, ScanResult, scan_and_store, scan_with_sbom, already_scanned, is_ready,
  process_vulnerability_scan, generate_sbom, reuse_sbom, process_job,
}
use bjorn2scan.Scanning.Pipeline.Isolation.{process_job-Spares}
use bjorn2scan.Scanning.Pipeline.Outcome.{Leaves, already_scanned-row}

-- Scanned, with both blobs stored.
pub record IsScanned (sbom report : Bytes) (r : ImageRow) : Type 0 where
  pub done : r.status ≡ completed
  pub sbom_stored : r.sbom_compressed ≡ some sbom
  pub report_stored : r.vulnerabilities_compressed ≡ some report
  pub counts_as_complete : is_complete_row r ≡ true

scan_and_store-IsScanned :
    (t : Tools) (d : String) (b c v : Bytes) (res : ScanResult) (db : Db) (r : ImageRow)
    → IsQuiet t.engine
    → get d db.images ≡ some r
    → r.sbom_compressed ≡ some c
    → t.grype b ≡ ok res
    → t.engine.gzip res.vulnerability_json ≡ ok v
    → Leaves d (IsScanned c v) (scan_and_store t d b) db
unfolding scan_and_store is_complete_row
scan_and_store-IsScanned t d b c v res db r quiet h s z g =
    let (done, now, row) =
      store_vulnerabilities_quiet t.engine d res.vulnerability_json v res.built db r quiet h g in
    (
      with_scan_blob v (
          with_scan_done now (grype_built (t.engine.built_in_json res.vulnerability_json) res.built)
            r),
      ground arith,
      record {
        done = refl;
        sbom_stored = s;
        report_stored = refl;
        counts_as_complete = ground arith;
      },
    )

-- Where the database, the retriever, gzip and grype all work, a job for an image with a row whose
-- status is one without an SBOM ends with the image completed, the retrieved SBOM and grype's report
-- stored, and counted as complete.
pub process_job-IsScanned :
    (t : Tools) (job : ScanJob) (b c v : Bytes) (res : ScanResult) (db : Db) (r : ImageRow)
    → IsQuiet t.engine
    → is_ready t.readiness ≡ true
    → get job.image.digest db.images ≡ some r
    → has_sbom r.status ≡ false
    → t.sbom_retriever job.image job.node_name job.container_runtime ≡ ok b
    → t.engine.gzip b ≡ ok c
    → t.grype b ≡ ok res
    → t.engine.gzip res.vulnerability_json ≡ ok v
    → Leaves job.image.digest (IsScanned c v) (process_job t job) db
unfolding process_job generate_sbom process_vulnerability_scan scan_with_sbom has_vulnerabilities
process_job-IsScanned t job b c v res db r quiet ready h fresh got zb zg zv =
    let d = job.image.digest in
    let (read, row) = get_image_status_quiet t.engine d db r quiet h in
    let db₁ = (get_image_status t.engine d db).1 in
    let (marked, row₁) = update_status_quiet t.engine d generating_sbom "" db₁ r quiet row in
    let db₂ = (update_status t.engine d generating_sbom "" db₁).1 in
    let (done, now, row₂) = store_sbom_quiet t.engine d b c db₂ _ quiet row₁ zb in
    let db₃ = (store_sbom t.engine d b db₂).1 in
    let (again, row₃) = already_scanned-row t quiet ready job db₃ _ row₂ in
    let (r', row', end) =
      scan_and_store-IsScanned t d b c v res (already_scanned t job db₃).1 _ quiet row₃ refl zg
        zv in
    (r', ground arith, end)

-- The status claims an SBOM that the row does not hold.
pub record IsLost (r : ImageRow) : Type 0 where
  pub claims_sbom : has_sbom r.status ≡ true
  pub no_blob : r.sbom_compressed ≡ none
  pub no_text : r.sbom ≡ none

scan_with_sbom-IsLost :
    (t : Tools) (d : String) (db : Db) (r : ImageRow)
    → IsQuiet t.engine
    → get d db.images ≡ some r
    → IsLost r
    → Leaves d IsLost (scan_with_sbom t d none) db
unfolding scan_with_sbom stored has_sbom
scan_with_sbom-IsLost t d db r quiet h v =
    let (read, row) = get_sbom_quiet t.engine d db r quiet h in
    let db₁ = (get_sbom t.engine d db).1 in
    let message = str_append "SBOM not available: " "SBOM not available" in
    let (failed, row₁) = update_status_quiet t.engine d vuln_scan_failed message db₁ r quiet row in
    (
      with_status vuln_scan_failed message (t.engine.now db₁.statements) r,
      ground arith,
      record { claims_sbom = refl; no_blob = v.no_blob; no_text = v.no_text },
    )

process_vulnerability_scan-IsLost :
    (t : Tools) (job : ScanJob) (db : Db) (r : ImageRow)
    → IsQuiet t.engine
    → is_ready t.readiness ≡ true
    → get job.image.digest db.images ≡ some r
    → IsLost r
    → Leaves job.image.digest IsLost (process_vulnerability_scan t job none) db
unfolding process_vulnerability_scan
process_vulnerability_scan-IsLost t job db r quiet ready h v =
    let (done, row) = already_scanned-row t quiet ready job db r h in
    elim (Bool-cases (already_scanned t job db).0) [
      | inl e ↦ (r, ground arith, v)
      | inr e ↦
          let (r', row', lost) =
            scan_with_sbom-IsLost t job.image.digest (already_scanned t job db).1 r quiet row v in
          (r', ground arith, lost)
    ]

reuse_sbom-IsLost :
    (t : Tools) (job : ScanJob) (s : Status) (db : Db) (r : ImageRow)
    → IsQuiet t.engine
    → get job.image.digest db.images ≡ some r
    → IsLost r
    → Leaves job.image.digest IsLost (reuse_sbom t job s) db
unfolding reuse_sbom process_vulnerability_scan
reuse_sbom-IsLost t job s db r quiet h v = elim (Bool-cases (is_ready t.readiness)) [
  | inl ready ↦
      let (r', row', lost) = process_vulnerability_scan-IsLost t job db r quiet ready h v in
      elim (Bool-cases (job.force_scan || not (has_vulnerabilities s))) [
        | inl e ↦ (r', ground arith, lost)
        | inr e ↦ (r, ground arith, v)
      ]
  | inr not_ready ↦ (r, ground arith, v)
]

process_job-IsLost :
    (t : Tools) (job : ScanJob) (db : Db) (r : ImageRow)
    → IsQuiet t.engine
    → get job.image.digest db.images ≡ some r
    → IsLost r
    → Leaves job.image.digest IsLost (process_job t job) db
unfolding process_job
process_job-IsLost t job db r quiet h v =
    let (read, row) = get_image_status_quiet t.engine job.image.digest db r quiet h in
    let (r', row', lost) =
      reuse_sbom-IsLost t job r.status (get_image_status t.engine job.image.digest db).1 r quiet row
        v in
    (r', ground (arith, v.claims_sbom), lost)

-- The worker's image jobs, one after the other.
unfoldable pub process_jobs : Tools → List ScanJob → M (Unit {0})
process_jobs t [] = return tt
process_jobs t (job ∷ jobs) = do u ← process_job t job; process_jobs t jobs

-- An image whose status claims an SBOM that is not stored never gets one: whatever jobs are
-- processed, for it or for others, forced or not, and whatever the retriever would have returned,
-- its row still claims an SBOM and holds none, although no statement of the database fails.
pub process_jobs-IsLost :
    (t : Tools) (jobs : List ScanJob) (d : String) (db : Db) (r : ImageRow)
    → IsQuiet t.engine
    → get d db.images ≡ some r
    → IsLost r
    → Leaves d IsLost (process_jobs t jobs) db
unfolding process_jobs
process_jobs-IsLost t [] d db r quiet h v = (r, h, v)
process_jobs-IsLost t (job ∷ jobs) d db r quiet h v =
    elim (Bool-cases (str_eq d job.image.digest)) [
      | inl same ↦
          let e : d ≡ job.image.digest = (eq_iff d job.image.digest).0 same in
          let (r', row', lost) = process_job-IsLost t job db r quiet (rw e at h) v in
          process_jobs-IsLost t jobs d (process_job t job db).1 r' quiet (rw e row') lost
      | inr differ ↦
          process_jobs-IsLost t jobs d (process_job t job db).1 r quiet
            (process_job-Spares t job d db (λ e. ground (arith, eq_iff d job.image.digest)) ∙ h) v
    ]
