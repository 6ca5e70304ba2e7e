-- ===== src/Scanning/Pipeline/Isolation.antt =====
-- An image job of scanner-core/scanning/queue.go touches the row of its own image only, whatever
-- statements, tools and checks fail on the way.
use Prim.Native.String.{◌++◌ as str_append}
use bjorn2scan.Base.{
  ◌≡◌, ◌≢◌, String, Option, none, some, arith, Option-cases, Result-cases, inl, inr,
}
use bjorn2scan.Base.Maps.{get}
use bjorn2scan.Status.{Status, generating_sbom, sbom_failed, vuln_scan_failed}
use bjorn2scan.Database.Tables.{Bytes, Db}
use bjorn2scan.Database.Images.{get_image_status, update_status}
use bjorn2scan.Database.Blobs.{store_sbom, get_sbom, store_vulnerabilities}
use bjorn2scan.Database.Rows.{Spares, get_image_status-Spares, update_status-Spares}
use bjorn2scan.Database.Stores.{get_sbom-Spares, store_sbom-Spares, store_vulnerabilities-Spares}
use bjorn2scan.Scanning.Queue.{ScanJob}
use bjorn2scan.Scanning.Pipeline.{
  Tools, scan_and_store, scan_with_sbom, already_scanned, process_vulnerability_scan,
  status_or_empty, generate_sbom, reuse_sbom, process_job, fail_with,
}

module _ (k : String) (t : Tools) where
  fail_with-Spares :
      (d : String) (s : Status) (message : String) → k ≢ d → Spares k (fail_with t d s message)
  fail_with-Spares d s message h db = update_status-Spares k t.engine d s message h db

  scan_and_store-Spares : (d : String) (b : Bytes) → k ≢ d → Spares k (scan_and_store t d b)
  unfolding scan_and_store
  scan_and_store-Spares d b h db = elim (Result-cases (t.grype b)) [
    | inr (x, z) ↦ ground (arith, fail_with-Spares d vuln_scan_failed x h db)
    | inl (r, z) ↦
        let stored = store_vulnerabilities t.engine d r.vulnerability_json r.built db in
        let kept = store_vulnerabilities-Spares k t.engine d r.vulnerability_json r.built h db in
        elim (Option-cases stored.0) [
          | inl e ↦ ground (arith, kept)
          | inr (x, e) ↦ ground (arith, kept, fail_with-Spares d vuln_scan_failed x h stored.1)
        ]
  ]

  scan_with_sbom-Spares : (d : String) (o : Option Bytes) → k ≢ d → Spares k (scan_with_sbom t d o)
  unfolding scan_with_sbom
  scan_with_sbom-Spares d (some b) h db = scan_and_store-Spares d b h db
  scan_with_sbom-Spares d none h db =
      let read = get_sbom t.engine d db in
      let kept = get_sbom-Spares k t.engine d db in
      elim (Result-cases read.0) [
        | inl (b, e) ↦ ground (arith, kept, scan_and_store-Spares d b h read.1)
        | inr (x, e) ↦ ground (
          arith,
          kept,
          fail_with-Spares d vuln_scan_failed (str_append "SBOM not available: " x) h read.1,
        )
      ]

  already_scanned-Spares : (job : ScanJob) → Spares k (already_scanned t job)
  unfolding already_scanned
  already_scanned-Spares job db =
      ground (arith, get_image_status-Spares k t.engine job.image.digest db)

  process_vulnerability_scan-Spares :
      (job : ScanJob) (o : Option Bytes)
      → k ≢ job.image.digest
      → Spares k (process_vulnerability_scan t job o)
  unfolding process_vulnerability_scan
  process_vulnerability_scan-Spares job o h db = ground (
    arith,
    already_scanned-Spares job db,
    scan_with_sbom-Spares job.image.digest o h (already_scanned t job db).1,
  )

  generate_sbom-Spares : (job : ScanJob) → k ≢ job.image.digest → Spares k (generate_sbom t job)
  unfolding generate_sbom
  generate_sbom-Spares job h db =
      let d = job.image.digest in
      let marked = update_status t.engine d generating_sbom "" db in
      let kept = update_status-Spares k t.engine d generating_sbom "" h db in
      elim (Result-cases (t.sbom_retriever job.image job.node_name job.container_runtime)) [
        | inr (x, z) ↦ ground (arith, kept, fail_with-Spares d sbom_failed x h marked.1)
        | inl (b, z) ↦
            let stored = store_sbom t.engine d b marked.1 in
            let kept' = store_sbom-Spares k t.engine d b h marked.1 in
            elim (Option-cases stored.0) [
              | inl e ↦
                  ground
                    (arith, kept, kept', process_vulnerability_scan-Spares job (some b) h stored.1)
              | inr (x, e) ↦
                  ground (arith, kept, kept', fail_with-Spares d sbom_failed x h stored.1)
            ]
      ]

  reuse_sbom-Spares :
      (job : ScanJob) (s : Status) → k ≢ job.image.digest → Spares k (reuse_sbom t job s)
  unfolding reuse_sbom
  reuse_sbom-Spares job s h db = ground (arith, process_vulnerability_scan-Spares job none h db)

  process_job-Spares-ne : (job : ScanJob) → k ≢ job.image.digest → Spares k (process_job t job)
  unfolding process_job
  process_job-Spares-ne job h db =
      let read = get_image_status t.engine job.image.digest db in
      ground (
        arith,
        get_image_status-Spares k t.engine job.image.digest db,
        reuse_sbom-Spares job (status_or_empty read.0) h read.1,
        generate_sbom-Spares job h read.1,
      )

-- Processing a job leaves the row of every image but its own as it was, whatever statements of the
-- database fail and whatever the retriever, grype, gzip and the readiness check answer.
pub process_job-Spares :
    (t : Tools) (job : ScanJob) (k : String) (db : Db)
    → k ≢ job.image.digest
    → get k (process_job t job db).1.images ≡ get k db.images
process_job-Spares t job k db h = process_job-Spares-ne k t job h db
