-- ===== src/Scanning/Pipeline/Outcome.antt =====
-- How an image job of scanner-core/scanning/queue.go ends where the database works: no statement
-- fails, and the readiness check, if there is one, says yes.
use Prim.Native.String.{◌++◌ as str_append}
use bjorn2scan.Base.{
  ◌≡◌, refl, String, true, not, ◌&&◌, ◌||◌, Option, none, some, arith, Result-cases, Bool-cases,
  inl, inr,
}
use bjorn2scan.Base.Maps.{get}
use bjorn2scan.Status.{
  Status, has_sbom, has_vulnerabilities, is_terminal, generating_sbom, sbom_failed,
  vuln_scan_failed,
}
use bjorn2scan.Database.Tables.{Bytes, ImageRow, Db, M}
use bjorn2scan.Database.Images.{get_image_status, update_status}
use bjorn2scan.Database.Blobs.{
  store_sbom, get_sbom, store_vulnerabilities, with_scan_blob, with_scan_done, grype_built,
}
use bjorn2scan.Database.Rows.{IsQuiet, get_image_status_quiet, update_status_quiet}
use bjorn2scan.Database.Stores.{
  get_sbom_quiet, store_sbom_quiet, store_sbom_refused, store_vulnerabilities_quiet,
  store_vulnerabilities_refused,
}
use bjorn2scan.Scanning.Queue.{ScanJob}
use bjorn2scan.Scanning.Pipeline.{
  Tools, scan_and_store, scan_with_sbom, already_scanned, is_ready, process_vulnerability_scan,
  generate_sbom, reuse_sbom, process_job, fail_with,
}

-- The program leaves a row of `d` with the property.
abbrev pub Leaves : String → (ImageRow → Type 0) → M (Unit {0}) → Db → Type 0
Leaves d P m db = (r : ImageRow) × (get d (m db).1.images ≡ some r) × P r

abbrev pub HasTerminal : ImageRow → Type 0
HasTerminal r = is_terminal r.status ≡ true

module _ (t : Tools) (quiet : IsQuiet t.engine) (d : String) where
  fail_with-HasTerminal :
      (s : Status) (message : String) (db : Db) (r : ImageRow)
      → get d db.images ≡ some r
      → is_terminal s ≡ true
      → Leaves d HasTerminal (fail_with t d s message) db
  fail_with-HasTerminal s message db r h e =
      (_, (update_status_quiet t.engine d s message db r quiet h).1, e)

  scan_and_store-HasTerminal :
      (b : Bytes) (db : Db) (r : ImageRow)
      → get d db.images ≡ some r
      → Leaves d HasTerminal (scan_and_store t d b) db
  unfolding scan_and_store is_terminal
  scan_and_store-HasTerminal b db r h = elim (Result-cases (t.grype b)) [
    | inr (x, z) ↦
        let (r', row, end) = fail_with-HasTerminal vuln_scan_failed x db r h refl in
        (r', ground arith, end)
    | inl (res, z) ↦ elim (Result-cases (t.engine.gzip res.vulnerability_json)) [
      | inl (c, g) ↦
          let (done, now, row) =
            store_vulnerabilities_quiet t.engine d res.vulnerability_json c res.built db r quiet h
              g in
          (
            with_scan_blob c (
                with_scan_done now
                  (grype_built (t.engine.built_in_json res.vulnerability_json) res.built) r),
            ground arith,
            refl,
          )
      | inr (x, g) ↦
          let (refused, row) =
            store_vulnerabilities_refused t.engine d res.vulnerability_json x res.built db r quiet h
              g in
          let (r', row', end) =
            fail_with-HasTerminal vuln_scan_failed
              (str_append "failed to compress vulnerability JSON: " x)
              (store_vulnerabilities t.engine d res.vulnerability_json res.built db).1 r row refl in
          (r', ground arith, end)
    ]
  ]

  scan_with_sbom-HasTerminal :
      (o : Option Bytes) (db : Db) (r : ImageRow)
      → get d db.images ≡ some r
      → Leaves d HasTerminal (scan_with_sbom t d o) db
  unfolding scan_with_sbom is_terminal
  scan_with_sbom-HasTerminal (some b) db r h = scan_and_store-HasTerminal b db r h
  scan_with_sbom-HasTerminal none db r h =
      let (read, row) = get_sbom_quiet t.engine d db r quiet h in
      elim (Result-cases (get_sbom t.engine d db).0) [
        | inl (b, e) ↦
            let (r', row', end) = scan_and_store-HasTerminal b (get_sbom t.engine d db).1 r row in
            (r', ground arith, end)
        | inr (x, e) ↦
            let (r', row', end) =
              fail_with-HasTerminal vuln_scan_failed (str_append "SBOM not available: " x)
                (get_sbom t.engine d db).1 r row refl in
            (r', ground arith, end)
      ]

module _ (t : Tools) (quiet : IsQuiet t.engine) (ready : is_ready t.readiness ≡ true)
    (job : ScanJob) where
  pub already_scanned-row :
      (db : Db) (r : ImageRow)
      → get job.image.digest db.images ≡ some r
      → ((already_scanned t job db).0 ≡ (not job.force_scan && has_vulnerabilities r.status))
        × (get job.image.digest (already_scanned t job db).1.images ≡ some r)
  unfolding already_scanned
  already_scanned-row db r h =
      ground (arith, get_image_status_quiet t.engine job.image.digest db r quiet h)

  has_vulnerabilities-terminal : (s : Status) → has_vulnerabilities s ≡ true → is_terminal s ≡ true
  unfolding has_vulnerabilities is_terminal
  has_vulnerabilities-terminal s e = ground arith

  process_vulnerability_scan-HasTerminal :
      (o : Option Bytes) (db : Db) (r : ImageRow)
      → get job.image.digest db.images ≡ some r
      → Leaves job.image.digest HasTerminal (process_vulnerability_scan t job o) db
  unfolding process_vulnerability_scan
  process_vulnerability_scan-HasTerminal o db r h =
      let (done, row) = already_scanned-row db r h in
      elim (Bool-cases (already_scanned t job db).0) [
        | inl e ↦ (r, ground arith, has_vulnerabilities-terminal r.status (ground arith))
        | inr e ↦
            let (r', row', end) =
              scan_with_sbom-HasTerminal t quiet job.image.digest o (already_scanned t job db).1 r
                row in
            (r', ground arith, end)
      ]

  generate_sbom-HasTerminal :
      (db : Db) (r : ImageRow)
      → get job.image.digest db.images ≡ some r
      → Leaves job.image.digest HasTerminal (generate_sbom t job) db
  unfolding generate_sbom is_terminal
  generate_sbom-HasTerminal db r h =
      let d = job.image.digest in
      let (marked, row) = update_status_quiet t.engine d generating_sbom "" db r quiet h in
      let db₁ = (update_status t.engine d generating_sbom "" db).1 in
      elim (Result-cases (t.sbom_retriever job.image job.node_name job.container_runtime)) [
        | inr (x, z) ↦
            let (r', row', end) = fail_with-HasTerminal t quiet d sbom_failed x db₁ _ row refl in
            (r', ground arith, end)
        | inl (b, z) ↦ elim (Result-cases (t.engine.gzip b)) [
          | inl (c, g) ↦
              let (done, now, row') = store_sbom_quiet t.engine d b c db₁ _ quiet row g in
              let (r', row'', end) =
                process_vulnerability_scan-HasTerminal (some b) (store_sbom t.engine d b db₁).1 _
                  row' in
              (r', ground arith, end)
          | inr (x, g) ↦
              let (refused, row') = store_sbom_refused t.engine d b x db₁ _ quiet row g in
              let (r', row'', end) =
                fail_with-HasTerminal t quiet d sbom_failed
                  (str_append "failed to compress SBOM: " x) (store_sbom t.engine d b db₁).1 _ row'
                  refl in
              (r', ground arith, end)
        ]
      ]

  reuse_sbom-HasTerminal :
      (db : Db) (r : ImageRow)
      → get job.image.digest db.images ≡ some r
      → Leaves job.image.digest HasTerminal (reuse_sbom t job r.status) db
  unfolding reuse_sbom
  reuse_sbom-HasTerminal db r h =
      elim (Bool-cases (job.force_scan || not (has_vulnerabilities r.status))) [
        | inl e ↦
            let (r', row', end) = process_vulnerability_scan-HasTerminal none db r h in
            (r', ground arith, end)
        | inr e ↦ (r, ground arith, has_vulnerabilities-terminal r.status (ground arith))
      ]

-- Where no statement of the database fails and the vulnerability database is ready, a processed job
-- ends with its image in a terminal status, whatever the status before and whatever the retriever,
-- grype and gzip answer: no image is left in progress.
pub process_job-HasTerminal :
    (t : Tools) (job : ScanJob) (db : Db) (r : ImageRow)
    → IsQuiet t.engine
    → is_ready t.readiness ≡ true
    → get job.image.digest db.images ≡ some r
    → Leaves job.image.digest HasTerminal (process_job t job) db
unfolding process_job
process_job-HasTerminal t job db r quiet ready h =
    let (read, row) = get_image_status_quiet t.engine job.image.digest db r quiet h in
    let db₁ = (get_image_status t.engine job.image.digest db).1 in
    elim (Bool-cases (has_sbom r.status)) [
      | inl e ↦
          let (r', row', end) = reuse_sbom-HasTerminal t quiet ready job db₁ r row in
          (r', ground arith, end)
      | inr e ↦
          let (r', row', end) = generate_sbom-HasTerminal t quiet ready job db₁ r row in
          (r', ground arith, end)
    ]
