-- ===== src/Scanning/Pipeline/Repair.antt =====
-- What scanner-core/database/db.go does for a scan that was interrupted, and for one that is stuck.
use bjorn2scan.Base.{
  ◌&&◌, suc, ◌≡◌, refl, String, Bool, true, List, [], ◌∷◌, none, some, ok, eq_iff, arith,
  if◌then◌else◌,
}
use bjorn2scan.Base.Maps.{get}
use bjorn2scan.Database.Tables.{Bytes, Engine, ImageRow, NodeRow, Db}
use bjorn2scan.Database.Maintenance.{
  in_transit, update_all, update_images, update_nodes, update_both, reset_interrupted_scans,
  reap_stuck_scans, reset_node, reset_image, reap_node, reap_image, node_in_transit,
}
use bjorn2scan.Database.Rows.{IsQuiet}
use bjorn2scan.Status.{has_sbom, generating_sbom}
use bjorn2scan.Scanning.Queue.{ScanJob}
use bjorn2scan.Scanning.Pipeline.{Tools, process_job, is_ready, ScanResult}
use bjorn2scan.Scanning.Pipeline.Outcome.{Leaves}
use bjorn2scan.Scanning.Pipeline.Recovery.{
  IsLost, IsScanned, process_jobs, process_jobs-IsLost, process_job-IsScanned,
}

pub get-update_all {ℓ} :
    {R : Type ℓ} (p : String → R → Bool) (f : R → R) (k : String) (rs : List (String × R)) (r : R)
    → get k rs ≡ some r
    → get k (update_all p f rs) ≡ some (if p k r then f r else r)
unfolding update_all
get-update_all p f k [] r h = cc
get-update_all p f k ((j, x) ∷ rs) r h = ground (arith, eq_iff j k, get-update_all p f k rs r)

update_both_quiet :
    (e : Engine) (p : String → NodeRow → Bool) (f : NodeRow → NodeRow)
    (q : String → ImageRow → Bool) (g : ImageRow → ImageRow) (message d : String) (db : Db)
    (r : ImageRow)
    → IsQuiet e
    → get d db.images ≡ some r
    → get d (update_both e p f q g message db).1.images ≡ some (if q d r then g r else r)
unfolding update_both update_nodes update_images
update_both_quiet e p f q g message d db r quiet h =
    ground
      (arith, quiet db.statements, quiet (suc db.statements), get-update_all q g d db.images r h)

-- A scan that the end of the program interrupted is repaired: where no statement fails and the
-- vulnerability database is ready, after `ResetInterruptedScans` a job for an image that was in
-- progress, with or without its SBOM, ends with the image completed and both its SBOM and its report
-- stored, where the retriever, gzip and grype work.
pub reset_interrupted_scans-IsScanned :
    (t : Tools) (job : ScanJob) (b c v : Bytes) (res : ScanResult) (db : Db) (r : ImageRow)
    → IsQuiet t.engine
    → is_ready t.readiness ≡ true
    → get job.image.digest db.images ≡ some r
    → in_transit r.status ≡ true
    → t.sbom_retriever job.image job.node_name job.container_runtime ≡ ok b
    → t.engine.gzip b ≡ ok c
    → t.grype b ≡ ok res
    → t.engine.gzip res.vulnerability_json ≡ ok v
    → Leaves job.image.digest
        (IsScanned c v)
        (process_job t job)
        (reset_interrupted_scans t.engine db).1
unfolding reset_interrupted_scans has_sbom
reset_interrupted_scans-IsScanned t job b c v res db r quiet ready h transit got zb zg zv =
    let row =
      update_both_quiet t.engine (λ k x. node_in_transit x.status) reset_node
        (λ k x. in_transit x.status) reset_image "reset interrupted" job.image.digest db r quiet
        h in
    process_job-IsScanned t job b c v res (reset_interrupted_scans t.engine db).1 (reset_image r)
      quiet ready (ground (arith, row, transit)) refl got zb zg zv

-- The reaper loses an image whose SBOM was still being retrieved: where no statement fails, an old
-- image in generating_sbom without a stored SBOM is, after `ReapStuckScans` and whatever jobs are
-- processed, left with a status that claims an SBOM, and without one.
pub reap_stuck_scans-IsLost :
    (t : Tools) (jobs : List ScanJob) (old_node old_image : String → Bool) (d : String) (db : Db)
    (r : ImageRow)
    → IsQuiet t.engine
    → get d db.images ≡ some r
    → r.status ≡ generating_sbom
    → old_image d ≡ true
    → r.sbom_compressed ≡ none
    → r.sbom ≡ none
    → Leaves d IsLost (process_jobs t jobs) (reap_stuck_scans old_node old_image t.engine db).1
unfolding reap_stuck_scans has_sbom
reap_stuck_scans-IsLost t jobs old_node old_image d db r quiet h generating old blob text =
    let row =
      update_both_quiet t.engine (λ k x. node_in_transit x.status && old_node k) reap_node
        (λ k x. in_transit x.status && old_image k) reap_image "reap stuck" d db r quiet h in
    process_jobs-IsLost t jobs d (reap_stuck_scans old_node old_image t.engine db).1 (reap_image r)
      quiet (ground (arith, row, generating, old))
      (record { claims_sbom = refl; no_blob = blob; no_text = text })
