-- ===== src/Jobs/Stuck.antt =====
-- What the rescan-database job of scanner-core/jobs/rescan_database_job.go does for a stuck image.
use bjorn2scan.Base.{
  suc, ◌≡◌, refl, sym, ap, subst, ◌∙◌, String, Bool, true, false, ◌&&◌, List, [], ◌∷◌, none, some,
  Result, ok, err, arith, holds, keys, Distinct, All, All-append,
}
use bjorn2scan.Base.Maps.{get}
use bjorn2scan.Database.Tables.{Engine, ImageRow, Db, return, go_with}
use bjorn2scan.Database.Success.{query-quiet}
use bjorn2scan.Database.Blobs.{has_blob}
use bjorn2scan.Database.Rows.{IsQuiet}
use bjorn2scan.Database.Maintenance.{
  in_transit, update_all, update_images, update_nodes, update_both, reap_image, reap_stuck_scans,
}
use bjorn2scan.Database.Reconcile.{has_container}
use bjorn2scan.Scanning.Queue.{ScanJob, HostScanJob}
use bjorn2scan.Scanning.Pipeline.Repair.{get-update_all}
use bjorn2scan.Jobs.Rescan.{
  is_stale, needs_rescan, needing, reverse, get_images_needing_rescan, force_scans, rescan_nodes,
  Version, Updater, with_hosts, rescan_hosts, rescan_images, rescan_with, rescan_checked,
  run_rescan,
}
use bjorn2scan.Jobs.Needing.{
  digests, keys-update_all, holds-reverse, needing-holds, needing-has_container,
  force_scans-digests, needs_rescan-reap_image,
}

-- The tables behind the reaper.
abbrev reaped : (String → Bool) → Db → List (String × ImageRow)
reaped old db = update_all (λ k x. in_transit x.status && old k) reap_image db.images

reap_tables :
    (old_node old_image : String → Bool) (e : Engine) (db : Db)
    → IsQuiet e
    → ((reap_stuck_scans old_node old_image e db).1.images ≡ reaped old_image db)
      × ((reap_stuck_scans old_node old_image e db).1.containers ≡ db.containers)
unfolding reap_stuck_scans update_both update_nodes update_images
reap_tables old_node old_image e db quiet = (
  ground (arith, quiet db.statements, quiet (suc db.statements)),
  ground (arith, quiet db.statements, quiet (suc db.statements)),
)

-- The requests of the job for the images.
with_hosts-scans :
    (jobs : List ScanJob) (o : Result (List HostScanJob)) → (with_hosts jobs o).scans ≡ jobs
with_hosts-scans jobs (ok hosts) = refl
with_hosts-scans jobs (err x) = refl

rescan_hosts-scans :
    (e : Engine) (b : Bool) (v : Version) (jobs : List ScanJob) (db : Db)
    → (rescan_hosts e b v jobs db).0.scans ≡ jobs
rescan_hosts-scans e false v jobs db = refl
rescan_hosts-scans e true v jobs db = with_hosts-scans jobs (rescan_nodes e v.built db).0

-- The images that a query finds, and the requests for them.
rescan_images-digests :
    (e : Engine) (b : Bool) (v : Version) (ds : List String) (db : Db)
    → IsQuiet e
    → All (λ d. has_container d db.containers ≡ true) ds
    → digests (rescan_images e b v (ok ds) db).0.scans ≡ ds
rescan_images-digests e b v ds db quiet a =
    ap digests (rescan_hosts-scans e b v (force_scans e ds db).0 (force_scans e ds db).1)
    ∙ force_scans-digests e ds db quiet a

All-reverse : (P : String → Type 0) (ds : List String) → All P ds → All P (reverse ds)
unfolding reverse
All-reverse P [] a = tt
All-reverse P (d ∷ ds) a = All-append P (reverse ds) (d ∷ []) (All-reverse P ds a.1) (a.0, tt)

get_images_quiet :
    (e : Engine) (current : String) (db : Db)
    → IsQuiet e
    → get_images_needing_rescan e (some current) db ≡ (
      ok (reverse (needing current db.containers db.images)),
      record db { statements = suc db.statements },
    )
unfolding get_images_needing_rescan
get_images_quiet e current db quiet =
    ap (λ p. go_with "failed to query images needing rescan: " (λ ds. return (ok ds)) p.0 p.1)
      (query-quiet e quiet (λ db. reverse (needing current db.containers db.images)) db)

rescan_with-digests :
    (e : Engine) (b : Bool) (v : Version) (current : String) (db : Db)
    → IsQuiet e
    → v.built_utc ≡ some current
    → digests (rescan_with e b (some v) db).0.scans
      ≡ reverse (needing current db.containers db.images)
rescan_with-digests e b v current db quiet h =
    let ds = needing current db.containers db.images in
    ap
      (λ t.
        digests
          (rescan_images e b v (get_images_needing_rescan e t db).0
            (get_images_needing_rescan e t db).1).0.scans)
      h
    ∙ ap (λ p. digests (rescan_images e b v p.0 p.1).0.scans) (get_images_quiet e current db quiet)
    ∙ rescan_images-digests e b v (reverse ds) (record db { statements = suc db.statements }) quiet
        (All-reverse (λ d. has_container d db.containers ≡ true) ds
          (needing-has_container current db.containers db.images))

-- Which stuck images the job rescues: where no statement fails, digests are unique, the update check
-- succeeds and gives a database of a known time, an image with a container that has been in progress
-- for too long is asked for exactly if its SBOM is stored and its last report is missing or from an
-- older database.
pub run_rescan-stuck :
    (old_node old_image : String → Bool) (e : Engine) (b : Bool) (u : Updater) (v : Version)
    (current d : String) (db : Db) (r : ImageRow)
    → IsQuiet e
    → Distinct (keys db.images)
    → get d db.images ≡ some r
    → in_transit r.status ≡ true
    → old_image d ≡ true
    → has_container d db.containers ≡ true
    → u.check ≡ none
    → u.current ≡ some v
    → v.built_utc ≡ some current
    → holds d (digests (run_rescan old_node old_image e b u db).0.scans)
      ≡ (has_blob r.sbom_compressed r.sbom && is_stale current r.grype_db_built)
unfolding run_rescan
run_rescan-stuck old_node old_image e b u v current d db r quiet unique h transit old run checked
      version built =
    let db₁ = (reap_stuck_scans old_node old_image e db).1 in
    let (images, containers) = reap_tables old_node old_image e db quiet in
    let row =
      get-update_all (λ k x. in_transit x.status && old_image k) reap_image d db.images r h in
    ap (λ o. holds d (digests (rescan_checked e b u o db₁).0.scans)) checked
    ∙ ap (λ o. holds d (digests (rescan_with e b o db₁).0.scans)) version
    ∙ ap (holds d) (rescan_with-digests e b v current db₁ quiet built)
    ∙ holds-reverse d (needing current db₁.containers db₁.images)
    ∙ ap (λ js. holds d (needing current db₁.containers js)) images
    ∙ ap (λ ks. holds d (needing current ks (reaped old_image db))) containers
    ∙ needing-holds current d db.containers (reaped old_image db) (reap_image r)
        (subst Distinct (sym (keys-update_all _ reap_image db.images)) unique)
        (ground (arith, row, transit, old))
    ∙ ap (λ x. x && needs_rescan current (reap_image r)) run
    ∙ needs_rescan-reap_image current r
