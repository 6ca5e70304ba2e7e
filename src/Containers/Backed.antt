-- ===== src/Containers/Backed.antt =====
-- The container manager of scanner-core/containers/manager.go on the database of
-- scanner-core/database.
use bjorn2scan.Base.{
  entries, map_entries, ◌≡◌, refl, String, Bool, true, false, List, [], ◌∷◌, sym, ap, ◌∙◌, subst,
  keys, Distinct, ◌++◌, map, Option, none, some, Result, ok, err, arith, Option-cases, inl, inr,
  first_occurrences, not_empty,
}
use bjorn2scan.Base.Maps.{get}
use bjorn2scan.Container.{Container}
use bjorn2scan.Containers.Store.{Store, ReconciliationStats}
use bjorn2scan.Containers.Manager.{Manager, set_containers}
use bjorn2scan.Containers.Requests.{IsReading, mark, digest_of, wanted, set_containers-wanted}
use bjorn2scan.Database.Tables.{Engine, ImageRow, Db}
use bjorn2scan.Database.Images.{get_image_status, select_row}
use bjorn2scan.Database.Blobs.{
  ScanStatus, pending_scan, scanning, scanned, failed, scan_status, get_image_scan_status,
  is_complete_row, is_scan_data_complete,
}
use bjorn2scan.Database.Answers.{bulk_query_lem}
use bjorn2scan.Containers.Resume.{IsReadingBulk}
use bjorn2scan.Database.Bulk.{answer, get_image_scan_status_bulk, is_scan_data_complete_bulk}
use bjorn2scan.Database.Rows.{IsQuiet}
use bjorn2scan.Database.Instances as Instances
use bjorn2scan.Database.Reconcile as Reconcile

-- The texts of the old scan status.
abbrev pub scan_text : ScanStatus → String
scan_text pending_scan = "pending"
scan_text scanning = "scanning"
scan_text scanned = "scanned"
scan_text failed = "failed"

abbrev pub texts : Result ScanStatus → Result String
texts (ok s) = ok (scan_text s)
texts (err x) = err x

abbrev pub all_texts : Result (List (String × ScanStatus)) → Result (List (String × String))
all_texts (ok m) = ok (map (λ e. (e.0, scan_text e.1)) m)
all_texts (err x) = err x

-- The database as the manager's store.
abbrev pub database : Engine → Store
database e = record {
  State = Db;
  add_container = λ c. Instances.add_container e c;
  remove_container = λ id. Instances.remove_container e id;
  set_containers = λ cs. Reconcile.set_containers e cs;
  get_image_scan_status =
      λ d db. (texts (get_image_scan_status e d db).0, (get_image_scan_status e d db).1);
  get_image_scan_status_bulk = λ ds db.
      (all_texts (get_image_scan_status_bulk e ds db).0, (get_image_scan_status_bulk e ds db).1);
  is_scan_data_complete = λ d. is_scan_data_complete e d;
  is_scan_data_complete_bulk = λ ds. is_scan_data_complete_bulk e ds;
}

-- What the table says of an image.
abbrev pub table_status : Option ImageRow → String
table_status none = "pending"
table_status (some r) = scan_text (scan_status r.status)

abbrev pub table_complete : Option ImageRow → Bool
table_complete none = false
table_complete (some r) = is_complete_row r

reads_status_lem :
    (e : Engine) (d : String) (images : List (String × ImageRow)) (db : Db)
    → IsQuiet e
    → db.images ≡ images
    → (texts (get_image_scan_status e d db).0 ≡ ok (table_status (get d images)))
      × ((get_image_scan_status e d db).1.images ≡ images)
unfolding get_image_scan_status get_image_status select_row scan_status
reads_status_lem e d images db quiet h = elim (Option-cases (get d images)) [
  | inl z ↦ (ground (arith, quiet db.statements), ground (arith, quiet db.statements))
  | inr (r, z) ↦ (ground (arith, quiet db.statements), ground (arith, quiet db.statements))
]

reads_complete_lem :
    (e : Engine) (d : String) (images : List (String × ImageRow)) (db : Db)
    → IsQuiet e
    → db.images ≡ images
    → ((is_scan_data_complete e d db).0 ≡ ok (table_complete (get d images)))
      × ((is_scan_data_complete e d db).1.images ≡ images)
unfolding is_scan_data_complete select_row
reads_complete_lem e d images db quiet h = elim (Option-cases (get d images)) [
  | inl z ↦ (ground (arith, quiet db.statements), ground (arith, quiet db.statements))
  | inr (r, z) ↦ (ground (arith, quiet db.statements), ground (arith, quiet db.statements))
]

database-IsReading :
    (e : Engine) (images : List (String × ImageRow))
    → IsQuiet e
    → IsReading
        (database e)
        (λ db. db.images ≡ images)
        (λ d. table_status (get d images))
        (λ d. table_complete (get d images))
database-IsReading e images quiet = record {
  reads_status = λ d db h. reads_status_lem e d images db quiet h;
  reads_complete = λ d db h. reads_complete_lem e d images db quiet h;
}

answer_status :
    (o : Option ImageRow)
    → scan_text (answer pending_scan (λ r. scan_status r.status) o) ≡ table_status o
answer_status none = refl
answer_status (some r) = refl

answer_complete : (o : Option ImageRow) → answer false is_complete_row o ≡ table_complete o
answer_complete none = refl
answer_complete (some r) = refl

all_texts-entries :
    (g : String → ScanStatus) (ds : List String)
    → all_texts (ok (entries g ds)) ≡ ok (entries (λ d. scan_text (g d)) ds)
all_texts-entries g [] = refl
all_texts-entries g (d ∷ ds) = ground (arith, all_texts-entries g ds)

-- The bulk queries too, where digests are unique.
pub database-IsReadingBulk :
    (e : Engine) (images : List (String × ImageRow))
    → IsQuiet e
    → Distinct (keys images)
    → IsReadingBulk
        (database e)
        (λ db. db.images ≡ images)
        (λ d. table_status (get d images))
        (λ d. table_complete (get d images))
unfolding get_image_scan_status_bulk is_scan_data_complete_bulk
database-IsReadingBulk e images quiet u = record {
  reads_statuses = λ ds db w h.
      let (a, b) =
        bulk_query_lem "failed to query image statuses: " pending_scan (λ r. scan_status r.status) e
          ds db quiet (subst (λ l. Distinct (keys l)) (sym h) u) w in
      (
        ap all_texts a
            ∙ all_texts-entries
                (λ d. answer pending_scan (λ r. scan_status r.status) (get d db.images)) ds
            ∙ ap ok (
                map_entries _ (λ d. table_status (get d images))
                  (λ d. answer_status (get d db.images) ∙ ap (λ l. table_status (get d l)) h) ds),
        b ∙ h,
      );
  reads_completes = λ ds db w h.
      let (a, b) =
        bulk_query_lem "failed to query scan data completeness: " false is_complete_row e ds db
          quiet (subst (λ l. Distinct (keys l)) (sym h) u) w in
      a
      ∙ ap ok (
          map_entries _ (λ d. table_complete (get d images))
            (λ d. answer_complete (get d db.images) ∙ ap (λ l. table_complete (get d l)) h) ds);
}

-- The manager on the database: where SetContainers of the database succeeds and no statement fails,
-- the manager's SetContainers asks for one scan of each listed image whose row, as the reconciliation
-- has left it, is pending, failed, in progress, or scanned with data missing, in the order of their
-- first containers, forces it unless the image is pending, and asks for no other.
pub set_containers-table :
    (e : Engine) (cs : List Container) (m : Manager (database e)) (stats : ReconciliationStats)
    → IsQuiet e
    → m.has_database ≡ true
    → m.has_queue ≡ true
    → (Reconcile.set_containers e cs m.state).0 ≡ ok stats
    → map mark (set_containers (database e) cs m).requests
      ≡ map mark m.requests
        ++ wanted
            (λ d. table_status (get d (Reconcile.set_containers e cs m.state).1.images))
            (λ d. table_complete (get d (Reconcile.set_containers e cs m.state).1.images))
            false
            (first_occurrences (not_empty (map digest_of cs)))
set_containers-table e cs m stats quiet has_db has_queue done =
    let images = (Reconcile.set_containers e cs m.state).1.images in
    set_containers-wanted (database e) (λ db. db.images ≡ images) (λ d. table_status (get d images))
      (λ d. table_complete (get d images)) cs m stats (database-IsReading e images quiet) has_db
      has_queue done refl
