-- ===== src/Examples/Containers.antt =====
-- The container manager on small inputs.
use bjorn2scan.Base.{
  ◌≡◌, refl, String, Bool, true, false, List, [], ◌∷◌, ◌++◌, map, none, some, ok, str_eq,
  if◌then◌else◌, first_occurrences, not_empty,
}
use bjorn2scan.Container.{Container}
use bjorn2scan.Base.Maps.{get}
use bjorn2scan.Database.Blobs.{ScanStatus, get_image_scan_status, is_scan_data_complete}
use bjorn2scan.Database.Bulk.{get_image_scan_status_bulk, is_scan_data_complete_bulk, bulk-single}
use bjorn2scan.Database.Tables.{ImageRow, Db, commit, transaction}
use bjorn2scan.Database.Images.{select_row}
use bjorn2scan.Database.Instances.{
  find_container, insert_image, get_or_create_image, insert_container,
}
use bjorn2scan.Database.Reconcile.{
  set_containers as db_set_containers, first_invalid, replace_containers, count_containers,
  delete_containers, insert_containers,
}
use bjorn2scan.Containers.Backed.{
  database, table_status, table_complete, set_containers-table, database-IsReadingBulk,
}
use bjorn2scan.Examples.Pipeline.{working, two_images}
use bjorn2scan.Containers.Store.{Store}
use bjorn2scan.Containers.Manager.{
  Manager, add_container, remove_container, set_containers, get_container,
}
use bjorn2scan.Containers.CatchUp.{set_scan_queue, catch_up_scans}
use bjorn2scan.Containers.Contents.{get_container-add_container, get_container-set_containers}
use bjorn2scan.Containers.Requests.{mark, digest_of, wanted, set_containers-wanted}
use bjorn2scan.Containers.Resume.{catch_up-wanted}

abbrev statuses : String → String
statuses d =
    if str_eq d "sha256:aa" then "pending" else if str_eq d "sha256:bb" then "scanned" else "failed"

abbrev complete : String → Bool
complete d = false

abbrev store : Store
store = record {
  State = Unit {0};
  add_container = λ c st. (ok true, st);
  remove_container = λ id st. (ok tt, st);
  set_containers =
      λ cs st. (ok (record { containers_added = 0; containers_removed = 0; images_added = 0 }), st);
  get_image_scan_status = λ d st. (ok (statuses d), st);
  get_image_scan_status_bulk = λ ds st. (ok (map (λ d. (d, statuses d)) ds), st);
  is_scan_data_complete = λ d st. (ok (complete d), st);
  is_scan_data_complete_bulk = λ ds st. (ok (map (λ d. (d, complete d)) ds), st);
}

abbrev pub container : String → String → Container
container name digest = record {
  id = record { namespace = "default"; pod = "web"; name = name };
  image = record { reference = "img"; digest = digest };
  node_name = "n1";
  container_runtime = "containerd";
}

abbrev manager : Manager store
manager = record {
  containers =
      ("default/web/a", container "a" "sha256:aa")
      ∷ ("default/web/b", container "b" "sha256:bb")
      ∷ ("default/web/c", container "c" "sha256:aa")
      ∷ [];
  has_database = true;
  has_queue = true;
  state = tt;
  requests = [];
}

get_container-add_container_example :
    (get_container store
        (container "b" "").id
        (add_container store (container "d" "sha256:cc") manager)
      ≡ (if str_eq "default/web/d" "default/web/b"
          then some (container "d" "sha256:cc")
          else get_container store (container "b" "").id manager))
    × (get_container store
          (container "b" "").id
          (remove_container store (container "a" "").id manager)
        ≡ (if str_eq "default/web/a" "default/web/b"
            then none
            else get_container store (container "b" "").id manager))
get_container-add_container_example =
    get_container-add_container store (container "d" "sha256:cc") (container "a" "").id
      (container "b" "").id manager

get_container-set_containers_example :
    get_container store
      (container "d" "").id
      (set_containers store (container "d" "sha256:aa" ∷ container "d" "sha256:cc" ∷ []) manager)
    ≡ some (container "d" "sha256:cc")
get_container-set_containers_example =
    get_container-set_containers store (container "d" "sha256:aa" ∷ container "d" "sha256:cc" ∷ [])
      (container "d" "").id manager

abbrev three : List Container
three = container "a" "sha256:bb" ∷ container "b" "" ∷ container "c" "sha256:bb" ∷ []

set_containers-wanted_example :
    map mark (set_containers store three manager).requests
    ≡ [] ++ wanted statuses complete false ("sha256:bb" ∷ [])
set_containers-wanted_example =
    set_containers-wanted store (λ st. Unit {0}) statuses complete three manager
      (record { containers_added = 0; containers_removed = 0; images_added = 0 })
      (record { reads_status = λ d st g. (refl, tt); reads_complete = λ d st g. (refl, tt) }) refl
      refl refl tt

abbrev table_manager : Manager (database working)
table_manager = record {
  containers = manager.containers;
  has_database = true;
  has_queue = false;
  state = two_images;
  requests = [];
}

abbrev in_table : String → String
in_table d = table_status (get d two_images.images)

abbrev complete_in_table : String → Bool
complete_in_table d = table_complete (get d two_images.images)

catch_up-wanted_example :
    (map mark (set_scan_queue (database working) table_manager).requests
      ≡ [] ++ wanted in_table complete_in_table false ("sha256:aa" ∷ "sha256:bb" ∷ []))
    × (map mark
          (catch_up_scans (database working) (record table_manager { has_queue = true })).requests
        ≡ [] ++ wanted in_table complete_in_table true ("sha256:aa" ∷ "sha256:bb" ∷ []))
catch_up-wanted_example =
    catch_up-wanted (database working) (λ db. db.images ≡ two_images.images) in_table
      complete_in_table table_manager
      (database-IsReadingBulk working two_images.images (λ n. refl) (refl, (refl, tt))) refl refl

-- A pending image: the catch-up of `SetScanQueue` leaves its scan unforced.
resumed :
    map mark (set_scan_queue store manager).requests
    ≡ ("sha256:aa", false) ∷ ("sha256:bb", true) ∷ []
unfolding set_scan_queue
resumed = refl

bulk-single_example :
    (m : List (String × ScanStatus)) × (c : List (String × Bool)) × (r : ScanStatus) × (b : Bool)
    × ((get_image_scan_status_bulk working ("sha256:bb" ∷ "sha256:zz" ∷ []) two_images).0 ≡ ok m)
    × ((get_image_scan_status working "sha256:bb" two_images).0 ≡ ok r)
    × (get "sha256:bb" m ≡ some r)
    × ((is_scan_data_complete_bulk working ("sha256:bb" ∷ "sha256:zz" ∷ []) two_images).0 ≡ ok c)
    × ((is_scan_data_complete working "sha256:bb" two_images).0 ≡ ok b)
    × (get "sha256:bb" c ≡ some b)
bulk-single_example =
    bulk-single working ("sha256:bb" ∷ "sha256:zz" ∷ []) "sha256:bb" two_images (λ n. refl)
      (refl, (refl, tt)) refl

abbrev no_tables : Db
no_tables = record { images = []; containers = []; nodes = []; statements = 0 }

abbrev backed : Manager (database working)
backed = record {
  containers = [];
  has_database = true;
  has_queue = true;
  state = no_tables;
  requests = [];
}

abbrev listed : List Container
listed = container "a" "sha256:aa" ∷ container "b" "sha256:bb" ∷ container "c" "sha256:aa" ∷ []

abbrev behind : List (String × ImageRow)
behind = (db_set_containers working listed no_tables).1.images

set_containers-table_example :
    map mark (set_containers (database working) listed backed).requests
    ≡ []
      ++ wanted
          (λ d. table_status (get d behind))
          (λ d. table_complete (get d behind))
          false
          (first_occurrences (not_empty (map digest_of listed)))
unfolding db_set_containers first_invalid replace_containers count_containers delete_containers
    insert_containers get_or_create_image insert_image select_row insert_container commit
    transaction find_container
set_containers-table_example =
    set_containers-table working listed backed
      (record { containers_added = 3; containers_removed = 0; images_added = 2 }) (λ n. refl) refl
      refl refl
