-- ===== src/Database/Operations.antt =====
-- The five operations that write the containers keep the schema's constraints: AddContainer,
-- RemoveContainer, SetContainers, CleanupStaleContainers and CleanupOrphanedImages.
use bjorn2scan.Base.{
  ℕ, keys, ◌+◌, String, Bool, true, false, List, [], ◌∷◌, Option, none, some, Result, ok, str_eq,
  if◌then◌else◌, length, ◌==◌,
}
use bjorn2scan.Container.{ContainerId, Container}
use bjorn2scan.Database.Tables.{Engine, ImageRow, ContainerRow, Db, M, commit, and_then, return}
use bjorn2scan.Database.Images.{select_row}
use bjorn2scan.Database.Keeping.{
  transaction-Keeps, Keeps, query-Keeps, write-Keeps, commit-Keeps, and_take-Keeps, and_then-Keeps,
  Keeps-Triple,
}
use bjorn2scan.Database.Triples.{
  Triple, OnOk, OnNone, query-Triple, write-Triple, and_take-Triple, and_then-Triple,
}
use bjorn2scan.Database.Instances.{
  find_container, select_container, get_or_create_image, insert_container, check_same, check_row,
  check_image, add_valid, add_container, invalid, without_id, delete_container, remove_container,
}
use bjorn2scan.Database.Calls.{
  Call, add, remove, set, cleanup_stale, cleanup_orphaned, call, run_calls,
}
use bjorn2scan.Database.Reconcile.{
  first_invalid, count_containers, delete_containers, insert_containers, replace_containers,
  set_valid, set_containers, stale_ids, select_stale, stale_message, delete_stale, delete_found,
  cleanup_stale_containers, count_orphans, select_orphans, with_container, delete_orphans, beside,
  delete_orphan_data, delete_counted, cleanup_orphaned_images,
}
use bjorn2scan.Database.Integrity.{
  IsSound, HasUniqueIds-without_id, RefersTo-without_id, with_container-IsSound,
}
use bjorn2scan.Database.Constraints.{
  IsSound-OfTables, HasRow, select_row-Keeps, get_or_create_image-HasRow, insert_container-IsSound,
  commit-IsSound, add_container_locked-IsSound,
}

check_same-Keeps : (e : Engine) (c : Container) (b : Bool) → Keeps IsSound (check_same e c b)
check_same-Keeps e c true = λ db s. s
check_same-Keeps e c false = add_container_locked-IsSound e c

check_row-Keeps :
    (e : Engine) (c : Container) (o : Option ContainerRow) → Keeps IsSound (check_row e c o)
check_row-Keeps e c none = add_container_locked-IsSound e c
check_row-Keeps e c (some k) = check_same-Keeps e c (str_eq k.image c.image.digest)

check_image-Keeps :
    (e : Engine) (c : Container) (o : Option ImageRow) → Keeps IsSound (check_image e c o)
unfolding select_container
check_image-Keeps e c none = add_container_locked-IsSound e c
check_image-Keeps e c (some r) =
    and_take-Keeps IsSound "failed to query container: " (select_container e c.id) (check_row e c)
      (query-Keeps IsSound e (λ db. find_container c.id db.containers) IsSound-OfTables)
      (check_row-Keeps e c)

add_valid-Keeps : (e : Engine) (c : Container) (o : Option String) → Keeps IsSound (add_valid e c o)
add_valid-Keeps e c (some what) = λ db s. s
add_valid-Keeps e c none =
    and_take-Keeps IsSound "failed to query image: " (select_row e c.image.digest) (check_image e c)
      (select_row-Keeps e c.image.digest) (check_image-Keeps e c)

add_container-Keeps : (e : Engine) (c : Container) → Keeps IsSound (add_container e c)
unfolding add_container
add_container-Keeps e c = add_valid-Keeps e c (invalid c)

delete_container-Keeps : (e : Engine) (id : ContainerId) → Keeps IsSound (delete_container e id)
unfolding delete_container
delete_container-Keeps e id =
    write-Keeps IsSound e (λ db. record db { containers = without_id id db.containers })
      IsSound-OfTables
      (λ db s. record {
        unique_digests = s.unique_digests;
        unique_ids = HasUniqueIds-without_id id db.containers s.unique_ids;
        references = RefersTo-without_id id db.containers (keys db.images) s.references;
      })

remove_container-Keeps : (e : Engine) (id : ContainerId) → Keeps IsSound (remove_container e id)
unfolding remove_container
remove_container-Keeps e id =
    and_then-Keeps IsSound "failed to delete container: " (delete_container e id) (return (ok tt))
      (delete_container-Keeps e id) (λ db s. s)

insert_containers-IsSound :
    (e : Engine) (cs : List Container) (added : ℕ)
    → Triple IsSound (insert_containers e cs added) (OnOk (λ _. IsSound))
unfolding insert_containers
insert_containers-IsSound e [] added = λ db s. s
insert_containers-IsSound e (c ∷ cs) added =
    and_take-Triple IsSound (λ _. HasRow c.image.digest) (λ _. IsSound)
      "failed to get/create image: " (get_or_create_image e c.image) _
      (get_or_create_image-HasRow e c.image)
      (λ new.
        and_then-Triple (HasRow c.image.digest) IsSound (λ _. IsSound)
          "failed to insert container: " (insert_container e c) _ (insert_container-IsSound e c)
          (insert_containers-IsSound e cs (if new then added + 1 else added)))

delete_containers-Keeps : (e : Engine) → Keeps IsSound (delete_containers e)
unfolding delete_containers
delete_containers-Keeps e =
    write-Keeps IsSound e (λ db. record db { containers = [] }) IsSound-OfTables
      (λ db s. record { unique_digests = s.unique_digests; unique_ids = tt; references = tt })

delete_containers-IsSound : (e : Engine) → Triple IsSound (delete_containers e) (OnNone IsSound)
unfolding delete_containers
delete_containers-IsSound e =
    write-Triple IsSound IsSound e (λ db. record db { containers = [] }) IsSound-OfTables
      (λ db s. record { unique_digests = s.unique_digests; unique_ids = tt; references = tt })

replace_containers-IsSound :
    (e : Engine) (cs : List Container)
    → Triple IsSound (replace_containers e cs) (OnOk (λ _. IsSound))
unfolding replace_containers count_containers
replace_containers-IsSound e cs =
    and_take-Triple IsSound (λ _. IsSound) (λ _. IsSound) "failed to count existing containers: "
      (count_containers e) _
      (query-Triple IsSound (λ _. IsSound) e (λ db. length db.containers) IsSound-OfTables
        (λ db s. s))
      (λ removed.
        and_then-Triple IsSound IsSound (λ _. IsSound) "failed to delete containers: "
          (delete_containers e) _ (delete_containers-IsSound e)
          (and_take-Triple IsSound (λ _. IsSound) (λ _. IsSound) "" (insert_containers e cs 0) _
            (insert_containers-IsSound e cs 0) (λ added. commit-IsSound e _)))

set_valid-Keeps :
    (e : Engine) (cs : List Container) (o : Option String) → Keeps IsSound (set_valid e cs o)
set_valid-Keeps e cs (some x) = λ db s. s
set_valid-Keeps e cs none =
    transaction-Keeps IsSound e (replace_containers e cs) IsSound-OfTables
      (replace_containers-IsSound e cs)

set_containers-Keeps : (e : Engine) (cs : List Container) → Keeps IsSound (set_containers e cs)
unfolding set_containers
set_containers-Keeps e cs = set_valid-Keeps e cs (first_invalid cs)

delete_stale-Keeps : (e : Engine) (ids : List ContainerId) → Keeps IsSound (delete_stale e ids)
unfolding delete_stale
delete_stale-Keeps e [] = λ db s. s
delete_stale-Keeps e (id ∷ ids) =
    and_then-Keeps IsSound (stale_message id) (delete_container e id) (delete_stale e ids)
      (delete_container-Keeps e id) (delete_stale-Keeps e ids)

delete_found-Keeps : (e : Engine) (ids : List ContainerId) → Keeps IsSound (delete_found e ids)
delete_found-Keeps e [] = λ db s. s
delete_found-Keeps e (id ∷ ids) = transaction-Keeps IsSound e _ IsSound-OfTables (
    Keeps-Triple IsSound _ (
      and_take-Keeps IsSound "" (delete_stale e (id ∷ ids)) (λ u. commit e (length (id ∷ ids)))
        (delete_stale-Keeps e (id ∷ ids))
        (λ u. commit-Keeps e (length (id ∷ ids)) IsSound IsSound-OfTables)))

cleanup_stale_containers-Keeps :
    (e : Engine) (active : List ContainerId) → Keeps IsSound (cleanup_stale_containers e active)
unfolding cleanup_stale_containers select_stale
cleanup_stale_containers-Keeps e active =
    and_take-Keeps IsSound "failed to query containers: " (select_stale e active) (delete_found e)
      (query-Keeps IsSound e (λ db. stale_ids active db.containers) IsSound-OfTables)
      (delete_found-Keeps e)

-- The deletions of a cleanup.
beside-Keeps :
    {A : Type 0} (e : Engine) (message : String) (k : M (Result A))
    → Keeps IsSound k
    → Keeps IsSound (and_then message (beside e) k)
unfolding beside
beside-Keeps e message k h =
    and_then-Keeps IsSound message (beside e) k
      (write-Keeps IsSound e (λ db. db) IsSound-OfTables (λ db s. s)) h

delete_orphan_data-Keeps : (e : Engine) (orphans : ℕ) → Keeps IsSound (delete_orphan_data e orphans)
unfolding delete_orphan_data delete_orphans
delete_orphan_data-Keeps e orphans =
    let last =
      and_then-Keeps IsSound "failed to delete orphaned images: " (delete_orphans e)
        (commit e orphans)
        (write-Keeps IsSound e (λ db. record db { images = with_container db.containers db.images })
          IsSound-OfTables with_container-IsSound)
        (commit-Keeps e orphans IsSound IsSound-OfTables) in
    beside-Keeps e _ _ (
      beside-Keeps e _ _ (
        beside-Keeps e _ _ (
          beside-Keeps e _ _ (
            beside-Keeps e _ _
              (beside-Keeps e _ _ (beside-Keeps e _ _ (beside-Keeps e _ _ last)))))))

delete_counted-Keeps :
    (e : Engine) (orphans : ℕ) (b : Bool) → Keeps IsSound (delete_counted e orphans b)
delete_counted-Keeps e orphans true = λ db s. s
delete_counted-Keeps e orphans false = delete_orphan_data-Keeps e orphans

cleanup_orphaned_images-Keeps : (e : Engine) → Keeps IsSound (cleanup_orphaned_images e)
unfolding cleanup_orphaned_images select_orphans
cleanup_orphaned_images-Keeps e = transaction-Keeps IsSound e _ IsSound-OfTables (
    Keeps-Triple IsSound _ (
      and_take-Keeps IsSound "failed to count orphaned images: " (select_orphans e) _
        (query-Keeps IsSound e (λ db. count_orphans db.containers db.images) IsSound-OfTables)
        (λ orphans. delete_counted-Keeps e orphans (orphans == 0))))

call-IsSound : (e : Engine) (c : Call) (db : Db) → IsSound db → IsSound (call e c db)
call-IsSound e (add c) = add_container-Keeps e c
call-IsSound e (remove id) = remove_container-Keeps e id
call-IsSound e (set cs) = set_containers-Keeps e cs
call-IsSound e (cleanup_stale ids) = cleanup_stale_containers-Keeps e ids
call-IsSound e cleanup_orphaned = cleanup_orphaned_images-Keeps e

-- From tables that satisfy the constraints, any sequence of AddContainer, RemoveContainer,
-- SetContainers, CleanupStaleContainers and CleanupOrphanedImages leads to tables that do: no two
-- images have one digest, no two containers have one identifier, and the image of each container has
-- a row; whichever statements, commits and openings of transactions fail.
pub run_calls-IsSound :
    (e : Engine) (cs : List Call) (db : Db) → IsSound db → IsSound (run_calls e cs db)
unfolding run_calls
run_calls-IsSound e [] db s = s
run_calls-IsSound e (c ∷ cs) db s = run_calls-IsSound e cs (call e c db) (call-IsSound e c db s)
