-- ===== src/Database/Reconcile.antt =====
-- The reconciliation and the cleanups of scanner-core/database/instances.go. The counts of a cleanup
-- in the tables that are left out are left out, but not the statements on these tables.
use Prim.Native.String.{◌++◌ as str_append}
use bjorn2scan.Base.{
  ℕ, ◌+◌, String, Bool, true, false, List, [], ◌∷◌, Option, none, some, Result, ok, err,
  if◌then◌else◌, length, ◌==◌,
}
use bjorn2scan.Container.{ContainerId, Container}
use bjorn2scan.Containers.Store.{ReconciliationStats}
use bjorn2scan.Database.Tables.{
  Engine, ImageRow, ContainerRow, M, return, query, write, commit, transaction, Outcome,
  uncommitted, and_then, and_take,
}
use bjorn2scan.Database.Instances.{
  same_id, describe, invalid, get_or_create_image, insert_container, delete_container,
}
use bjorn2scan.Base.{str_eq}

-- The first container of the list that is not valid: its error, without the container's index.
unfoldable pub first_invalid : List Container → Option String
first_invalid [] = none
first_invalid (c ∷ cs) = elim (invalid c) [
  | some what ↦
      some (str_append "container has empty " (str_append what (str_append ": " (describe c.id))))
  | none ↦ first_invalid cs
]

unfoldable pub count_containers : Engine → M (Result ℕ)
count_containers e = query e (λ db. length db.containers)

unfoldable pub delete_containers : Engine → M (Option String)
delete_containers e = write e (λ db. record db { containers = [] })

-- The loop over the new containers, with the number of images that it has created.
unfoldable pub insert_containers : Engine → List Container → ℕ → M (Result ℕ)
unfolding get_or_create_image insert_container
insert_containers e [] added = return (ok added)
insert_containers e (c ∷ cs) added =
    and_take "failed to get/create image: " (get_or_create_image e c.image) (λ new.
      and_then "failed to insert container: " (insert_container e c)
        (insert_containers e cs (if new then added + 1 else added)))

-- The body of the transaction.
unfoldable pub replace_containers :
    Engine → List Container → M (Result (Outcome ReconciliationStats))
unfolding commit count_containers delete_containers insert_containers
replace_containers e cs =
    and_take "failed to count existing containers: " (count_containers e) (λ removed.
      and_then "failed to delete containers: " (delete_containers e) (
        and_take "" (insert_containers e cs 0) (λ added. commit e (record {
          containers_added = length cs;
          containers_removed = removed;
          images_added = added;
        }))))

abbrev pub set_valid : Engine → List Container → Option String → M (Result ReconciliationStats)
set_valid e cs (some x) = return (err x)
set_valid e cs none = transaction e (replace_containers e cs)

unfoldable pub set_containers : Engine → List Container → M (Result ReconciliationStats)
unfolding first_invalid replace_containers transaction
set_containers e cs = set_valid e cs (first_invalid cs)

-- `activeSet[id]`.
unfoldable pub is_active : List ContainerId → ContainerId → Bool
is_active [] id = false
is_active (a ∷ ids) id = if same_id a id then true else is_active ids id

unfoldable pub stale_ids : List ContainerId → List ContainerRow → List ContainerId
unfolding is_active
stale_ids active [] = []
stale_ids active (k ∷ ks) =
    let rest = stale_ids active ks in if is_active active k.id then rest else k.id ∷ rest

unfoldable pub select_stale : Engine → List ContainerId → M (Result (List ContainerId))
unfolding stale_ids
select_stale e active = query e (λ db. stale_ids active db.containers)

abbrev pub stale_message : ContainerId → String
stale_message id = str_append "failed to delete stale container " (
    str_append id.namespace
      (str_append "/" (str_append id.pod (str_append "/" (str_append id.name ": ")))))

unfoldable pub delete_stale : Engine → List ContainerId → M (Result (Unit {0}))
unfolding delete_container
delete_stale e [] = return (ok tt)
delete_stale e (id ∷ ids) = and_then (stale_message id) (delete_container e id) (delete_stale e ids)

abbrev pub delete_found : Engine → List ContainerId → M (Result ℕ)
delete_found e [] = return (ok 0)
delete_found e (id ∷ ids) =
    transaction e (and_take "" (delete_stale e (id ∷ ids)) (λ u. commit e (length (id ∷ ids))))

unfoldable pub cleanup_stale_containers : Engine → List ContainerId → M (Result ℕ)
unfolding commit select_stale delete_stale transaction
cleanup_stale_containers e active =
    and_take "failed to query containers: " (select_stale e active) (delete_found e)

-- Whether a container runs the image.
unfoldable pub has_container : String → List ContainerRow → Bool
has_container digest [] = false
has_container digest (k ∷ ks) = if str_eq k.image digest then true else has_container digest ks

-- The images with a container: what is left by `DELETE … WHERE NOT EXISTS …`.
unfoldable pub with_container :
    List ContainerRow → List (String × ImageRow) → List (String × ImageRow)
unfolding has_container
with_container ks [] = []
with_container ks ((d, r) ∷ rs) =
    let rest = with_container ks rs in if has_container d ks then (d, r) ∷ rest else rest

unfoldable pub count_orphans : List ContainerRow → List (String × ImageRow) → ℕ
unfolding has_container
count_orphans ks [] = 0
count_orphans ks ((d, r) ∷ rs) =
    let rest = count_orphans ks rs in if has_container d ks then rest else rest + 1

unfoldable pub select_orphans : Engine → M (Result ℕ)
unfolding count_orphans
select_orphans e = query e (λ db. count_orphans db.containers db.images)

unfoldable pub delete_orphans : Engine → M (Option String)
unfolding with_container
delete_orphans e = write e (λ db. record db { images = with_container db.containers db.images })

-- A statement on a table that is left out.
unfoldable pub beside : Engine → M (Option String)
beside e = write e (λ db. db)

-- The deletions of a cleanup, for a number of orphans that is not 0.
unfoldable pub delete_orphan_data : Engine → ℕ → M (Result (Outcome ℕ))
unfolding commit beside delete_orphans
delete_orphan_data e orphans = and_then "failed to count orphaned packages: " (beside e) (
    and_then "failed to count orphaned vulnerabilities: " (beside e) (
      and_then "failed to count orphaned image_vulnerability_details: " (beside e) (
        and_then "failed to delete image_vulnerability_details: " (beside e) (
          and_then "failed to delete vulnerabilities: " (beside e) (
            and_then "failed to count orphaned image_package_details: " (beside e) (
              and_then "failed to delete image_package_details: " (beside e) (
                and_then "failed to delete packages: " (beside e) (
                  and_then "failed to delete orphaned images: " (delete_orphans e)
                    (commit e orphans)))))))))

-- Nothing is deleted where there is no orphan.
abbrev pub delete_counted : Engine → ℕ → Bool → M (Result (Outcome ℕ))
delete_counted e orphans true = return (ok (uncommitted 0))
delete_counted e orphans false = delete_orphan_data e orphans

-- The number of images removed.
unfoldable pub cleanup_orphaned_images : Engine → M (Result ℕ)
unfolding select_orphans delete_orphan_data transaction
cleanup_orphaned_images e = transaction e (
    and_take "failed to count orphaned images: " (select_orphans e)
      (λ orphans. delete_counted e orphans (orphans == 0)))
