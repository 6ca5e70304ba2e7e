-- ===== src/Database/Instances.antt =====
-- The `containers` table: scanner-core/database/instances.go, and the creation of images in
-- scanner-core/database/images.go. An insertion fails where the schema's uniqueness forbids it.
-- `RowsAffected` and `LastInsertId` do not fail.
use Prim.Native.String.{◌++◌ as str_append}
use bjorn2scan.Base.{
  String, Bool, true, false, ◌&&◌, ◌||◌, List, [], ◌∷◌, ◌++◌, Option, none, some, Result, ok, err,
  str_eq, if◌then◌else◌,
}
use bjorn2scan.Base.Maps.{get}
use bjorn2scan.Container.{ContainerId, ImageId, Container}
use bjorn2scan.Status.{pending}
use bjorn2scan.Database.Tables.{
  Engine, ImageRow, ContainerRow, M, return, run, query, write, commit, transaction, Outcome,
  and_then, and_take,
}
use bjorn2scan.Database.Images.{select_row}

abbrev pub same_id : ContainerId → ContainerId → Bool
same_id a b = str_eq a.namespace b.namespace && str_eq a.pod b.pod && str_eq a.name b.name

unfoldable pub find_container : ContainerId → List ContainerRow → Option ContainerRow
find_container id [] = none
find_container id (c ∷ cs) = if same_id c.id id then some c else find_container id cs

-- `SELECT … FROM containers WHERE namespace = ? AND pod = ? AND name = ?`.
unfoldable pub select_container : Engine → ContainerId → M (Result (Option ContainerRow))
unfolding find_container
select_container e id = query e (λ db. find_container id db.containers)

abbrev pub describe : ContainerId → String
describe id = str_append "namespace=" (
    str_append id.namespace
      (str_append ", pod=" (str_append id.pod (str_append ", name=" id.name))))

-- What is wrong with a container, if something is.
abbrev pub invalid : Container → Option String
invalid c =
    if str_eq c.image.digest ""
    then some "digest"
    else if str_eq c.image.reference ""
    then some "reference"
    else if str_eq c.id.namespace "" || str_eq c.id.pod "" || str_eq c.id.name ""
    then some "identifier"
    else none

-- The values that the schema gives the columns of a new image.
abbrev pub new_image_row : ImageRow
new_image_row = record {
  status = pending;
  status_error = none;
  sbom_scanned_at = none;
  vulns_scanned_at = none;
  grype_db_built = none;
  sbom_compressed = none;
  sbom = none;
  vulnerabilities_compressed = none;
  vulnerabilities = none;
}

-- An insertion into `images`, which fails where the digest has a row.
abbrev pub insert_digest : String → Option ImageRow → M (Option String)
insert_digest digest (some r) = return (some "UNIQUE constraint failed: images.digest")
insert_digest digest none =
    λ db. (none, record db { images = db.images ++ (digest, new_image_row) ∷ [] })

-- `INSERT INTO images (digest)`.
unfoldable pub insert_image : Engine → String → M (Option String)
insert_image e digest = run e some (λ db. insert_digest digest (get digest db.images) db)

abbrev pub create_missing : Engine → String → Option ImageRow → M (Result Bool)
create_missing e digest (some r) = return (ok false)
create_missing e digest none =
    and_then "failed to insert image: " (insert_image e digest) (return (ok true))

abbrev pub get_image_row : Engine → ImageId → Bool → M (Result Bool)
get_image_row e image true =
    return (err (str_append "cannot create/get image without digest: reference=" image.reference))
get_image_row e image false =
    and_take "failed to query image: " (select_row e image.digest) (create_missing e image.digest)

-- Whether the image is new.
unfoldable pub get_or_create_image : Engine → ImageId → M (Result Bool)
get_or_create_image e image = get_image_row e image (str_eq image.digest "")

abbrev pub row_of : Container → ContainerRow
row_of c = record {
  id = c.id;
  reference = c.image.reference;
  image = c.image.digest;
  node_name = c.node_name;
  container_runtime = c.container_runtime;
}

abbrev pub insert_row : Container → Option ContainerRow → M (Option String)
insert_row c (some k) =
    return (some "UNIQUE constraint failed: containers.namespace, containers.pod, containers.name")
insert_row c none = λ db. (none, record db { containers = db.containers ++ row_of c ∷ [] })

unfoldable pub insert_container : Engine → Container → M (Option String)
unfolding find_container
insert_container e c = run e some (λ db. insert_row c (find_container c.id db.containers) db)

unfoldable pub replace_row : Container → List ContainerRow → List ContainerRow
replace_row c [] = []
replace_row c (k ∷ ks) = (if same_id k.id c.id then row_of c else k) ∷ replace_row c ks

-- `UPDATE containers SET … WHERE id = ?`.
unfoldable pub update_container : Engine → Container → M (Option String)
unfolding replace_row
update_container e c = write e (λ db. record db { containers = replace_row c db.containers })

-- A container that has a row: whether it runs the same image.
abbrev pub write_existing : Engine → Container → Bool → M (Result (Outcome Bool))
write_existing e c true = commit e false
write_existing e c false =
    and_then "failed to update container: " (update_container e c) (commit e true)

abbrev pub write_found : Engine → Container → Option ContainerRow → M (Result (Outcome Bool))
write_found e c (some k) = write_existing e c (str_eq k.image c.image.digest)
write_found e c none =
    and_then "failed to insert container: " (insert_container e c) (commit e true)

-- The transaction of `AddContainer`, behind the creation of the image.
unfoldable pub write_container : Engine → Container → M (Result (Outcome Bool))
unfolding commit insert_container update_container select_container
write_container e c =
    and_take "failed to query container: " (select_container e c.id) (write_found e c)

-- The path with the write lock.
unfoldable pub add_container_locked : Engine → Container → M (Result Bool)
unfolding get_or_create_image write_container transaction
add_container_locked e c = transaction e (
    and_take "failed to get/create image: " (get_or_create_image e c.image)
      (λ new. write_container e c))

-- The path without it: nothing is written for a container that has its image already.
abbrev pub check_same : Engine → Container → Bool → M (Result Bool)
check_same e c true = return (ok false)
check_same e c false = add_container_locked e c

abbrev pub check_row : Engine → Container → Option ContainerRow → M (Result Bool)
check_row e c none = add_container_locked e c
check_row e c (some k) = check_same e c (str_eq k.image c.image.digest)

abbrev pub check_image : Engine → Container → Option ImageRow → M (Result Bool)
check_image e c none = add_container_locked e c
check_image e c (some r) =
    and_take "failed to query container: " (select_container e c.id) (check_row e c)

abbrev pub add_valid : Engine → Container → Option String → M (Result Bool)
add_valid e c (some what) = return (
    err (
      str_append "cannot add container " (
        str_append (if str_eq what "identifier" then "with empty " else "without ")
          (str_append what (str_append ": " (describe c.id))))))
add_valid e c none =
    and_take "failed to query image: " (select_row e c.image.digest) (check_image e c)

unfoldable pub add_container : Engine → Container → M (Result Bool)
unfolding select_container add_container_locked
add_container e c = add_valid e c (invalid c)

unfoldable pub without_id : ContainerId → List ContainerRow → List ContainerRow
without_id id [] = []
without_id id (k ∷ ks) = let rest = without_id id ks in if same_id k.id id then rest else k ∷ rest

-- `DELETE FROM containers WHERE namespace = ? AND pod = ? AND name = ?`.
unfoldable pub delete_container : Engine → ContainerId → M (Option String)
unfolding without_id
delete_container e id = write e (λ db. record db { containers = without_id id db.containers })

unfoldable pub remove_container : Engine → ContainerId → M (Result (Unit {0}))
unfolding delete_container
remove_container e id =
    and_then "failed to delete container: " (delete_container e id) (return (ok tt))
