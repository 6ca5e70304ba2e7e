-- ===== src/Database/Constraints.antt =====
-- The operations of scanner-core/database/instances.go keep the constraints of the schema.
use bjorn2scan.Base.{
  ◌≡◌, refl, String, Bool, true, false, List, [], ◌∷◌, ◌++◌, Option, none, some, ok, str_eq, arith,
  holds, Distinct, keys, holds-keys, get-holds, map-append, subst, sym, holds-append, ◌∙◌, eq_iff,
  ap,
}
use bjorn2scan.Base.Maps.{get}
use bjorn2scan.Container.{ImageId, Container}
use bjorn2scan.Database.Tables.{Engine, ImageRow, ContainerRow, Db, return, query, commit, and_take}
use bjorn2scan.Database.Images.{select_row}
use bjorn2scan.Database.Keeping.{transaction-Keeps, Keeps, query-Keeps}
use bjorn2scan.Database.Triples.{
  Triple, OnOk, OnNone, OfTables, run-Triple, query-Triple, write-Triple, commit-Triple,
  and_take-Triple, and_then-Triple,
}
use bjorn2scan.Database.Instances.{
  find_container, select_container, new_image_row, insert_digest, insert_image, create_missing,
  get_image_row, get_or_create_image, row_of, insert_row, insert_container, replace_row,
  update_container, write_existing, write_found, write_container, add_container_locked,
}
use bjorn2scan.Database.Integrity.{
  RefersTo, IsSound, Distinct-append, RefersTo-more, RefersTo-append, HasUniqueIds-append,
  HasUniqueIds-replace_row, RefersTo-replace_row,
}

-- The constraints, and a row for the digest.
abbrev pub HasRow : String → Db → Type 0
HasRow d db = IsSound db × (holds d (keys db.images) ≡ true)

pub IsSound-OfTables : OfTables IsSound
IsSound-OfTables db n s = record {
  unique_digests = s.unique_digests;
  unique_ids = s.unique_ids;
  references = s.references;
}

HasRow-OfTables : (d : String) → OfTables (HasRow d)
HasRow-OfTables d db n (s, h) = (IsSound-OfTables db n s, h)

keys-append :
    (d : String) (rs : List (String × ImageRow))
    → keys (rs ++ (d, new_image_row) ∷ []) ≡ keys rs ++ d ∷ []
keys-append d rs = map-append (λ e. e.0) rs ((d, new_image_row) ∷ [])

insert_digest-HasRow :
    (d : String) (o : Option ImageRow) (db : Db)
    → get d db.images ≡ o
    → IsSound db
    → OnNone (HasRow d) (insert_digest d o db).0 (insert_digest d o db).1
insert_digest-HasRow d (some r) db e s = tt
insert_digest-HasRow d none db e s = (
  record {
    unique_digests =
        subst Distinct (sym (keys-append d db.images))
          (Distinct-append (keys db.images) d s.unique_digests (holds-keys d db.images e));
    unique_ids = s.unique_ids;
    references =
        subst (RefersTo db.containers) (sym (keys-append d db.images))
          (RefersTo-more db.containers (keys db.images) (d ∷ []) s.references);
  },
  ap (holds d) (keys-append d db.images)
      ∙ holds-append d (keys db.images) (d ∷ [])
      ∙ ground (arith, eq_iff d d),
)

insert_image-HasRow :
    (e : Engine) (d : String) → Triple IsSound (insert_image e d) (OnNone (HasRow d))
unfolding insert_image
insert_image-HasRow e d =
    run-Triple IsSound (OnNone (HasRow d)) e some (λ db. insert_digest d (get d db.images) db)
      IsSound-OfTables (λ x db s. tt) (λ db s. insert_digest-HasRow d (get d db.images) db refl s)

-- A query of the image: where it finds a row, the digest has one.
abbrev Found : String → Option ImageRow → Db → Type 0
Found d none db = IsSound db
Found d (some r) db = HasRow d db

found :
    (d : String) (o : Option ImageRow) (db : Db) → get d db.images ≡ o → IsSound db → Found d o db
found d none db e s = s
found d (some r) db e s = (s, get-holds d db.images r e)

pub select_row-query :
    (e : Engine) (d : String) (db : Db) → select_row e d db ≡ query e (λ db. get d db.images) db
unfolding select_row
select_row-query e d db = ground arith

select_row-Found : (e : Engine) (d : String) → Triple IsSound (select_row e d) (OnOk (Found d))
select_row-Found e d db s =
    subst (λ p. OnOk (Found d) p.0 p.1) (sym (select_row-query e d db))
      (query-Triple IsSound (Found d) e (λ db. get d db.images) IsSound-OfTables
        (λ db s. found d (get d db.images) db refl s) db s)

pub select_row-Keeps : (e : Engine) (d : String) → Keeps IsSound (select_row e d)
select_row-Keeps e d db s =
    subst (λ p. IsSound p.1) (sym (select_row-query e d db))
      (query-Keeps IsSound e (λ db. get d db.images) IsSound-OfTables db s)

create_missing-HasRow :
    (e : Engine) (d : String) (o : Option ImageRow)
    → Triple (Found d o) (create_missing e d o) (OnOk (λ _. HasRow d))
create_missing-HasRow e d (some r) = λ db h. h
create_missing-HasRow e d none =
    and_then-Triple IsSound (HasRow d) (λ _. HasRow d) "failed to insert image: " (insert_image e d)
      (return (ok true)) (insert_image-HasRow e d) (λ db h. h)

get_image_row-HasRow :
    (e : Engine) (i : ImageId) (b : Bool)
    → Triple IsSound (get_image_row e i b) (OnOk (λ _. HasRow i.digest))
get_image_row-HasRow e i true = λ db s. tt
get_image_row-HasRow e i false =
    and_take-Triple IsSound (Found i.digest) (λ _. HasRow i.digest) "failed to query image: "
      (select_row e i.digest) (create_missing e i.digest) (select_row-Found e i.digest)
      (create_missing-HasRow e i.digest)

pub get_or_create_image-HasRow :
    (e : Engine) (i : ImageId)
    → Triple IsSound (get_or_create_image e i) (OnOk (λ _. HasRow i.digest))
unfolding get_or_create_image
get_or_create_image-HasRow e i = get_image_row-HasRow e i (str_eq i.digest "")

-- The writes of a container whose image has a row.
insert_row-IsSound :
    (c : Container) (o : Option ContainerRow) (db : Db)
    → find_container c.id db.containers ≡ o
    → HasRow c.image.digest db
    → OnNone IsSound (insert_row c o db).0 (insert_row c o db).1
insert_row-IsSound c (some k) db e h = tt
insert_row-IsSound c none db e (s, h) = record {
  unique_digests = s.unique_digests;
  unique_ids = HasUniqueIds-append db.containers (row_of c) s.unique_ids e;
  references = RefersTo-append db.containers (row_of c) (keys db.images) s.references h;
}

pub insert_container-IsSound :
    (e : Engine) (c : Container)
    → Triple (HasRow c.image.digest) (insert_container e c) (OnNone IsSound)
unfolding insert_container
insert_container-IsSound e c =
    run-Triple (HasRow c.image.digest) (OnNone IsSound) e some
      (λ db. insert_row c (find_container c.id db.containers) db) (HasRow-OfTables c.image.digest)
      (λ x db s. tt) (λ db s. insert_row-IsSound c (find_container c.id db.containers) db refl s)

update_container-IsSound :
    (e : Engine) (c : Container)
    → Triple (HasRow c.image.digest) (update_container e c) (OnNone IsSound)
unfolding update_container
update_container-IsSound e c =
    write-Triple (HasRow c.image.digest) IsSound e
      (λ db. record db { containers = replace_row c db.containers })
      (HasRow-OfTables c.image.digest)
      (λ db h. record {
        unique_digests = h.0.unique_digests;
        unique_ids = HasUniqueIds-replace_row c db.containers h.0.unique_ids;
        references = RefersTo-replace_row c db.containers (keys db.images) h.1 h.0.references;
      })

pub commit-IsSound :
    {A : Type 0} (e : Engine) (a : A) → Triple IsSound (commit e a) (OnOk (λ _. IsSound))
commit-IsSound e a = commit-Triple e a IsSound IsSound-OfTables

write_existing-IsSound :
    (e : Engine) (c : Container) (b : Bool)
    → Triple (HasRow c.image.digest) (write_existing e c b) (OnOk (λ _. IsSound))
write_existing-IsSound e c true = λ db h. commit-IsSound e false db h.0
write_existing-IsSound e c false =
    and_then-Triple (HasRow c.image.digest) IsSound (λ _. IsSound) "failed to update container: "
      (update_container e c) (commit e true) (update_container-IsSound e c) (commit-IsSound e true)

write_found-IsSound :
    (e : Engine) (c : Container) (o : Option ContainerRow)
    → Triple (HasRow c.image.digest) (write_found e c o) (OnOk (λ _. IsSound))
write_found-IsSound e c (some k) = write_existing-IsSound e c (str_eq k.image c.image.digest)
write_found-IsSound e c none =
    and_then-Triple (HasRow c.image.digest) IsSound (λ _. IsSound) "failed to insert container: "
      (insert_container e c) (commit e true) (insert_container-IsSound e c) (commit-IsSound e true)

write_container-IsSound :
    (e : Engine) (c : Container)
    → Triple (HasRow c.image.digest) (write_container e c) (OnOk (λ _. IsSound))
unfolding write_container select_container
write_container-IsSound e c =
    and_take-Triple (HasRow c.image.digest) (λ _. HasRow c.image.digest) (λ _. IsSound)
      "failed to query container: " (select_container e c.id) (write_found e c)
      (query-Triple (HasRow c.image.digest) (λ _. HasRow c.image.digest) e
        (λ db. find_container c.id db.containers) (HasRow-OfTables c.image.digest) (λ db h. h))
      (write_found-IsSound e c)

pub add_container_locked-IsSound :
    (e : Engine) (c : Container) → Triple IsSound (add_container_locked e c) (λ _. IsSound)
unfolding add_container_locked
add_container_locked-IsSound e c =
    transaction-Keeps IsSound e
      (and_take "failed to get/create image: " (get_or_create_image e c.image)
        (λ new. write_container e c))
      IsSound-OfTables
      (and_take-Triple IsSound (λ _. HasRow c.image.digest) (λ _. IsSound)
        "failed to get/create image: " (get_or_create_image e c.image) (λ new. write_container e c)
        (get_or_create_image-HasRow e c.image) (λ new. write_container-IsSound e c))
