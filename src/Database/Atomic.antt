-- ===== src/Database/Atomic.antt =====
-- SetContainers is all or nothing: scanner-core/database/instances.go.
use bjorn2scan.Base.{
  ℕ, ◌+◌, ◌≡◌, refl, sym, ◌∙◌, ap, String, Bool, true, false, List, [], ◌∷◌, ◌++◌, map, Option,
  none, some, str_eq, if◌then◌else◌, length, subst,
}
use mathlib.Core.List.{append-nil, append_assoc}
use bjorn2scan.Base.Maps.{get}
use bjorn2scan.Container.{ImageId, Container}
use bjorn2scan.Containers.Store.{ReconciliationStats}
use bjorn2scan.Database.Tables.{Engine, ImageRow, ContainerRow, Db}
use bjorn2scan.Database.Images.{select_row}
use bjorn2scan.Database.Keeping.{
  Keeps, query-Keeps, and_take-Keeps, and_then-Keeps, Keeps-Triple, AllOrNothing,
  transaction-AllOrNothing,
}
use bjorn2scan.Database.Triples.{
  Triple, OnOk, OnCommit, OnNone, OfTables, run-Triple, query-Triple, write-Triple, commit-Gives,
  and_take-Triple, and_then-Triple,
}
use bjorn2scan.Database.Instances.{
  find_container, insert_digest, insert_image, create_missing, get_image_row, get_or_create_image,
  row_of, insert_row, insert_container,
}
use bjorn2scan.Database.Reconcile.{
  first_invalid, count_containers, delete_containers, insert_containers, replace_containers,
  set_valid, set_containers,
}
use bjorn2scan.Database.Constraints.{select_row-query}

-- The rows of the containers.
abbrev Has : List ContainerRow → Db → Type 0
Has ks db = db.containers ≡ ks

Has-OfTables : (ks : List ContainerRow) → OfTables (Has ks)
Has-OfTables ks db n h = h

insert_digest-Has :
    (ks : List ContainerRow) (d : String) (o : Option ImageRow) → Keeps (Has ks) (insert_digest d o)
insert_digest-Has ks d none = λ db h. h
insert_digest-Has ks d (some r) = λ db h. h

insert_image-Has :
    (ks : List ContainerRow) (e : Engine) (d : String) → Keeps (Has ks) (insert_image e d)
unfolding insert_image
insert_image-Has ks e d =
    run-Triple (Has ks) (λ _. Has ks) e some (λ db. insert_digest d (get d db.images) db)
      (Has-OfTables ks) (λ x db h. h) (λ db. insert_digest-Has ks d (get d db.images) db)

create_missing-Has :
    (ks : List ContainerRow) (e : Engine) (d : String) (o : Option ImageRow)
    → Keeps (Has ks) (create_missing e d o)
create_missing-Has ks e d (some r) = λ db h. h
create_missing-Has ks e d none =
    and_then-Keeps (Has ks) _ (insert_image e d) _ (insert_image-Has ks e d) (λ db h. h)

select_row-Has :
    (ks : List ContainerRow) (e : Engine) (d : String) → Keeps (Has ks) (select_row e d)
select_row-Has ks e d db h =
    subst (λ p. Has ks p.1) (sym (select_row-query e d db))
      (query-Keeps (Has ks) e (λ db. get d db.images) (Has-OfTables ks) db h)

get_image_row-Has :
    (ks : List ContainerRow) (e : Engine) (i : ImageId) (b : Bool)
    → Keeps (Has ks) (get_image_row e i b)
get_image_row-Has ks e i true = λ db h. h
get_image_row-Has ks e i false =
    and_take-Keeps (Has ks) _ (select_row e i.digest) _ (select_row-Has ks e i.digest)
      (create_missing-Has ks e i.digest)

get_or_create_image-Has :
    (ks : List ContainerRow) (e : Engine) (i : ImageId) → Keeps (Has ks) (get_or_create_image e i)
unfolding get_or_create_image
get_or_create_image-Has ks e i = get_image_row-Has ks e i (str_eq i.digest "")

insert_row-Has :
    (ks : List ContainerRow) (c : Container) (o : Option ContainerRow)
    → Triple (Has ks) (insert_row c o) (OnNone (Has (ks ++ row_of c ∷ [])))
insert_row-Has ks c (some k) = λ db h. tt
insert_row-Has ks c none = λ db h. ap (λ l. l ++ row_of c ∷ []) h

insert_container-Has :
    (ks : List ContainerRow) (e : Engine) (c : Container)
    → Triple (Has ks) (insert_container e c) (OnNone (Has (ks ++ row_of c ∷ [])))
unfolding insert_container
insert_container-Has ks e c =
    run-Triple (Has ks) (OnNone (Has (ks ++ row_of c ∷ []))) e some
      (λ db. insert_row c (find_container c.id db.containers) db) (Has-OfTables ks) (λ x db h. tt)
      (λ db. insert_row-Has ks c (find_container c.id db.containers) db)

insert_containers-Has :
    (ks ls : List ContainerRow) (e : Engine) (cs : List Container) (added : ℕ)
    → ks ++ map row_of cs ≡ ls
    → Triple (Has ks) (insert_containers e cs added) (OnOk (λ _. Has ls))
unfolding insert_containers
insert_containers-Has ks ls e [] added q = λ db h. h ∙ sym (append-nil ks) ∙ q
insert_containers-Has ks ls e (c ∷ cs) added q =
    and_take-Triple (Has ks) (λ _. Has ks) (λ _. Has ls) "failed to get/create image: "
      (get_or_create_image e c.image) _
      (Keeps-Triple (Has ks) _ (get_or_create_image-Has ks e c.image))
      (λ new.
        and_then-Triple (Has ks) (Has (ks ++ row_of c ∷ [])) (λ _. Has ls)
          "failed to insert container: " (insert_container e c) _ (insert_container-Has ks e c)
          (insert_containers-Has (ks ++ row_of c ∷ []) ls e cs (if new then added + 1 else added)
            (append_assoc ks (row_of c ∷ []) (map row_of cs) ∙ q)))

-- The containers that are wanted, and the two counts.
abbrev pub Replaced : List Container → ℕ → ReconciliationStats → Db → Type 0
Replaced cs removed s db =
    (db.containers ≡ map row_of cs)
    × (s.containers_added ≡ length cs)
    × (s.containers_removed ≡ removed)

replace_containers-Replaced :
    (ks : List ContainerRow) (e : Engine) (cs : List Container)
    → Triple (Has ks) (replace_containers e cs) (OnOk (OnCommit (Replaced cs (length ks))))
unfolding replace_containers count_containers delete_containers
replace_containers-Replaced ks e cs =
    and_take-Triple (Has ks) (λ n _. n ≡ length ks) (OnCommit (Replaced cs (length ks)))
      "failed to count existing containers: " (count_containers e) _
      (query-Triple (Has ks) (λ n _. n ≡ length ks) e (λ db. length db.containers) (Has-OfTables ks)
        (λ db h. ap length h))
      (λ removed.
        and_then-Triple (λ _. removed ≡ length ks) (λ db. (removed ≡ length ks) × Has [] db)
          (OnCommit (Replaced cs (length ks))) "failed to delete containers: " (delete_containers e)
          _
          (write-Triple (λ _. removed ≡ length ks) (λ db. (removed ≡ length ks) × Has [] db) e
            (λ db. record db { containers = [] }) (λ db n h. h) (λ db h. (h, refl)))
          (λ db h.
            and_take-Triple (Has []) (λ _. Has (map row_of cs)) (OnCommit (Replaced cs (length ks)))
              "" (insert_containers e cs 0) _ (insert_containers-Has [] (map row_of cs) e cs 0 refl)
              (λ added db' h'.
                commit-Gives e
                  (record {
                    containers_added = length cs;
                    containers_removed = removed;
                    images_added = added;
                  })
                  (Replaced cs (length ks)) (λ db n h. h) db' (h', refl, h.0))
              db h.1))

set_valid-AllOrNothing :
    (e : Engine) (cs : List Container) (o : Option String) (db : Db)
    → AllOrNothing
        (Replaced cs (length db.containers))
        db
        (set_valid e cs o db).0
        (set_valid e cs o db).1
set_valid-AllOrNothing e cs (some x) db = (refl, refl, refl)
set_valid-AllOrNothing e cs none db =
    transaction-AllOrNothing (Has db.containers) (Replaced cs (length db.containers)) e
      (replace_containers e cs) db (Has-OfTables db.containers)
      (replace_containers-Replaced db.containers e cs) refl

-- Where SetContainers succeeds, the rows of the containers are exactly those of the list, in its
-- order, and the two counts are the length of the list and the number of rows before; where it fails,
-- at whichever statement, no table has changed.
pub set_containers-AllOrNothing :
    (e : Engine) (cs : List Container) (db : Db)
    → AllOrNothing
        (Replaced cs (length db.containers))
        db
        (set_containers e cs db).0
        (set_containers e cs db).1
unfolding set_containers
set_containers-AllOrNothing e cs db = set_valid-AllOrNothing e cs (first_invalid cs) db
