-- ===== src/Database/Integrity.antt =====
-- The references and the keys of the tables of scanner-core/database, as lists of rows.
use bjorn2scan.Base.{
  Bool-cases, inl, inr, ◌≡◌, refl, String, true, false, ◌&&◌, List, [], ◌∷◌, ◌++◌, none, eq_iff,
  arith, holds, Distinct, holds-append, keys, All, All-map,
}
use bjorn2scan.Container.{ContainerId, Container}
use bjorn2scan.Database.Tables.{ImageRow, ContainerRow, Db}
use bjorn2scan.Database.Instances.{same_id, find_container, replace_row, without_id}
use bjorn2scan.Database.Reconcile.{has_container, with_container}

-- No two rows are for one container.
abbrev pub HasUniqueIds : List ContainerRow → Type 0
HasUniqueIds [] = Unit {0}
HasUniqueIds (k ∷ ks) = (find_container k.id ks ≡ none) × HasUniqueIds ks

-- The images of the containers have rows.
abbrev pub RefersTo : List ContainerRow → List String → Type 0
RefersTo ks digests = All (λ k. holds k.image digests ≡ true) ks

-- The schema's constraints: unique digests, unique containers, and the foreign key of the image.
pub record IsSound (db : Db) : Type 0 where
  pub unique_digests : Distinct (keys db.images)
  pub unique_ids : HasUniqueIds db.containers
  pub references : RefersTo db.containers (keys db.images)

pub Distinct-append :
    (xs : List String) (d : String) → Distinct xs → holds d xs ≡ false → Distinct (xs ++ d ∷ [])
Distinct-append [] d u f = (refl, tt)
Distinct-append (x ∷ xs) d u f =
    ground (arith, eq_iff x d, eq_iff d x, holds-append x xs (d ∷ []), Distinct-append xs d u.1)

pub RefersTo-more :
    (ks : List ContainerRow) (ds es : List String) → RefersTo ks ds → RefersTo ks (ds ++ es)
RefersTo-more ks ds es = All-map (λ k h. ground (arith, h, holds-append k.image ds es)) ks

pub RefersTo-append :
    (ks : List ContainerRow) (k : ContainerRow) (ds : List String)
    → RefersTo ks ds
    → holds k.image ds ≡ true
    → RefersTo (ks ++ k ∷ []) ds
RefersTo-append [] k ds r h = (h, tt)
RefersTo-append (j ∷ ks) k ds r h = (r.0, RefersTo-append ks k ds r.1 h)

same_id_sym : (a b : ContainerId) → same_id a b ≡ same_id b a
same_id_sym a b = ground (
  arith,
  eq_iff a.namespace b.namespace,
  eq_iff b.namespace a.namespace,
  eq_iff a.pod b.pod,
  eq_iff b.pod a.pod,
  eq_iff a.name b.name,
  eq_iff b.name a.name,
)

find_container-append :
    (id : ContainerId) (ks : List ContainerRow) (k : ContainerRow)
    → find_container id ks ≡ none
    → same_id k.id id ≡ false
    → find_container id (ks ++ k ∷ []) ≡ none
unfolding find_container
find_container-append id [] k h e = ground arith
find_container-append id (x ∷ ks) k h e = ground (arith, find_container-append id ks k)

pub HasUniqueIds-append :
    (ks : List ContainerRow) (k : ContainerRow)
    → HasUniqueIds ks
    → find_container k.id ks ≡ none
    → HasUniqueIds (ks ++ k ∷ [])
unfolding find_container
HasUniqueIds-append [] k u f = (refl, tt)
HasUniqueIds-append (x ∷ ks) k u f =
    ground
      (arith, same_id_sym x.id k.id, find_container-append x.id ks k, HasUniqueIds-append ks k u.1)

same_id_trans : (a b c : ContainerId) → same_id a b ≡ true → same_id a c ≡ same_id b c
same_id_trans a b c h =
    ground (arith, eq_iff a.namespace b.namespace, eq_iff a.pod b.pod, eq_iff a.name b.name)

find_container-replace_row :
    (c : Container) (id : ContainerId) (ks : List ContainerRow)
    → find_container id ks ≡ none
    → find_container id (replace_row c ks) ≡ none
unfolding find_container replace_row
find_container-replace_row c id [] h = refl
find_container-replace_row c id (k ∷ ks) h =
    ground (arith, same_id_trans k.id c.id id, find_container-replace_row c id ks)

find_same :
    (a b : ContainerId) (xs : List ContainerRow)
    → same_id a b ≡ true
    → find_container a xs ≡ find_container b xs
unfolding find_container
find_same a b [] h = refl
find_same a b (x ∷ xs) h =
    ground
      (arith, same_id_sym x.id a, same_id_sym x.id b, same_id_trans a b x.id h, find_same a b xs h)

pub HasUniqueIds-replace_row :
    (c : Container) (ks : List ContainerRow) → HasUniqueIds ks → HasUniqueIds (replace_row c ks)
unfolding replace_row
HasUniqueIds-replace_row c [] u = tt
HasUniqueIds-replace_row c (k ∷ ks) u = elim (Bool-cases (same_id k.id c.id)) [
  | inl e ↦ ground (
    arith,
    find_same k.id c.id ks e,
    find_container-replace_row c c.id ks,
    HasUniqueIds-replace_row c ks u.1,
  )
  | inr e ↦
      ground (arith, find_container-replace_row c k.id ks u.0, HasUniqueIds-replace_row c ks u.1)
]

pub RefersTo-replace_row :
    (c : Container) (ks : List ContainerRow) (ds : List String)
    → holds c.image.digest ds ≡ true
    → RefersTo ks ds
    → RefersTo (replace_row c ks) ds
unfolding replace_row
RefersTo-replace_row c [] ds h r = tt
RefersTo-replace_row c (k ∷ ks) ds h r = ground (arith, RefersTo-replace_row c ks ds h r.1)

find_container-without_id :
    (id j : ContainerId) (ks : List ContainerRow)
    → find_container j ks ≡ none
    → find_container j (without_id id ks) ≡ none
unfolding find_container without_id
find_container-without_id id j [] h = refl
find_container-without_id id j (k ∷ ks) h = ground (arith, find_container-without_id id j ks)

pub HasUniqueIds-without_id :
    (id : ContainerId) (ks : List ContainerRow) → HasUniqueIds ks → HasUniqueIds (without_id id ks)
unfolding without_id
HasUniqueIds-without_id id [] u = tt
HasUniqueIds-without_id id (k ∷ ks) u =
    ground (arith, find_container-without_id id k.id ks u.0, HasUniqueIds-without_id id ks u.1)

pub RefersTo-without_id :
    (id : ContainerId) (ks : List ContainerRow) (ds : List String)
    → RefersTo ks ds
    → RefersTo (without_id id ks) ds
unfolding without_id
RefersTo-without_id id [] ds r = tt
RefersTo-without_id id (k ∷ ks) ds r = ground (arith, RefersTo-without_id id ks ds r.1)

pub holds-with_container :
    (d : String) (ks : List ContainerRow) (rs : List (String × ImageRow))
    → holds d (keys (with_container ks rs)) ≡ (holds d (keys rs) && has_container d ks)
unfolding with_container
holds-with_container d ks [] = ground arith
holds-with_container d ks ((k, r) ∷ rs) = ground (arith, eq_iff k d, holds-with_container d ks rs)

pub Distinct-with_container :
    (ks : List ContainerRow) (rs : List (String × ImageRow))
    → Distinct (keys rs)
    → Distinct (keys (with_container ks rs))
unfolding with_container
Distinct-with_container ks [] u = tt
Distinct-with_container ks ((k, r) ∷ rs) u =
    ground (arith, holds-with_container k ks rs, Distinct-with_container ks rs u.1)

have_container : (ks : List ContainerRow) → All (λ k. has_container k.image ks ≡ true) ks
unfolding has_container
have_container [] = tt
have_container (k ∷ ks) = (
  ground (arith, eq_iff k.image k.image),
  All-map (λ x h. ground (arith, h)) ks (have_container ks),
)

pub RefersTo-with_container :
    (ks js : List ContainerRow) (rs : List (String × ImageRow))
    → All (λ k. has_container k.image ks ≡ true) js
    → RefersTo js (keys rs)
    → RefersTo js (keys (with_container ks rs))
RefersTo-with_container ks [] rs h r = tt
RefersTo-with_container ks (j ∷ js) rs h r = (
  ground (arith, h.0, r.0, holds-with_container j.image ks rs),
  RefersTo-with_container ks js rs h.1 r.1,
)

pub with_container-IsSound :
    (db : Db) → IsSound db → IsSound (record db { images = with_container db.containers db.images })
with_container-IsSound db s = record {
  unique_digests = Distinct-with_container db.containers db.images s.unique_digests;
  unique_ids = s.unique_ids;
  references =
      RefersTo-with_container db.containers db.containers db.images (have_container db.containers)
        s.references;
}
