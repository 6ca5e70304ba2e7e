-- ===== src/Containers/Contents.antt =====
-- The map of the container manager: scanner-core/containers/manager.go.
use bjorn2scan.Base.{
  ◌≡◌, refl, ◌∙◌, String, List, [], ◌∷◌, Option, none, some, str_eq, arith, if◌then◌else◌,
  Result-cases, inl, inr, ap,
}
use bjorn2scan.Base.Maps.{get, put, get-put, get-delete}
use bjorn2scan.Container.{ContainerId, Container}
use bjorn2scan.Containers.Store.{Store}
use bjorn2scan.Containers.Manager.{
  Manager, make_key, put_all, check_complete, by_status, check_and_enqueue_scan, persist,
  add_container, remove_container, enqueue_images, set_containers, get_container,
}

module _ (s : Store) where
  check_complete-containers :
      (c : Container) (m : Manager s) → (check_complete s c m).containers ≡ m.containers
  unfolding check_complete
  check_complete-containers c m = ground arith

  by_status-containers :
      (c : Container) (t : String) (m : Manager s) → (by_status s c t m).containers ≡ m.containers
  unfolding by_status
  by_status-containers c t m = ground (arith, check_complete-containers c m)

  check_and_enqueue_scan-containers :
      (c : Container) (m : Manager s) → (check_and_enqueue_scan s c m).containers ≡ m.containers
  unfolding check_and_enqueue_scan
  check_and_enqueue_scan-containers c m =
      let (r, st) = s.get_image_scan_status c.image.digest m.state in
      elim (Result-cases r) [
        | inr (x, e) ↦ ground arith
        | inl (t, e) ↦ ground (arith, by_status-containers c t (record m { state = st }))
      ]

  persist-containers : (c : Container) (m : Manager s) → (persist s c m).containers ≡ m.containers
  unfolding persist
  persist-containers c m =
      let (r, st) = s.add_container c m.state in
      ground (arith, check_and_enqueue_scan-containers c (record m { state = st }))

  enqueue_images-containers :
      (seen : List String) (cs : List Container) (m : Manager s)
      → (enqueue_images s seen cs m).containers ≡ m.containers
  unfolding enqueue_images
  enqueue_images-containers seen [] m = refl
  enqueue_images-containers seen (c ∷ cs) m = ground (
    arith,
    enqueue_images-containers seen cs m,
    enqueue_images-containers (c.image.digest ∷ seen) cs (check_and_enqueue_scan s c m),
    check_and_enqueue_scan-containers c m,
  )

-- Whatever the database answers, after `AddContainer` a look-up gives the container at its key and
-- what it gave before at each other key, and after `RemoveContainer` nothing at the key and what it
-- gave before at each other key.
pub get_container-add_container :
    (s : Store) (c : Container) (id j : ContainerId) (m : Manager s)
    → (get_container s j (add_container s c m)
        ≡ (if str_eq (make_key c.id) (make_key j) then some c else get_container s j m))
      × (get_container s j (remove_container s id m)
          ≡ (if str_eq (make_key id) (make_key j) then none else get_container s j m))
unfolding get_container add_container remove_container
get_container-add_container s c id j m = (
  ap (get (make_key j)) (persist-containers s c _)
      ∙ get-put (make_key c.id) (make_key j) c m.containers,
  ground (arith, get-delete (make_key id) (make_key j) m.containers),
)

-- The last container of the list with the key, or else what was there.
abbrev pub last_with : String → List Container → Option Container → Option Container
last_with k [] o = o
last_with k (c ∷ cs) o = last_with k cs (if str_eq (make_key c.id) k then some c else o)

get-put_all :
    (k : String) (cs : List Container) (kept : List (String × Container))
    → get k (put_all cs kept) ≡ last_with k cs (get k kept)
unfolding put_all
get-put_all k [] kept = refl
get-put_all k (c ∷ cs) kept =
    get-put_all k cs (put (make_key c.id) c kept)
    ∙ ap (last_with k cs) (get-put (make_key c.id) k c kept)

set_containers-map :
    (s : Store) (cs : List Container) (m : Manager s)
    → (set_containers s cs m).containers ≡ put_all cs []
unfolding set_containers
set_containers-map s cs m =
    let (r, st) = s.set_containers cs m.state in
    ground (
      arith,
      enqueue_images-containers s [] cs (record m { containers = put_all cs []; state = st }),
    )

-- Whatever the database answers, after `SetContainers` a look-up gives the last container of the
-- list with the key, and nothing where the list has none: no container of before is left.
pub get_container-set_containers :
    (s : Store) (cs : List Container) (j : ContainerId) (m : Manager s)
    → get_container s j (set_containers s cs m) ≡ last_with (make_key j) cs none
unfolding get_container set_containers
get_container-set_containers s cs j m =
    ap (get (make_key j)) (set_containers-map s cs m) ∙ get-put_all (make_key j) cs []
