-- ===== src/Containers/Manager.antt =====
-- The manager of scanner-core/containers/manager.go and its operations on single containers and on
-- whole collections. A call of the scan queue is the job it asks for, at the end of `requests`.
-- Log lines are left out.
use Prim.Native.String.{◌++◌ as str_append}
use bjorn2scan.Base.{
  String, Bool, true, false, not, ◌&&◌, List, [], ◌∷◌, ◌++◌, map, Option, ok, err, str_eq,
  if◌then◌else◌, holds,
}
use bjorn2scan.Base.Maps.{get, put, delete}
use bjorn2scan.Container.{ContainerId, Container}
use bjorn2scan.Scanning.Queue.{ScanJob}
use bjorn2scan.Containers.Store.{Store}

module _ (s : Store) where
  open s use {State}

  pub record Manager : Type 0 where
    -- By `makeKey`.
    pub containers : List (String × Container)
    pub has_database : Bool
    pub has_queue : Bool
    pub state : State
    pub requests : List ScanJob

  unfoldable pub new_manager : State → Manager
  new_manager st = record {
    containers = [];
    has_database = false;
    has_queue = false;
    state = st;
    requests = [];
  }

  unfoldable pub set_database : Manager → Manager
  set_database m = record m { has_database = true }

abbrev pub make_key : ContainerId → String
make_key id = str_append id.namespace (str_append "/" (str_append id.pod (str_append "/" id.name)))

unfoldable pub put_all : List Container → List (String × Container) → List (String × Container)
put_all [] kept = kept
put_all (c ∷ cs) kept = put_all cs (put (make_key c.id) c kept)

abbrev pub scan_of : Container → Bool → ScanJob
scan_of c force = record {
  image = c.image;
  node_name = c.node_name;
  container_runtime = c.container_runtime;
  force_scan = force;
}

module _ (s : Store) where
  abbrev pub request : Container → Bool → Manager s → Manager s
  request c force m = record m { requests = m.requests ++ scan_of c force ∷ [] }

  -- The case "scanned": a forced scan where data is missing.
  unfoldable pub check_complete : Container → Manager s → Manager s
  check_complete c m =
      let (r, st) = s.is_scan_data_complete c.image.digest m.state in
      elim r [
        | err x ↦ record m { state = st }
        | ok complete ↦
            if complete then record m { state = st } else request c true (record m { state = st })
      ]

  unfoldable pub by_status : Container → String → Manager s → Manager s
  unfolding check_complete
  by_status c status m =
      if str_eq status "pending"
      then request c false m
      else if str_eq status "failed"
      then request c true m
      else if str_eq status "scanned"
      then check_complete c m
      else if str_eq status "scanning"
      then request c true m
      else m

  unfoldable pub check_and_enqueue_scan : Container → Manager s → Manager s
  unfolding by_status
  check_and_enqueue_scan c m =
      let (r, st) = s.get_image_scan_status c.image.digest m.state in
      elim r [
        | err x ↦ record m { state = st }
        | ok status ↦ by_status c status (record m { state = st })
      ]

  -- What `AddContainer` does behind the map.
  unfoldable pub persist : Container → Manager s → Manager s
  unfolding check_and_enqueue_scan
  persist c m =
      if m.has_database
      then (let (r, st) = s.add_container c m.state in
          elim r [
            | err x ↦ record m { state = st }
            | ok new ↦
                if m.has_queue && not (str_eq c.image.digest "")
                then check_and_enqueue_scan c (record m { state = st })
                else record m { state = st }
          ])
      else m

  unfoldable pub add_container : Container → Manager s → Manager s
  unfolding persist
  add_container c m = persist c (record m { containers = put (make_key c.id) c m.containers })

  unfoldable pub remove_container : ContainerId → Manager s → Manager s
  remove_container id m =
      let left = record m { containers = delete (make_key id) m.containers } in
      if m.has_database then record left { state = (s.remove_container id m.state).1 } else left

  -- The loop of `SetContainers` over the images, with the digests it has seen.
  unfoldable pub enqueue_images : List String → List Container → Manager s → Manager s
  unfolding check_and_enqueue_scan
  enqueue_images seen [] m = m
  enqueue_images seen (c ∷ cs) m = elim (str_eq c.image.digest "") [
    | true ↦ enqueue_images seen cs m
    | false ↦ elim (holds c.image.digest seen) [
      | true ↦ enqueue_images seen cs m
      | false ↦ enqueue_images (c.image.digest ∷ seen) cs (check_and_enqueue_scan c m)
    ]
  ]

  unfoldable pub set_containers : List Container → Manager s → Manager s
  unfolding put_all enqueue_images
  set_containers cs m =
      let held = record m { containers = put_all cs [] } in
      if m.has_database
      then (let (r, st) = s.set_containers cs m.state in
          elim r [
            | err x ↦ record held { state = st }
            | ok stats ↦
                if m.has_queue
                then enqueue_images [] cs (record held { state = st })
                else record held { state = st }
          ])
      else held

  unfoldable pub get_container : ContainerId → Manager s → Option Container
  get_container id m = get (make_key id) m.containers

  unfoldable pub get_all_containers : Manager s → List Container
  get_all_containers m = map (λ e. e.1) m.containers

  unfoldable pub reconcile_db : Manager s → Manager s
  unfolding get_all_containers
  reconcile_db m =
      if m.has_database
      then record m { state = (s.set_containers (get_all_containers m) m.state).1 }
      else m
