-- ===== src/Containers/CatchUp.antt =====
-- The catch-up of scanner-core/containers/manager.go: `SetScanQueue` and `CatchUpScans`. Go goes
-- through its maps in any order; here it is the order of the map's entries.
use bjorn2scan.Base.{
  String, Bool, true, false, ◌&&◌, List, [], ◌∷◌, map, none, some, ok, err, str_eq, if◌then◌else◌,
}
use bjorn2scan.Base.Maps.{get, put}
use bjorn2scan.Container.{Container}
use bjorn2scan.Containers.Store.{Store}
use bjorn2scan.Containers.Manager.{Manager, request}

-- The first container of each digest.
abbrev pub add_digest : List (String × Container) → Container → List (String × Container)
add_digest m c =
    if str_eq c.image.digest ""
    then m
    else elim (get c.image.digest m) [ some d ↦ m | none ↦ put c.image.digest c m ]

unfoldable pub digest_to_container :
    List (String × Container) → List (String × Container) → List (String × Container)
digest_to_container m [] = m
digest_to_container m ((k, c) ∷ cs) = digest_to_container (add_digest m c) cs

-- Go's zero value, which a map gives for a key that it does not have.
abbrev pub no_container : Container
no_container = record {
  id = record { namespace = ""; pod = ""; name = "" };
  image = record { reference = ""; digest = "" };
  node_name = "";
  container_runtime = "";
}

abbrev pub container_of : String → List (String × Container) → Container
container_of d m = elim (get d m) [ some c ↦ c | none ↦ no_container ]

abbrev pub is_complete : String → List (String × Bool) → Bool
is_complete d m = elim (get d m) [ some b ↦ b | none ↦ false ]

unfoldable pub scanned_digests : List (String × String) → List String
scanned_digests [] = []
scanned_digests ((d, status) ∷ es) =
    let rest = scanned_digests es in if str_eq status "scanned" then d ∷ rest else rest

module _ (s : Store) where
  -- The completeness of the images that are scanned; empty where the query fails.
  unfoldable pub completeness : List String → Manager s → List (String × Bool) × Manager s
  completeness [] m = ([], m)
  completeness (d ∷ ds) m =
      let (r, st) = s.is_scan_data_complete_bulk (d ∷ ds) m.state in
      (elim r [ ok c ↦ c | err x ↦ [] ], record m { state = st })

  -- What is asked for an image: `pending_force` says whether a pending one is forced.
  unfoldable pub resume_image :
      Bool → List (String × Bool) → String → Container → String → Manager s → Manager s
  resume_image pending_force complete d c status m =
      if str_eq status "pending"
      then request s c pending_force m
      else if str_eq status "failed"
      then request s c true m
      else if str_eq status "scanned"
      then (if is_complete d complete then m else request s c true m)
      else if str_eq status "scanning"
      then request s c true m
      else m

  unfoldable pub resume_images :
      Bool
      → List (String × Bool)
      → List (String × Container)
      → List (String × String)
      → Manager s
      → Manager s
  unfolding resume_image
  resume_images pending_force complete known [] m = m
  resume_images pending_force complete known ((d, status) ∷ es) m =
      resume_images pending_force complete known es
        (resume_image pending_force complete d (container_of d known) status m)

  unfoldable pub resume_answers :
      Bool → List (String × Container) → List (String × String) → Manager s → Manager s
  unfolding completeness scanned_digests resume_images
  resume_answers pending_force known statuses m =
      let (complete, m') = completeness (scanned_digests statuses) m in
      resume_images pending_force complete known statuses m'

  -- From the map of digests on.
  unfoldable pub resume_known : Bool → List (String × Container) → Manager s → Manager s
  unfolding resume_answers
  resume_known pending_force [] m = m
  resume_known pending_force (e ∷ es) m =
      let (r, st) = s.get_image_scan_status_bulk (map (λ k. k.0) (e ∷ es)) m.state in
      elim r [
        | err x ↦ record m { state = st }
        | ok statuses ↦ resume_answers pending_force (e ∷ es) statuses (record m { state = st })
      ]

  unfoldable pub set_scan_queue : Manager s → Manager s
  unfolding digest_to_container resume_known
  set_scan_queue m =
      if m.has_database
      then resume_known false (digest_to_container [] m.containers) (record m { has_queue = true })
      else record m { has_queue = true }

  unfoldable pub catch_up_scans : Manager s → Manager s
  unfolding digest_to_container resume_known
  catch_up_scans m =
      if m.has_database && m.has_queue
      then resume_known true (digest_to_container [] m.containers) m
      else m
