-- ===== src/Containers/Requests.antt =====
-- Which scans scanner-core/containers/manager.go asks for.
use bjorn2scan.Base.{
  map-append, subst, Result-cases, ◌≡◌, sym, String, Bool, true, false, not, ◌&&◌, ◌||◌, List, [],
  ◌∷◌, ◌++◌, map, ok, str_eq, arith, if◌then◌else◌, inl, inr, Bool-cases, append-nil, append_assoc,
  holds, without, first_occurrences, not_empty, without-none, without-more, without-seen, eq_iff,
}
use bjorn2scan.Container.{Container}
use bjorn2scan.Scanning.Queue.{ScanJob}
use bjorn2scan.Containers.Store.{Store, ReconciliationStats}
use bjorn2scan.Containers.Manager.{
  Manager, scan_of, check_complete, by_status, check_and_enqueue_scan, enqueue_images,
  set_containers, put_all,
}

-- A store whose queries on one image succeed and answer by its digest, in the states of a set that
-- they do not leave.
pub record IsReading (s : Store) (Good : s.State → Type 0) (status : String → String)
    (complete : String → Bool) : Type 0 where
  pub reads_status :
      (d : String) (st : s.State)
      → Good st
      → ((s.get_image_scan_status d st).0 ≡ ok (status d)) × Good (s.get_image_scan_status d st).1
  pub reads_complete :
      (d : String) (st : s.State)
      → Good st
      → ((s.is_scan_data_complete d st).0 ≡ ok (complete d)) × Good (s.is_scan_data_complete d st).1

abbrev pub digest_of : Container → String
digest_of c = c.image.digest

-- What a request says: its digest, and whether it is forced.
abbrev pub mark : ScanJob → String × Bool
mark j = (j.image.digest, j.force_scan)

module _ (status : String → String) (complete : String → Bool) where
  -- An image is to be scanned if it is pending, failed, in progress, or scanned with data missing.
  abbrev pub is_wanted : String → Bool
  is_wanted d =
      str_eq (status d) "pending"
      || str_eq (status d) "failed"
      || str_eq (status d) "scanning"
      || (str_eq (status d) "scanned" && not (complete d))

  -- The requests for some images: `pending_force` says whether a pending one is forced.
  abbrev pub wanted : Bool → List String → List (String × Bool)
  wanted pending_force [] = []
  wanted pending_force (d ∷ ds) =
      let rest = wanted pending_force ds in
      if is_wanted d then (d, pending_force || not (str_eq (status d) "pending")) ∷ rest else rest

Good-if {ℓ} :
    {A : Type ℓ} (Good : A → Type 0) (b : Bool) (x y : A)
    → Good x
    → Good y
    → Good (if b then x else y)
Good-if Good true x y h k = h
Good-if Good false x y h k = k

module _ (s : Store) (Good : s.State → Type 0) (status : String → String) (complete : String → Bool)
    (reads : IsReading s Good status complete) where
  check_and_enqueue_scan-state :
      (c : Container) (m : Manager s)
      → (s.get_image_scan_status c.image.digest m.state).0 ≡ ok (status c.image.digest)
      → (check_and_enqueue_scan s c m).state ≡ (
          if not (str_eq (status c.image.digest) "pending")
            && not (str_eq (status c.image.digest) "failed")
            && str_eq (status c.image.digest) "scanned"
          then (s.is_scan_data_complete c.image.digest
              (s.get_image_scan_status c.image.digest m.state).1).1
          else (s.get_image_scan_status c.image.digest m.state).1)
  unfolding check_and_enqueue_scan by_status check_complete
  check_and_enqueue_scan-state c m e =
      let st = (s.get_image_scan_status c.image.digest m.state).1 in
      elim (Result-cases (s.is_scan_data_complete c.image.digest st).0) [
        | inl (b, f) ↦ ground (arith, e)
        | inr (x, f) ↦ ground (arith, e)
      ]

  check_and_enqueue_scan-Good :
      (c : Container) (m : Manager s) → Good m.state → Good (check_and_enqueue_scan s c m).state
  check_and_enqueue_scan-Good c m g =
      let (e, g') = reads.reads_status c.image.digest m.state g in
      subst Good (sym (check_and_enqueue_scan-state c m e)) (
        Good-if Good _ _ _
          (reads.reads_complete c.image.digest (s.get_image_scan_status c.image.digest m.state).1
            g').1
          g')

  check_and_enqueue_scan-marks :
      (c : Container) (m : Manager s)
      → (s.get_image_scan_status c.image.digest m.state).0 ≡ ok (status c.image.digest)
      → (s.is_scan_data_complete c.image.digest
          (s.get_image_scan_status c.image.digest m.state).1).0
        ≡ ok (complete c.image.digest)
      → map mark (check_and_enqueue_scan s c m).requests
        ≡ map mark m.requests ++ wanted status complete false (digest_of c ∷ [])
  unfolding check_and_enqueue_scan by_status check_complete
  check_and_enqueue_scan-marks c m e f = ground (
    arith,
    e,
    f,
    map-append mark m.requests (scan_of c true ∷ []),
    map-append mark m.requests (scan_of c false ∷ []),
    append-nil (map mark m.requests),
    eq_iff (status c.image.digest) "pending",
    eq_iff (status c.image.digest) "failed",
    eq_iff (status c.image.digest) "scanned",
    eq_iff (status c.image.digest) "scanning",
    eq_iff "scanned" "scanning",
  )

  check_and_enqueue_scan-wanted :
      (c : Container) (m : Manager s)
      → Good m.state
      → map mark (check_and_enqueue_scan s c m).requests
        ≡ map mark m.requests ++ wanted status complete false (digest_of c ∷ [])
  check_and_enqueue_scan-wanted c m g =
      let (e, g') = reads.reads_status c.image.digest m.state g in
      check_and_enqueue_scan-marks c m e
        (reads.reads_complete c.image.digest (s.get_image_scan_status c.image.digest m.state).1
          g').0

  enqueue_images-wanted :
      (seen : List String) (cs : List Container) (m : Manager s)
      → Good m.state
      → map mark (enqueue_images s seen cs m).requests
        ≡ map mark m.requests
          ++ wanted status complete false
              (without seen (first_occurrences (not_empty (map digest_of cs))))
  unfolding enqueue_images
  enqueue_images-wanted seen [] m g = sym (append-nil (map mark m.requests))
  enqueue_images-wanted seen (c ∷ cs) m g =
      let next = check_and_enqueue_scan s c m in
      let rest = first_occurrences (not_empty (map digest_of cs)) in
      elim (Bool-cases (str_eq c.image.digest "")) [
        | inl e ↦ ground (arith, enqueue_images-wanted seen cs m g)
        | inr e ↦ elim (Bool-cases (holds c.image.digest seen)) [
          | inl h ↦
              ground
                (arith, enqueue_images-wanted seen cs m g, without-seen c.image.digest seen rest h)
          | inr h ↦ ground (
            arith,
            enqueue_images-wanted (c.image.digest ∷ seen) cs next
                (check_and_enqueue_scan-Good c m g),
            check_and_enqueue_scan-wanted c m g,
            without-more c.image.digest seen rest,
            append_assoc (map mark m.requests) (wanted status complete false (digest_of c ∷ []))
                (wanted status complete false (without (c.image.digest ∷ seen) rest)),
          )
        ]
      ]

-- With a database and a queue, where the reconciliation succeeds and the store's queries succeed
-- behind it, `SetContainers` asks for one scan of each listed image that is pending, failed, in progress, or scanned with data missing, in the order
-- of their first containers, and forces the scan unless the image is pending; it asks for no other.
pub set_containers-wanted :
    (s : Store) (Good : s.State → Type 0) (status : String → String) (complete : String → Bool)
    (cs : List Container) (m : Manager s) (stats : ReconciliationStats)
    → IsReading s Good status complete
    → m.has_database ≡ true
    → m.has_queue ≡ true
    → (s.set_containers cs m.state).0 ≡ ok stats
    → Good (s.set_containers cs m.state).1
    → map mark (set_containers s cs m).requests
      ≡ map mark m.requests
        ++ wanted status complete false (first_occurrences (not_empty (map digest_of cs)))
unfolding set_containers
set_containers-wanted s Good status complete cs m stats reads db queue done good =
    let st = (s.set_containers cs m.state).1 in
    ground (
      arith,
      enqueue_images-wanted s Good status complete reads [] cs
          (record m { containers = put_all cs []; state = st }) good,
      without-none (first_occurrences (not_empty (map digest_of cs))),
    )
