-- ===== src/Containers/Resume.antt =====
-- Which scans the catch-up of scanner-core/containers/manager.go asks for.
use bjorn2scan.Base.{
  map-append, keys, All-of_holds, ◌≡◌, refl, sym, ◌∙◌, ap, String, Bool, true, false, List, [], ◌∷◌,
  ◌++◌, map, ok, str_eq, arith, append-nil, append_assoc, holds, first_occurrences, not_empty,
  Distinct, without-none, eq_iff, All,
}
use bjorn2scan.Container.{Container}
use bjorn2scan.Containers.Store.{Store}
use bjorn2scan.Containers.Manager.{Manager, scan_of}
use bjorn2scan.Containers.CatchUp.{
  digest_to_container, container_of, is_complete, scanned_digests, completeness, resume_image,
  resume_images, resume_answers, resume_known, set_scan_queue, catch_up_scans,
}
use bjorn2scan.Containers.Requests.{digest_of, mark, wanted}
use bjorn2scan.Containers.Digests.{
  Keyed, get-keys, digest_to_container-Keyed, digest_to_container-keys,
  digest_to_container-Distinct,
}

-- A store whose queries on many images succeed and have an entry for each digest asked for, where no
-- digest is asked for twice, in the states of a set that the first query does not leave.
pub record IsReadingBulk (s : Store) (Good : s.State → Type 0) (status : String → String)
    (complete : String → Bool) : Type 0 where
  pub reads_statuses :
      (ds : List String) (st : s.State)
      → Distinct ds
      → Good st
      → ((s.get_image_scan_status_bulk ds st).0 ≡ ok (map (λ d. (d, status d)) ds))
        × Good (s.get_image_scan_status_bulk ds st).1
  pub reads_completes :
      (ds : List String) (st : s.State)
      → Distinct ds
      → Good st
      → (s.is_scan_data_complete_bulk ds st).0 ≡ ok (map (λ d. (d, complete d)) ds)

module _ (status : String → String) (complete : String → Bool) where
  abbrev statuses : List String → List (String × String)
  statuses ds = map (λ d. (d, status d)) ds

  pub is_complete-map :
      (d : String) (ds : List String)
      → holds d ds ≡ true
      → is_complete d (map (λ e. (e, complete e)) ds) ≡ complete d
  is_complete-map d [] h = cc
  is_complete-map d (x ∷ xs) h = ground (arith, eq_iff x d, is_complete-map d xs)

  holds-scanned :
      (d : String) (ds : List String)
      → holds d ds ≡ true
      → str_eq (status d) "scanned" ≡ true
      → holds d (scanned_digests (statuses ds)) ≡ true
  unfolding scanned_digests
  holds-scanned d [] h e = cc
  holds-scanned d (x ∷ xs) h e = ground (arith, eq_iff x d, holds-scanned d xs)

  holds-scanned_digests :
      (d : String) (ds : List String)
      → holds d ds ≡ false
      → holds d (scanned_digests (statuses ds)) ≡ false
  unfolding scanned_digests
  holds-scanned_digests d [] h = refl
  holds-scanned_digests d (x ∷ xs) h = ground (arith, holds-scanned_digests d xs)

  scanned_digests-Distinct :
      (ds : List String) → Distinct ds → Distinct (scanned_digests (statuses ds))
  unfolding scanned_digests
  scanned_digests-Distinct [] u = tt
  scanned_digests-Distinct (x ∷ xs) u =
      ground (arith, scanned_digests-Distinct xs u.1, holds-scanned_digests x xs u.0)

  module _ (s : Store) (known : List (String × Container)) (keyed : Keyed known)
      (answers : List (String × Bool)) where
    -- The image is known, and its completeness was asked for if it is scanned.
    abbrev Answered : String → Type 0
    Answered d =
        (holds d (keys known) ≡ true)
        × (str_eq (status d) "scanned" ≡ true → is_complete d answers ≡ complete d)

    resume_image-wanted :
        (force : Bool) (d : String) (m : Manager s)
        → Answered d
        → map mark (resume_image s force answers d (container_of d known) (status d) m).requests
          ≡ map mark m.requests ++ wanted status complete force (d ∷ [])
    unfolding resume_image
    resume_image-wanted force d m a =
        let (c, e) = get-keys d known a.0 in
        ground (
          arith,
          a.1,
          keyed d c e,
          map-append mark m.requests (scan_of c true ∷ []),
          map-append mark m.requests (scan_of c force ∷ []),
          append-nil (map mark m.requests),
          eq_iff (status d) "pending",
          eq_iff (status d) "failed",
          eq_iff (status d) "scanned",
          eq_iff (status d) "scanning",
          eq_iff "scanned" "scanning",
        )

    resume_images-wanted :
        (force : Bool) (ds : List String) (m : Manager s)
        → All Answered ds
        → map mark (resume_images s force answers known (statuses ds) m).requests
          ≡ map mark m.requests ++ wanted status complete force ds
    unfolding resume_images
    resume_images-wanted force [] m a = sym (append-nil (map mark m.requests))
    resume_images-wanted force (d ∷ ds) m a = ground (
      arith,
      resume_image-wanted force d m a.0,
      resume_images-wanted force ds
          (resume_image s force answers d (container_of d known) (status d) m) a.1,
      append_assoc (map mark m.requests) (wanted status complete force (d ∷ []))
          (wanted status complete force ds),
    )

module _ (s : Store) (Good : s.State → Type 0) (status : String → String) (complete : String → Bool)
    (reads : IsReadingBulk s Good status complete) where
  completeness-complete :
      (ds : List String) (d : String) (m : Manager s)
      → Distinct ds
      → Good m.state
      → holds d ds ≡ true
      → is_complete d (completeness s ds m).0 ≡ complete d
  unfolding completeness
  completeness-complete [] d m u g h = cc
  completeness-complete (x ∷ xs) d m u g h = ground (
    arith,
    reads.reads_completes (x ∷ xs) m.state u g,
    is_complete-map status complete d (x ∷ xs) h,
  )

  completeness-requests :
      (ds : List String) (m : Manager s) → (completeness s ds m).1.requests ≡ m.requests
  unfolding completeness
  completeness-requests [] m = refl
  completeness-requests (x ∷ xs) m = refl

  resume_answers-wanted :
      (force : Bool) (known : List (String × Container)) (m : Manager s)
      → Keyed known
      → Distinct (keys known)
      → Good m.state
      → map mark (resume_answers s force known (statuses status complete (keys known)) m).requests
        ≡ map mark m.requests ++ wanted status complete force (keys known)
  unfolding resume_answers
  resume_answers-wanted force known m keyed u g =
      let asked = scanned_digests (statuses status complete (keys known)) in
      resume_images-wanted status complete s known keyed (completeness s asked m).0 force
        (keys known) (completeness s asked m).1
        (All-of_holds (keys known) (λ d h. (
          h,
          λ e.
              completeness-complete asked d m
                (scanned_digests-Distinct status complete (keys known) u) g
                (holds-scanned status complete d (keys known) h e),
        )))
      ∙ ap (λ r. map mark r ++ wanted status complete force (keys known))
          (completeness-requests asked m)

  resume_known-wanted :
      (force : Bool) (known : List (String × Container)) (m : Manager s)
      → Keyed known
      → Distinct (keys known)
      → Good m.state
      → map mark (resume_known s force known m).requests
        ≡ map mark m.requests ++ wanted status complete force (keys known)
  unfolding resume_known
  resume_known-wanted force [] m keyed u g = sym (append-nil (map mark m.requests))
  resume_known-wanted force (e ∷ es) m keyed u g =
      let (f, g') = reads.reads_statuses (keys (e ∷ es)) m.state u g in
      ground (
        arith,
        f,
        resume_answers-wanted force (e ∷ es)
            (record m { state = (s.get_image_scan_status_bulk (keys (e ∷ es)) m.state).1 }) keyed u
            g',
      )

  resume_containers-wanted :
      (force : Bool) (cs : List (String × Container)) (m : Manager s)
      → Good m.state
      → map mark (resume_known s force (digest_to_container [] cs) m).requests
        ≡ map mark m.requests
          ++ wanted status complete force
              (first_occurrences (not_empty (map (λ e. digest_of e.1) cs)))
  resume_containers-wanted force cs m g =
      resume_known-wanted force (digest_to_container [] cs) m
        (digest_to_container-Keyed [] cs (λ d c e. cc)) (digest_to_container-Distinct cs) g
      ∙ ap (λ ds. map mark m.requests ++ wanted status complete force ds)
          (digest_to_container-keys [] cs
            ∙ without-none (first_occurrences (not_empty (map (λ e. digest_of e.1) cs))))

-- Where the store's bulk queries succeed, `SetScanQueue`, with a database, whether or not a queue was
-- set before, asks for the scans that `SetContainers` would ask for of the known containers, and
-- `CatchUpScans`, with a database and a queue, asks for the same scans but forces each one.
pub catch_up-wanted :
    (s : Store) (Good : s.State → Type 0) (status : String → String) (complete : String → Bool)
    (m : Manager s)
    → IsReadingBulk s Good status complete
    → Good m.state
    → m.has_database ≡ true
    → (map mark (set_scan_queue s m).requests
        ≡ map mark m.requests
          ++ wanted status complete false
              (first_occurrences (not_empty (map (λ e. digest_of e.1) m.containers))))
      × (map mark (catch_up_scans s (record m { has_queue = true })).requests
          ≡ map mark m.requests
            ++ wanted status complete true
                (first_occurrences (not_empty (map (λ e. digest_of e.1) m.containers))))
unfolding set_scan_queue catch_up_scans
catch_up-wanted s Good status complete m reads g db = (
  ground (
    arith,
    resume_containers-wanted s Good status complete reads false m.containers
        (record m { has_queue = true }) g,
  ),
  ground (
    arith,
    resume_containers-wanted s Good status complete reads true m.containers
        (record m { has_queue = true }) g,
  ),
)
