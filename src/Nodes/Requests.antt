-- ===== src/Nodes/Requests.antt =====
-- Which host scans scanner-core/nodes/manager.go asks for.
use bjorn2scan.Base.{
  ◌≡◌, refl, sym, ◌∙◌, ap, String, Bool, true, false, not, ◌&&◌, ◌||◌, List, [], ◌∷◌, ◌++◌, map, ok,
  str_eq, arith, if◌then◌else◌, append-nil, append_assoc, holds, Distinct, eq_iff, All,
  All-of_holds,
}
use bjorn2scan.Scanning.Queue.{HostScanJob}
use bjorn2scan.Containers.CatchUp.{is_complete}
use bjorn2scan.Containers.Resume.{is_complete-map}
use bjorn2scan.Nodes.Manager.{
  NodeStore, NodeManager, request_host, node_names, completed_names, is_idle, in_progress,
  node_completeness, catch_up_node, catch_up_nodes, rescue_nodes, catch_up_answers, ask_statuses,
  catch_up_node_scans, rescue_stuck_nodes,
}

-- A store whose bulk queries succeed and have an entry for each name asked for, where no name is asked
-- for twice, in the states of a set that the first query does not leave.
pub record IsAnswering (s : NodeStore) (Good : s.State → Type 0) (status : String → String)
    (complete : String → Bool) : Type 0 where
  pub answers_statuses :
      (ns : List String) (st : s.State)
      → Distinct ns
      → Good st
      → ((s.get_node_scan_status_bulk ns st).0 ≡ ok (map (λ n. (n, status n)) ns))
        × Good (s.get_node_scan_status_bulk ns st).1
  pub answers_completes :
      (ns : List String) (st : s.State)
      → Distinct ns
      → Good st
      → (s.is_node_scan_complete_bulk ns st).0 ≡ ok (map (λ n. (n, complete n)) ns)

-- Forced host scans of the names with the property.
abbrev pub forced_scans : (String → Bool) → List String → List HostScanJob
forced_scans p [] = []
forced_scans p (n ∷ ns) =
    let rest = forced_scans p ns in
    if p n then record { node_name = n; force_scan = true } ∷ rest else rest

forced_scans-cons :
    (p : String → Bool) (n : String) (ns : List String)
    → forced_scans p (n ∷ []) ++ forced_scans p ns ≡ forced_scans p (n ∷ ns)
forced_scans-cons p n ns = ground arith

module _ (status : String → String) (complete : String → Bool) where
  -- A node is behind if it waits, has failed, is in progress, or is completed with data missing.
  abbrev pub is_behind : String → Bool
  is_behind n =
      is_idle (status n)
      || in_progress (status n)
      || (str_eq (status n) "completed" && not (complete n))

  holds-completed :
      (n : String) (ns : List String)
      → holds n ns ≡ true
      → str_eq (status n) "completed" ≡ true
      → holds n (completed_names (map (λ k. (k, status k)) ns)) ≡ true
  unfolding completed_names
  holds-completed n [] h e = cc
  holds-completed n (x ∷ xs) h e = ground (arith, eq_iff x n, holds-completed n xs)

  holds-completed_names :
      (n : String) (ns : List String)
      → holds n ns ≡ false
      → holds n (completed_names (map (λ k. (k, status k)) ns)) ≡ false
  unfolding completed_names
  holds-completed_names n [] h = refl
  holds-completed_names n (x ∷ xs) h = ground (arith, holds-completed_names n xs)

  completed_names-Distinct :
      (ns : List String) → Distinct ns → Distinct (completed_names (map (λ k. (k, status k)) ns))
  unfolding completed_names
  completed_names-Distinct [] u = tt
  completed_names-Distinct (x ∷ xs) u =
      ground (arith, completed_names-Distinct xs u.1, holds-completed_names x xs u.0)

  module _ (s : NodeStore) where
    rescue_nodes-forced :
        (ns : List String) (m : NodeManager s)
        → (rescue_nodes s (map (λ k. (k, status k)) ns) m).requests
          ≡ m.requests ++ forced_scans (λ n. is_idle (status n)) ns
    unfolding rescue_nodes
    rescue_nodes-forced [] m = sym (append-nil m.requests)
    rescue_nodes-forced (n ∷ ns) m = ground (
      arith,
      rescue_nodes-forced ns m,
      rescue_nodes-forced ns (request_host s n true m),
      append_assoc m.requests (record { node_name = n; force_scan = true } ∷ [])
          (forced_scans (λ k. is_idle (status k)) ns),
    )

    catch_up_node-forced :
        (answers : List (String × Bool)) (n : String) (m : NodeManager s)
        → (str_eq (status n) "completed" ≡ true → is_complete n answers ≡ complete n)
        → (catch_up_node s answers n (status n) m).requests
          ≡ m.requests ++ forced_scans is_behind (n ∷ [])
    unfolding catch_up_node
    catch_up_node-forced answers n m a = ground (arith, a, append-nil m.requests)

    catch_up_nodes-forced :
        (answers : List (String × Bool)) (ns : List String) (m : NodeManager s)
        → All (λ n. str_eq (status n) "completed" ≡ true → is_complete n answers ≡ complete n) ns
        → (catch_up_nodes s answers (map (λ k. (k, status k)) ns) m).requests
          ≡ m.requests ++ forced_scans is_behind ns
    unfolding catch_up_nodes
    catch_up_nodes-forced answers [] m a = sym (append-nil m.requests)
    catch_up_nodes-forced answers (n ∷ ns) m a =
        catch_up_nodes-forced answers ns (catch_up_node s answers n (status n) m) a.1
        ∙ ap (λ r. r ++ forced_scans is_behind ns) (catch_up_node-forced answers n m a.0)
        ∙ append_assoc m.requests (forced_scans is_behind (n ∷ [])) (forced_scans is_behind ns)
        ∙ ap (λ r. m.requests ++ r) (forced_scans-cons is_behind n ns)

module _ (s : NodeStore) (Good : s.State → Type 0) (status : String → String)
    (complete : String → Bool) (answers : IsAnswering s Good status complete) where
  node_completeness-complete :
      (ns : List String) (n : String) (m : NodeManager s)
      → Distinct ns
      → Good m.state
      → holds n ns ≡ true
      → is_complete n (node_completeness s ns m).0 ≡ complete n
  unfolding node_completeness
  node_completeness-complete [] n m u g h = cc
  node_completeness-complete (x ∷ xs) n m u g h = ground (
    arith,
    answers.answers_completes (x ∷ xs) m.state u g,
    is_complete-map status complete n (x ∷ xs) h,
  )

  node_completeness-requests :
      (ns : List String) (m : NodeManager s) → (node_completeness s ns m).1.requests ≡ m.requests
  unfolding node_completeness
  node_completeness-requests [] m = refl
  node_completeness-requests (x ∷ xs) m = refl

  catch_up_answers-forced :
      (ns : List String) (m : NodeManager s)
      → Distinct ns
      → Good m.state
      → (catch_up_answers s (map (λ k. (k, status k)) ns) m).requests
        ≡ m.requests ++ forced_scans (is_behind status complete) ns
  unfolding catch_up_answers
  catch_up_answers-forced ns m u g =
      let asked = completed_names (map (λ k. (k, status k)) ns) in
      catch_up_nodes-forced status complete s (node_completeness s asked m).0 ns
        (node_completeness s asked m).1
        (All-of_holds ns (λ n h e.
          node_completeness-complete asked n m (completed_names-Distinct status complete ns u) g
            (holds-completed status complete n ns h e)))
      ∙ ap (λ r. r ++ forced_scans (is_behind status complete) ns)
          (node_completeness-requests asked m)

  ask_statuses-forced :
      (p : String → Bool) (f : List (String × String) → NodeManager s → NodeManager s)
      (ns : List String) (m : NodeManager s)
      → Distinct ns
      → Good m.state
      → ((k : NodeManager s)
          → Good k.state
          → (f (map (λ n. (n, status n)) ns) k).requests ≡ k.requests ++ forced_scans p ns)
      → (ask_statuses s ns f m).requests ≡ m.requests ++ forced_scans p ns
  unfolding ask_statuses
  ask_statuses-forced p f [] m u g h = sym (append-nil m.requests)
  ask_statuses-forced p f (n ∷ ns) m u g h =
      let (e, g') = answers.answers_statuses (n ∷ ns) m.state u g in
      ground
        (arith, e, h (record m { state = (s.get_node_scan_status_bulk (n ∷ ns) m.state).1 }) g')

-- With a database and a queue, where the store's bulk queries succeed and no
-- two known nodes have one name, `CatchUpScans` asks for one
-- forced scan of each known node that waits, has failed, is in progress, or is completed with data
-- missing, and for no other.
pub catch_up_node_scans-forced :
    (s : NodeStore) (Good : s.State → Type 0) (status : String → String) (complete : String → Bool)
    (m : NodeManager s)
    → IsAnswering s Good status complete
    → Distinct (node_names s m)
    → Good m.state
    → m.has_database ≡ true
    → m.has_queue ≡ true
    → (catch_up_node_scans s m).requests
      ≡ m.requests ++ forced_scans (is_behind status complete) (node_names s m)
unfolding catch_up_node_scans
catch_up_node_scans-forced s Good status complete m answers u g db queue = ground (
  arith,
  ask_statuses-forced s Good status complete answers (is_behind status complete)
      (catch_up_answers s) (node_names s m) m u g
      (λ k. catch_up_answers-forced s Good status complete answers (node_names s m) k u),
)

idle-in_progress : (t : String) → is_idle t ≡ true → in_progress t ≡ false
unfolding is_idle in_progress
idle-in_progress t h = ground (
  arith,
  eq_iff t "pending",
  eq_iff t "sbom_failed",
  eq_iff t "sbom_unavailable",
  eq_iff t "vuln_scan_failed",
  eq_iff t "generating_sbom",
  eq_iff t "scanning_vulnerabilities",
  eq_iff "pending" "generating_sbom",
  eq_iff "pending" "scanning_vulnerabilities",
  eq_iff "sbom_failed" "generating_sbom",
  eq_iff "sbom_failed" "scanning_vulnerabilities",
  eq_iff "sbom_unavailable" "generating_sbom",
  eq_iff "sbom_unavailable" "scanning_vulnerabilities",
  eq_iff "vuln_scan_failed" "generating_sbom",
  eq_iff "vuln_scan_failed" "scanning_vulnerabilities",
)

forced_scans-idle :
    (status : String → String) (ns : List String)
    → All
        (λ j. in_progress (status j.node_name) ≡ false)
        (forced_scans (λ n. is_idle (status n)) ns)
forced_scans-idle status [] = tt
forced_scans-idle status (n ∷ ns) =
    ground (arith, forced_scans-idle status ns, idle-in_progress (status n))

-- With a database and a queue, where the store's bulk queries succeed and no
-- two known nodes have one name, `RescueStuckNodes` asks for
-- one forced scan of each known node that waits or has failed, for no other, and so for none that is
-- in progress.
pub rescue_stuck_nodes-forced :
    (s : NodeStore) (Good : s.State → Type 0) (status : String → String) (complete : String → Bool)
    (m : NodeManager s)
    → IsAnswering s Good status complete
    → Distinct (node_names s m)
    → Good m.state
    → m.has_database ≡ true
    → m.has_queue ≡ true
    → ((rescue_stuck_nodes s m).requests
        ≡ m.requests ++ forced_scans (λ n. is_idle (status n)) (node_names s m))
      × All
          (λ j. in_progress (status j.node_name) ≡ false)
          (forced_scans (λ n. is_idle (status n)) (node_names s m))
unfolding rescue_stuck_nodes
rescue_stuck_nodes-forced s Good status complete m answers u g db queue = (
  ground (
    arith,
    ask_statuses-forced s Good status complete answers (λ n. is_idle (status n)) (rescue_nodes s)
        (node_names s m) m u g (λ k _. rescue_nodes-forced status complete s (node_names s m) k),
  ),
  forced_scans-idle status (node_names s m),
)
