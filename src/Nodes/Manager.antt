-- ===== src/Nodes/Manager.antt =====
-- The manager of scanner-core/nodes/manager.go. `NodeDatabaseInterface` is a record of functions on
-- a state; a call of the scan queue is the host job it asks for, at the end of `requests`. Log
-- lines and the pauses between attempts are left out.
use bjorn2scan.Base.{
  ℕ, zero, suc, String, Bool, true, false, ◌&&◌, ◌||◌, List, [], ◌∷◌, ◌++◌, map, Option, Result, ok,
  err, str_eq, if◌then◌else◌,
}
use bjorn2scan.Base.Maps.{get, put, delete}
use bjorn2scan.Containers.CatchUp.{is_complete}
use bjorn2scan.Scanning.Queue.{HostScanJob}

pub record Node : Type 0 where
  pub name : String
  pub hostname : String
  pub os_release : String
  pub kernel_version : String
  pub architecture : String
  pub container_runtime : String
  pub kubelet_version : String

pub record NodeStore : Type 1 where
  pub State : Type 0
  pub add_node : Node → State → Result Bool × State
  pub update_node : Node → State → Result (Unit {0}) × State
  pub remove_node : String → State → Result (Unit {0}) × State
  pub get_node_scan_status_bulk : List String → State → Result (List (String × String)) × State
  pub is_node_scan_complete_bulk : List String → State → Result (List (String × Bool)) × State

module _ (s : NodeStore) where
  pub record NodeManager : Type 0 where
    -- By name.
    pub nodes : List (String × Node)
    pub has_database : Bool
    pub has_queue : Bool
    pub state : s.State
    pub requests : List HostScanJob

  abbrev pub request_host : String → Bool → NodeManager → NodeManager
  request_host name force m = record m {
    requests = m.requests ++ record { node_name = name; force_scan = force } ∷ [];
  }

  unfoldable pub add_node : Node → NodeManager → NodeManager
  add_node n m =
      let held = record m { nodes = put n.name n m.nodes } in
      if m.has_database
      then (let (r, st) = s.add_node n m.state in
          elim r [
            | err x ↦ record held { state = st }
            | ok new ↦
                if new && m.has_queue
                then request_host n.name false (record held { state = st })
                else record held { state = st }
          ])
      else held

  unfoldable pub update_node : Node → NodeManager → NodeManager
  update_node n m =
      let held = record m { nodes = put n.name n m.nodes } in
      if m.has_database then record held { state = (s.update_node n m.state).1 } else held

  -- The loop over the attempts that are left.
  unfoldable pub attempt_removal : ℕ → String → s.State → s.State
  attempt_removal zero name st = st
  attempt_removal (suc k) name st =
      let (r, st') = s.remove_node name st in
      elim r [ ok u ↦ st' | err x ↦ attempt_removal k name st' ]

  unfoldable pub remove_node : String → NodeManager → NodeManager
  unfolding attempt_removal
  remove_node name m =
      let left = record m { nodes = delete name m.nodes } in
      if m.has_database then record left { state = attempt_removal 4 name m.state } else left

  unfoldable pub get_node : String → NodeManager → Option Node
  get_node name m = get name m.nodes

  abbrev pub node_names : NodeManager → List String
  node_names m = map (λ e. e.1.name) m.nodes

unfoldable pub put_nodes : List Node → List (String × Node) → List (String × Node)
put_nodes [] kept = kept
put_nodes (n ∷ ns) kept = put_nodes ns (put n.name n kept)

-- The names whose status is "completed".
unfoldable pub completed_names : List (String × String) → List String
completed_names [] = []
completed_names ((n, status) ∷ es) =
    let rest = completed_names es in if str_eq status "completed" then n ∷ rest else rest

-- The statuses that `RescueStuckNodes` retries.
unfoldable pub is_idle : String → Bool
is_idle t =
    str_eq t "pending"
    || str_eq t "sbom_failed"
    || str_eq t "sbom_unavailable"
    || str_eq t "vuln_scan_failed"

unfoldable pub in_progress : String → Bool
in_progress t = str_eq t "generating_sbom" || str_eq t "scanning_vulnerabilities"

module _ (s : NodeStore) where
  unfoldable pub set_nodes : List Node → NodeManager s → NodeManager s
  unfolding put_nodes
  set_nodes ns m = record m { nodes = put_nodes ns [] }

  unfoldable pub node_completeness :
      List String → NodeManager s → List (String × Bool) × NodeManager s
  node_completeness [] m = ([], m)
  node_completeness (n ∷ ns) m =
      let (r, st) = s.is_node_scan_complete_bulk (n ∷ ns) m.state in
      (elim r [ ok c ↦ c | err x ↦ [] ], record m { state = st })

  unfoldable pub catch_up_node :
      List (String × Bool) → String → String → NodeManager s → NodeManager s
  unfolding is_idle in_progress
  catch_up_node complete n status m =
      if is_idle status || in_progress status
      then request_host s n true m
      else if str_eq status "completed"
      then (if is_complete n complete then m else request_host s n true m)
      else m

  -- The loop of `CatchUpScans` over the answers.
  unfoldable pub catch_up_nodes :
      List (String × Bool) → List (String × String) → NodeManager s → NodeManager s
  unfolding catch_up_node
  catch_up_nodes complete [] m = m
  catch_up_nodes complete ((n, status) ∷ es) m =
      catch_up_nodes complete es (catch_up_node complete n status m)

  unfoldable pub rescue_nodes : List (String × String) → NodeManager s → NodeManager s
  unfolding is_idle
  rescue_nodes [] m = m
  rescue_nodes ((n, status) ∷ es) m =
      rescue_nodes es (if is_idle status then request_host s n true m else m)

  unfoldable pub catch_up_answers : List (String × String) → NodeManager s → NodeManager s
  unfolding node_completeness completed_names catch_up_nodes
  catch_up_answers statuses m =
      let (complete, m') = node_completeness (completed_names statuses) m in
      catch_up_nodes complete statuses m'

  -- The answers for the nodes that are known; nothing is done where there is none or no answer.
  unfoldable pub ask_statuses :
      List String
      → (List (String × String) → NodeManager s → NodeManager s)
      → NodeManager s
      → NodeManager s
  ask_statuses [] f m = m
  ask_statuses (n ∷ ns) f m =
      let (r, st) = s.get_node_scan_status_bulk (n ∷ ns) m.state in
      elim r [
        | err x ↦ record m { state = st }
        | ok statuses ↦ f statuses (record m { state = st })
      ]

  unfoldable pub catch_up_node_scans : NodeManager s → NodeManager s
  unfolding ask_statuses catch_up_answers
  catch_up_node_scans m =
      if m.has_database && m.has_queue then ask_statuses (node_names s m) catch_up_answers m else m

  unfoldable pub rescue_stuck_nodes : NodeManager s → NodeManager s
  unfolding ask_statuses rescue_nodes
  rescue_stuck_nodes m =
      if m.has_database && m.has_queue then ask_statuses (node_names s m) rescue_nodes m else m
