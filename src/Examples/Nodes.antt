-- ===== src/Examples/Nodes.antt =====
-- The node manager on small inputs.
use bjorn2scan.Base.{
  ◌≡◌, refl, String, Bool, true, false, ℕ, suc, [], ◌∷◌, ◌++◌, map, none, some, ok, err, str_eq,
  if◌then◌else◌, All, ltb, arith,
}
use bjorn2scan.Nodes.Manager.{
  Node, NodeStore, NodeManager, is_idle, in_progress, remove_node, get_node, catch_up_node_scans,
  rescue_stuck_nodes,
}
use bjorn2scan.Base.Maps.{get}
use bjorn2scan.Status.{generating_sbom, to_text}
use bjorn2scan.Database.Tables.{Db}
use bjorn2scan.Database.Nodes.{new_node_row, node_status_text}
use bjorn2scan.Database.NodeBulk.{complete_row, get_node_scan_status_bulk}
use bjorn2scan.Nodes.Backed.{node_database, node_database-IsAnswering}
use bjorn2scan.Examples.Pipeline.{working}
use bjorn2scan.Nodes.Removal.{tried, remove_node-tried}
use bjorn2scan.Nodes.Requests.{
  forced_scans, is_behind, catch_up_node_scans-forced, rescue_stuck_nodes-forced,
}

-- The state counts the removals that were tried; the first two fail.
abbrev busy : NodeStore
busy = record {
  State = ℕ;
  add_node = λ n st. (ok true, st);
  update_node = λ n st. (ok tt, st);
  remove_node = λ n st. (if ltb st 2 then err "database is locked" else ok tt, suc st);
  get_node_scan_status_bulk = λ ns st. (ok (map (λ n. (n, "pending")) ns), st);
  is_node_scan_complete_bulk = λ ns st. (ok (map (λ n. (n, true)) ns), st);
}

abbrev node : String → Node
node name = record {
  name = name;
  hostname = name;
  os_release = "";
  kernel_version = "";
  architecture = "amd64";
  container_runtime = "containerd://1.7.0";
  kubelet_version = "";
}

abbrev three_nodes : NodeManager busy
three_nodes = record {
  nodes = ("n1", node "n1") ∷ ("n2", node "n2") ∷ ("n3", node "n3") ∷ [];
  has_database = true;
  has_queue = true;
  state = 0;
  requests = [];
}

remove_node-tried_example :
    ((remove_node busy "n1" three_nodes).state ≡ tried busy "n1" 3 0)
    × (get_node busy "n2" (remove_node busy "n1" three_nodes)
        ≡ (if str_eq "n1" "n2" then none else get_node busy "n2" three_nodes))
remove_node-tried_example =
    remove_node-tried busy "n1" "n2" 2 three_nodes refl (omega arith)
      (("database is locked", refl), (("database is locked", refl), tt)) refl

-- Of the three nodes one is in progress, one waits, and one has no row.
abbrev two_rows : Db
two_rows = record {
  images = [];
  containers = [];
  nodes =
      ("n1", record (new_node_row (node "n1")) { status = some generating_sbom })
      ∷ ("n2", new_node_row (node "n2"))
      ∷ [];
  statements = 0;
}

abbrev table_manager : NodeManager (node_database working)
table_manager = record {
  nodes = three_nodes.nodes;
  has_database = true;
  has_queue = true;
  state = two_rows;
  requests = [];
}

abbrev in_table : String → String
in_table n = node_status_text (get n two_rows.nodes)

abbrev complete_in_table : String → Bool
complete_in_table n = complete_row (get n two_rows.nodes)

catch_up_node_scans-forced_example :
    (catch_up_node_scans (node_database working) table_manager).requests
    ≡ [] ++ forced_scans (is_behind in_table complete_in_table) ("n1" ∷ "n2" ∷ "n3" ∷ [])
catch_up_node_scans-forced_example =
    catch_up_node_scans-forced (node_database working) (λ db. db.nodes ≡ two_rows.nodes) in_table
      complete_in_table table_manager
      (node_database-IsAnswering working two_rows.nodes (λ n. refl) (refl, (refl, tt)))
      (refl, (refl, (refl, tt))) refl refl refl

rescue_stuck_nodes-forced_example :
    ((rescue_stuck_nodes (node_database working) table_manager).requests
      ≡ [] ++ forced_scans (λ n. is_idle (in_table n)) ("n1" ∷ "n2" ∷ "n3" ∷ []))
    × All
        (λ j. in_progress (in_table j.node_name) ≡ false)
        (forced_scans (λ n. is_idle (in_table n)) ("n1" ∷ "n2" ∷ "n3" ∷ []))
rescue_stuck_nodes-forced_example =
    rescue_stuck_nodes-forced (node_database working) (λ db. db.nodes ≡ two_rows.nodes) in_table
      complete_in_table table_manager
      (node_database-IsAnswering working two_rows.nodes (λ n. refl) (refl, (refl, tt)))
      (refl, (refl, (refl, tt))) refl refl refl

-- Not the one in progress; one without a row counts as waiting.
rescued :
    (rescue_stuck_nodes (node_database working) table_manager).requests
    ≡ record { node_name = "n2"; force_scan = true }
      ∷ record { node_name = "n3"; force_scan = true }
      ∷ []
unfolding rescue_stuck_nodes get_node_scan_status_bulk to_text
rescued = refl
