-- ===== src/Examples/Hosts.antt =====
-- Host jobs on small inputs.
use bjorn2scan.Base.{
  ◌≡◌, List, Bool, refl, String, true, false, [], ◌∷◌, none, some, Result, ok, err,
}
use bjorn2scan.Nodes.Manager.{Node}
use bjorn2scan.Database.Tables.{Engine, Bytes, Match, Db}
use bjorn2scan.Base.Maps.{get}
use bjorn2scan.Database.Nodes.{new_node_row, get_node_scan_status, is_node_scan_complete}
use bjorn2scan.Database.NodeBulk.{
  get_node_scan_status_bulk, is_node_scan_complete_bulk, node_bulk-single,
}
use bjorn2scan.Database.NodeRows.{NodeIs}
use bjorn2scan.Scanning.Queue.{HostScanJob}
use bjorn2scan.Scanning.HostPipeline.{HostTools, process_host_job}
use bjorn2scan.Scanning.HostPipeline.Outcome.{IsSettled, process_host_job-IsSettled}
use bjorn2scan.Scanning.HostPipeline.Recovery.{IsScannedNode, process_host_job-IsScanned}
use bjorn2scan.Examples.Pipeline.{working}
use bjorn2scan.Examples.Database.{artifacts}

abbrev node : Node
node = record {
  name = "n1";
  hostname = "n1.local";
  os_release = "Debian 12";
  kernel_version = "6.1";
  architecture = "amd64";
  container_runtime = "containerd";
  kubelet_version = "1.30";
}

abbrev one_node : Db
one_node = record {
  images = [];
  containers = [];
  nodes = ("n1", new_node_row node) ∷ [];
  statements = 0;
}

abbrev bash_match : Match
bash_match = record {
  package_name = "bash";
  package_version = "5.2";
  package_type = "deb";
  cve_id = "CVE-2026-1";
  severity = "High";
  fix_state = "fixed";
  fix_version = "5.3";
  known_exploited = 0;
  raw = 9 ∷ [];
}

abbrev host_engine : Engine
host_engine = record working {
  artifacts_of = λ b. ok artifacts;
  matches_of = λ b. ok (some bash_match ∷ none ∷ []);
}

abbrev retrieve : String → Result Bytes
retrieve name = ok (7 ∷ [])

abbrev host_tools : HostTools
host_tools = record {
  engine = host_engine;
  host_sbom_retriever = some retrieve;
  grype = λ b. ok (record { vulnerability_json = 8 ∷ b; built = none });
  readiness = some true;
}

abbrev forced : HostScanJob
forced = record { node_name = "n1"; force_scan = true }

-- The retriever fails, and the vulnerability database is never ready.
abbrev failing : HostTools
failing = record host_tools {
  host_sbom_retriever = some (λ name. err "no pod scanner");
  readiness = some false;
}

process_host_job-IsSettled_example :
    NodeIs "n1" IsSettled (process_host_job failing forced one_node).1
process_host_job-IsSettled_example =
    process_host_job-IsSettled failing forced one_node (λ n. refl) (new_node_row node, refl, tt)

process_host_job-IsScanned_example :
    NodeIs "n1"
      (IsScannedNode artifacts (31 ∷ 7 ∷ []) (some bash_match ∷ none ∷ []) (31 ∷ 8 ∷ 7 ∷ []))
      (process_host_job host_tools forced one_node).1
process_host_job-IsScanned_example =
    process_host_job-IsScanned host_tools (λ n. refl) forced (7 ∷ []) artifacts (31 ∷ 7 ∷ [])
      (record { vulnerability_json = 8 ∷ 7 ∷ []; built = none }) (some bash_match ∷ none ∷ [])
      (31 ∷ 8 ∷ 7 ∷ []) refl refl refl refl refl refl retrieve one_node refl refl refl
      (new_node_row node, refl, tt)

node_bulk-single_example :
    (m : List (String × String)) × (c : List (String × Bool)) × (s : String) × (b : Bool)
    × ((get_node_scan_status_bulk host_engine ("n1" ∷ "n2" ∷ []) one_node).0 ≡ ok m)
    × ((get_node_scan_status host_engine "n1" one_node).0 ≡ ok s)
    × (get "n1" m ≡ some s)
    × ((is_node_scan_complete_bulk host_engine ("n1" ∷ "n2" ∷ []) one_node).0 ≡ ok c)
    × ((is_node_scan_complete host_engine "n1" one_node).0 ≡ ok b)
    × (get "n1" c ≡ some b)
node_bulk-single_example =
    node_bulk-single host_engine ("n1" ∷ "n2" ∷ []) "n1" one_node (λ n. refl) (refl, tt) refl
