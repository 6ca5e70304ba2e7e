-- ===== src/Database/NodeReports.antt =====
-- Storing the scan report of a node: StoreNodeVulnerabilities of scanner-core/database/nodes.go. The
-- rebuilding of the metrics cache is left out.
use Prim.Native.String.{◌++◌ as str_append}
use bjorn2scan.Base.{
  String, List, [], ◌∷◌, ◌++◌, map, Option, none, some, Result, ok, err, if◌then◌else◌, length,
}
use bjorn2scan.Base.Maps.{get}
use bjorn2scan.Status.{completed}
use bjorn2scan.Database.Tables.{
  Bytes, Engine, NodeVulnerability, VulnerabilityKey, Match, NodeRow, M, return, query, commit,
  transaction, Outcome, and_then, and_take,
}
use bjorn2scan.Database.Maintenance.{update_all}
use bjorn2scan.Database.Nodes.{select_node, update_node_where}
use bjorn2scan.Database.Grouping.{VulnerabilityGroup, same_vulnerability, group_vulnerabilities}
use bjorn2scan.Database.Batches.{insert_rows}
use bjorn2scan.Database.NodeScans.{select_node_id, has_key, at_node, update_at}

abbrev pub vulnerability_row : VulnerabilityGroup → NodeVulnerability
vulnerability_row g = record {
  cve_id = g.key.cve_id;
  package_name = g.key.in_package.name;
  package_version = g.key.in_package.version;
  package_type = g.key.in_package.type_name;
  severity = g.severity;
  fix_status = g.fix_status;
  fix_version = g.fix_version;
  known_exploited = g.known_exploited;
  count = length g.instances;
}

abbrev pub vulnerability_row_key : NodeVulnerability → VulnerabilityKey
vulnerability_row_key v = record {
  cve_id = v.cve_id;
  in_package = record {
    name = v.package_name;
    version = v.package_version;
    type_name = v.package_type;
  };
}

abbrev pub vulnerabilities_of : Option NodeRow → List NodeVulnerability
vulnerabilities_of none = []
vulnerabilities_of (some r) = r.vulnerabilities

unfoldable pub vulnerability_details :
    List VulnerabilityKey → List VulnerabilityGroup → List (VulnerabilityKey × List Bytes)
unfolding has_key
vulnerability_details ks [] = []
vulnerability_details ks (g ∷ gs) =
    let rest = vulnerability_details ks gs in
    if has_key same_vulnerability g.key ks then (g.key, g.instances) ∷ rest else rest

abbrev pub with_node_scan : String → String → NodeRow → NodeRow
with_node_scan built now r = record r {
  status = some completed;
  vulns_scanned_at = some now;
  grype_db_built = some built;
}

unfoldable pub finish_vulnerabilities :
    Engine
    → String
    → String
    → List VulnerabilityGroup
    → List VulnerabilityKey
    → M (Result (Outcome (Unit {0})))
unfolding insert_rows commit update_node_where vulnerability_details update_all
finish_vulnerabilities e name built gs ks =
    and_then "failed to batch insert vulnerability details: "
      (insert_rows e
        (λ c. at_node name (λ r. record r { vulnerability_details = r.vulnerability_details ++ c }))
        2 400 (vulnerability_details ks gs))
      (and_then "failed to update node status: " (update_at e name (with_node_scan built))
        (commit e tt))

-- The body of the transaction of StoreNodeVulnerabilities.
unfoldable pub replace_vulnerabilities :
    Engine → String → String → List VulnerabilityGroup → M (Result (Outcome (Unit {0})))
unfolding insert_rows update_node_where finish_vulnerabilities update_all
replace_vulnerabilities e name built gs =
    and_then "failed to delete existing vulnerability details: "
      (update_node_where e name (λ r. record r { vulnerability_details = [] }))
      (and_then "failed to delete existing vulnerabilities: "
        (update_node_where e name (λ r. record r { vulnerabilities = [] }))
        (and_then "failed to batch insert vulnerabilities: "
          (insert_rows e
            (λ c. at_node name (λ r. record r { vulnerabilities = r.vulnerabilities ++ c })) 13 50
            (map vulnerability_row gs))
          (and_take "failed to query vulnerability IDs: "
            (query e (λ db. map vulnerability_row_key (vulnerabilities_of (get name db.nodes))))
            (finish_vulnerabilities e name built gs))))

abbrev pub store_report_blob : Engine → String → Bytes → M (Result (Unit {0}))
store_report_blob e name compressed =
    and_then "failed to store compressed vulnerabilities: "
      (update_node_where e name (λ r. record r { vulnerabilities_compressed = some compressed }))
      (return (ok tt))

abbrev pub store_matches :
    Engine → String → String → List (Option Match) → Result Bytes → M (Result (Unit {0}))
store_matches e name built matches (err x) =
    return (err (str_append "failed to compress vulnerability JSON: " x))
store_matches e name built matches (ok compressed) =
    and_take ""
      (transaction e (replace_vulnerabilities e name built (group_vulnerabilities matches)))
      (λ u. store_report_blob e name compressed)

abbrev pub store_report :
    Engine → String → Bytes → String → Result (List (Option Match)) → M (Result (Unit {0}))
store_report e name vuln_json built (err x) =
    return (err (str_append "failed to parse vulnerability report: " x))
store_report e name vuln_json built (ok matches) =
    store_matches e name built matches (e.gzip vuln_json)

-- `built` is the formatted time.
unfoldable pub store_node_vulnerabilities : Engine → String → Bytes → String → M (Result (Unit {0}))
unfolding select_node replace_vulnerabilities group_vulnerabilities update_node_where transaction
store_node_vulnerabilities e name vuln_json built =
    and_take "failed to get node ID: " (select_node_id e name)
      (λ u. store_report e name vuln_json built (e.matches_of vuln_json))
