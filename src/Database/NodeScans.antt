-- ===== src/Database/NodeScans.antt =====
-- Storing the SBOM of a node, and reading its SBOM and its scan report: StoreNodeSBOM, GetNodeSBOM and
-- GetNodeVulnerabilitiesRaw of scanner-core/database/nodes.go.
use Prim.Native.String.{◌++◌ as str_append}
use bjorn2scan.Base.{
  String, Bool, true, false, List, [], ◌∷◌, ◌++◌, map, Option, none, some, Result, ok, err, str_eq,
  if◌then◌else◌, length,
}
use bjorn2scan.Base.Maps.{get}
use bjorn2scan.Status.{scanning_vulnerabilities}
use bjorn2scan.Database.Tables.{
  Bytes, Engine, NodePackage, PackageKey, Artifact, NodeRow, Db, M, ◌>>=◌, return, query, commit,
  transaction, Outcome, and_then, and_take,
}
use bjorn2scan.Database.Maintenance.{update_all}
use bjorn2scan.Database.Nodes.{select_node, update_node_where}
use bjorn2scan.Database.Grouping.{PackageGroup, same_package, group_packages}
use bjorn2scan.Database.Batches.{insert_rows}

abbrev pub id_of : Option NodeRow → Result (Unit {0})
id_of (some r) = ok tt
id_of none = err "sql: no rows in result set"

-- `SELECT id FROM nodes WHERE name = ?`: an error where there is no row.
abbrev pub select_node_id : Engine → String → M (Result (Unit {0}))
select_node_id e name = and_take "" (select_node e name) (λ o. return (id_of o))

abbrev pub package_row : PackageGroup → NodePackage
package_row g = record {
  name = g.key.name;
  version = g.key.version;
  type_name = g.key.type_name;
  language = g.language;
  purl = g.purl;
  number_of_instances = length g.instances;
}

abbrev pub row_key : NodePackage → PackageKey
row_key p = record { name = p.name; version = p.version; type_name = p.type_name }

-- The rows of a node.
abbrev pub packages_of : Option NodeRow → List NodePackage
packages_of none = []
packages_of (some r) = r.packages

-- `pkgIDs[key]`.
unfoldable pub has_key {ℓ} : {K : Type ℓ} → (K → K → Bool) → K → List K → Bool
has_key same k [] = false
has_key same k (j ∷ js) = if same j k then true else has_key same k js

-- The details whose row has been read back.
unfoldable pub package_details :
    List PackageKey → List PackageGroup → List (PackageKey × List Bytes)
unfolding has_key
package_details ks [] = []
package_details ks (g ∷ gs) =
    let rest = package_details ks gs in
    if has_key same_package g.key ks then (g.key, g.instances) ∷ rest else rest

-- A change of the row of one node.
abbrev pub at_node : String → (NodeRow → NodeRow) → Db → Db
at_node name f db = record db { nodes = update_all (λ k r. str_eq k name) f db.nodes }

-- An update that takes the time of its statement.
abbrev pub update_at : Engine → String → (String → NodeRow → NodeRow) → M (Option String)
update_at e name f = do now ← λ db. (e.now db.statements, db); update_node_where e name (f now)

abbrev pub with_node_sbom : String → NodeRow → NodeRow
with_node_sbom now r = record r {
  status = some scanning_vulnerabilities;
  sbom_scanned_at = some now;
}

-- From the insertion of the details on.
unfoldable pub finish_packages :
    Engine → String → List PackageGroup → List PackageKey → M (Result (Outcome (Unit {0})))
unfolding insert_rows commit update_node_where package_details update_all
finish_packages e name gs ks =
    and_then "failed to batch insert package details: "
      (insert_rows e
        (λ c. at_node name (λ r. record r { package_details = r.package_details ++ c })) 2 400
        (package_details ks gs))
      (and_then "failed to update node status: " (update_at e name with_node_sbom) (commit e tt))

-- The body of the transaction of StoreNodeSBOM.
unfoldable pub replace_packages :
    Engine → String → List PackageGroup → M (Result (Outcome (Unit {0})))
unfolding insert_rows update_node_where finish_packages update_all
replace_packages e name gs =
    and_then "failed to delete existing package details: "
      (update_node_where e name (λ r. record r { package_details = [] }))
      (and_then "failed to delete existing packages: "
        (update_node_where e name (λ r. record r { packages = [] }))
        (and_then "failed to batch insert packages: "
          (insert_rows e (λ c. at_node name (λ r. record r { packages = r.packages ++ c })) 7 100
            (map package_row gs))
          (and_take "failed to query package IDs: "
            (query e (λ db. map row_key (packages_of (get name db.nodes))))
            (finish_packages e name gs))))

abbrev pub store_node_blob : Engine → String → Bytes → M (Result (Unit {0}))
store_node_blob e name compressed =
    and_then "failed to store compressed SBOM: "
      (update_node_where e name (λ r. record r { sbom_compressed = some compressed }))
      (return (ok tt))

-- Behind the parsing and the compression.
abbrev pub store_packages :
    Engine → String → List (Option Artifact) → Result Bytes → M (Result (Unit {0}))
store_packages e name artifacts (err x) = return (err (str_append "failed to compress SBOM: " x))
store_packages e name artifacts (ok compressed) =
    and_take "" (transaction e (replace_packages e name (group_packages artifacts)))
      (λ u. store_node_blob e name compressed)

abbrev pub store_parsed :
    Engine → String → Bytes → Result (List (Option Artifact)) → M (Result (Unit {0}))
store_parsed e name sbom_json (err x) = return (err (str_append "failed to parse SBOM: " x))
store_parsed e name sbom_json (ok artifacts) = store_packages e name artifacts (e.gzip sbom_json)

unfoldable pub store_node_sbom : Engine → String → Bytes → M (Result (Unit {0}))
unfolding select_node replace_packages group_packages update_node_where transaction
store_node_sbom e name sbom_json =
    and_take "failed to get node ID: " (select_node_id e name)
      (λ u. store_parsed e name sbom_json (e.artifacts_of sbom_json))

abbrev pub unpacked : Result Bytes → Result (Option Bytes)
unpacked (ok b) = ok (some b)
unpacked (err x) = err x

-- The compressed bytes if there are any, else the old column's, else nil.
abbrev pub stored_or_nil : Engine → Option Bytes → Option Bytes → Result (Option Bytes)
stored_or_nil e (some (b ∷ bs)) raw = unpacked (e.gunzip (b ∷ bs))
stored_or_nil e _ (some (b ∷ bs)) = ok (some (b ∷ bs))
stored_or_nil e _ _ = ok none

abbrev pub node_sbom : Engine → Option NodeRow → Result (Option Bytes)
node_sbom e none = ok none
node_sbom e (some r) = stored_or_nil e r.sbom_compressed r.sbom

unfoldable pub get_node_sbom : Engine → String → M (Result (Option Bytes))
unfolding select_node
get_node_sbom e name =
    and_take "failed to get node SBOM: " (select_node e name) (λ o. return (node_sbom e o))

abbrev pub node_report : Engine → Option NodeRow → Result (Option Bytes)
node_report e none = ok none
node_report e (some r) = stored_or_nil e r.vulnerabilities_compressed r.vulnerabilities_raw

unfoldable pub get_node_vulnerabilities_raw : Engine → String → M (Result (Option Bytes))
unfolding select_node
get_node_vulnerabilities_raw e name =
    and_take "failed to get node vulnerabilities: " (select_node e name)
      (λ o. return (node_report e o))
