-- ===== src/Database/Nodes.antt =====
-- The `nodes` table: AddNode, UpdateNode, RemoveNode and the status of a node in
-- scanner-core/database/nodes.go. `RowsAffected` and `LastInsertId` do not fail. The text columns
-- that are NULL stand as empty texts, as the code reads them.
use bjorn2scan.Base.{
  ℕ, String, Bool, true, false, ◌&&◌, List, [], ◌∷◌, ◌++◌, Option, none, some, Result, ok, err,
  str_eq, if◌then◌else◌, length, ltb,
}
use bjorn2scan.Base.Maps.{get}
use bjorn2scan.Nodes.Manager.{Node}
use bjorn2scan.Status.{Status, pending, to_text}
use bjorn2scan.Database.Tables.{
  Engine, NodeRow, M, return, run, query, commit, transaction, Outcome, uncommitted, and_then,
  and_take,
}
use bjorn2scan.Database.Maintenance.{update_all, update_nodes}

-- `SELECT … FROM nodes WHERE name = ?`.
unfoldable pub select_node : Engine → String → M (Result (Option NodeRow))
select_node e name = query e (λ db. get name db.nodes)

-- `UPDATE nodes SET … WHERE name = ?`.
unfoldable pub update_node_where : Engine → String → (NodeRow → NodeRow) → M (Option String)
unfolding update_nodes
update_node_where e name f = update_nodes e (λ k r. str_eq k name) f

-- The columns that AddNode and UpdateNode write.
abbrev pub with_info : Node → NodeRow → NodeRow
with_info n r = record r {
  hostname = n.hostname;
  os_release = n.os_release;
  kernel_version = n.kernel_version;
  architecture = n.architecture;
  container_runtime = n.container_runtime;
  kubelet_version = n.kubelet_version;
}

abbrev pub new_node_row : Node → NodeRow
new_node_row n = record {
  hostname = n.hostname;
  os_release = n.os_release;
  kernel_version = n.kernel_version;
  architecture = n.architecture;
  container_runtime = n.container_runtime;
  kubelet_version = n.kubelet_version;
  status = some pending;
  status_error = none;
  sbom_scanned_at = none;
  vulns_scanned_at = none;
  grype_db_built = none;
  sbom_compressed = none;
  sbom = none;
  vulnerabilities_compressed = none;
  vulnerabilities_raw = none;
  packages = [];
  package_details = [];
  vulnerabilities = [];
  vulnerability_details = [];
}

-- Whether nothing has changed.
abbrev pub has_info : Node → NodeRow → Bool
has_info n r =
    str_eq r.hostname n.hostname
    && str_eq r.os_release n.os_release
    && str_eq r.kernel_version n.kernel_version
    && str_eq r.architecture n.architecture
    && str_eq r.container_runtime n.container_runtime
    && str_eq r.kubelet_version n.kubelet_version

-- An insertion into `nodes`, which fails where the name has a row.
abbrev pub insert_name : Node → Option NodeRow → M (Option String)
insert_name n (some r) = return (some "UNIQUE constraint failed: nodes.name")
insert_name n none = λ db. (none, record db { nodes = db.nodes ++ (n.name, new_node_row n) ∷ [] })

unfoldable pub insert_node : Engine → Node → M (Option String)
insert_node e n = run e some (λ db. insert_name n (get n.name db.nodes) db)

abbrev pub write_changed : Engine → Node → Bool → M (Result Bool)
write_changed e n true = return (ok false)
write_changed e n false =
    and_then "failed to update node: " (update_node_where e n.name (with_info n))
      (return (ok false))

abbrev pub add_found : Engine → Node → Option NodeRow → M (Result Bool)
add_found e n (some r) = write_changed e n (has_info n r)
add_found e n none = and_then "failed to insert node: " (insert_node e n) (return (ok true))

-- Whether the node is new.
unfoldable pub add_node : Engine → Node → M (Result Bool)
unfolding update_node_where insert_node select_node
add_node e n = and_take "failed to query node: " (select_node e n.name) (add_found e n)

abbrev pub is_there : Option NodeRow → Bool
is_there none = false
is_there (some r) = true

-- The update of the columns, with whether a row was affected.
unfoldable pub update_info : Engine → Node → M (Result Bool)
unfolding update_all
update_info e n = run e err (λ db. (
  ok (is_there (get n.name db.nodes)),
  record db { nodes = update_all (λ k r. str_eq k n.name) (with_info n) db.nodes },
))

-- A node that no row was affected for is added.
abbrev pub add_unaffected : Engine → Node → Bool → M (Result (Unit {0}))
add_unaffected e n true = return (ok tt)
add_unaffected e n false = and_take "" (add_node e n) (λ new. return (ok tt))

unfoldable pub update_node : Engine → Node → M (Result (Unit {0}))
unfolding update_info add_node
update_node e n = and_take "failed to update node: " (update_info e n) (add_unaffected e n)

unfoldable pub without_name : String → List (String × NodeRow) → List (String × NodeRow)
without_name name [] = []
without_name name ((k, r) ∷ rs) =
    let rest = without_name name rs in if str_eq k name then rest else (k, r) ∷ rest

unfoldable pub delete_node : Engine → String → M (Option String)
unfolding without_name
delete_node e name = run e some (λ db. (none, record db { nodes = without_name name db.nodes }))

-- The deletions, tables of details first.
abbrev pub remove_found : Engine → String → Option NodeRow → M (Result (Outcome (Unit {0})))
remove_found e name none = return (ok (uncommitted tt))
remove_found e name (some r) =
    and_then "failed to delete node vulnerability details: "
      (update_node_where e name (λ r. record r { vulnerability_details = [] }))
      (and_then "failed to delete node vulnerabilities: "
        (update_node_where e name (λ r. record r { vulnerabilities = [] }))
        (and_then "failed to delete node package details: "
          (update_node_where e name (λ r. record r { package_details = [] }))
          (and_then "failed to delete node packages: "
            (update_node_where e name (λ r. record r { packages = [] }))
            (and_then "failed to delete node: " (delete_node e name) (commit e tt)))))

unfoldable pub remove_node : Engine → String → M (Result (Unit {0}))
unfolding update_node_where delete_node commit select_node transaction
remove_node e name =
    transaction e (and_take "failed to get node ID: " (select_node e name) (remove_found e name))

-- NULL reads as `pending`.
abbrev pub status_text : Option Status → String
status_text none = "pending"
status_text (some s) = to_text s

abbrev pub node_status_text : Option NodeRow → String
node_status_text none = "pending"
node_status_text (some r) = status_text r.status

unfoldable pub get_node_scan_status : Engine → String → M (Result String)
unfolding select_node to_text
get_node_scan_status e name =
    and_take "failed to get node scan status: " (select_node e name)
      (λ o. return (ok (node_status_text o)))

abbrev pub is_completed_node : Option NodeRow → Bool
is_completed_node none = false
is_completed_node (some r) = elim r.status [
  | none ↦ false
  | some s ↦ str_eq (to_text s) "completed"
]

abbrev pub package_count : Option NodeRow → ℕ
package_count none = 0
package_count (some r) = length r.packages

-- A completed node has to have packages.
abbrev pub count_packages : Engine → String → Bool → M (Result Bool)
count_packages e name false = return (ok false)
count_packages e name true =
    and_take "failed to count node packages: " (query e (λ db. package_count (get name db.nodes)))
      (λ n. return (ok (ltb 0 n)))

unfoldable pub is_node_scan_complete : Engine → String → M (Result Bool)
unfolding select_node to_text
is_node_scan_complete e name =
    and_take "failed to check node scan status: " (select_node e name)
      (λ o. count_packages e name (is_completed_node o))

abbrev pub with_node_status : Status → String → NodeRow → NodeRow
with_node_status status message r = record r { status = some status; status_error = some message }

unfoldable pub update_node_status : Engine → String → Status → String → M (Result (Unit {0}))
unfolding update_node_where
update_node_status e name status message =
    and_then "failed to update node status: "
      (update_node_where e name (with_node_status status message)) (return (ok tt))
