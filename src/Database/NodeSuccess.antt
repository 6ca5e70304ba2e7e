-- ===== src/Database/NodeSuccess.antt =====
-- The storing of scanner-core/database/nodes.go on a database no statement of which fails.
use bjorn2scan.Base.{
  map, ◌++◌, ◌≡◌, refl, sym, ap, subst, String, true, List, Option, some, ok, ◌∙◌, str_eq,
}
use bjorn2scan.Base.Maps.{get}
use bjorn2scan.Database.Tables.{Bytes, Engine, Artifact, Match, NodeRow, Db, return, go_with}
use bjorn2scan.Database.Maintenance.{update_nodes, update_all}
use bjorn2scan.Database.Success.{
  is_ok, Succeeds, Runs, query-Succeeds, write-Runs, commit-Succeeds, and_then-Succeeds,
  and_take-Succeeds, go_with-ok, query-quiet, insert_rows-Runs, transaction-Succeeds,
}
use bjorn2scan.Database.Rows.{IsQuiet}
use bjorn2scan.Database.Nodes.{update_node_where, select_node}
use bjorn2scan.Database.Grouping.{
  group_packages, group_vulnerabilities, PackageGroup, VulnerabilityGroup,
}
use bjorn2scan.Database.NodeScans.{
  id_of, select_node_id, store_packages, store_parsed, store_node_sbom, replace_packages,
  finish_packages, at_node, package_row, package_details,
}
use bjorn2scan.Database.NodeReports.{
  store_matches, store_report, store_node_vulnerabilities, replace_vulnerabilities,
  finish_vulnerabilities, vulnerability_row, vulnerability_details,
}
use bjorn2scan.Database.NodeStores.{HasNode}

module _ (e : Engine) (quiet : IsQuiet e) (name : String) where
  pub update_node_where-Runs : (f : NodeRow → NodeRow) → Runs (update_node_where e name f)
  unfolding update_node_where update_nodes
  update_node_where-Runs f =
      write-Runs e quiet (λ db. record db { nodes = update_all (λ k r. str_eq k name) f db.nodes })

  replace_packages-Succeeds : (gs : List PackageGroup) → Succeeds (replace_packages e name gs)
  unfolding replace_packages finish_packages
  replace_packages-Succeeds gs = and_then-Succeeds _ _ _ (update_node_where-Runs _) (
      and_then-Succeeds _ _ _ (update_node_where-Runs _) (
        and_then-Succeeds "failed to batch insert packages: " _ _
          (insert_rows-Runs e quiet
            (λ c. at_node name (λ r. record r { packages = r.packages ++ c })) 7 100
            (map package_row gs))
          (and_take-Succeeds _ _ _ (query-Succeeds e quiet _) (λ ks.
            and_then-Succeeds "failed to batch insert package details: " _ _
              (insert_rows-Runs e quiet
                (λ c. at_node name (λ r. record r { package_details = r.package_details ++ c })) 2
                400 (package_details ks gs))
              (and_then-Succeeds _ _ _ (λ db. update_node_where-Runs _ db)
                (commit-Succeeds e quiet tt))))))

  replace_vulnerabilities-Succeeds :
      (built : String) (gs : List VulnerabilityGroup)
      → Succeeds (replace_vulnerabilities e name built gs)
  unfolding replace_vulnerabilities finish_vulnerabilities
  replace_vulnerabilities-Succeeds built gs = and_then-Succeeds _ _ _ (update_node_where-Runs _) (
      and_then-Succeeds _ _ _ (update_node_where-Runs _) (
        and_then-Succeeds "failed to batch insert vulnerabilities: " _ _
          (insert_rows-Runs e quiet
            (λ c. at_node name (λ r. record r { vulnerabilities = r.vulnerabilities ++ c })) 13 50
            (map vulnerability_row gs))
          (and_take-Succeeds _ _ _ (query-Succeeds e quiet _) (λ ks.
            and_then-Succeeds "failed to batch insert vulnerability details: " _ _
              (insert_rows-Runs e quiet
                (λ c.
                  at_node name
                    (λ r. record r { vulnerability_details = r.vulnerability_details ++ c }))
                2 400 (vulnerability_details ks gs))
              (and_then-Succeeds _ _ _ (λ db. update_node_where-Runs _ db)
                (commit-Succeeds e quiet tt))))))

  select_node_id-ok :
      (db : Db) (r : NodeRow)
      → get name db.nodes ≡ some r
      → is_ok (select_node_id e name db).0 ≡ true
  unfolding select_node
  select_node_id-ok db r h =
      ap (λ p. is_ok (go_with "" (λ o. return (id_of o)) p.0 p.1).0)
        (query-quiet e quiet (λ db. get name db.nodes) db)
      ∙ ap (λ o. is_ok (id_of o)) h

  -- The SBOM of a node that has a row is stored, if it is read and compressed.
  pub store_node_sbom-ok :
      (sbom_json : Bytes) (artifacts : List (Option Artifact)) (compressed : Bytes) (db : Db)
      → HasNode name db
      → e.artifacts_of sbom_json ≡ ok artifacts
      → e.gzip sbom_json ≡ ok compressed
      → is_ok (store_node_sbom e name sbom_json db).0 ≡ true
  unfolding store_node_sbom
  store_node_sbom-ok sbom_json artifacts compressed db (r, h, u) read packed =
      go_with-ok "failed to get node ID: "
        (λ u. store_parsed e name sbom_json (e.artifacts_of sbom_json)) (select_node_id e name db).0
        (select_node_id e name db).1 (select_node_id-ok db r h)
        (λ u.
          subst (λ a. Succeeds (store_parsed e name sbom_json a)) (sym read)
            (subst (λ c. Succeeds (store_packages e name artifacts c)) (sym packed)
              (and_take-Succeeds _ _ _
                (transaction-Succeeds e quiet _
                  (replace_packages-Succeeds (group_packages artifacts)))
                (λ u. and_then-Succeeds _ _ _ (update_node_where-Runs _) (λ db. refl)))))

  -- So is its report.
  pub store_node_vulnerabilities-ok :
      (vuln_json : Bytes) (built : String) (matches : List (Option Match)) (compressed : Bytes)
      (db : Db)
      → HasNode name db
      → e.matches_of vuln_json ≡ ok matches
      → e.gzip vuln_json ≡ ok compressed
      → is_ok (store_node_vulnerabilities e name vuln_json built db).0 ≡ true
  unfolding store_node_vulnerabilities
  store_node_vulnerabilities-ok vuln_json built matches compressed db (r, h, u) read packed =
      go_with-ok "failed to get node ID: "
        (λ u. store_report e name vuln_json built (e.matches_of vuln_json))
        (select_node_id e name db).0 (select_node_id e name db).1 (select_node_id-ok db r h)
        (λ u.
          subst (λ a. Succeeds (store_report e name vuln_json built a)) (sym read)
            (subst (λ c. Succeeds (store_matches e name built matches c)) (sym packed)
              (and_take-Succeeds _ _ _
                (transaction-Succeeds e quiet _
                  (replace_vulnerabilities-Succeeds built (group_vulnerabilities matches)))
                (λ u. and_then-Succeeds _ _ _ (update_node_where-Runs _) (λ db. refl)))))
