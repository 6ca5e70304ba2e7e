-- ===== src/Database/NodeStores.antt =====
-- StoreNodeSBOM and StoreNodeVulnerabilities of scanner-core/database/nodes.go where they fail, and
-- on a database no statement of which fails.
use bjorn2scan.Base.{◌≡◌, refl, String, List, Option, some, Result, ok, err, str_eq}
use bjorn2scan.Base.Maps.{get}
use bjorn2scan.Status.{completed}
use bjorn2scan.Database.Tables.{Bytes, Engine, Artifact, Match, NodeRow, Db, return, transaction}
use bjorn2scan.Database.Maintenance.{update_nodes, update_all}
use bjorn2scan.Database.Triples.{
  Triple, OnOk, OnOk-map, OnCommit-map, OnEither, either, and_take-Triple,
}
use bjorn2scan.Database.Keeping.{
  Keeps, and_take-Keeps, and_then-Keeps, query-Keeps, write-Keeps, transaction-Keeps,
}
use bjorn2scan.Database.Nodes.{update_node_where, select_node}
use bjorn2scan.Database.Grouping.{
  group_packages, group_vulnerabilities, PackageGroup, VulnerabilityGroup,
}
use bjorn2scan.Database.NodeRows.{NodeIs, NodeIs-OfTables, at_node-NodeIs, select_node_id-Keeps}
use bjorn2scan.Database.NodePackages.{replace_packages-Stored}
use bjorn2scan.Database.NodeMatches.{replace_vulnerabilities-Done, store_matches-HasReport}
use bjorn2scan.Database.NodeScans.{
  id_of, select_node_id, store_node_blob, store_packages, store_parsed, store_node_sbom,
  replace_packages,
}
use bjorn2scan.Database.NodeReports.{
  store_report_blob, store_matches, store_report, store_node_vulnerabilities,
  replace_vulnerabilities,
}

-- The node has a row.
abbrev pub HasNode : String → Db → Type 0
HasNode name = NodeIs name (λ r. Unit {0})

abbrev pub IsCompleted : NodeRow → Type 0
IsCompleted r = r.status ≡ some completed

module _ (e : Engine) (name : String) where
  update_node_where-Keeps :
      (f : NodeRow → NodeRow) → Keeps (HasNode name) (update_node_where e name f)
  unfolding update_node_where update_nodes
  update_node_where-Keeps f =
      write-Keeps (HasNode name) e
        (λ db. record db { nodes = update_all (λ k r. str_eq k name) f db.nodes })
        (NodeIs-OfTables name (λ r. Unit))
        (at_node-NodeIs name f (λ r. Unit) (λ r. Unit) (λ r u. tt))

  id_of-Keeps : (o : Option NodeRow) → Keeps (HasNode name) (return (id_of o))
  id_of-Keeps o = λ db h. h

  select_node_id-HasNode : Keeps (HasNode name) (select_node_id e name)
  unfolding select_node
  select_node_id-HasNode =
      and_take-Keeps (HasNode name) "" (select_node e name) (λ o. return (id_of o))
        (query-Keeps (HasNode name) e (λ db. get name db.nodes) (NodeIs-OfTables name (λ r. Unit)))
        id_of-Keeps

  replace_packages-Keeps :
      (gs : List PackageGroup) → Keeps (HasNode name) (transaction e (replace_packages e name gs))
  replace_packages-Keeps gs =
      transaction-Keeps (HasNode name) e (replace_packages e name gs)
        (NodeIs-OfTables name (λ r. Unit))
        (λ db h.
          OnCommit-map _ (HasNode name) (replace_packages e name gs db).0
            (replace_packages e name gs db).1 (λ u db (r, k, s). (r, k, tt))
            (replace_packages-Stored e name gs db h))

  store_packages-Keeps :
      (artifacts : List (Option Artifact)) (o : Result Bytes)
      → Keeps (HasNode name) (store_packages e name artifacts o)
  store_packages-Keeps artifacts (err x) = λ db h. h
  store_packages-Keeps artifacts (ok compressed) =
      and_take-Keeps (HasNode name) "" _ (λ u. store_node_blob e name compressed)
        (replace_packages-Keeps (group_packages artifacts))
        (λ u.
          and_then-Keeps (HasNode name) "failed to store compressed SBOM: " _ (return (ok tt))
            (update_node_where-Keeps _) (λ db h. h))

  store_parsed-Keeps :
      (sbom_json : Bytes) (o : Result (List (Option Artifact)))
      → Keeps (HasNode name) (store_parsed e name sbom_json o)
  store_parsed-Keeps sbom_json (err x) = λ db h. h
  store_parsed-Keeps sbom_json (ok artifacts) = store_packages-Keeps artifacts (e.gzip sbom_json)

  pub store_node_sbom-Keeps :
      (sbom_json : Bytes) → Keeps (HasNode name) (store_node_sbom e name sbom_json)
  unfolding store_node_sbom
  store_node_sbom-Keeps sbom_json =
      and_take-Keeps (HasNode name) "failed to get node ID: " (select_node_id e name) _
        select_node_id-HasNode (λ u. store_parsed-Keeps sbom_json (e.artifacts_of sbom_json))

  replace_vulnerabilities-HasNode :
      (built : String) (gs : List VulnerabilityGroup)
      → Triple (HasNode name) (replace_vulnerabilities e name built gs) (OnOk (λ _. HasNode name))
  replace_vulnerabilities-HasNode built gs db (r, k, u) =
      OnCommit-map _ (HasNode name) (replace_vulnerabilities e name built gs db).0
        (replace_vulnerabilities e name built gs db).1 (λ u db (r, k, s). (r, k, tt))
        (replace_vulnerabilities-Done e name built r.packages r.package_details r.sbom_compressed gs
          r.vulnerabilities db (r, k, (refl, refl, refl, refl)))

  store_matches-Keeps :
      (built : String) (matches : List (Option Match)) (o : Result Bytes)
      → Keeps (HasNode name) (store_matches e name built matches o)
  store_matches-Keeps built matches (err x) = λ db h. h
  store_matches-Keeps built matches (ok compressed) =
      and_take-Keeps (HasNode name) "" _ (λ u. store_report_blob e name compressed)
        (transaction-Keeps (HasNode name) e
          (replace_vulnerabilities e name built (group_vulnerabilities matches))
          (NodeIs-OfTables name (λ r. Unit))
          (replace_vulnerabilities-HasNode built (group_vulnerabilities matches)))
        (λ u.
          and_then-Keeps (HasNode name) "failed to store compressed vulnerabilities: " _
            (return (ok tt)) (update_node_where-Keeps _) (λ db h. h))

  store_report-Keeps :
      (vuln_json : Bytes) (built : String) (o : Result (List (Option Match)))
      → Keeps (HasNode name) (store_report e name vuln_json built o)
  store_report-Keeps vuln_json built (err x) = λ db h. h
  store_report-Keeps vuln_json built (ok matches) =
      store_matches-Keeps built matches (e.gzip vuln_json)

  store_matches-IsCompleted :
      (built : String) (matches : List (Option Match)) (o : Result Bytes)
      → Triple
          (HasNode name)
          (store_matches e name built matches o)
          (OnOk (λ _. NodeIs name IsCompleted))
  store_matches-IsCompleted built matches (err x) = λ db h. tt
  store_matches-IsCompleted built matches (ok compressed) = λ db (r, k, u).
      OnOk-map _ (λ _. NodeIs name IsCompleted)
        (store_matches e name built matches (ok compressed) db).0
        (store_matches e name built matches (ok compressed) db).1 (λ u db (r, k, h). (r, k, h.1))
        (store_matches-HasReport e name built r.packages r.package_details r.sbom_compressed matches
          compressed r.vulnerabilities db (r, k, (refl, refl, refl, refl)))

  store_report-IsCompleted :
      (vuln_json : Bytes) (built : String) (o : Result (List (Option Match)))
      → Triple
          (HasNode name)
          (store_report e name vuln_json built o)
          (OnOk (λ _. NodeIs name IsCompleted))
  store_report-IsCompleted vuln_json built (err x) = λ db h. tt
  store_report-IsCompleted vuln_json built (ok matches) =
      store_matches-IsCompleted built matches (e.gzip vuln_json)

  -- A report that is stored completes the node, and one that is not leaves its row there.
  pub store_node_vulnerabilities-Either :
      (vuln_json : Bytes) (built : String)
      → Triple
          (HasNode name)
          (store_node_vulnerabilities e name vuln_json built)
          (OnEither (HasNode name) (NodeIs name IsCompleted))
  unfolding store_node_vulnerabilities
  store_node_vulnerabilities-Either vuln_json built db h =
      let m = store_node_vulnerabilities e name vuln_json built in
      either (HasNode name) (NodeIs name IsCompleted) (m db).0 (m db).1
        (and_take-Triple (HasNode name) (λ _. HasNode name) (λ _. NodeIs name IsCompleted)
          "failed to get node ID: " (select_node_id e name) _
          (select_node_id-Keeps e name (λ r. Unit))
          (λ u. store_report-IsCompleted vuln_json built (e.matches_of vuln_json)) db h)
        (and_take-Keeps (HasNode name) "failed to get node ID: " (select_node_id e name) _
          select_node_id-HasNode (λ u. store_report-Keeps vuln_json built (e.matches_of vuln_json))
          db h)
