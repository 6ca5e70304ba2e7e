-- ===== src/Database/NodeMatches.antt =====
-- What StoreNodeVulnerabilities of scanner-core/database/nodes.go leaves in the row of its node.
use bjorn2scan.Base.{◌≡◌, refl, sym, ap, String, List, [], ◌++◌, map, Option, some, ok, subst}
use bjorn2scan.Base.Maps.{get}
use bjorn2scan.Status.{completed}
use bjorn2scan.Database.Tables.{
  Bytes, Engine, Match, PackageKey, VulnerabilityKey, NodePackage, NodeVulnerability, NodeRow,
  return, query, commit, transaction,
}
use bjorn2scan.Database.Triples.{
  Triple, OnOk, query-Triple, and_take-Triple, and_then-Triple, commit-Gives, OnCommit,
}
use bjorn2scan.Database.Keeping.{transaction-Triple}
use bjorn2scan.Database.Grouping.{VulnerabilityGroup, group_vulnerabilities}
use bjorn2scan.Database.NodeRows.{
  NodeIs, NodeIs-OfTables, at_node-NodeIs, update_node_where-Triple, insert_rows-Triple,
  select_node_id-Keeps,
}
use bjorn2scan.Database.NodeScans.{at_node, select_node_id, update_at}
use bjorn2scan.Database.NodeReports.{
  vulnerability_row, vulnerability_row_key, vulnerabilities_of, vulnerability_details,
  with_node_scan, finish_vulnerabilities, replace_vulnerabilities, store_report_blob, store_matches,
  store_report, store_node_vulnerabilities,
}

-- What is known of the SBOM, and the vulnerabilities.
abbrev pub Rows :
    List NodePackage
    → List (PackageKey × List Bytes)
    → Option Bytes
    → List NodeVulnerability
    → NodeRow
    → Type 0
Rows ps ds sb vs r =
    (r.packages ≡ ps)
    × (r.package_details ≡ ds)
    × (r.sbom_compressed ≡ sb)
    × (r.vulnerabilities ≡ vs)

abbrev pub HasReport :
    List NodePackage
    → List (PackageKey × List Bytes)
    → Option Bytes
    → List (Option Match)
    → Bytes
    → NodeRow
    → Type 0
HasReport ps ds sb matches compressed r =
    Rows ps ds sb (map vulnerability_row (group_vulnerabilities matches)) r
    × (r.status ≡ some completed)
    × (r.vulnerabilities_compressed ≡ some compressed)

module _ (e : Engine) (name built : String) (ps : List NodePackage)
    (ds : List (PackageKey × List Bytes)) (sb : Option Bytes) where
  abbrev pub Of : List NodeVulnerability → NodeRow → Type 0
  Of vs = Rows ps ds sb vs

  abbrev pub Done : List NodeVulnerability → NodeRow → Type 0
  Done vs r = Rows ps ds sb vs r × (r.status ≡ some completed)

  finish_vulnerabilities-Done :
      (gs : List VulnerabilityGroup) (ks : List VulnerabilityKey) (vs : List NodeVulnerability)
      → Triple
          (NodeIs name (Of vs))
          (finish_vulnerabilities e name built gs ks)
          (OnOk (OnCommit (λ _. NodeIs name (Done vs))))
  unfolding finish_vulnerabilities
  finish_vulnerabilities-Done gs ks vs =
      and_then-Triple (NodeIs name (Of vs)) (NodeIs name (Of vs))
        (OnCommit (λ _. NodeIs name (Done vs))) "failed to batch insert vulnerability details: " _ _
        (insert_rows-Triple e
          (λ c.
            at_node name (λ r. record r { vulnerability_details = r.vulnerability_details ++ c }))
          (λ l. NodeIs name (Of vs)) 1 399 (vulnerability_details ks gs)
          (λ done. NodeIs-OfTables name (Of vs))
          (λ done c. at_node-NodeIs name _ (Of vs) (Of vs) (λ r h. h)))
        (and_then-Triple (NodeIs name (Of vs)) (NodeIs name (Done vs))
          (OnCommit (λ _. NodeIs name (Done vs))) "failed to update node status: "
          (update_at e name (with_node_scan built)) (commit e tt)
          (λ db.
            update_node_where-Triple e name (with_node_scan built (e.now db.statements)) (Of vs)
              (Done vs) (λ r h. (h, refl)) db)
          (commit-Gives e tt (λ _. NodeIs name (Done vs)) (NodeIs-OfTables name (Done vs))))

  pub replace_vulnerabilities-Done :
      (gs : List VulnerabilityGroup) (vs : List NodeVulnerability)
      → Triple
          (NodeIs name (Of vs))
          (replace_vulnerabilities e name built gs)
          (OnOk (OnCommit (λ _. NodeIs name (Done (map vulnerability_row gs)))))
  unfolding replace_vulnerabilities
  replace_vulnerabilities-Done gs vs =
      let new = map vulnerability_row gs in
      let End = OnCommit (λ (u : Unit {0}). NodeIs name (Done new)) in
      and_then-Triple (NodeIs name (Of vs)) (NodeIs name (Of vs)) End
        "failed to delete existing vulnerability details: " _ _
        (update_node_where-Triple e name _ (Of vs) (Of vs) (λ r h. h))
        (and_then-Triple (NodeIs name (Of vs)) (NodeIs name (Of [])) End
          "failed to delete existing vulnerabilities: " _ _
          (update_node_where-Triple e name _ (Of vs) (Of []) (λ r (p, d, s, v). (p, d, s, refl)))
          (and_then-Triple (NodeIs name (Of [])) (NodeIs name (Of new)) End
            "failed to batch insert vulnerabilities: " _ _
            (insert_rows-Triple e
              (λ c. at_node name (λ r. record r { vulnerabilities = r.vulnerabilities ++ c }))
              (λ l. NodeIs name (Of l)) 12 49 new (λ done. NodeIs-OfTables name (Of done))
              (λ done c.
                at_node-NodeIs name _ (Of done) (Of (done ++ c))
                  (λ r (p, d, s, v). (p, d, s, ap (λ l. l ++ c) v))))
            (and_take-Triple (NodeIs name (Of new)) (λ ks. NodeIs name (Of new)) End
              "failed to query vulnerability IDs: "
              (query e (λ db. map vulnerability_row_key (vulnerabilities_of (get name db.nodes))))
              (finish_vulnerabilities e name built gs)
              (query-Triple (NodeIs name (Of new)) (λ ks. NodeIs name (Of new)) e
                (λ db. map vulnerability_row_key (vulnerabilities_of (get name db.nodes)))
                (NodeIs-OfTables name (Of new)) (λ db h. h))
              (λ ks. finish_vulnerabilities-Done gs ks new))))

  pub store_matches-HasReport :
      (matches : List (Option Match)) (compressed : Bytes) (vs : List NodeVulnerability)
      → Triple
          (NodeIs name (Of vs))
          (store_matches e name built matches (ok compressed))
          (OnOk (λ _. NodeIs name (HasReport ps ds sb matches compressed)))
  store_matches-HasReport matches compressed vs =
      let new = map vulnerability_row (group_vulnerabilities matches) in
      let End = HasReport ps ds sb matches compressed in
      and_take-Triple (NodeIs name (Of vs)) (λ _. NodeIs name (Done new)) (λ _. NodeIs name End) ""
        (transaction e (replace_vulnerabilities e name built (group_vulnerabilities matches)))
        (λ u. store_report_blob e name compressed)
        (transaction-Triple (NodeIs name (Of vs)) (λ _. NodeIs name (Done new)) e
          (replace_vulnerabilities e name built (group_vulnerabilities matches))
          (NodeIs-OfTables name (Of vs))
          (replace_vulnerabilities-Done (group_vulnerabilities matches) vs))
        (λ u.
          and_then-Triple (NodeIs name (Done new)) (NodeIs name End) (λ _. NodeIs name End)
            "failed to store compressed vulnerabilities: " _ (return (ok tt))
            (update_node_where-Triple e name _ (Done new) End (λ r (h, s). (h, s, refl)))
            (λ db h. h))

  -- Where StoreNodeVulnerabilities succeeds.
  pub store_node_vulnerabilities-HasReport :
      (vuln_json : Bytes) (matches : List (Option Match)) (compressed : Bytes)
      (vs : List NodeVulnerability)
      → e.matches_of vuln_json ≡ ok matches
      → e.gzip vuln_json ≡ ok compressed
      → Triple
          (NodeIs name (Of vs))
          (store_node_vulnerabilities e name vuln_json built)
          (OnOk (λ _. NodeIs name (HasReport ps ds sb matches compressed)))
  unfolding store_node_vulnerabilities
  store_node_vulnerabilities-HasReport vuln_json matches compressed vs read packed =
      let End = λ (u : Unit {0}). NodeIs name (HasReport ps ds sb matches compressed) in
      and_take-Triple (NodeIs name (Of vs)) (λ _. NodeIs name (Of vs)) End "failed to get node ID: "
        (select_node_id e name) (λ u. store_report e name vuln_json built (e.matches_of vuln_json))
        (select_node_id-Keeps e name (Of vs))
        (λ u.
          subst
            (λ a. Triple (NodeIs name (Of vs)) (store_report e name vuln_json built a) (OnOk End))
            (sym read)
            (subst
              (λ c. Triple (NodeIs name (Of vs)) (store_matches e name built matches c) (OnOk End))
              (sym packed) (store_matches-HasReport matches compressed vs)))
