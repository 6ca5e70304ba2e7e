-- ===== src/Database/NodePackages.antt =====
-- What StoreNodeSBOM of scanner-core/database/nodes.go leaves in the row of its node.
use bjorn2scan.Base.{
  ◌≡◌, refl, sym, ap, ◌∙◌, String, true, List, [], ◌∷◌, ◌++◌, map, Option, some, ok, eq_iff, arith,
  All, All-map, subst,
}
use bjorn2scan.Base.Maps.{get}
use bjorn2scan.Status.{scanning_vulnerabilities}
use bjorn2scan.Database.Tables.{
  Bytes, Engine, Artifact, PackageKey, NodePackage, NodeRow, Db, return, query, commit, transaction,
}
use bjorn2scan.Database.Triples.{
  Triple, OnOk, OnNone, query-Triple, and_take-Triple, and_then-Triple, commit-Gives, OnCommit,
}
use bjorn2scan.Database.Keeping.{transaction-Triple}
use bjorn2scan.Database.Grouping.{PackageGroup, same_package, group_packages}
use bjorn2scan.Database.Batches.{insert_rows}
use bjorn2scan.Database.NodeRows.{
  NodeIs, NodeIs-OfTables, at_node-NodeIs, update_node_where-Triple, insert_rows-Triple,
  select_node_id-NodeIs,
}
use bjorn2scan.Database.NodeScans.{
  select_node_id, package_row, row_key, packages_of, has_key, package_details, at_node, update_at,
  with_node_sbom, finish_packages, replace_packages, store_node_blob, store_packages, store_parsed,
  store_node_sbom,
}

same_package_refl : (k : PackageKey) → same_package k k ≡ true
same_package_refl k =
    ground (arith, eq_iff k.name k.name, eq_iff k.version k.version, eq_iff k.type_name k.type_name)

-- The details of a group.
abbrev pub with_key : PackageGroup → PackageKey × List Bytes
with_key g = (g.key, g.instances)

abbrev Found : List PackageKey → PackageGroup → Type 0
Found ks g = has_key same_package g.key ks ≡ true

package_details-Found :
    (ks : List PackageKey) (gs : List PackageGroup)
    → All (Found ks) gs
    → package_details ks gs ≡ map with_key gs
unfolding package_details
package_details-Found ks [] h = refl
package_details-Found ks (g ∷ gs) h = ground (arith, h.0, package_details-Found ks gs h.1)

have_keys : (gs : List PackageGroup) → All (Found (map row_key (map package_row gs))) gs
unfolding has_key
have_keys [] = tt
have_keys (g ∷ gs) =
    (ground (arith, same_package_refl g.key), All-map (λ j h. ground (arith, h)) gs (have_keys gs))

-- The two tables of packages.
abbrev Rows : List NodePackage → List (PackageKey × List Bytes) → NodeRow → Type 0
Rows ps ds r = (r.packages ≡ ps) × (r.package_details ≡ ds)

-- What the transaction leaves, and the whole operation.
abbrev pub Stored : List PackageGroup → NodeRow → Type 0
Stored gs r =
    (r.packages ≡ map package_row gs)
    × (r.package_details ≡ map with_key gs)
    × (r.status ≡ some scanning_vulnerabilities)

finish_packages-Stored :
    (e : Engine) (name : String) (gs : List PackageGroup) (ks : List PackageKey)
    → All (Found ks) gs
    → Triple
        (NodeIs name (Rows (map package_row gs) []))
        (finish_packages e name gs ks)
        (OnOk (OnCommit (λ _. NodeIs name (Stored gs))))
unfolding finish_packages
finish_packages-Stored e name gs ks found =
    let ps = map package_row gs in
    let ds = map with_key gs in
    and_then-Triple (NodeIs name (Rows ps [])) (NodeIs name (Rows ps ds))
      (OnCommit (λ _. NodeIs name (Stored gs))) "failed to batch insert package details: " _ _
      (subst
        (λ l.
          Triple (NodeIs name (Rows ps []))
            (insert_rows e
              (λ c. at_node name (λ r. record r { package_details = r.package_details ++ c })) 2 400
              (package_details ks gs))
            (OnNone (NodeIs name (Rows ps l))))
        (package_details-Found ks gs found)
        (insert_rows-Triple e
          (λ c. at_node name (λ r. record r { package_details = r.package_details ++ c }))
          (λ l. NodeIs name (Rows ps l)) 1 399 (package_details ks gs)
          (λ done. NodeIs-OfTables name (Rows ps done))
          (λ done c.
            at_node-NodeIs name _ (Rows ps done) (Rows ps (done ++ c))
              (λ r (p, d). (p, ap (λ l. l ++ c) d)))))
      (and_then-Triple (NodeIs name (Rows ps ds)) (NodeIs name (Stored gs))
        (OnCommit (λ _. NodeIs name (Stored gs))) "failed to update node status: "
        (update_at e name with_node_sbom) (commit e tt)
        (λ db.
          update_node_where-Triple e name (with_node_sbom (e.now db.statements)) (Rows ps ds)
            (Stored gs) (λ r (p, d). (p, d, refl)) db)
        (commit-Gives e tt (λ _. NodeIs name (Stored gs)) (NodeIs-OfTables name (Stored gs))))

pub replace_packages-Stored :
    (e : Engine) (name : String) (gs : List PackageGroup)
    → Triple
        (NodeIs name (λ r. Unit))
        (replace_packages e name gs)
        (OnOk (OnCommit (λ _. NodeIs name (Stored gs))))
unfolding replace_packages
replace_packages-Stored e name gs =
    let ps = map package_row gs in
    and_then-Triple (NodeIs name (λ r. Unit)) (NodeIs name (λ r. r.package_details ≡ []))
      (OnCommit (λ _. NodeIs name (Stored gs))) "failed to delete existing package details: " _ _
      (update_node_where-Triple e name _ (λ r. Unit) (λ r. r.package_details ≡ []) (λ r u. refl))
      (and_then-Triple (NodeIs name (λ r. r.package_details ≡ [])) (NodeIs name (Rows [] []))
        (OnCommit (λ _. NodeIs name (Stored gs))) "failed to delete existing packages: " _ _
        (update_node_where-Triple e name _ (λ r. r.package_details ≡ []) (Rows [] [])
          (λ r d. (refl, d)))
        (and_then-Triple (NodeIs name (Rows [] [])) (NodeIs name (Rows ps []))
          (OnCommit (λ _. NodeIs name (Stored gs))) "failed to batch insert packages: " _ _
          (insert_rows-Triple e (λ c. at_node name (λ r. record r { packages = r.packages ++ c }))
            (λ l. NodeIs name (Rows l [])) 6 99 ps (λ done. NodeIs-OfTables name (Rows done []))
            (λ done c.
              at_node-NodeIs name _ (Rows done []) (Rows (done ++ c) [])
                (λ r (p, d). (ap (λ l. l ++ c) p, d))))
          (and_take-Triple (NodeIs name (Rows ps []))
            (λ ks db. (ks ≡ map row_key ps) × NodeIs name (Rows ps []) db)
            (OnCommit (λ _. NodeIs name (Stored gs))) "failed to query package IDs: "
            (query e (λ db. map row_key (packages_of (get name db.nodes))))
            (finish_packages e name gs)
            (query-Triple (NodeIs name (Rows ps [])) _ e _ (NodeIs-OfTables name (Rows ps []))
              (λ db (r, h, (p, d)).
                (ap (λ o. map row_key (packages_of o)) h ∙ ap (map row_key) p, (r, h, (p, d)))))
            (λ ks db (k, h).
              finish_packages-Stored e name gs ks
                (subst (λ l. All (Found l) gs) (sym k) (have_keys gs)) db h))))

-- The groups of the artifacts, and the compressed SBOM.
abbrev pub HasSbom : List (Option Artifact) → Bytes → NodeRow → Type 0
HasSbom artifacts compressed r =
    (r.packages ≡ map package_row (group_packages artifacts))
    × (r.package_details ≡ map with_key (group_packages artifacts))
    × (r.status ≡ some scanning_vulnerabilities)
    × (r.sbom_compressed ≡ some compressed)

store_packages-HasSbom :
    (e : Engine) (name : String) (artifacts : List (Option Artifact)) (compressed : Bytes)
    → Triple
        (NodeIs name (λ r. Unit))
        (store_packages e name artifacts (ok compressed))
        (OnOk (λ _. NodeIs name (HasSbom artifacts compressed)))
store_packages-HasSbom e name artifacts compressed =
    let gs = group_packages artifacts in
    let End = HasSbom artifacts compressed in
    and_take-Triple (NodeIs name (λ r. Unit)) (λ _. NodeIs name (Stored gs)) (λ _. NodeIs name End)
      "" (transaction e (replace_packages e name gs)) (λ u. store_node_blob e name compressed)
      (transaction-Triple (NodeIs name (λ r. Unit)) (λ _. NodeIs name (Stored gs)) e
        (replace_packages e name gs) (NodeIs-OfTables name (λ r. Unit))
        (replace_packages-Stored e name gs))
      (λ u.
        and_then-Triple (NodeIs name (Stored gs)) (NodeIs name End) (λ _. NodeIs name End)
          "failed to store compressed SBOM: " _ (return (ok tt))
          (update_node_where-Triple e name _ (Stored gs) End (λ r (p, d, s). (p, d, s, refl)))
          (λ db h. h))

-- Where StoreNodeSBOM succeeds, the row of its node has, for the artifacts of the SBOM, the packages
-- and the details of their groups, each once, the compressed SBOM, and the status
-- scanning_vulnerabilities.
pub store_node_sbom-HasSbom :
    (e : Engine) (name : String) (sbom_json : Bytes) (artifacts : List (Option Artifact))
    (compressed : Bytes) (db : Db)
    → e.artifacts_of sbom_json ≡ ok artifacts
    → e.gzip sbom_json ≡ ok compressed
    → OnOk
        (λ _. NodeIs name (HasSbom artifacts compressed))
        (store_node_sbom e name sbom_json db).0
        (store_node_sbom e name sbom_json db).1
unfolding store_node_sbom
store_node_sbom-HasSbom e name sbom_json artifacts compressed db read packed =
    and_take-Triple (λ db. Unit) (λ _. NodeIs name (λ r. Unit))
      (λ _. NodeIs name (HasSbom artifacts compressed)) "failed to get node ID: "
      (select_node_id e name) (λ u. store_parsed e name sbom_json (e.artifacts_of sbom_json))
      (select_node_id-NodeIs e name)
      (λ u.
        subst
          (λ a.
            Triple (NodeIs name (λ r. Unit)) (store_parsed e name sbom_json a)
              (OnOk (λ _. NodeIs name (HasSbom artifacts compressed))))
          (sym read)
          (subst
            (λ c.
              Triple (NodeIs name (λ r. Unit)) (store_packages e name artifacts c)
                (OnOk (λ _. NodeIs name (HasSbom artifacts compressed))))
            (sym packed) (store_packages-HasSbom e name artifacts compressed)))
      db tt
