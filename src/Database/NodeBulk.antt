-- ===== src/Database/NodeBulk.antt =====
-- The bulk queries on the nodes: `GetNodeScanStatusBulk` and `IsNodeScanCompleteBulk` of
-- scanner-core/database/nodes.go. A failure while the rows are read counts as one of the query.
use bjorn2scan.Base.{
  suc, ◌≡◌, refl, ap, ◌∙◌, String, Bool, true, false, ◌&&◌, List, [], ◌∷◌, Option, none, some,
  Result, ok, holds, Distinct, keys, length, ltb, arith, sym, Bool-cases, inl, inr,
}
use bjorn2scan.Base.Maps.{get}
use bjorn2scan.Database.Tables.{Engine, NodeRow, Db, M, return, query, and_take, go_with}
use bjorn2scan.Database.Bulk.{rows_in, init_all, read_rows, answer, get-init_all, get-read_rows}
use bjorn2scan.Database.Nodes.{
  select_node, get_node_scan_status, is_node_scan_complete, count_packages, status_text,
  node_status_text, is_completed_node, package_count,
}
use bjorn2scan.Database.Rows.{IsQuiet}
use bjorn2scan.Database.Success.{query-quiet}

module _ {V : Type 0} where
  unfoldable pub node_bulk_query :
      String → V → (NodeRow → V) → Engine → List String → M (Result (List (String × V)))
  node_bulk_query message v f e [] = return (ok [])
  node_bulk_query message v f e (n ∷ ns) =
      and_take message (query e (λ db. rows_in (n ∷ ns) db.nodes))
        (λ rows. return (ok (read_rows f rows (init_all v (n ∷ ns) []))))

  -- Each name has the answer for its row, or the one for a missing node.
  pub get-node_bulk_query :
      (message : String) (v : V) (f : NodeRow → V) (e : Engine) (ns : List String) (n : String)
      (db : Db)
      → IsQuiet e
      → Distinct (keys db.nodes)
      → holds n ns ≡ true
      → (m : List (String × V)) × ((node_bulk_query message v f e ns db).0 ≡ ok m)
        × (get n m ≡ some (answer v f (get n db.nodes)))
  unfolding node_bulk_query
  get-node_bulk_query message v f e [] n db quiet u h = ([], refl, cc)
  get-node_bulk_query message v f e (x ∷ xs) n db quiet u h = (
    read_rows f (rows_in (x ∷ xs) db.nodes) (init_all v (x ∷ xs) []),
    ap
        (λ p.
          (go_with message (λ rows. return (ok (read_rows f rows (init_all v (x ∷ xs) [])))) p.0
            p.1).0)
        (query-quiet e quiet (λ db. rows_in (x ∷ xs) db.nodes) db),
    ground (
      arith,
      get-read_rows f n (x ∷ xs) db.nodes (init_all v (x ∷ xs) []) u h,
      get-init_all v n (x ∷ xs) [],
    ),
  )

unfoldable pub get_node_scan_status_bulk :
    Engine → List String → M (Result (List (String × String)))
unfolding node_bulk_query
get_node_scan_status_bulk =
    node_bulk_query "failed to query node statuses: " "pending" (λ r. status_text r.status)

abbrev pub is_complete_node : NodeRow → Bool
is_complete_node r = is_completed_node (some r) && ltb 0 (length r.packages)

unfoldable pub is_node_scan_complete_bulk : Engine → List String → M (Result (List (String × Bool)))
unfolding node_bulk_query
is_node_scan_complete_bulk =
    node_bulk_query "failed to query node scan completeness: " false is_complete_node

single_status :
    (e : Engine) (n : String) (db : Db)
    → IsQuiet e
    → (get_node_scan_status e n db).0 ≡ ok (node_status_text (get n db.nodes))
unfolding get_node_scan_status select_node
single_status e n db quiet =
    ap
      (λ p.
        (go_with "failed to get node scan status: " (λ o. return (ok (node_status_text o))) p.0
          p.1).0)
      (query-quiet e quiet (λ db. get n db.nodes) db)

-- Whether the row, if there is one, is completed and has packages.
abbrev pub complete_row : Option NodeRow → Bool
complete_row none = false
complete_row (some r) = is_complete_node r

count_packages_quiet :
    (e : Engine) (n : String) (o : Option NodeRow) (db : Db)
    → IsQuiet e
    → get n db.nodes ≡ o
    → (count_packages e n (is_completed_node o) db).0 ≡ ok (complete_row o)
count_packages_quiet e n none db quiet h = refl
count_packages_quiet e n (some r) db quiet h = elim (Bool-cases (is_completed_node (some r))) [
  | inr f ↦
      ap (λ b. (count_packages e n b db).0) f
      ∙ ap (λ b. ok (b && ltb 0 (length r.packages))) (sym f)
  | inl t ↦
      ap (λ b. (count_packages e n b db).0) t
      ∙ ap (λ p. (go_with "failed to count node packages: " (λ k. return (ok (ltb 0 k))) p.0 p.1).0)
          (query-quiet e quiet (λ db. package_count (get n db.nodes)) db)
      ∙ ap (λ o. ok (ltb 0 (package_count o))) h
      ∙ ap (λ b. ok (b && ltb 0 (length r.packages))) (sym t)
]

single_complete :
    (e : Engine) (n : String) (db : Db)
    → IsQuiet e
    → (is_node_scan_complete e n db).0 ≡ ok (complete_row (get n db.nodes))
unfolding is_node_scan_complete select_node
single_complete e n db quiet =
    ap
      (λ p.
        (go_with "failed to check node scan status: "
          (λ o. count_packages e n (is_completed_node o)) p.0 p.1).0)
      (query-quiet e quiet (λ db. get n db.nodes) db)
    ∙ count_packages_quiet e n (get n db.nodes) (record db { statements = suc db.statements }) quiet
        refl

pub answer_status :
    (o : Option NodeRow) → answer "pending" (λ r. status_text r.status) o ≡ node_status_text o
answer_status none = refl
answer_status (some r) = refl

pub answer_complete : (o : Option NodeRow) → answer false is_complete_node o ≡ complete_row o
answer_complete none = refl
answer_complete (some r) = refl

-- Where no statement fails and names are unique, the bulk queries on the nodes succeed, and for each
-- name that they are asked for they give what the query for that one node gives: its scan status, and
-- whether its scan is complete.
pub node_bulk-single :
    (e : Engine) (ns : List String) (n : String) (db : Db)
    → IsQuiet e
    → Distinct (keys db.nodes)
    → holds n ns ≡ true
    → (m : List (String × String)) × (c : List (String × Bool)) × (s : String) × (b : Bool)
      × ((get_node_scan_status_bulk e ns db).0 ≡ ok m)
      × ((get_node_scan_status e n db).0 ≡ ok s)
      × (get n m ≡ some s)
      × ((is_node_scan_complete_bulk e ns db).0 ≡ ok c)
      × ((is_node_scan_complete e n db).0 ≡ ok b)
      × (get n c ≡ some b)
unfolding get_node_scan_status_bulk is_node_scan_complete_bulk
node_bulk-single e ns n db quiet u h =
    let (m, em, gm) =
      get-node_bulk_query "failed to query node statuses: " "pending" (λ r. status_text r.status) e
        ns n db quiet u h in
    let (c, ec, gc) =
      get-node_bulk_query "failed to query node scan completeness: " false is_complete_node e ns n
        db quiet u h in
    (
      m,
      c,
      node_status_text (get n db.nodes),
      complete_row (get n db.nodes),
      em,
      single_status e n db quiet,
      gm ∙ ap some (answer_status (get n db.nodes)),
      ec,
      single_complete e n db quiet,
      gc ∙ ap some (answer_complete (get n db.nodes)),
    )
