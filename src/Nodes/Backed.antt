-- ===== src/Nodes/Backed.antt =====
-- The node manager of scanner-core/nodes/manager.go on the database of scanner-core/database.
use bjorn2scan.Base.{map_entries, ◌≡◌, sym, ap, ◌∙◌, subst, String, false, List, ok, keys, Distinct}
use bjorn2scan.Base.Maps.{get}
use bjorn2scan.Nodes.Manager.{NodeStore}
use bjorn2scan.Nodes.Requests.{IsAnswering}
use bjorn2scan.Database.Tables.{Engine, NodeRow, Db}
use bjorn2scan.Database.Rows.{IsQuiet}
use bjorn2scan.Database.Nodes as Nodes
use bjorn2scan.Database.Nodes.{status_text, node_status_text}
use bjorn2scan.Database.NodeBulk.{
  get_node_scan_status_bulk, is_node_scan_complete_bulk, is_complete_node, complete_row,
  answer_status, answer_complete,
}
use bjorn2scan.Database.Answers.{node_bulk_query_lem}

-- The database as the manager's store.
abbrev pub node_database : Engine → NodeStore
node_database e = record {
  State = Db;
  add_node = λ n. Nodes.add_node e n;
  update_node = λ n. Nodes.update_node e n;
  remove_node = λ name. Nodes.remove_node e name;
  get_node_scan_status_bulk = λ ns. get_node_scan_status_bulk e ns;
  is_node_scan_complete_bulk = λ ns. is_node_scan_complete_bulk e ns;
}

-- Where no statement fails and names are unique, the bulk queries answer with the rows of the table.
pub node_database-IsAnswering :
    (e : Engine) (nodes : List (String × NodeRow))
    → IsQuiet e
    → Distinct (keys nodes)
    → IsAnswering
        (node_database e)
        (λ db. db.nodes ≡ nodes)
        (λ n. node_status_text (get n nodes))
        (λ n. complete_row (get n nodes))
unfolding get_node_scan_status_bulk is_node_scan_complete_bulk
node_database-IsAnswering e nodes quiet u = record {
  answers_statuses = λ ns db w h.
      let (a, b) =
        node_bulk_query_lem "failed to query node statuses: " "pending" (λ r. status_text r.status)
          e ns db quiet (subst (λ l. Distinct (keys l)) (sym h) u) w in
      (
        a
            ∙ ap ok (
                map_entries _ (λ n. node_status_text (get n nodes))
                  (λ n. answer_status (get n db.nodes) ∙ ap (λ l. node_status_text (get n l)) h)
                  ns),
        b ∙ h,
      );
  answers_completes = λ ns db w h.
      let (a, b) =
        node_bulk_query_lem "failed to query node scan completeness: " false is_complete_node e ns
          db quiet (subst (λ l. Distinct (keys l)) (sym h) u) w in
      a
      ∙ ap ok (
          map_entries _ (λ n. complete_row (get n nodes))
            (λ n. answer_complete (get n db.nodes) ∙ ap (λ l. complete_row (get n l)) h) ns);
}
