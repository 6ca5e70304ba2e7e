-- ===== src/Database/NodeRows.antt =====
-- The row of a node, before and behind the statements of scanner-core/database/nodes.go on it.
use mathlib.Core.List.{append-nil, append_assoc}
use bjorn2scan.Base.{
  suc, subst, ◌≡◌, refl, sym, String, List, [], ◌∷◌, ◌++◌, Option, none, some, str_eq, eq_iff,
  arith, ℕ,
}
use bjorn2scan.Base.Maps.{get}
use bjorn2scan.Database.Tables.{Engine, NodeRow, Db, M, write, return}
use bjorn2scan.Database.Maintenance.{update_all, update_nodes}
use bjorn2scan.Database.Triples.{
  Triple, OnOk, OnNone, OfTables, write-Triple, query-Triple, and_take-Triple,
}
use bjorn2scan.Database.Batches.{go_next, insert_rows}
use bjorn2scan.Database.Chunks.{insert_chunks, concat}
use bjorn2scan.Database.BatchRows.{insert_rows-chunks}
use bjorn2scan.Database.NodeScans.{at_node, id_of, select_node_id}
use bjorn2scan.Database.Nodes.{update_node_where, select_node}

-- The node has a row with the property.
abbrev pub NodeIs : String → (NodeRow → Type 0) → Db → Type 0
NodeIs name P db = (r : NodeRow) × (get name db.nodes ≡ some r) × P r

pub NodeIs-OfTables : (name : String) (P : NodeRow → Type 0) → OfTables (NodeIs name P)
NodeIs-OfTables name P db n h = h

pub get-update_all :
    (name : String) (f : NodeRow → NodeRow) (rs : List (String × NodeRow)) (r : NodeRow)
    → get name rs ≡ some r
    → get name (update_all (λ k r. str_eq k name) f rs) ≡ some (f r)
unfolding update_all
get-update_all name f [] r h = ground arith
get-update_all name f ((k, q) ∷ rs) r h = ground (arith, eq_iff k name, get-update_all name f rs r)

pub update_node_where-Triple :
    (e : Engine) (name : String) (f : NodeRow → NodeRow) (P Q : NodeRow → Type 0)
    → ((r : NodeRow) → P r → Q (f r))
    → Triple (NodeIs name P) (update_node_where e name f) (OnNone (NodeIs name Q))
unfolding update_node_where update_nodes
update_node_where-Triple e name f P Q h =
    write-Triple (NodeIs name P) (NodeIs name Q) e
      (λ db. record db { nodes = update_all (λ k r. str_eq k name) f db.nodes })
      (NodeIs-OfTables name P) (λ db (r, e, p). (f r, get-update_all name f db.nodes r e, h r p))

go_next-Triple :
    (Q R : Db → Type 0) (k : M (Option String)) (r : Option String) (db : Db)
    → Triple Q k (OnNone R)
    → OnNone Q r db
    → OnNone R (go_next k r db).0 (go_next k r db).1
go_next-Triple Q R k (some x) db h q = tt
go_next-Triple Q R k none db h q = h db q

insert_chunks-Triple :
    {R : Type 0} (e : Engine) (insert : List R → Db → Db) (P : List R → Db → Type 0) (done : List R)
    (cs : List (List R))
    → ((done : List R) → OfTables (P done))
    → ((done c : List R) (db : Db) → P done db → P (done ++ c) (insert c db))
    → Triple (P done) (insert_chunks e insert cs) (OnNone (P (done ++ concat cs)))
unfolding insert_chunks concat
insert_chunks-Triple e insert P done [] stable step =
    λ db p. subst (λ l. P l db) (sym (append-nil done)) p
insert_chunks-Triple e insert P done (c ∷ cs) stable step = λ db p.
    go_next-Triple (P (done ++ c)) (P (done ++ (c ++ concat cs))) (insert_chunks e insert cs)
      (write e (insert c) db).0 (write e (insert c) db).1
      (subst (λ l. Triple (P (done ++ c)) (insert_chunks e insert cs) (OnNone (P l)))
        (append_assoc done c (concat cs))
        (insert_chunks-Triple e insert P (done ++ c) cs stable step))
      (write-Triple (P done) (P (done ++ c)) e (insert c) (stable done) (step done c) db p)

-- The loop over the chunks, where the insertion of each one extends what has been inserted.
pub insert_rows-Triple :
    {R : Type 0} (e : Engine) (insert : List R → Db → Db) (P : List R → Db → Type 0)
    (ncols size : ℕ) (rs : List R)
    → ((done : List R) → OfTables (P done))
    → ((done c : List R) (db : Db) → P done db → P (done ++ c) (insert c db))
    → Triple (P []) (insert_rows e insert (suc ncols) (suc size) rs) (OnNone (P rs))
insert_rows-Triple e insert P ncols size rs stable step =
    let (cs, loop, all) = insert_rows-chunks e insert ncols size rs in
    subst (λ m. Triple (P []) m (OnNone (P rs))) (sym loop)
      (subst (λ l. Triple (P []) (insert_chunks e insert cs) (OnNone (P l))) all
        (insert_chunks-Triple e insert P [] cs stable step))

pub at_node-NodeIs :
    (name : String) (f : NodeRow → NodeRow) (P Q : NodeRow → Type 0)
    → ((r : NodeRow) → P r → Q (f r))
    → (db : Db) → NodeIs name P db
    → NodeIs name Q (at_node name f db)
at_node-NodeIs name f P Q h db (r, e, p) = (f r, get-update_all name f db.nodes r e, h r p)

id_of-NodeIs :
    (name : String) (o : Option NodeRow) (db : Db)
    → get name db.nodes ≡ o
    → OnOk (λ _. NodeIs name (λ r. Unit)) (id_of o) db
id_of-NodeIs name none db h = tt
id_of-NodeIs name (some r) db h = (r, h, tt)

pub select_node_id-NodeIs :
    (e : Engine) (name : String)
    → Triple (λ db. Unit) (select_node_id e name) (OnOk (λ _. NodeIs name (λ r. Unit)))
unfolding select_node
select_node_id-NodeIs e name =
    and_take-Triple (λ db. Unit) (λ o db. get name db.nodes ≡ o) (λ _. NodeIs name (λ r. Unit)) ""
      (select_node e name) (λ o. return (id_of o))
      (query-Triple (λ db. Unit) (λ o db. get name db.nodes ≡ o) e (λ db. get name db.nodes)
        (λ db n u. tt) (λ db u. refl))
      (λ o db h. id_of-NodeIs name o db h)

answer_id :
    (name : String) (P : NodeRow → Type 0) (o : Option NodeRow)
    → Triple (NodeIs name P) (return (id_of o)) (OnOk (λ _. NodeIs name P))
answer_id name P none = λ db h. tt
answer_id name P (some r) = λ db h. h

-- Looking for a node that has a row.
pub select_node_id-Keeps :
    (e : Engine) (name : String) (P : NodeRow → Type 0)
    → Triple (NodeIs name P) (select_node_id e name) (OnOk (λ _. NodeIs name P))
unfolding select_node
select_node_id-Keeps e name P =
    and_take-Triple (NodeIs name P) (λ o. NodeIs name P) (λ _. NodeIs name P) ""
      (select_node e name) (λ o. return (id_of o))
      (query-Triple (NodeIs name P) (λ o. NodeIs name P) e (λ db. get name db.nodes)
        (NodeIs-OfTables name P) (λ db h. h))
      (answer_id name P)
