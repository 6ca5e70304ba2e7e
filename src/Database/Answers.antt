-- ===== src/Database/Answers.antt =====
-- The answers of the bulk queries of scanner-core/database as a whole: for the keys that are asked
-- for, none of them twice, a map with an entry for each.
use bjorn2scan.Base.{
  ◌≡◌, refl, sym, ap, ◌∙◌, subst, String, true, false, List, [], ◌∷◌, ◌++◌, map, some, ok, arith,
  eq_iff, inl, inr, Bool-cases, Option-cases, holds, holds-append, Distinct, keys, append-nil,
  append_assoc, keys-put,
}
use bjorn2scan.Base.Maps.{get, put}
use bjorn2scan.Database.Tables.{Engine, ImageRow, NodeRow, Db}
use bjorn2scan.Database.Rows.{IsQuiet}
use bjorn2scan.Database.NodeBulk.{node_bulk_query}
use bjorn2scan.Database.Bulk.{
  rows_in, init_all, read_rows, answer, select_in, bulk_query, get-init_all, get-read_rows,
  get-missing,
}

keys-put_held :
    {V : Type 0} (k : String) (v : V) (m : List (String × V))
    → holds k (keys m) ≡ true
    → keys (put k v m) ≡ keys m
keys-put_held k v [] h = cc
keys-put_held k v ((j, w) ∷ m) h = ground (arith, eq_iff j k, keys-put_held k v m)

entries_lem :
    {V : Type 0} (g : String → V) (m : List (String × V))
    → Distinct (keys m)
    → ((d : String) → holds d (keys m) ≡ true → get d m ≡ some (g d))
    → m ≡ map (λ d. (d, g d)) (keys m)
entries_lem g [] u h = refl
entries_lem g ((k, v) ∷ m) u h =
    ground
      (arith, eq_iff k k, h k, entries_lem g m u.1 (λ d e. ground (arith, h d, eq_iff k d, u.0)))

Distinct-append-holds :
    (xs : List String) (d : String) (ds : List String)
    → Distinct (xs ++ d ∷ ds)
    → holds d xs ≡ false
Distinct-append-holds [] d ds u = refl
Distinct-append-holds (x ∷ xs) d ds u =
    ground
      (arith, eq_iff x d, eq_iff d d, Distinct-append-holds xs d ds u.1, holds-append x xs (d ∷ ds))

module _ {V : Type 0} (v : V) where
  keys-init_all :
      (ds : List String) (m : List (String × V))
      → Distinct (keys m ++ ds)
      → keys (init_all v ds m) ≡ keys m ++ ds
  keys-init_all [] m u = sym (append-nil (keys m))
  keys-init_all (d ∷ ds) m u =
      let e = keys-put d v m (get-missing d m (Distinct-append-holds (keys m) d ds u)) in
      let flat = append_assoc (keys m) (d ∷ []) ds in
      keys-init_all ds (put d v m) (subst Distinct (sym (ap (λ l. l ++ ds) e ∙ flat)) u)
      ∙ ap (λ l. l ++ ds) e
      ∙ flat

  keys-read_rows :
      {R : Type 0} (f : R → V) (ds : List String) (rs : List (String × R)) (m : List (String × V))
      → keys m ≡ ds
      → keys (read_rows f (rows_in ds rs) m) ≡ ds
  keys-read_rows f ds [] m e = e
  keys-read_rows f ds ((k, r) ∷ rs) m e = elim (Bool-cases (holds k ds)) [
    | inr h ↦ ground (arith, keys-read_rows f ds rs m e)
    | inl h ↦ ground (arith, keys-read_rows f ds rs (put k (f r) m), keys-put_held k (f r) m)
  ]

  answered :
      {R : Type 0} (f : R → V) (ds : List String) (rs : List (String × R)) (d : String)
      → Distinct (keys rs)
      → holds d ds ≡ true
      → get d (read_rows f (rows_in ds rs) (init_all v ds [])) ≡ some (answer v f (get d rs))
  answered f ds rs d u h = elim (Option-cases (get d rs)) [
    | inl z ↦ ground (arith, get-read_rows f d ds rs (init_all v ds []) u h, get-init_all v d ds [])
    | inr (r, z) ↦
        ground (arith, get-read_rows f d ds rs (init_all v ds []) u h, get-init_all v d ds [])
  ]

  -- The whole answer.
  pub answers_lem :
      {R : Type 0} (f : R → V) (ds : List String) (rs : List (String × R))
      → Distinct (keys rs)
      → Distinct ds
      → read_rows f (rows_in ds rs) (init_all v ds []) ≡ map (λ d. (d, answer v f (get d rs))) ds
  answers_lem f ds rs u w =
      let m = read_rows f (rows_in ds rs) (init_all v ds []) in
      let e = keys-read_rows f ds rs (init_all v ds []) (keys-init_all ds [] w) in
      entries_lem (λ d. answer v f (get d rs)) m (subst Distinct (sym e) w)
        (λ d h. answered f ds rs d u (subst (λ l. holds d l ≡ true) e h))
      ∙ ap (λ l. map (λ d. (d, answer v f (get d rs))) l) e

-- A bulk query on the images gives it, and leaves the images.
pub bulk_query_lem :
    {V : Type 0} (message : String) (v : V) (f : ImageRow → V) (e : Engine) (ds : List String)
    (db : Db)
    → IsQuiet e
    → Distinct (keys db.images)
    → Distinct ds
    → ((bulk_query message v f e ds db).0 ≡ ok (map (λ d. (d, answer v f (get d db.images))) ds))
      × ((bulk_query message v f e ds db).1.images ≡ db.images)
unfolding bulk_query select_in
bulk_query_lem message v f e [] db quiet u w = (refl, refl)
bulk_query_lem message v f e (d ∷ ds) db quiet u w = (
  ground (arith, quiet db.statements, answers_lem v f (d ∷ ds) db.images u w),
  ground (arith, quiet db.statements),
)

-- One on the nodes as well.
pub node_bulk_query_lem :
    {V : Type 0} (message : String) (v : V) (f : NodeRow → V) (e : Engine) (ns : List String)
    (db : Db)
    → IsQuiet e
    → Distinct (keys db.nodes)
    → Distinct ns
    → ((node_bulk_query message v f e ns db).0
        ≡ ok (map (λ n. (n, answer v f (get n db.nodes))) ns))
      × ((node_bulk_query message v f e ns db).1.nodes ≡ db.nodes)
unfolding node_bulk_query
node_bulk_query_lem message v f e [] db quiet u w = (refl, refl)
node_bulk_query_lem message v f e (n ∷ ns) db quiet u w = (
  ground (arith, quiet db.statements, answers_lem v f (n ∷ ns) db.nodes u w),
  ground (arith, quiet db.statements),
)
