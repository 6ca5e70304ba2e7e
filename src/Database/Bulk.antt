-- ===== src/Database/Bulk.antt =====
-- The bulk queries on the images: `GetImageScanStatusBulk` and `IsScanDataCompleteBulk` of
-- scanner-core/database/scanning.go. A failure while the rows are read counts as one of the query.
use Prim.Native.String.{◌++◌ as str_append}
use bjorn2scan.Base.{
  ◌≡◌, refl, String, Bool, true, false, List, [], ◌∷◌, map, Option, none, some, Result, ok, err,
  eq_iff, arith, if◌then◌else◌, holds, Distinct, Option-cases, inl, inr, Bool-cases,
}
use bjorn2scan.Base.Maps.{get, put, get-put}
use bjorn2scan.Database.Tables.{Engine, ImageRow, Db, M, ◌>>=◌, return, statement}
use bjorn2scan.Database.Images.{select_row, get_image_status}
use bjorn2scan.Database.Blobs.{
  ScanStatus, pending_scan, scan_status, get_image_scan_status, is_complete_row,
  is_scan_data_complete,
}
use bjorn2scan.Database.Rows.{IsQuiet}

-- The entries of the table whose digest is asked for.
abbrev pub rows_in : {R : Type 0} → List String → List (String × R) → List (String × R)
rows_in ds [] = []
rows_in ds ((k, r) ∷ rs) = let rest = rows_in ds rs in if holds k ds then (k, r) ∷ rest else rest

-- `SELECT … FROM images WHERE digest IN (…)`.
unfoldable pub select_in : Engine → List String → M (Result (List (String × ImageRow)))
select_in e digests = do
  n ← statement
  λ db. elim (e.fault n) [ some x ↦ (err x, db) | none ↦ (ok (rows_in digests db.images), db) ]

module _ {V : Type 0} where
  -- The loop that gives each digest the answer for a missing image.
  abbrev pub init_all : V → List String → List (String × V) → List (String × V)
  init_all v [] m = m
  init_all v (d ∷ ds) m = init_all v ds (put d v m)

  -- The loop over the rows.
  abbrev pub read_rows :
      {R : Type 0} → (R → V) → List (String × R) → List (String × V) → List (String × V)
  read_rows f [] m = m
  read_rows f ((k, r) ∷ rs) m = read_rows f rs (put k (f r) m)

  unfoldable pub bulk_query :
      String → V → (ImageRow → V) → Engine → List String → M (Result (List (String × V)))
  unfolding select_in
  bulk_query message v f e [] = return (ok [])
  bulk_query message v f e (d ∷ ds) = do
    r ← select_in e (d ∷ ds)
    return (elim r [
      | err x ↦ err (str_append message x)
      | ok rows ↦ ok (read_rows f rows (init_all v (d ∷ ds) []))
    ])

unfoldable pub get_image_scan_status_bulk :
    Engine → List String → M (Result (List (String × ScanStatus)))
unfolding bulk_query
get_image_scan_status_bulk =
    bulk_query "failed to query image statuses: " pending_scan (λ r. scan_status r.status)

unfoldable pub is_scan_data_complete_bulk : Engine → List String → M (Result (List (String × Bool)))
unfolding bulk_query
is_scan_data_complete_bulk =
    bulk_query "failed to query scan data completeness: " false is_complete_row

-- The schema keeps `digest` unique.
abbrev pub HasUniqueDigests : Db → Type 0
HasUniqueDigests db = Distinct (map (λ e. e.0) db.images)

pub get-missing :
    {R : Type 0} (k : String) (rs : List (String × R))
    → holds k (map (λ e. e.0) rs) ≡ false
    → get k rs ≡ none
get-missing k [] h = refl
get-missing k ((j, r) ∷ rs) h = ground (arith, eq_iff j k, get-missing k rs)

module _ {V : Type 0} where
  abbrev pub answer : {R : Type 0} → V → (R → V) → Option R → V
  answer v f none = v
  answer v f (some r) = f r

  pub get-init_all :
      (v : V) (k : String) (ds : List String) (m : List (String × V))
      → get k (init_all v ds m) ≡ (if holds k ds then some v else get k m)
  get-init_all v k [] m = refl
  get-init_all v k (d ∷ ds) m = ground (arith, get-init_all v k ds (put d v m), get-put d k v m)

  pub get-read_rows :
      {R : Type 0} (f : R → V) (k : String) (ds : List String) (rs : List (String × R))
      (m : List (String × V))
      → Distinct (map (λ e. e.0) rs)
      → holds k ds ≡ true
      → get k (read_rows f (rows_in ds rs) m)
        ≡ elim (get k rs) as (λ _. Option V) [ some r ↦ some (f r) | none ↦ get k m ]
  get-read_rows f k ds [] m u h = refl
  get-read_rows f k ds ((j, r) ∷ rs) m u h = elim (Bool-cases (holds j ds)) [
    | inr g ↦ ground (arith, eq_iff j k, get-read_rows f k ds rs m u.1 h)
    | inl g ↦ ground (
      arith,
      eq_iff j k,
      get-read_rows f k ds rs (put j (f r) m) u.1 h,
      get-put j k (f r) m,
      get-missing j rs u.0,
    )
  ]

  get-bulk_query :
      (message : String) (v : V) (f : ImageRow → V) (e : Engine) (ds : List String) (d : String)
      (db : Db)
      → IsQuiet e
      → HasUniqueDigests db
      → holds d ds ≡ true
      → (m : List (String × V)) × ((bulk_query message v f e ds db).0 ≡ ok m)
        × (get d m ≡ some (answer v f (get d db.images)))
  unfolding bulk_query select_in
  get-bulk_query message v f e [] d db quiet u h = ([], refl, cc)
  get-bulk_query message v f e (x ∷ xs) d db quiet u h = (
    read_rows f (rows_in (x ∷ xs) db.images) (init_all v (x ∷ xs) []),
    ground (arith, quiet db.statements),
    ground (
      arith,
      get-read_rows f d (x ∷ xs) db.images (init_all v (x ∷ xs) []) u h,
      get-init_all v d (x ∷ xs) [],
    ),
  )

-- Where no statement fails and digests are unique, the bulk queries succeed, and for each digest
-- that they are asked for they give what the query for that one image gives: its scan status, and
-- whether its data is complete.
pub bulk-single :
    (e : Engine) (ds : List String) (d : String) (db : Db)
    → IsQuiet e
    → HasUniqueDigests db
    → holds d ds ≡ true
    → (m : List (String × ScanStatus)) × (c : List (String × Bool)) × (s : ScanStatus) × (b : Bool)
      × ((get_image_scan_status_bulk e ds db).0 ≡ ok m)
      × ((get_image_scan_status e d db).0 ≡ ok s)
      × (get d m ≡ some s)
      × ((is_scan_data_complete_bulk e ds db).0 ≡ ok c)
      × ((is_scan_data_complete e d db).0 ≡ ok b)
      × (get d c ≡ some b)
unfolding get_image_scan_status_bulk is_scan_data_complete_bulk get_image_scan_status
    is_scan_data_complete get_image_status select_row scan_status
bulk-single e ds d db quiet u h =
    let (m, em, gm) =
      get-bulk_query "failed to query image statuses: " pending_scan (λ r. scan_status r.status) e
        ds d db quiet u h in
    let (c, ec, gc) =
      get-bulk_query "failed to query scan data completeness: " false is_complete_row e ds d db
        quiet u h in
    elim (Option-cases (get d db.images)) [
      | inl z ↦ (
        m,
        c,
        pending_scan,
        false,
        em,
        ground (arith, quiet db.statements),
        ground arith,
        ec,
        ground (arith, quiet db.statements),
        ground arith,
      )
      | inr (r, z) ↦ (
        m,
        c,
        scan_status r.status,
        is_complete_row r,
        em,
        ground (arith, quiet db.statements),
        ground arith,
        ec,
        ground (arith, quiet db.statements),
        ground arith,
      )
    ]
