-- ===== src/Database/Stores.antt =====
-- How the operations of Database/Blobs.antt act on rows: on their own digest only, and, where no
-- statement fails, as written.
use Prim.Native.String.{◌++◌ as str_append}
use bjorn2scan.Base.{◌≡◌, ◌≢◌, String, Option, none, some, ok, err, arith, Result-cases, inl, inr}
use bjorn2scan.Base.Maps.{get}
use bjorn2scan.Database.Tables.{Bytes, Engine, ImageRow, Db}
use bjorn2scan.Database.Images.{update_where}
use bjorn2scan.Database.Blobs.{
  get_image_id, store_sbom, store_sbom_rows, get_sbom, stored, store_vulnerabilities,
  store_vulnerabilities_rows, with_sbom_done, with_sbom_blob, with_scan_done, with_scan_blob,
  grype_built,
}
use bjorn2scan.Database.Rows.{
  Spares, select_row-Spares, update_where-Spares, IsQuiet, select_row_quiet, update_where_quiet,
}

get_image_id_quiet :
    (e : Engine) (d : String) (db : Db) (r : ImageRow)
    → IsQuiet e
    → get d db.images ≡ some r
    → ((get_image_id e d db).0 ≡ none) × (get d (get_image_id e d db).1.images ≡ some r)
unfolding get_image_id
get_image_id_quiet e d db r q h = ground (arith, select_row_quiet e d db r q h)

store_sbom_rows_quiet :
    (e : Engine) (d : String) (c : Bytes) (db : Db) (r : ImageRow)
    → IsQuiet e
    → get d db.images ≡ some r
    → ((store_sbom_rows e d c db).0 ≡ none)
      × (get d (store_sbom_rows e d c db).1.images
          ≡ some (with_sbom_blob c (with_sbom_done (e.now db.statements) r)))
unfolding store_sbom_rows
store_sbom_rows_quiet e d c db r q h =
    let (done, row) = update_where_quiet e d (with_sbom_done (e.now db.statements)) db r q h in
    ground (
      arith,
      update_where_quiet e d (with_sbom_blob c)
          (update_where e d (with_sbom_done (e.now db.statements)) db).1
          (with_sbom_done (e.now db.statements) r) q row,
    )

pub store_sbom_quiet :
    (e : Engine) (d : String) (b c : Bytes) (db : Db) (r : ImageRow)
    → IsQuiet e
    → get d db.images ≡ some r
    → e.gzip b ≡ ok c
    → ((store_sbom e d b db).0 ≡ none)
      × (now : String) × (get d (store_sbom e d b db).1.images
          ≡ some (with_sbom_blob c (with_sbom_done now r)))
unfolding store_sbom
store_sbom_quiet e d b c db r q h z =
    let (found, row) = get_image_id_quiet e d db r q h in
    let (done, row') = store_sbom_rows_quiet e d c (get_image_id e d db).1 r q row in
    (ground arith, e.now (get_image_id e d db).1.statements, ground arith)

-- A report that gzip refuses is not stored, and the row stays as it is.
pub store_sbom_refused :
    (e : Engine) (d : String) (b : Bytes) (x : String) (db : Db) (r : ImageRow)
    → IsQuiet e
    → get d db.images ≡ some r
    → e.gzip b ≡ err x
    → ((store_sbom e d b db).0 ≡ some (str_append "failed to compress SBOM: " x))
      × (get d (store_sbom e d b db).1.images ≡ some r)
unfolding store_sbom
store_sbom_refused e d b x db r q h z = ground (arith, get_image_id_quiet e d db r q h)

store_vulnerabilities_rows_quiet :
    (e : Engine) (d : String) (built : Option String) (c : Bytes) (db : Db) (r : ImageRow)
    → IsQuiet e
    → get d db.images ≡ some r
    → ((store_vulnerabilities_rows e d built c db).0 ≡ none)
      × (get d (store_vulnerabilities_rows e d built c db).1.images
          ≡ some (with_scan_blob c (with_scan_done (e.now db.statements) built r)))
unfolding store_vulnerabilities_rows
store_vulnerabilities_rows_quiet e d built c db r q h =
    let (done, row) =
      update_where_quiet e d (with_scan_done (e.now db.statements) built) db r q h in
    ground (
      arith,
      update_where_quiet e d (with_scan_blob c)
          (update_where e d (with_scan_done (e.now db.statements) built) db).1
          (with_scan_done (e.now db.statements) built r) q row,
    )

pub store_vulnerabilities_quiet :
    (e : Engine) (d : String) (b c : Bytes) (built : Option String) (db : Db) (r : ImageRow)
    → IsQuiet e
    → get d db.images ≡ some r
    → e.gzip b ≡ ok c
    → ((store_vulnerabilities e d b built db).0 ≡ none)
      × (now : String) × (get d (store_vulnerabilities e d b built db).1.images
          ≡ some (with_scan_blob c (with_scan_done now (grype_built (e.built_in_json b) built) r)))
unfolding store_vulnerabilities
store_vulnerabilities_quiet e d b c built db r q h z =
    let (found, row) = get_image_id_quiet e d db r q h in
    let (done, row') =
      store_vulnerabilities_rows_quiet e d (grype_built (e.built_in_json b) built) c
        (get_image_id e d db).1 r q row in
    (ground arith, e.now (get_image_id e d db).1.statements, ground arith)

pub store_vulnerabilities_refused :
    (e : Engine) (d : String) (b : Bytes) (x : String) (built : Option String) (db : Db)
    (r : ImageRow)
    → IsQuiet e
    → get d db.images ≡ some r
    → e.gzip b ≡ err x
    → ((store_vulnerabilities e d b built db).0
        ≡ some (str_append "failed to compress vulnerability JSON: " x))
      × (get d (store_vulnerabilities e d b built db).1.images ≡ some r)
unfolding store_vulnerabilities
store_vulnerabilities_refused e d b x built db r q h z =
    ground (arith, get_image_id_quiet e d db r q h)

pub get_sbom_quiet :
    (e : Engine) (d : String) (db : Db) (r : ImageRow)
    → IsQuiet e
    → get d db.images ≡ some r
    → ((get_sbom e d db).0 ≡ stored e "SBOM not available" r.sbom_compressed r.sbom)
      × (get d (get_sbom e d db).1.images ≡ some r)
unfolding get_sbom
get_sbom_quiet e d db r q h = ground (arith, select_row_quiet e d db r q h)

pub get_sbom-Spares : (k : String) (e : Engine) (d : String) → Spares k (get_sbom e d)
unfolding get_sbom
get_sbom-Spares k e d db = select_row-Spares k e d db

get_image_id-Spares : (k : String) (e : Engine) (d : String) → Spares k (get_image_id e d)
unfolding get_image_id
get_image_id-Spares k e d db = select_row-Spares k e d db

store_sbom_rows-Spares :
    (k : String) (e : Engine) (d : String) (c : Bytes) → k ≢ d → Spares k (store_sbom_rows e d c)
unfolding store_sbom_rows
store_sbom_rows-Spares k e d c h db = ground (
  arith,
  update_where-Spares k e d (with_sbom_done (e.now db.statements)) h db,
  update_where-Spares k e d (with_sbom_blob c) h
      (update_where e d (with_sbom_done (e.now db.statements)) db).1,
)

pub store_sbom-Spares :
    (k : String) (e : Engine) (d : String) (b : Bytes) → k ≢ d → Spares k (store_sbom e d b)
unfolding store_sbom
store_sbom-Spares k e d b h db = elim (Result-cases (e.gzip b)) [
  | inl (c, z) ↦ ground (
    arith,
    get_image_id-Spares k e d db,
    store_sbom_rows-Spares k e d c h (get_image_id e d db).1,
  )
  | inr (x, z) ↦ ground (arith, get_image_id-Spares k e d db)
]

store_vulnerabilities_rows-Spares :
    (k : String) (e : Engine) (d : String) (built : Option String) (c : Bytes)
    → k ≢ d
    → Spares k (store_vulnerabilities_rows e d built c)
unfolding store_vulnerabilities_rows
store_vulnerabilities_rows-Spares k e d built c h db = ground (
  arith,
  update_where-Spares k e d (with_scan_done (e.now db.statements) built) h db,
  update_where-Spares k e d (with_scan_blob c) h
      (update_where e d (with_scan_done (e.now db.statements) built) db).1,
)

pub store_vulnerabilities-Spares :
    (k : String) (e : Engine) (d : String) (b : Bytes) (built : Option String)
    → k ≢ d
    → Spares k (store_vulnerabilities e d b built)
unfolding store_vulnerabilities
store_vulnerabilities-Spares k e d b built h db = elim (Result-cases (e.gzip b)) [
  | inl (c, z) ↦ ground (
    arith,
    get_image_id-Spares k e d db,
    store_vulnerabilities_rows-Spares k e d (grype_built (e.built_in_json b) built) c h
        (get_image_id e d db).1,
  )
  | inr (x, z) ↦ ground (arith, get_image_id-Spares k e d db)
]
