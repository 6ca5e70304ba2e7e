-- ===== src/Database/Rows.antt =====
-- How the statements of Database/Images.antt act on rows: on their own digest only, and, where no
-- statement fails, as written.
use bjorn2scan.Base.{ℕ, ◌≡◌, ◌≢◌, refl, String, eq_iff, List, [], ◌∷◌, none, some, ok, arith}
use bjorn2scan.Base.Maps.{get}
use bjorn2scan.Status.{Status}
use bjorn2scan.Database.Tables.{Engine, ImageRow, Db, M}
use bjorn2scan.Database.Images.{
  select_row, update_row, update_where, get_image_status, update_status, with_status,
}

get-update_row_ne :
    (d k : String) (f : ImageRow → ImageRow) (rs : List (String × ImageRow))
    → k ≢ d
    → get k (update_row d f rs) ≡ get k rs
unfolding update_row
get-update_row_ne d k f [] h = refl
get-update_row_ne d k f ((j, r) ∷ rs) h =
    ground (arith, eq_iff j d, eq_iff j k, get-update_row_ne d k f rs h)

get-update_row :
    (d : String) (f : ImageRow → ImageRow) (rs : List (String × ImageRow)) (r : ImageRow)
    → get d rs ≡ some r
    → get d (update_row d f rs) ≡ some (f r)
unfolding update_row
get-update_row d f [] r h = cc
get-update_row d f ((j, x) ∷ rs) r h = ground (arith, eq_iff j d, get-update_row d f rs r)

-- The program leaves the row of `k` as it is.
abbrev pub Spares : {A : Type 0} → String → M A → Type 0
Spares k m = (db : Db) → get k (m db).1.images ≡ get k db.images

pub select_row-Spares : (k : String) (e : Engine) (d : String) → Spares k (select_row e d)
unfolding select_row
select_row-Spares k e d db = ground arith

pub update_where-Spares :
    (k : String) (e : Engine) (d : String) (f : ImageRow → ImageRow)
    → k ≢ d
    → Spares k (update_where e d f)
unfolding update_where
update_where-Spares k e d f h db = ground (arith, get-update_row_ne d k f db.images h)

pub get_image_status-Spares :
    (k : String) (e : Engine) (d : String) → Spares k (get_image_status e d)
unfolding get_image_status
get_image_status-Spares k e d db = select_row-Spares k e d db

pub update_status-Spares :
    (k : String) (e : Engine) (d : String) (s : Status) (message : String)
    → k ≢ d
    → Spares k (update_status e d s message)
unfolding update_status
update_status-Spares k e d s message h db = update_where-Spares k e d _ h db

-- No statement fails.
abbrev pub IsQuiet : Engine → Type 0
IsQuiet e = (n : ℕ) → e.fault n ≡ none

-- Where no statement fails, an update writes the row of its digest.
pub update_where_quiet :
    (e : Engine) (d : String) (f : ImageRow → ImageRow) (db : Db) (r : ImageRow)
    → IsQuiet e
    → get d db.images ≡ some r
    → ((update_where e d f db).0 ≡ none) × (get d (update_where e d f db).1.images ≡ some (f r))
unfolding update_where
update_where_quiet e d f db r q h =
    ground (arith, q db.statements, get-update_row d f db.images r h)

pub select_row_quiet :
    (e : Engine) (d : String) (db : Db) (r : ImageRow)
    → IsQuiet e
    → get d db.images ≡ some r
    → ((select_row e d db).0 ≡ ok (some r)) × (get d (select_row e d db).1.images ≡ some r)
unfolding select_row
select_row_quiet e d db r q h = ground (arith, q db.statements)

pub get_image_status_quiet :
    (e : Engine) (d : String) (db : Db) (r : ImageRow)
    → IsQuiet e
    → get d db.images ≡ some r
    → ((get_image_status e d db).0 ≡ ok r.status)
      × (get d (get_image_status e d db).1.images ≡ some r)
unfolding get_image_status
get_image_status_quiet e d db r q h = ground (arith, select_row_quiet e d db r q h)

pub update_status_quiet :
    (e : Engine) (d : String) (s : Status) (message : String) (db : Db) (r : ImageRow)
    → IsQuiet e
    → get d db.images ≡ some r
    → ((update_status e d s message db).0 ≡ none)
      × (get d (update_status e d s message db).1.images
          ≡ some (with_status s message (e.now db.statements) r))
unfolding update_status
update_status_quiet e d s message db r q h =
    let (done, row) =
      update_where_quiet e d (with_status s message (e.now db.statements)) db r q h in
    (rw done, row)
