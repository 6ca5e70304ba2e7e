-- ===== src/Database/Success.antt =====
-- Programs on a database no statement of which fails.
use bjorn2scan.Base.{
  ℕ, suc, zero, ◌+◌, ◌*◌, ◌/◌, ltb, if◌then◌else◌, ◌≡◌, refl, ap, sym, subst, String, Bool, true,
  false, List, [], ◌∷◌, Option, none, some, Result, ok, err, arith, length,
}
use bjorn2scan.Database.Tables.{
  Engine, Db, M, ◌>>=◌, return, commit, Outcome, committed, uncommitted, transaction, and_then,
  and_take, finish, begun, go_on, go_with, ran, run, query, write,
}
use bjorn2scan.Database.Batches.{
  go_next, end_of, slice, batch_loop, batch_insert, flat, cells, rows_of, insert_rows,
}
use bjorn2scan.Database.Rows.{IsQuiet}

abbrev pub is_ok : {A : Type 0} → Result A → Bool
is_ok (ok a) = true
is_ok (err x) = false

-- The program succeeds on every database.
abbrev pub Succeeds : {A : Type 0} → M (Result A) → Type 0
Succeeds m = (db : Db) → is_ok (m db).0 ≡ true

abbrev pub Runs : M (Option String) → Type 0
Runs m = (db : Db) → (m db).0 ≡ none

module _ (e : Engine) (quiet : IsQuiet e) where
  run-quiet :
      {A : Type 0} (fail : String → A) (f : M A) (db : Db)
      → run e fail f db ≡ f (record db { statements = suc db.statements })
  run-quiet fail f db =
      ap (λ o. ran fail f o (record db { statements = suc db.statements })) (quiet db.statements)

  pub query-quiet :
      {A : Type 0} (f : Db → A) (db : Db)
      → query e f db ≡ (
        ok (f (record db { statements = suc db.statements })),
        record db { statements = suc db.statements },
      )
  query-quiet f db = run-quiet err (λ db. (ok (f db), db)) db

  pub query-Succeeds : {A : Type 0} (f : Db → A) → Succeeds (query e f)
  query-Succeeds f db = ap (λ p. is_ok p.0) (run-quiet err (λ db. (ok (f db), db)) db)

  pub write-Runs : (f : Db → Db) → Runs (write e f)
  write-Runs f db = ap (λ p. p.0) (run-quiet some (λ db. (none, f db)) db)

  pub commit-Succeeds : {A : Type 0} (a : A) → Succeeds (commit e a)
  unfolding commit
  commit-Succeeds a db = ap (λ p. is_ok p.0) (run-quiet _ (return (ok (committed a))) db)

go_on-ok :
    {B : Type 0} (message : String) (k : M (Result B)) (r : Option String) (db : Db)
    → r ≡ none
    → Succeeds k
    → is_ok (go_on message k r db).0 ≡ true
go_on-ok message k none db h j = j db
go_on-ok message k (some x) db h j = ground (arith, h)

pub and_then-Succeeds :
    {B : Type 0} (message : String) (m : M (Option String)) (k : M (Result B))
    → Runs m
    → Succeeds k
    → Succeeds (and_then message m k)
and_then-Succeeds message m k h j db = go_on-ok message k (m db).0 (m db).1 (h db) j

pub go_with-ok :
    {A B : Type 0} (message : String) (k : A → M (Result B)) (r : Result A) (db : Db)
    → is_ok r ≡ true
    → ((a : A) → Succeeds (k a))
    → is_ok (go_with message k r db).0 ≡ true
go_with-ok message k (ok a) db h j = j a db
go_with-ok message k (err x) db h j = ground (arith, h)

pub and_take-Succeeds :
    {A B : Type 0} (message : String) (m : M (Result A)) (k : A → M (Result B))
    → Succeeds m
    → ((a : A) → Succeeds (k a))
    → Succeeds (and_take message m k)
and_take-Succeeds message m k h j db = go_with-ok message k (m db).0 (m db).1 (h db) j

go_next-Runs :
    (k : M (Option String)) (r : Option String) (db : Db)
    → r ≡ none
    → Runs k
    → (go_next k r db).0 ≡ none
go_next-Runs k none db h j = j db
go_next-Runs k (some x) db h j = ground (arith, h)

either : (b : Bool) (m k : M (Option String)) → Runs m → Runs k → Runs (if b then m else k)
either true m k h j = h
either false m k h j = j

module _ (e : Engine) (quiet : IsQuiet e) where
  batch_loop-Runs :
      {A : Type 0} (exec : ℕ → List A → Db → Db) (ncols batch_size rounds i : ℕ) (rows : List A)
      → Runs (batch_loop e exec ncols batch_size rounds i rows)
  unfolding batch_loop
  batch_loop-Runs exec ncols batch_size zero i rows = λ db. refl
  batch_loop-Runs exec ncols batch_size (suc rounds) i rows =
      let chunk = slice i (end_of ncols batch_size i rows) rows in
      let rest = batch_loop e exec ncols batch_size rounds (i + ncols * batch_size) rows in
      let round = write e (exec (length chunk / ncols) chunk) in
      either (ltb i (length rows)) (round >>= go_next rest) (return none)
        (λ db.
          go_next-Runs rest (round db).0 (round db).1 (write-Runs e quiet _ db)
            (batch_loop-Runs exec ncols batch_size rounds (i + ncols * batch_size) rows))
        (λ db. refl)

  batch_insert-Runs :
      {A : Type 0} (exec : ℕ → List A → Db → Db) (ncols batch_size : ℕ) (rows : List A)
      → Runs (batch_insert e exec ncols batch_size rows)
  unfolding batch_insert
  batch_insert-Runs exec ncols batch_size [] = λ db. refl
  batch_insert-Runs exec ncols batch_size (x ∷ xs) =
      batch_loop-Runs exec ncols batch_size (length (x ∷ xs)) 0 (x ∷ xs)

  pub insert_rows-Runs :
      {R : Type 0} (insert : List R → Db → Db) (ncols batch_size : ℕ) (rs : List R)
      → Runs (insert_rows e insert ncols batch_size rs)
  unfolding insert_rows
  insert_rows-Runs insert ncols batch_size rs =
      batch_insert-Runs (λ n args. insert (rows_of args)) ncols batch_size (flat (cells ncols 0) rs)

  finish-ok :
      {A : Type 0} (before : Db) (r : Result (Outcome A)) (db : Db)
      → is_ok r ≡ true
      → is_ok (finish before r db).0 ≡ true
  finish-ok before (ok (committed a)) db h = refl
  finish-ok before (ok (uncommitted a)) db h = refl
  finish-ok before (err x) db h = ground (arith, h)

  pub transaction-Succeeds :
      {A : Type 0} (body : M (Result (Outcome A))) → Succeeds body → Succeeds (transaction e body)
  unfolding transaction
  transaction-Succeeds body h db =
      let db' : Db = record db { statements = suc db.statements } in
      subst (λ o. is_ok (begun db body o db').0 ≡ true) (sym (quiet db.statements))
        (finish-ok db (body db').0 (body db').1 (h db'))
