-- ===== src/Database/Keeping.antt =====
-- What a program on the database keeps, and what a transaction leads to: the rules for the programs
-- of scanner-core/database.
use bjorn2scan.Base.{ℕ, suc, ◌≡◌, refl, String, Option, none, some, Result, ok, err}
use bjorn2scan.Database.Tables.{
  Engine, Db, M, return, commit, transaction, Outcome, committed, uncommitted, and_then, and_take,
  finish, begun, go_on, go_with, query, write,
}
use bjorn2scan.Database.Triples.{OnCommit, Triple, OnOk, OfTables, run-Triple}

-- What a program keeps, whether it succeeds or not.
abbrev pub Keeps : {A : Type 0} → (Db → Type 0) → M A → Type 0
Keeps P m = Triple P m (λ _. P)

go_with-Keeps :
    {A B : Type 0} (P : Db → Type 0) (message : String) (k : A → M (Result B)) (r : Result A)
    → ((a : A) → Keeps P (k a))
    → Keeps P (go_with message k r)
go_with-Keeps P message k (ok a) h = h a
go_with-Keeps P message k (err x) h = λ db p. p

pub and_take-Keeps :
    {A B : Type 0} (P : Db → Type 0) (message : String) (m : M (Result A)) (k : A → M (Result B))
    → Keeps P m
    → ((a : A) → Keeps P (k a))
    → Keeps P (and_take message m k)
and_take-Keeps P message m k h j db p = go_with-Keeps P message k (m db).0 j (m db).1 (h db p)

go_on-Keeps :
    {B : Type 0} (P : Db → Type 0) (message : String) (k : M (Result B)) (r : Option String)
    → Keeps P k
    → Keeps P (go_on message k r)
go_on-Keeps P message k none h = h
go_on-Keeps P message k (some x) h = λ db p. p

pub and_then-Keeps :
    {B : Type 0} (P : Db → Type 0) (message : String) (m : M (Option String)) (k : M (Result B))
    → Keeps P m
    → Keeps P k
    → Keeps P (and_then message m k)
and_then-Keeps P message m k h j db p = go_on-Keeps P message k (m db).0 j (m db).1 (h db p)

pub query-Keeps :
    {A : Type 0} (P : Db → Type 0) (e : Engine) (f : Db → A) → OfTables P → Keeps P (query e f)
query-Keeps P e f stable =
    run-Triple P (λ _. P) e err (λ db. (ok (f db), db)) stable (λ x db p. p) (λ db p. p)

pub write-Keeps :
    (P : Db → Type 0) (e : Engine) (f : Db → Db)
    → OfTables P
    → ((db : Db) → P db → P (f db))
    → Keeps P (write e f)
write-Keeps P e f stable h =
    run-Triple P (λ _. P) e some (λ db. (none, f db)) stable (λ x db p. p) h

pub commit-Keeps :
    {A : Type 0} (e : Engine) (a : A) (P : Db → Type 0) → OfTables P → Keeps P (commit e a)
unfolding commit
commit-Keeps e a P stable =
    run-Triple P (λ _. P) e _ (return (ok (committed a))) stable (λ x db p. p) (λ db p. p)

ok_of_keeps : {A : Type 0} (P : Db → Type 0) (r : Result A) (db : Db) → P db → OnOk (λ _. P) r db
ok_of_keeps P (ok a) db p = p
ok_of_keeps P (err x) db p = tt

pub Keeps-Triple :
    {A : Type 0} (P : Db → Type 0) (m : M (Result A)) → Keeps P m → Triple P m (OnOk (λ _. P))
Keeps-Triple P m h db p = ok_of_keeps P (m db).0 (m db).1 (h db p)

finish-Keeps :
    {A : Type 0} (P : Db → Type 0) (before : Db) (r : Result (Outcome A)) (db : Db)
    → OfTables P
    → P before
    → OnOk (λ a. P) r db
    → P (finish before r db).1
finish-Keeps P before (ok (committed a)) db stable p q = q
finish-Keeps P before (ok (uncommitted a)) db stable p q = stable before db.statements p
finish-Keeps P before (err x) db stable p q = stable before db.statements p

begun-Keeps :
    {A : Type 0} (P : Db → Type 0) (before : Db) (body : M (Result (Outcome A))) (o : Option String)
    (db : Db)
    → OfTables P
    → P before
    → P db
    → Triple P body (OnOk (λ a. P))
    → P (begun before body o db).1
begun-Keeps P before body (some x) db stable p q h = q
begun-Keeps P before body none db stable p q h =
    finish-Keeps P before (body db).0 (body db).1 stable p (h db q)

-- A transaction keeps what its body keeps where it succeeds.
pub transaction-Keeps :
    {A : Type 0} (P : Db → Type 0) (e : Engine) (body : M (Result (Outcome A)))
    → OfTables P
    → Triple P body (OnOk (λ a. P))
    → Triple P (transaction e body) (λ r. P)
unfolding transaction
transaction-Keeps P e body stable h db p =
    begun-Keeps P db body (e.fault db.statements) (record db { statements = suc db.statements })
      stable p (stable db (suc db.statements) p) h

-- The tables are the same.
abbrev pub SameTables : Db → Db → Type 0
SameTables a b = (b.images ≡ a.images) × (b.containers ≡ a.containers) × (b.nodes ≡ a.nodes)

-- What a transaction leads to: what its body does where it succeeds, and nothing where it fails.
abbrev pub AllOrNothing : {A : Type 0} → (A → Db → Type 0) → Db → Result A → Db → Type 0
AllOrNothing Q before (ok a) db = Q a db
AllOrNothing Q before (err x) db = SameTables before db

finish-AllOrNothing :
    {A : Type 0} (Q : A → Db → Type 0) (before : Db) (r : Result (Outcome A)) (db : Db)
    → OnOk (OnCommit Q) r db
    → AllOrNothing Q before (finish before r db).0 (finish before r db).1
finish-AllOrNothing Q before (ok (committed a)) db q = q
finish-AllOrNothing Q before (ok (uncommitted a)) db q = absurd q
finish-AllOrNothing Q before (err x) db q = (refl, refl, refl)

begun-AllOrNothing :
    {A : Type 0} (P : Db → Type 0) (Q : A → Db → Type 0) (before : Db)
    (body : M (Result (Outcome A))) (o : Option String) (n : ℕ)
    → Triple P body (OnOk (OnCommit Q))
    → P (record before { statements = n })
    → AllOrNothing Q before
        (begun before body o (record before { statements = n })).0
        (begun before body o (record before { statements = n })).1
begun-AllOrNothing P Q before body (some x) n h p = (refl, refl, refl)
begun-AllOrNothing P Q before body none n h p =
    let db : Db = record before { statements = n } in
    finish-AllOrNothing Q before (body db).0 (body db).1 (h db p)

pub transaction-AllOrNothing :
    {A : Type 0} (P : Db → Type 0) (Q : A → Db → Type 0) (e : Engine)
    (body : M (Result (Outcome A))) (db : Db)
    → OfTables P
    → Triple P body (OnOk (OnCommit Q))
    → P db
    → AllOrNothing Q db (transaction e body db).0 (transaction e body db).1
unfolding transaction
transaction-AllOrNothing P Q e body db stable h p =
    begun-AllOrNothing P Q db body (e.fault db.statements) (suc db.statements) h
      (stable db (suc db.statements) p)

ok_of_all :
    {A : Type 0} (Q : A → Db → Type 0) (before : Db) (r : Result A) (db : Db)
    → AllOrNothing Q before r db
    → OnOk Q r db
ok_of_all Q before (ok a) db h = h
ok_of_all Q before (err x) db h = tt

pub transaction-Triple :
    {A : Type 0} (P : Db → Type 0) (Q : A → Db → Type 0) (e : Engine)
    (body : M (Result (Outcome A)))
    → OfTables P
    → Triple P body (OnOk (OnCommit Q))
    → Triple P (transaction e body) (OnOk Q)
transaction-Triple P Q e body stable h db p =
    ok_of_all Q db (transaction e body db).0 (transaction e body db).1
      (transaction-AllOrNothing P Q e body db stable h p)
