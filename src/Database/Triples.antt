-- ===== src/Database/Triples.antt =====
-- What holds before and behind a program on the database, and the rules for the programs that
-- scanner-core/database is made of.
use bjorn2scan.Base.{ℕ, suc, String, Option, none, some, Result, ok, err}
use bjorn2scan.Database.Tables.{
  Engine, Db, M, return, commit, Outcome, committed, uncommitted, and_then, and_take, go_on,
  go_with, ran, run, query, write,
}

-- From each database with `P` the program leads to a result and a database with `Q`.
abbrev pub Triple : {A : Type 0} → (Db → Type 0) → M A → (A → Db → Type 0) → Type 0
Triple P m Q = (db : Db) → P db → Q (m db).0 (m db).1

-- Where the program succeeds.
abbrev pub OnOk : {A : Type 0} → (A → Db → Type 0) → Result A → Db → Type 0
OnOk Q (ok a) db = Q a db
OnOk Q (err x) db = Unit {0}

abbrev pub OnNone : (Db → Type 0) → Option String → Db → Type 0
OnNone Q none db = Q db
OnNone Q (some x) db = Unit {0}

-- A property that does not read the number of the statements.
abbrev pub OfTables : (Db → Type 0) → Type 0
OfTables P = (db : Db) (n : ℕ) → P db → P (record db { statements = n })

go_with-Triple :
    {A B : Type 0} (Q : A → Db → Type 0) (R : B → Db → Type 0) (message : String)
    (k : A → M (Result B)) (r : Result A) (db : Db)
    → ((a : A) → Triple (Q a) (k a) (OnOk R))
    → OnOk Q r db
    → OnOk R (go_with message k r db).0 (go_with message k r db).1
go_with-Triple Q R message k (ok a) db h q = h a db q
go_with-Triple Q R message k (err x) db h q = tt

pub and_take-Triple :
    {A B : Type 0} (P : Db → Type 0) (Q : A → Db → Type 0) (R : B → Db → Type 0) (message : String)
    (m : M (Result A)) (k : A → M (Result B))
    → Triple P m (OnOk Q)
    → ((a : A) → Triple (Q a) (k a) (OnOk R))
    → Triple P (and_take message m k) (OnOk R)
and_take-Triple P Q R message m k h j db p =
    go_with-Triple Q R message k (m db).0 (m db).1 j (h db p)

go_on-Triple :
    {B : Type 0} (Q : Db → Type 0) (R : B → Db → Type 0) (message : String) (k : M (Result B))
    (r : Option String) (db : Db)
    → Triple Q k (OnOk R)
    → OnNone Q r db
    → OnOk R (go_on message k r db).0 (go_on message k r db).1
go_on-Triple Q R message k none db h q = h db q
go_on-Triple Q R message k (some x) db h q = tt

pub and_then-Triple :
    {B : Type 0} (P Q : Db → Type 0) (R : B → Db → Type 0) (message : String)
    (m : M (Option String)) (k : M (Result B))
    → Triple P m (OnNone Q)
    → Triple Q k (OnOk R)
    → Triple P (and_then message m k) (OnOk R)
and_then-Triple P Q R message m k h j db p = go_on-Triple Q R message k (m db).0 (m db).1 j (h db p)

ran-Triple :
    {A : Type 0} (P : Db → Type 0) (Q : A → Db → Type 0) (fail : String → A) (f : M A)
    (o : Option String) (db : Db)
    → ((x : String) (db' : Db) → P db' → Q (fail x) db')
    → Triple P f Q
    → P db
    → Q (ran fail f o db).0 (ran fail f o db).1
ran-Triple P Q fail f (some x) db h j p = h x db p
ran-Triple P Q fail f none db h j p = j db p

pub run-Triple :
    {A : Type 0} (P : Db → Type 0) (Q : A → Db → Type 0) (e : Engine) (fail : String → A) (f : M A)
    → OfTables P
    → ((x : String) (db : Db) → P db → Q (fail x) db)
    → Triple P f Q
    → Triple P (run e fail f) Q
run-Triple P Q e fail f stable h j db p =
    ran-Triple P Q fail f (e.fault db.statements) (record db { statements = suc db.statements }) h j
      (stable db (suc db.statements) p)

pub query-Triple :
    {A : Type 0} (P : Db → Type 0) (Q : A → Db → Type 0) (e : Engine) (f : Db → A)
    → OfTables P
    → ((db : Db) → P db → Q (f db) db)
    → Triple P (query e f) (OnOk Q)
query-Triple P Q e f stable h =
    run-Triple P (OnOk Q) e err (λ db. (ok (f db), db)) stable (λ x db p. tt) h

pub write-Triple :
    (P Q : Db → Type 0) (e : Engine) (f : Db → Db)
    → OfTables P
    → ((db : Db) → P db → Q (f db))
    → Triple P (write e f) (OnNone Q)
write-Triple P Q e f stable h =
    run-Triple P (OnNone Q) e some (λ db. (none, f db)) stable (λ x db p. tt) h

-- Behind a commit.
abbrev pub OnCommit : {A : Type 0} → (A → Db → Type 0) → Outcome A → Db → Type 0
OnCommit Q (committed a) db = Q a db
OnCommit Q (uncommitted a) db = ⊥

pub commit-Triple :
    {A : Type 0} (e : Engine) (a : A) (P : Db → Type 0)
    → OfTables P
    → Triple P (commit e a) (OnOk (λ _. P))
unfolding commit
commit-Triple e a P stable =
    run-Triple P (OnOk (λ _. P)) e _ (return (ok (committed a))) stable (λ x db p. tt) (λ db p. p)

pub commit-Gives :
    {A : Type 0} (e : Engine) (a : A) (Q : A → Db → Type 0)
    → OfTables (Q a)
    → Triple (Q a) (commit e a) (OnOk (OnCommit Q))
unfolding commit
commit-Gives e a Q stable =
    run-Triple (Q a) (OnOk (OnCommit Q)) e _ (return (ok (committed a))) stable (λ x db p. tt)
      (λ db p. p)

pub OnCommit-map :
    {A : Type 0} (Q : A → Db → Type 0) (P : Db → Type 0) (r : Result (Outcome A)) (db : Db)
    → ((a : A) (db : Db) → Q a db → P db)
    → OnOk (OnCommit Q) r db
    → OnOk (λ _. P) r db
OnCommit-map Q P (ok (committed a)) db h q = h a db q
OnCommit-map Q P (ok (uncommitted a)) db h q = absurd q
OnCommit-map Q P (err x) db h q = tt

pub OnOk-map :
    {A : Type 0} (Q R : A → Db → Type 0) (r : Result A) (db : Db)
    → ((a : A) (db : Db) → Q a db → R a db)
    → OnOk Q r db
    → OnOk R r db
OnOk-map Q R (ok a) db h q = h a db q
OnOk-map Q R (err x) db h q = tt

-- Behind a success, and behind an error.
abbrev pub OnEither : {A : Type 0} → (Db → Type 0) → (Db → Type 0) → Result A → Db → Type 0
OnEither P Q (ok a) db = Q db
OnEither P Q (err x) db = P db

pub either :
    {A : Type 0} (P Q : Db → Type 0) (r : Result A) (db : Db)
    → OnOk (λ _. Q) r db
    → P db
    → OnEither P Q r db
either P Q (ok a) db q p = q
either P Q (err x) db q p = p
