-- ===== src/Database/Tables.antt =====
-- The tables and the statements of the database: scanner-core/database. A statement runs on the row
-- of one key; the columns `id` stand for the keys that the schema keeps unique: the digest of an
-- image, the name of a node, and the three names of a container. SQLite, the clock, gzip and the JSON
-- readers are parameters: any statement may fail, by its number. `updated_at` and the write
-- notification are left out.
use bjorn2scan.Base.{ℕ, suc, String, List, Option, none, some, Result, ok, err}
use Prim.Native.String.{◌++◌ as str_append}
use bjorn2scan.Container.{ContainerId}
use bjorn2scan.Status.{Status}

abbrev pub Bytes : Type 0
Bytes = List ℕ

pub record ImageRow : Type 0 where
  pub status : Status
  pub status_error : Option String
  pub sbom_scanned_at : Option String
  pub vulns_scanned_at : Option String
  pub grype_db_built : Option String
  pub sbom_compressed : Option Bytes
  pub sbom : Option Bytes
  pub vulnerabilities_compressed : Option Bytes
  pub vulnerabilities : Option Bytes

-- `image` stands for `image_id`: it is the digest of the image.
pub record ContainerRow : Type 0 where
  pub id : ContainerId
  pub reference : String
  pub image : String
  pub node_name : String
  pub container_runtime : String

-- An artifact of an SBOM in syft's format, as far as the code reads it.
pub record Artifact : Type 0 where
  pub name : String
  pub version : String
  pub type_name : String
  pub language : String
  pub purl : String
  pub raw : Bytes

-- A match of a scan report, as far as the code reads it, without its risk and EPSS scores.
pub record Match : Type 0 where
  pub package_name : String
  pub package_version : String
  pub package_type : String
  pub cve_id : String
  pub severity : String
  pub fix_state : String
  -- As `formatFixVersions` gives it.
  pub fix_version : String
  -- The number of entries of `knownExploited`.
  pub known_exploited : ℕ
  pub raw : Bytes

-- What the code under src does not implement.
pub record Engine : Type 0 where
  -- The error of the n-th statement, if it fails.
  pub fault : ℕ → Option String
  -- The clock when the n-th statement runs, as RFC 3339 text.
  pub now : ℕ → String
  pub gzip : Bytes → Result Bytes
  pub gunzip : Bytes → Result Bytes
  -- The `artifacts` of an SBOM: those that are read, the others `none`; or the error.
  pub artifacts_of : Bytes → Result (List (Option Artifact))
  -- The `matches` of a scan report: those that are read, the others `none`; or the error.
  pub matches_of : Bytes → Result (List (Option Match))
  -- `descriptor.db.status.built` of a scan report, read and formatted.
  pub built_in_json : Bytes → Option String

-- A row of `node_packages`, and one of `node_vulnerabilities` without its scores.
pub record NodePackage : Type 0 where
  pub name : String
  pub version : String
  pub type_name : String
  pub language : String
  pub purl : String
  pub number_of_instances : ℕ

pub record NodeVulnerability : Type 0 where
  pub cve_id : String
  pub package_name : String
  pub package_version : String
  pub package_type : String
  pub severity : String
  pub fix_status : String
  pub fix_version : String
  pub known_exploited : ℕ
  pub count : ℕ

-- The columns that are unique for a node: name, version and type of a package, and these behind the
-- vulnerability.
pub record PackageKey : Type 0 where
  pub name : String
  pub version : String
  pub type_name : String

pub record VulnerabilityKey : Type 0 where
  pub cve_id : String
  pub in_package : PackageKey

-- A row of `nodes`, with the rows of the four tables that belong to it; a status may be NULL. A row
-- of details is found by the columns of the row that it refers to.
pub record NodeRow : Type 0 where
  pub hostname : String
  pub os_release : String
  pub kernel_version : String
  pub architecture : String
  pub container_runtime : String
  pub kubelet_version : String
  pub status : Option Status
  pub status_error : Option String
  pub sbom_scanned_at : Option String
  pub vulns_scanned_at : Option String
  pub grype_db_built : Option String
  pub sbom_compressed : Option Bytes
  pub sbom : Option Bytes
  pub vulnerabilities_compressed : Option Bytes
  pub vulnerabilities_raw : Option Bytes
  pub packages : List NodePackage
  pub package_details : List (PackageKey × List Bytes)
  pub vulnerabilities : List NodeVulnerability
  pub vulnerability_details : List (VulnerabilityKey × List Bytes)

pub record Db : Type 0 where
  pub images : List (String × ImageRow)
  pub containers : List ContainerRow
  pub nodes : List (String × NodeRow)
  pub statements : ℕ

abbrev pub M : Type 0 → Type 0
M A = Db → A × Db

infixl 5 ◌>>=◌
abbrev pub ◌>>=◌ : {A B : Type 0} → M A → (A → M B) → M B
◌>>=◌ m f db = let (a, db') = m db in f a db'

abbrev pub return : {A : Type 0} → A → M A
return a db = (a, db)

-- The number of the next statement.
abbrev pub statement : M ℕ
statement db = (db.statements, record db { statements = suc db.statements })

-- A statement: what it does, or its failure.
abbrev pub ran : {A : Type 0} → (String → A) → M A → Option String → M A
ran fail f (some x) = return (fail x)
ran fail f none = f

abbrev pub run : {A : Type 0} → Engine → (String → A) → M A → M A
run e fail f = do n ← statement; ran fail f (e.fault n)

-- One that reads, and one that writes.
abbrev pub query : {A : Type 0} → Engine → (Db → A) → M (Result A)
query e f = run e err (λ db. (ok (f db), db))

abbrev pub write : Engine → (Db → Db) → M (Option String)
write e f = run e some (λ db. (none, f db))

-- A rolled-back transaction: the tables of before, and the statements that have run.
abbrev pub rollback : Db → Db → Db
rollback before after = record before { statements = after.statements }

-- What the body of a transaction returns where it succeeds: behind `Commit`, or without it.
pub data Outcome (A : Type 0) : Type 0 where
  committed uncommitted : A → Outcome A

-- `Commit` in a transaction.
unfoldable pub commit : {A : Type 0} → Engine → A → M (Result (Outcome A))
commit e a =
    run e (λ x. err (str_append "failed to commit transaction: " x)) (return (ok (committed a)))

-- The deferred `Rollback`, which undoes what has not been committed.
abbrev pub finish : {A : Type 0} → Db → Result (Outcome A) → M (Result A)
finish before (ok (committed a)) = return (ok a)
finish before (ok (uncommitted a)) = λ db. (ok a, rollback before db)
finish before (err x) = λ db. (err x, rollback before db)

abbrev pub begun : {A : Type 0} → Db → M (Result (Outcome A)) → Option String → M (Result A)
begun before body (some x) = return (err (str_append "failed to begin transaction: " x))
begun before body none = do r ← body; finish before r

-- `Begin`, the body, and the deferred `Rollback`.
unfoldable pub transaction : {A : Type 0} → Engine → M (Result (Outcome A)) → M (Result A)
transaction e body = do before ← λ db. (db, db); n ← statement; begun before body (e.fault n)

abbrev pub go_on : {A : Type 0} → String → M (Result A) → Option String → M (Result A)
go_on message k (some x) = return (err (str_append message x))
go_on message k none = k

-- A statement that has to succeed, and what follows it.
abbrev pub and_then : {A : Type 0} → String → M (Option String) → M (Result A) → M (Result A)
and_then message m k = do r ← m; go_on message k r

abbrev pub go_with : {A B : Type 0} → String → (A → M (Result B)) → Result A → M (Result B)
go_with message k (err x) = return (err (str_append message x))
go_with message k (ok a) = k a

-- A query that has to succeed, and what is done with its answer.
abbrev pub and_take : {A B : Type 0} → String → M (Result A) → (A → M (Result B)) → M (Result B)
and_take message m k = do r ← m; go_with message k r
