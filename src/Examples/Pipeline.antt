-- ===== src/Examples/Pipeline.antt =====
-- Image jobs on small inputs.
use bjorn2scan.Base.{◌≡◌, refl, eq_iff, true, [], ◌∷◌, none, some, ok, arith}
use bjorn2scan.Base.Maps.{get}
use bjorn2scan.Status.{pending, vuln_scan_failed, has_sbom}
use bjorn2scan.Database.Tables.{Engine, ImageRow, Db}
use bjorn2scan.Scanning.Pipeline.{Tools, process_job}
use bjorn2scan.Scanning.Pipeline.Isolation.{process_job-Spares}
use bjorn2scan.Scanning.Pipeline.Outcome.{Leaves, HasTerminal, process_job-HasTerminal}
use bjorn2scan.Scanning.Pipeline.Recovery.{
  IsScanned, process_job-IsScanned, IsLost, process_jobs, process_jobs-IsLost,
}
use bjorn2scan.Examples.Queue.{nginx, redis}

abbrev pub working : Engine
working = record {
  fault = λ n. none;
  now = λ n. "2026-01-01T00:00:00Z";
  gzip = λ b. ok (31 ∷ b);
  gunzip = λ b. ok b;
  artifacts_of = λ b. ok [];
  matches_of = λ b. ok [];
  built_in_json = λ b. none;
}

abbrev pub tools : Tools
tools = record {
  engine = working;
  sbom_retriever = λ image node runtime. ok (1 ∷ []);
  grype = λ b. ok (record { vulnerability_json = 2 ∷ b; built = none });
  readiness = some true;
}

-- Every statement fails.
abbrev shaky : Tools
shaky = record tools { engine = record working { fault = λ n. some "database is locked" } }

abbrev pub new_row : ImageRow
new_row = record {
  status = pending;
  status_error = none;
  sbom_scanned_at = none;
  vulns_scanned_at = none;
  grype_db_built = none;
  sbom_compressed = none;
  sbom = none;
  vulnerabilities_compressed = none;
  vulnerabilities = none;
}

abbrev lost_row : ImageRow
lost_row = record new_row { status = vuln_scan_failed }

abbrev pub two_images : Db
two_images = record {
  images = ("sha256:aa", new_row) ∷ ("sha256:bb", lost_row) ∷ [];
  containers = [];
  nodes = [];
  statements = 0;
}

process_job-Spares_example :
    get "sha256:bb" (process_job shaky nginx two_images).1.images ≡ some lost_row
process_job-Spares_example =
    process_job-Spares shaky nginx "sha256:bb" two_images
      (ground (arith, eq_iff "sha256:bb" "sha256:aa"))

process_job-HasTerminal_example :
    Leaves "sha256:aa" HasTerminal (process_job tools nginx) two_images
process_job-HasTerminal_example =
    process_job-HasTerminal tools nginx two_images new_row (λ n. refl) refl refl

process_job-IsScanned_example :
    Leaves "sha256:aa"
      (IsScanned (31 ∷ 1 ∷ []) (31 ∷ 2 ∷ 1 ∷ []))
      (process_job tools nginx)
      two_images
unfolding has_sbom
process_job-IsScanned_example =
    process_job-IsScanned tools nginx (1 ∷ []) (31 ∷ 1 ∷ []) (31 ∷ 2 ∷ 1 ∷ [])
      (record { vulnerability_json = 2 ∷ 1 ∷ []; built = none }) two_images new_row (λ n. refl) refl
      refl refl refl refl refl refl

process_jobs-IsLost_example :
    Leaves "sha256:bb" IsLost (process_jobs tools (redis ∷ nginx ∷ redis ∷ [])) two_images
unfolding has_sbom
process_jobs-IsLost_example =
    process_jobs-IsLost tools (redis ∷ nginx ∷ redis ∷ []) "sha256:bb" two_images lost_row
      (λ n. refl) refl (record { claims_sbom = refl; no_blob = refl; no_text = refl })
