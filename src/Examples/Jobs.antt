-- ===== src/Examples/Jobs.antt =====
-- The scheduled jobs on small inputs.
use bjorn2scan.Base.{◌≡◌, refl, true, false, ◌&&◌, [], ◌∷◌, none, some, holds}
use bjorn2scan.Status.{scanning_vulnerabilities}
use bjorn2scan.Database.Tables.{ImageRow, Db}
use bjorn2scan.Database.Blobs.{has_blob}
use bjorn2scan.Database.Instances.{row_of}
use bjorn2scan.Database.Reconcile.{has_container}
use bjorn2scan.Jobs.Rescan.{Version, Updater, run_rescan, is_stale}
use bjorn2scan.Jobs.Needing.{digests}
use bjorn2scan.Jobs.Stuck.{run_rescan-stuck}
use bjorn2scan.Examples.Pipeline.{working, new_row}
use bjorn2scan.Examples.Containers.{container}

-- A scan of a stored SBOM that got stuck.
abbrev stuck_row : ImageRow
stuck_row = record new_row {
  status = scanning_vulnerabilities;
  sbom_compressed = some (31 ∷ 1 ∷ []);
  grype_db_built = some "2026-01-01T00:00:00Z";
}

abbrev stuck : Db
stuck = record {
  images = ("sha256:aa", stuck_row) ∷ [];
  containers = row_of (container "a" "sha256:aa") ∷ [];
  nodes = [];
  statements = 0;
}

abbrev version : Version
version = record { built_utc = some "2026-01-02T00:00:00Z"; built = "2026-01-02T00:00:00Z" }

abbrev updater : Updater
updater = record { check = none; current = some version }

run_rescan-stuck_example :
    holds "sha256:aa"
      (digests (run_rescan (λ k. false) (λ k. true) working false updater stuck).0.scans)
    ≡ (has_blob stuck_row.sbom_compressed stuck_row.sbom
        && is_stale "2026-01-02T00:00:00Z" stuck_row.grype_db_built)
unfolding has_container
run_rescan-stuck_example =
    run_rescan-stuck (λ k. false) (λ k. true) working false updater version "2026-01-02T00:00:00Z"
      "sha256:aa" stuck stuck_row (λ n. refl) (refl, tt) refl refl refl refl refl refl refl
