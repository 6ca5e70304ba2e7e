-- ===== src/Jobs/Cleanup.antt =====
-- The cleanup-orphaned-images job: scanner-core/jobs/container_jobs.go.
use bjorn2scan.Base.{List, Option, none, some, Result, ok}
use bjorn2scan.Container.{ContainerId}
use bjorn2scan.Database.Tables.{Engine, M, return, and_take}
use bjorn2scan.Database.Reconcile.{cleanup_stale_containers, cleanup_orphaned_images}

abbrev pub cleanup_images : Engine → M (Result (Unit {0}))
cleanup_images e =
    and_take "orphaned image cleanup failed: " (cleanup_orphaned_images e) (λ n. return (ok tt))

-- The identifiers that the lister gives, if one is configured.
unfoldable pub run_cleanup : Engine → Option (List ContainerId) → M (Result (Unit {0}))
unfolding cleanup_stale_containers cleanup_orphaned_images
run_cleanup e none = cleanup_images e
run_cleanup e (some ids) =
    and_take "stale container cleanup failed: " (cleanup_stale_containers e ids)
      (λ n. cleanup_images e)
