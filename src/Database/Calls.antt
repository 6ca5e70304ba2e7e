-- ===== src/Database/Calls.antt =====
-- The calls of scanner-core/database/instances.go that write the containers, in sequence.
use bjorn2scan.Base.{List, [], ◌∷◌}
use bjorn2scan.Container.{ContainerId, Container}
use bjorn2scan.Database.Tables.{Engine, Db}
use bjorn2scan.Database.Instances.{add_container, remove_container}
use bjorn2scan.Database.Reconcile.{
  set_containers, cleanup_stale_containers, cleanup_orphaned_images,
}

-- A call of the database.
pub data Call : Type 0 where
  add : Container → Call
  remove : ContainerId → Call
  set : List Container → Call
  cleanup_stale : List ContainerId → Call
  cleanup_orphaned : Call

-- The calls that write the containers, and any sequence of them.
abbrev pub call : Engine → Call → Db → Db
call e (add c) db = (add_container e c db).1
call e (remove id) db = (remove_container e id db).1
call e (set cs) db = (set_containers e cs db).1
call e (cleanup_stale ids) db = (cleanup_stale_containers e ids db).1
call e cleanup_orphaned db = (cleanup_orphaned_images e db).1

unfoldable pub run_calls : Engine → List Call → Db → Db
run_calls e [] db = db
run_calls e (c ∷ cs) db = run_calls e cs (call e c db)
