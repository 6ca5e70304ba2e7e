-- ===== src/Scanning/Host.antt =====
-- The host scans of the queue, its worker, its shutdown and its snapshots:
-- scanner-core/scanning/queue.go.
use bjorn2scan.Base.{
  ℕ, ◌+◌, String, str_eq, Bool, true, false, ◌&&◌, ◌||◌, List, [], ◌∷◌, ◌++◌, Option, none, some,
  length, tail, map, ltb, leb, if◌then◌else◌,
}
use bjorn2scan.Scanning.Queue.{
  ScanJob, HostScanJob, QueueFullBehavior, drop, drop_oldest, block, JobQueue, get_queue_depth,
  update_metrics, Enqueued, added, refused,
}

-- The loop that looks for the node in the queue.
unfoldable pub queued_node : String → List HostScanJob → Bool
queued_node name [] = false
queued_node name (h ∷ hs) = str_eq h.node_name name || queued_node name hs

unfoldable pub append_host_job : JobQueue → HostScanJob → JobQueue
unfolding update_metrics
append_host_job q job =
    update_metrics (record q { host_jobs = q.host_jobs ++ job ∷ [] })
      (length q.jobs + length (q.host_jobs ++ job ∷ [])) 1 0

-- The oldest host job goes if there is one, else the oldest image job.
unfoldable pub drop_oldest_host : JobQueue → JobQueue
drop_oldest_host q = elim q.host_jobs [
  | [] ↦ record q { jobs = tail q.jobs }
  | h ∷ hs ↦ record q { host_jobs = hs }
]

enqueue_host_full : QueueFullBehavior → JobQueue → HostScanJob → Enqueued
enqueue_host_full drop q job = refused (update_metrics q 0 0 1)
enqueue_host_full drop_oldest q job =
    added (append_host_job (update_metrics (drop_oldest_host q) 0 0 1) job)
enqueue_host_full block q job = refused (update_metrics q 0 0 1)

unfoldable pub enqueue_host_job : JobQueue → HostScanJob → Enqueued
unfolding enqueue_host_full get_queue_depth
enqueue_host_job q job =
    if q.stopped
    then refused q
    else if queued_node job.node_name q.host_jobs
    then refused q
    else if ltb 0 q.config.max_depth && leb q.config.max_depth (get_queue_depth q)
    then enqueue_host_full q.config.full_behavior q job
    else added (append_host_job q job)

unfoldable pub enqueue_host_scan : JobQueue → String → Enqueued
unfolding enqueue_host_job
enqueue_host_scan q name = enqueue_host_job q (record { node_name = name; force_scan = false })

unfoldable pub enqueue_host_force_scan : JobQueue → String → Enqueued
unfolding enqueue_host_job
enqueue_host_force_scan q name = enqueue_host_job q (record { node_name = name; force_scan = true })

pub data Work : Type 0 where
  image : ScanJob → Work
  host : HostScanJob → Work

-- The worker under the lock: image jobs first. `none` is where it exits if the queue is stopped,
-- and waits if it is not.
unfoldable pub take_first : List ScanJob → List HostScanJob → JobQueue → Option (Work × JobQueue)
unfolding update_metrics
take_first (j ∷ js) hs q =
    some (image j, update_metrics (record q { jobs = js }) (length js + length hs) 0 0)
take_first [] (h ∷ hs) q =
    some (host h, update_metrics (record q { host_jobs = hs }) (length q.jobs + length hs) 0 0)
take_first [] [] q = none

unfoldable pub take_work : JobQueue → Option (Work × JobQueue)
unfolding take_first
take_work q = take_first q.jobs q.host_jobs q

-- The worker's count behind a processed job.
unfoldable pub count_processed : JobQueue → JobQueue
count_processed q = record q {
  metrics = record {
    current_depth = m.current_depth;
    peak_depth = m.peak_depth;
    total_enqueued = m.total_enqueued;
    total_dropped = m.total_dropped;
    total_processed = m.total_processed + 1;
  };
}
  where
    open q use {metrics as m}

-- `Shutdown` cancels the context, wakes the worker and waits for it to exit.
unfoldable pub shutdown : JobQueue → JobQueue
shutdown q = record q { stopped = true }

pub data JobKind : Type 0 where
  image_kind host_kind : JobKind

pub record QueueJob : Type 0 where
  pub kind : JobKind
  pub image_reference : String
  pub digest : String
  pub node_name : String
  pub force_scan : Bool

pub record QueueContents : Type 0 where
  pub current_depth : ℕ
  pub peak_depth : ℕ
  pub total_enqueued : ℕ
  pub total_dropped : ℕ
  pub total_processed : ℕ
  pub job_count : ℕ
  pub host_job_count : ℕ
  pub jobs : List QueueJob

unfoldable pub of_scan_job : ScanJob → QueueJob
of_scan_job j = record {
  kind = image_kind;
  image_reference = j.image.reference;
  digest = j.image.digest;
  node_name = j.node_name;
  force_scan = j.force_scan;
}

unfoldable pub of_host_job : HostScanJob → QueueJob
of_host_job h = record {
  kind = host_kind;
  image_reference = "";
  digest = "";
  node_name = h.node_name;
  force_scan = h.force_scan;
}

unfoldable pub get_queue_contents : JobQueue → QueueContents
unfolding of_scan_job of_host_job
get_queue_contents q = record {
  current_depth = length q.jobs + length q.host_jobs;
  peak_depth = q.metrics.peak_depth;
  total_enqueued = q.metrics.total_enqueued;
  total_dropped = q.metrics.total_dropped;
  total_processed = q.metrics.total_processed;
  job_count = length q.jobs;
  host_job_count = length q.host_jobs;
  jobs = map of_scan_job q.jobs ++ map of_host_job q.host_jobs;
}
