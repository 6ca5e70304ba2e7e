-- ===== src/Scanning/Queue.antt =====
-- The job queue of scanner-core/scanning/queue.go: the part of each method that runs under
-- `jobsMu`. `stopped` says that the queue's context is done. A depth limit of 0 (or below, in Go)
-- is no limit. Counters do not wrap.
use bjorn2scan.Base.{
  ℕ, ◌+◌, String, Bool, true, false, ◌&&◌, List, [], ◌∷◌, ◌++◌, length, tail, ltb, leb,
  if◌then◌else◌,
}
use bjorn2scan.Container.{ImageId}

pub record ScanJob : Type 0 where
  pub image : ImageId
  pub node_name : String
  pub container_runtime : String
  pub force_scan : Bool

pub record HostScanJob : Type 0 where
  pub node_name : String
  pub force_scan : Bool

pub data QueueFullBehavior : Type 0 where
  drop drop_oldest block : QueueFullBehavior

pub record QueueConfig : Type 0 where
  pub max_depth : ℕ
  pub full_behavior : QueueFullBehavior

pub record QueueMetrics : Type 0 where
  pub current_depth : ℕ
  pub peak_depth : ℕ
  pub total_enqueued : ℕ
  pub total_dropped : ℕ
  pub total_processed : ℕ

pub record JobQueue : Type 0 where
  pub jobs : List ScanJob
  pub host_jobs : List HostScanJob
  pub stopped : Bool
  pub config : QueueConfig
  pub metrics : QueueMetrics

unfoldable pub new_job_queue : QueueConfig → JobQueue
new_job_queue c = record {
  jobs = [];
  host_jobs = [];
  stopped = false;
  config = c;
  metrics = record {
    current_depth = 0;
    peak_depth = 0;
    total_enqueued = 0;
    total_dropped = 0;
    total_processed = 0;
  };
}

-- `len(q.jobs) + len(q.hostJobs)`, which is also `GetQueueDepth`.
unfoldable pub get_queue_depth : JobQueue → ℕ
get_queue_depth q = length q.jobs + length q.host_jobs

unfoldable pub update_metrics : JobQueue → ℕ → ℕ → ℕ → JobQueue
update_metrics q current_depth enqueued dropped = record q {
  metrics = record {
    current_depth = if ltb 0 current_depth then current_depth else m.current_depth;
    peak_depth =
        if ltb 0 current_depth && ltb m.peak_depth current_depth
        then current_depth
        else m.peak_depth;
    total_enqueued = if ltb 0 enqueued then m.total_enqueued + enqueued else m.total_enqueued;
    total_dropped = if ltb 0 dropped then m.total_dropped + dropped else m.total_dropped;
    total_processed = m.total_processed;
  };
}
  where
    open q use {metrics as m}

-- How a call to enqueue leaves the lock: with the job added and the condition signalled, with the
-- job refused (the queue may still have been counted), or waiting on the condition.
pub data Enqueued : Type 0 where
  added : JobQueue → Enqueued
  refused : JobQueue → Enqueued
  waiting : Enqueued

unfoldable pub append_job : JobQueue → ScanJob → JobQueue
unfolding update_metrics
append_job q job =
    update_metrics (record q { jobs = q.jobs ++ job ∷ [] }) (length (q.jobs ++ job ∷ [])) 1 0

enqueue_full : QueueFullBehavior → JobQueue → ScanJob → Enqueued
unfolding update_metrics append_job
enqueue_full drop q job = refused (update_metrics q 0 0 1)
enqueue_full drop_oldest q job =
    added (append_job (update_metrics (record q { jobs = tail q.jobs }) 0 0 1) job)
enqueue_full block q job = waiting

unfoldable pub enqueue : JobQueue → ScanJob → Enqueued
unfolding enqueue_full append_job
enqueue q job =
    if q.stopped
    then refused q
    else if ltb 0 q.config.max_depth && leb q.config.max_depth (length q.jobs)
    then enqueue_full q.config.full_behavior q job
    else added (append_job q job)

-- What a waiting `Enqueue` does when it is woken: the rest of its loop.
unfoldable pub resume_enqueue : JobQueue → ScanJob → Enqueued
unfolding append_job
resume_enqueue q job =
    if q.stopped
    then refused q
    else if leb q.config.max_depth (length q.jobs)
    then waiting
    else added (append_job q job)

unfoldable pub enqueue_scan : JobQueue → ImageId → String → String → Enqueued
unfolding enqueue
enqueue_scan q image node_name container_runtime = enqueue q (record {
  image = image;
  node_name = node_name;
  container_runtime = container_runtime;
  force_scan = false;
})

unfoldable pub enqueue_force_scan : JobQueue → ImageId → String → String → Enqueued
unfolding enqueue
enqueue_force_scan q image node_name container_runtime = enqueue q (record {
  image = image;
  node_name = node_name;
  container_runtime = container_runtime;
  force_scan = true;
})
