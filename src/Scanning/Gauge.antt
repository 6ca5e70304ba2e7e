-- ===== src/Scanning/Gauge.antt =====
-- The depth gauges of scanner-core/scanning/queue.go.
use bjorn2scan.Base.{ℕ, ◌≤◌, ◌<◌, ◌≡◌, ◌≢◌, refl, List, [], ◌∷◌, arith, length-append, tail}
use bjorn2scan.Scanning.Queue.{
  ScanJob, HostScanJob, QueueConfig, JobQueue, enqueue, resume_enqueue, update_metrics,
}
use bjorn2scan.Scanning.Host.{
  enqueue_host_job, append_host_job, drop_oldest_host, count_processed, shutdown,
}
use bjorn2scan.Scanning.Steps.{Event, start, run}
use bjorn2scan.Scanning.Induction.{Stable, After, run-After}

record IsGauged (q : JobQueue) : Type 0 where
  pub held_up : 0 < q.metrics.total_enqueued → 0 < q.metrics.current_depth
  pub peaked : q.metrics.current_depth ≤ q.metrics.peak_depth

drop_oldest_host-metrics :
    (q : JobQueue) (hs : List HostScanJob)
    → q.host_jobs ≡ hs
    → (drop_oldest_host q).metrics ≡ q.metrics
unfolding drop_oldest_host
drop_oldest_host-metrics q [] e = ground arith
drop_oldest_host-metrics q (h ∷ hs) e = ground arith

enqueue-IsGauged : (q : JobQueue) (j : ScanJob) → IsGauged q → After IsGauged (enqueue q j)
unfolding enqueue
enqueue-IsGauged q j v =
    ground (arith, length-append q.jobs (j ∷ []), length-append (tail q.jobs) (j ∷ []))

resume_enqueue-IsGauged :
    (q : JobQueue) (j : ScanJob) → IsGauged q → After IsGauged (resume_enqueue q j)
unfolding resume_enqueue
resume_enqueue-IsGauged q j v = ground (arith, length-append q.jobs (j ∷ []))

enqueue_host_job-IsGauged :
    (q : JobQueue) (h : HostScanJob) → IsGauged q → After IsGauged (enqueue_host_job q h)
unfolding enqueue_host_job append_host_job update_metrics
enqueue_host_job-IsGauged q h v = ground (
  arith,
  length-append q.host_jobs (h ∷ []),
  length-append (drop_oldest_host q).host_jobs (h ∷ []),
  drop_oldest_host-metrics q q.host_jobs refl,
)

update_depth-IsGauged :
    (q : JobQueue) (depth : ℕ) → IsGauged q → IsGauged (update_metrics q depth 0 0)
unfolding update_metrics
update_depth-IsGauged q depth v = ground arith

IsGauged-Stable : Stable IsGauged
unfolding count_processed shutdown
IsGauged-Stable = record {
  on_enqueue = enqueue-IsGauged;
  on_resume = resume_enqueue-IsGauged;
  on_enqueue_host = enqueue_host_job-IsGauged;
  on_take_image = λ q j js depth e v.
      update_depth-IsGauged (record q { jobs = js }) depth
        (record { held_up = v.held_up; peaked = v.peaked });
  on_take_host = λ q h hs depth e v.
      update_depth-IsGauged (record q { host_jobs = hs }) depth
        (record { held_up = v.held_up; peaked = v.peaked });
  on_count = λ q v. record { held_up = v.held_up; peaked = v.peaked };
  on_shutdown = λ q v. record { held_up = v.held_up; peaked = v.peaked };
}

start-IsGauged : (c : QueueConfig) → IsGauged (start c).queue
unfolding start
start-IsGauged c = ground arith

-- Once a job has been enqueued, the current depth of `GetMetrics` is never 0 again, whatever
-- happens later and also while the queue is empty; nor is it ever above the peak.
pub run-start-gauge :
    (c : QueueConfig) (es : List Event)
    → 0 < (run (start c) es).queue.metrics.total_enqueued
    → ((run (start c) es).queue.metrics.current_depth ≢ 0)
      × ((run (start c) es).queue.metrics.current_depth
          ≤ (run (start c) es).queue.metrics.peak_depth)
run-start-gauge c es h =
    ground (arith, run-After IsGauged IsGauged-Stable (start c) es (start-IsGauged c))
