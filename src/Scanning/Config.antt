-- ===== src/Scanning/Config.antt =====
-- No operation of scanner-core/scanning/queue.go changes the queue's configuration.
use bjorn2scan.Base.{◌≡◌, refl, List, [], ◌∷◌, arith}
use bjorn2scan.Scanning.Queue.{
  HostScanJob, QueueConfig, JobQueue, enqueue, resume_enqueue, update_metrics,
}
use bjorn2scan.Scanning.Host.{
  enqueue_host_job, append_host_job, drop_oldest_host, count_processed, shutdown,
}
use bjorn2scan.Scanning.Steps.{Event, start, run}
use bjorn2scan.Scanning.Induction.{Stable, After, run-After}

abbrev HasConfig : QueueConfig → JobQueue → Type 0
HasConfig c q = q.config ≡ c

drop_oldest_host-config :
    (q : JobQueue) (hs : List HostScanJob)
    → q.host_jobs ≡ hs
    → (drop_oldest_host q).config ≡ q.config
unfolding drop_oldest_host
drop_oldest_host-config q [] e = ground arith
drop_oldest_host-config q (h ∷ hs) e = ground arith

enqueue_host_job-HasConfig :
    (c : QueueConfig) (q : JobQueue) (h : HostScanJob)
    → HasConfig c q
    → After (HasConfig c) (enqueue_host_job q h)
unfolding enqueue_host_job append_host_job update_metrics
enqueue_host_job-HasConfig c q h e = ground (arith, drop_oldest_host-config q q.host_jobs refl)

HasConfig-Stable : (c : QueueConfig) → Stable (HasConfig c)
unfolding enqueue resume_enqueue count_processed shutdown update_metrics
HasConfig-Stable c = record {
  on_enqueue = λ q j e. ground arith;
  on_resume = λ q j e. ground arith;
  on_enqueue_host = enqueue_host_job-HasConfig c;
  on_take_image = λ q j js depth f e. e;
  on_take_host = λ q h hs depth f e. e;
  on_count = λ q e. e;
  on_shutdown = λ q e. e;
}

pub run-start-config : (c : QueueConfig) (es : List Event) → (run (start c) es).queue.config ≡ c
unfolding start
run-start-config c es = run-After (HasConfig c) (HasConfig-Stable c) (start c) es refl
