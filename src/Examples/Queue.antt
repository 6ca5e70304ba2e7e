-- ===== src/Examples/Queue.antt =====
-- The scan queue of scanner-core/scanning/queue.go on small inputs.
use bjorn2scan.Base.{◌+◌, ◌≤◌, ◌≡◌, ◌≢◌, refl, true, false, List, [], ◌∷◌, map, arith, length}
use bjorn2scan.Scanning.Queue.{
  ScanJob, HostScanJob, drop_oldest, QueueConfig, JobQueue, enqueue, get_queue_depth,
}
use bjorn2scan.Scanning.Host.{
  queued_node, get_queue_contents, enqueue_host_job, take_work, queued_node, count_processed,
  append_host_job, drop_oldest_host,
}
use bjorn2scan.Scanning.Steps.{
  Event, offer, offer_host, take, finish, start, run, step, finish_turn, take_turn, settle_host,
  settle,
}
use bjorn2scan.Scanning.Bounds.{Distinct, run-start-bounds}
use bjorn2scan.Scanning.Fills.{run-start-fills}
use bjorn2scan.Scanning.Account.{Balanced, held, run-start-Balanced}
use bjorn2scan.Scanning.Gauge.{run-start-gauge}
use bjorn2scan.Scanning.Order.{pending, of_work, worker, Drains, worker-Drains}

abbrev pub nginx : ScanJob
nginx = record {
  image = record { reference = "nginx:1.21"; digest = "sha256:aa" };
  node_name = "n1";
  container_runtime = "containerd";
  force_scan = false;
}

abbrev pub redis : ScanJob
redis = record {
  image = record { reference = "redis:7"; digest = "sha256:bb" };
  node_name = "n1";
  container_runtime = "containerd";
  force_scan = true;
}

abbrev node_1 : HostScanJob
node_1 = record { node_name = "n1"; force_scan = false }

abbrev small : QueueConfig
small = record { max_depth = 1; full_behavior = drop_oldest }

abbrev history : List Event
history =
    offer nginx ∷ take ∷ offer redis ∷ offer nginx ∷ offer_host node_1 ∷ finish ∷ take ∷ finish ∷ []

history_metrics :
    let m = (run (start small) history).queue.metrics in
    (m.total_enqueued ≡ 4) × (m.total_dropped ≡ 2) × (m.total_processed ≡ 2) × (m.current_depth ≡ 1)
unfolding run start step finish_turn take_turn settle_host enqueue_host_job settle enqueue take_work
    queued_node count_processed append_host_job drop_oldest_host
history_metrics = (refl, refl, refl, refl)

run-start-bounds_example :
    (length (run (start small) history).queue.jobs ≤ 1)
    × (length (run (start small) history).queue.host_jobs ≤ 1)
    × Distinct (run (start small) history).queue.host_jobs
run-start-bounds_example = run-start-bounds small history (omega arith)

-- One host job waits, which is the limit.
abbrev pub one_host : JobQueue
one_host = record {
  jobs = [];
  host_jobs = node_1 ∷ [];
  stopped = false;
  config = small;
  metrics = record {
    current_depth = 1;
    peak_depth = 1;
    total_enqueued = 1;
    total_dropped = 0;
    total_processed = 0;
  };
}

-- With a limit of 1, two jobs wait.
run-start-fills_example :
    ((run (start small) (offer_host node_1 ∷ offer nginx ∷ [])).queue.jobs ≡ nginx ∷ [])
    × ((run (start small) (offer_host node_1 ∷ offer nginx ∷ [])).queue.host_jobs ≡ node_1 ∷ [])
    × (get_queue_depth (run (start small) (offer_host node_1 ∷ offer nginx ∷ [])).queue ≡ 1 + 1)
unfolding queued_node
run-start-fills_example =
    run-start-fills small (node_1 ∷ []) (nginx ∷ []) (refl, tt) (λ p. omega arith)
      (λ p. omega arith)

run-start-Balanced_example :
    Balanced (held (run (start small) history).in_hand) (run (start small) history).queue
run-start-Balanced_example = run-start-Balanced small history

run-start-gauge_example :
    ((run (start small) history).queue.metrics.current_depth ≢ 0)
    × ((run (start small) history).queue.metrics.current_depth
        ≤ (run (start small) history).queue.metrics.peak_depth)
run-start-gauge_example = run-start-gauge small history (omega (arith, history_metrics))

two_jobs : JobQueue
two_jobs = record one_host { jobs = redis ∷ []; stopped = true }

worker-Drains_example :
    Drains two_jobs (pending two_jobs) (worker 3 two_jobs [])
    × (map of_work (pending two_jobs) ≡ (get_queue_contents two_jobs).jobs)
worker-Drains_example = worker-Drains 3 two_jobs (unfold get_queue_depth two_jobs in omega arith)
