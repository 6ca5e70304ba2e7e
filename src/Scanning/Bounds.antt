-- ===== src/Scanning/Bounds.antt =====
-- How long the queues of scanner-core/scanning/queue.go can grow, and which hosts wait in them.
use bjorn2scan.Base.{
  ℕ, ◌≤◌, ◌<◌, ◌≡◌, refl, String, str_eq, eq_iff, false, ◌||◌, List, [], ◌∷◌, ◌++◌, arith, length,
  length-append, length-tail, tail,
}
use bjorn2scan.Scanning.Queue.{
  ScanJob, HostScanJob, QueueConfig, JobQueue, enqueue, resume_enqueue, update_metrics,
}
use bjorn2scan.Scanning.Host.{
  queued_node, enqueue_host_job, append_host_job, drop_oldest_host, count_processed, shutdown,
}
use bjorn2scan.Scanning.Config.{run-start-config}
use bjorn2scan.Scanning.Induction.{Stable, After, run-After}
use bjorn2scan.Scanning.Steps.{Event, start, run}

-- No two waiting host scans are for one node.
abbrev pub Distinct : List HostScanJob → Type 0
Distinct [] = Unit {0}
Distinct (h ∷ hs) = (queued_node h.node_name hs ≡ false) × Distinct hs

queued_node-append :
    (name : String) (hs : List HostScanJob) (h : HostScanJob)
    → queued_node name (hs ++ h ∷ []) ≡ (queued_node name hs || str_eq h.node_name name)
unfolding queued_node
queued_node-append name [] h = ground arith
queued_node-append name (x ∷ hs) h = ground (arith, queued_node-append name hs h)

Distinct-append :
    (hs : List HostScanJob) (h : HostScanJob)
    → Distinct hs
    → queued_node h.node_name hs ≡ false
    → Distinct (hs ++ h ∷ [])
unfolding queued_node
Distinct-append [] h d f = (refl, tt)
Distinct-append (x ∷ hs) h d f = ground (
  arith,
  queued_node-append x.node_name hs h,
  eq_iff h.node_name x.node_name,
  eq_iff x.node_name h.node_name,
  Distinct-append hs h d.1,
)

pub record Inv (q : JobQueue) : Type 0 where
  pub jobs_bounded : 0 < q.config.max_depth → length q.jobs ≤ q.config.max_depth
  pub hosts_bounded : 0 < q.config.max_depth → length q.host_jobs ≤ q.config.max_depth
  pub distinct : Distinct q.host_jobs

enqueue-Keeps : (q : JobQueue) (j : ScanJob) → Inv q → After Inv (enqueue q j)
unfolding enqueue
enqueue-Keeps q j v =
    ground (
      arith,
      length-append q.jobs (j ∷ []),
      length-append (tail q.jobs) (j ∷ []),
      length-tail q.jobs,
    )

resume_enqueue-Keeps : (q : JobQueue) (j : ScanJob) → Inv q → After Inv (resume_enqueue q j)
unfolding resume_enqueue
resume_enqueue-Keeps q j v = ground (arith, length-append q.jobs (j ∷ []))

update_metrics-Inv :
    (q : JobQueue) (depth enqueued dropped : ℕ)
    → Inv q
    → Inv (update_metrics q depth enqueued dropped)
unfolding update_metrics
update_metrics-Inv q depth enqueued dropped v = record {
  jobs_bounded = v.jobs_bounded;
  hosts_bounded = v.hosts_bounded;
  distinct = v.distinct;
}

append_host_job-Inv :
    (q : JobQueue) (h : HostScanJob)
    → Inv q
    → queued_node h.node_name q.host_jobs ≡ false
    → (0 < q.config.max_depth → length q.host_jobs < q.config.max_depth)
    → Inv (append_host_job q h)
unfolding append_host_job
append_host_job-Inv q h v fresh room = record {
  jobs_bounded = v.jobs_bounded;
  hosts_bounded = λ p. omega (arith, length-append q.host_jobs (h ∷ []), room p);
  distinct = Distinct-append q.host_jobs h v.distinct fresh;
}

-- The job that makes room is a host job where there is one.
drop_oldest_host-room :
    (q : JobQueue) (hs : List HostScanJob) (h : HostScanJob)
    → q.host_jobs ≡ hs
    → Inv q
    → queued_node h.node_name q.host_jobs ≡ false
    → Inv (drop_oldest_host q)
      × (queued_node h.node_name (drop_oldest_host q).host_jobs ≡ false)
      × (0 < (drop_oldest_host q).config.max_depth
          → length (drop_oldest_host q).host_jobs < (drop_oldest_host q).config.max_depth)
unfolding drop_oldest_host queued_node
drop_oldest_host-room q [] h e v fresh = ground (arith, length-tail q.jobs)
drop_oldest_host-room q (x ∷ hs) h e v fresh = ground arith

drop_oldest_host-append :
    (q : JobQueue) (h : HostScanJob)
    → Inv q
    → queued_node h.node_name q.host_jobs ≡ false
    → Inv (append_host_job (update_metrics (drop_oldest_host q) 0 0 1) h)
unfolding update_metrics
drop_oldest_host-append q h v fresh =
    let (w, f, room) = drop_oldest_host-room q q.host_jobs h refl v fresh in
    append_host_job-Inv (update_metrics (drop_oldest_host q) 0 0 1) h
      (update_metrics-Inv (drop_oldest_host q) 0 0 1 w) f room

enqueue_host_job-Keeps : (q : JobQueue) (h : HostScanJob) → Inv q → After Inv (enqueue_host_job q h)
unfolding enqueue_host_job
enqueue_host_job-Keeps q h v =
    ground (
      arith,
      append_host_job-Inv q h v,
      update_metrics-Inv q 0 0 1 v,
      drop_oldest_host-append q h v,
    )

Inv-Stable : Stable Inv
unfolding update_metrics count_processed shutdown
Inv-Stable = record {
  on_enqueue = enqueue-Keeps;
  on_resume = resume_enqueue-Keeps;
  on_enqueue_host = enqueue_host_job-Keeps;
  on_take_image = λ q j js depth e v. ground arith;
  on_take_host = λ q h hs depth e v. ground arith;
  on_count = λ q v. ground arith;
  on_shutdown = λ q v. ground arith;
}

start-Inv : (c : QueueConfig) → Inv (start c).queue
unfolding start
start-Inv c = ground arith

-- With a depth limit, after any calls and any turns of the worker, at most `max_depth` image jobs
-- wait, at most `max_depth` host jobs wait, and no two of the host jobs are for one node.
pub run-start-bounds :
    (c : QueueConfig) (es : List Event)
    → 0 < c.max_depth
    → (length (run (start c) es).queue.jobs ≤ c.max_depth)
      × (length (run (start c) es).queue.host_jobs ≤ c.max_depth)
      × Distinct (run (start c) es).queue.host_jobs
run-start-bounds c es p =
    ground (arith, run-After Inv Inv-Stable (start c) es (start-Inv c), run-start-config c es)
