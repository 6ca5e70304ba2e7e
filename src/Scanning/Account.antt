-- ===== src/Scanning/Account.antt =====
-- What the counters of scanner-core/scanning/queue.go add up to.
use bjorn2scan.Base.{
  ℕ, suc, ◌+◌, ◌-◌, ◌≡◌, refl, List, [], ◌∷◌, Option, none, some, arith, length, length-append,
  length-tail, tail,
}
use bjorn2scan.Scanning.Queue.{
  ScanJob, HostScanJob, QueueFullBehavior, drop, drop_oldest, block, QueueConfig, JobQueue,
  Enqueued, added, refused, waiting, enqueue, resume_enqueue, update_metrics,
}
use bjorn2scan.Scanning.Host.{
  Work, enqueue_host_job, append_host_job, drop_oldest_host, take_work, count_processed, shutdown,
}
use bjorn2scan.Scanning.Steps.{
  System, Event, offer, offer_host, wake_producer, take, finish, stop, start, step, run, take_turn,
  finish_turn, wake_turn, settle, settle_host,
}

-- The jobs that were taken out of the queue to make room: under this behaviour every counted drop
-- is of a job that had been enqueued, and under the others none is.
abbrev pub evicted : QueueFullBehavior → ℕ → ℕ
evicted drop dropped = 0
evicted drop_oldest dropped = dropped
evicted block dropped = 0

abbrev pub held : Option Work → ℕ
held none = 0
held (some w) = 1

-- Every job that was enqueued is waiting, in the worker's hand, processed or evicted.
abbrev pub Balanced : ℕ → JobQueue → Type 0
Balanced k q =
    q.metrics.total_enqueued
    ≡ length q.jobs
      + length q.host_jobs
      + k
      + q.metrics.total_processed
      + evicted q.config.full_behavior q.metrics.total_dropped

abbrev BalancedAfter : ℕ → Enqueued → Type 0
BalancedAfter k (added q) = Balanced k q
BalancedAfter k (refused q) = Balanced k q
BalancedAfter k waiting = Unit {0}

abbrev BalancedTaken : ℕ → Option (Work × JobQueue) → Type 0
BalancedTaken k none = Unit {0}
BalancedTaken k (some (w, q)) = Balanced (suc k) q

enqueue-Balanced :
    (k : ℕ) (q : JobQueue) (j : ScanJob) → Balanced k q → BalancedAfter k (enqueue q j)
unfolding enqueue
enqueue-Balanced k q j b =
    ground (
      arith,
      length-append q.jobs (j ∷ []),
      length-append (tail q.jobs) (j ∷ []),
      length-tail q.jobs,
    )

resume_enqueue-Balanced :
    (k : ℕ) (q : JobQueue) (j : ScanJob) → Balanced k q → BalancedAfter k (resume_enqueue q j)
unfolding resume_enqueue
resume_enqueue-Balanced k q j b = ground (arith, length-append q.jobs (j ∷ []))

drop_oldest_host-count :
    (q : JobQueue) (hs : List HostScanJob)
    → q.host_jobs ≡ hs
    → length (drop_oldest_host q).jobs + length (drop_oldest_host q).host_jobs
      ≡ length q.jobs + length q.host_jobs - 1
unfolding drop_oldest_host
drop_oldest_host-count q [] e = ground (arith, length-tail q.jobs)
drop_oldest_host-count q (h ∷ hs) e = ground arith

drop_oldest_host-rest :
    (q : JobQueue) (hs : List HostScanJob)
    → q.host_jobs ≡ hs
    → ((drop_oldest_host q).config ≡ q.config) × ((drop_oldest_host q).metrics ≡ q.metrics)
unfolding drop_oldest_host
drop_oldest_host-rest q [] e = ground arith
drop_oldest_host-rest q (h ∷ hs) e = ground arith

enqueue_host_job-Balanced :
    (k : ℕ) (q : JobQueue) (h : HostScanJob) → Balanced k q → BalancedAfter k (enqueue_host_job q h)
unfolding enqueue_host_job append_host_job update_metrics
enqueue_host_job-Balanced k q h b = ground (
  arith,
  length-append q.host_jobs (h ∷ []),
  length-append (drop_oldest_host q).host_jobs (h ∷ []),
  drop_oldest_host-count q q.host_jobs refl,
  drop_oldest_host-rest q q.host_jobs refl,
)

take_work-Balanced :
    (k : ℕ) (q : JobQueue) (js : List ScanJob) (hs : List HostScanJob)
    → q.jobs ≡ js
    → q.host_jobs ≡ hs
    → Balanced k q
    → BalancedTaken k (take_work q)
unfolding take_work
take_work-Balanced k q (j ∷ js) hs e f b = ground arith
take_work-Balanced k q [] (h ∷ hs) e f b = ground arith
take_work-Balanced k q [] [] e f b = ground arith

wake_turn-Balanced :
    (s : System) (js : List ScanJob)
    → Balanced (held s.in_hand) s.queue
    → Balanced (held (wake_turn s js).in_hand) (wake_turn s js).queue
unfolding wake_turn settle
wake_turn-Balanced s [] b = b
wake_turn-Balanced s (j ∷ js) b =
    ground (arith, resume_enqueue-Balanced (held s.in_hand) s.queue j b)

finish_turn-Balanced :
    (s : System) (w : Option Work)
    → s.in_hand ≡ w
    → Balanced (held w) s.queue
    → Balanced (held (finish_turn s w).in_hand) (finish_turn s w).queue
unfolding finish_turn count_processed
finish_turn-Balanced s none e b = ground arith
finish_turn-Balanced s (some w) e b = ground arith

take_turn-Balanced :
    (s : System) (w : Option Work) (r : Option (Work × JobQueue))
    → s.in_hand ≡ w
    → Balanced (held w) s.queue
    → BalancedTaken (held w) r
    → Balanced (held (take_turn s w r).in_hand) (take_turn s w r).queue
unfolding take_turn
take_turn-Balanced s none none e b t = ground arith
take_turn-Balanced s none (some (w, q)) e b t = t
take_turn-Balanced s (some w) r e b t = ground arith

step-Balanced :
    (s : System) (e : Event)
    → Balanced (held s.in_hand) s.queue
    → Balanced (held (step s e).in_hand) (step s e).queue
unfolding step settle settle_host
step-Balanced s (offer j) b = ground (arith, enqueue-Balanced (held s.in_hand) s.queue j b)
step-Balanced s (offer_host h) b =
    ground (arith, enqueue_host_job-Balanced (held s.in_hand) s.queue h b)
step-Balanced s wake_producer b = wake_turn-Balanced s s.producers b
step-Balanced s take b =
    take_turn-Balanced s s.in_hand (take_work s.queue) refl b
      (take_work-Balanced (held s.in_hand) s.queue s.queue.jobs s.queue.host_jobs refl refl b)
step-Balanced s finish b = finish_turn-Balanced s s.in_hand refl b
step-Balanced s stop b = unfold shutdown in b

run-Balanced :
    (s : System) (es : List Event)
    → Balanced (held s.in_hand) s.queue
    → Balanced (held (run s es).in_hand) (run s es).queue
unfolding run
run-Balanced s [] b = b
run-Balanced s (e ∷ es) b = run-Balanced (step s e) es (step-Balanced s e b)

-- After any calls and any turns of the worker, `total_enqueued` is the number of the jobs that
-- wait, the one in the worker's hand, `total_processed`, and, where the oldest job is dropped to
-- make room, `total_dropped`. No job is lost or counted twice.
pub run-start-Balanced :
    (c : QueueConfig) (es : List Event)
    → Balanced (held (run (start c) es).in_hand) (run (start c) es).queue
run-start-Balanced c es = run-Balanced (start c) es (unfold start in ground arith)
