-- ===== src/Scanning/Threads/Alert.antt =====
-- Where a full queue drops jobs, no wake-up of the worker of scanner-core/scanning/queue.go is lost.
use bjorn2scan.Base.{
  nil-ne-middle, ◌+◌, ◌≡◌, ◌≢◌, refl, sym, ◌∙◌, true, false, List, [], ◌∷◌, none, some, arith,
  length,
}
use bjorn2scan.Scanning.Queue.{
  ScanJob, HostScanJob, block, QueueConfig, JobQueue, Enqueued, added, refused, waiting, enqueue,
  get_queue_depth, update_metrics, update_metrics,
}
use bjorn2scan.Scanning.Host.{
  Work, take_work, take_first, append_host_job, drop_oldest_host, count_processed, enqueue_host_job,
  shutdown,
}
use bjorn2scan.Scanning.Threads.{
  busy, Threads, launch, is_asleep, is_committed, Signal, to_worker, to_producer, to_none, Goes,
  adds, leaves, waits, Step, call, call_host, resume, take, commit, sleep, wake, leave, finish,
  stop, Reach, here, next,
}

-- No producer waits, and a worker that sleeps or is about to has nothing to do.
pub record IsAlert (s : Threads) : Type 0 where
  pub drops : s.queue.config.full_behavior ≢ block
  pub no_sleeper : s.sleepers ≡ []
  pub no_awake : s.awake ≡ []
  pub idle_asleep : is_asleep s.worker ≡ true → get_queue_depth s.queue ≡ 0
  pub idle_committed : is_committed s.worker ≡ true → get_queue_depth s.queue ≡ 0

-- What a call's outcome says of the queue that it leaves.
abbrev Fits : JobQueue → Enqueued → Type 0
Fits s (added q) = q.config ≡ s.config
Fits s (refused q) = (q.config ≡ s.config) × (get_queue_depth q ≡ get_queue_depth s)
Fits s waiting = s.config.full_behavior ≡ block

enqueue-Fits : (q : JobQueue) (j : ScanJob) → Fits q (enqueue q j)
unfolding enqueue get_queue_depth
enqueue-Fits q j = ground arith

drop_oldest_host-config :
    (q : JobQueue) (hs : List HostScanJob)
    → q.host_jobs ≡ hs
    → (drop_oldest_host q).config ≡ q.config
unfolding drop_oldest_host
drop_oldest_host-config q [] e = ground arith
drop_oldest_host-config q (h ∷ hs) e = ground arith

enqueue_host_job-Fits : (q : JobQueue) (h : HostScanJob) → Fits q (enqueue_host_job q h)
unfolding enqueue_host_job get_queue_depth append_host_job update_metrics
enqueue_host_job-Fits q h = ground (arith, drop_oldest_host-config q q.host_jobs refl)

take_first-config :
    (q r : JobQueue) (js : List ScanJob) (hs : List HostScanJob) (w : Work)
    → take_first js hs q ≡ some (w, r)
    → r.config ≡ q.config
unfolding take_first
take_first-config q r (j ∷ js) hs w e = ground arith
take_first-config q r [] (h ∷ hs) w e = ground arith
take_first-config q r [] [] w e = cc

take_first-depth :
    (q : JobQueue) (js : List ScanJob) (hs : List HostScanJob)
    → take_first js hs q ≡ none
    → length js + length hs ≡ 0
unfolding take_first
take_first-depth q (j ∷ js) hs e = cc
take_first-depth q [] (h ∷ hs) e = cc
take_first-depth q [] [] e = refl

-- What stays true of the threads while a call holds the lock.
record IsCalm (s : Threads) : Type 0 where
  pub drops : s.queue.config.full_behavior ≢ block
  pub no_sleeper : s.sleepers ≡ []
  pub no_awake : s.awake ≡ []
  pub unlocked : is_committed s.worker ≡ false

Signal-IsAlert : (s t : Threads) → IsCalm s → Signal s t → IsAlert t
Signal-IsAlert s t c (to_worker a e) = ground arith
Signal-IsAlert s t c (to_producer before after j a e) =
    absurd (nil-ne-middle before after j (sym a ∙ c.no_sleeper))
Signal-IsAlert s t c (to_none a b e) = ground arith

-- The outcome is a variable here, so that the match on `Goes` can set it.
Goes-IsAlert :
    (s t : Threads) (j : ScanJob) {r : Enqueued}
    → IsAlert s
    → is_committed s.worker ≡ false
    → Fits s.queue r
    → Goes s j t r
    → IsAlert t
Goes-IsAlert s t j a free f (adds q g) = Signal-IsAlert (record s { queue = q }) t (ground arith) g
Goes-IsAlert s t j a free f (leaves q e) = ground arith
Goes-IsAlert s t j a free f (waits e) = absurd (a.drops f)

Step-IsAlert : (s t : Threads) → IsAlert s → Step s t → IsAlert t
unfolding get_queue_depth
Step-IsAlert s t a (call j free g) = Goes-IsAlert s t j a free (enqueue-Fits s.queue j) g
Step-IsAlert s t a (call_host h j free g) =
    Goes-IsAlert s t j a free (enqueue_host_job-Fits s.queue h) g
Step-IsAlert s t a (resume before after j free e g) =
    absurd (nil-ne-middle before after j (sym e ∙ a.no_awake))
Step-IsAlert s t a (take w q r e g) =
    Signal-IsAlert (record s { queue = q; worker = busy w }) t
      (ground (
        arith,
        take_first-config s.queue q s.queue.jobs s.queue.host_jobs w (unfold take_work in e),
      ))
      g
Step-IsAlert s t a (commit r e f p) =
    ground (arith, take_first-depth s.queue s.queue.jobs s.queue.host_jobs (unfold take_work in e))
Step-IsAlert s t a (sleep r e) = ground arith
Step-IsAlert s t a (wake r e) = ground arith
Step-IsAlert s t a (leave r e f p) = ground arith
Step-IsAlert s t a (finish w r e) = unfold count_processed in ground arith
Step-IsAlert s t a (stop f e) = unfold shutdown in ground arith

launch-IsAlert : (c : QueueConfig) → c.full_behavior ≢ block → IsAlert (launch c)
unfolding launch
launch-IsAlert c h = ground arith

-- Where a full queue drops a job, in any interleaving of the threads no producer ever waits, and
-- whenever the worker sleeps unsignalled, or is about to, no job is in the queue.
pub Reach-IsAlert :
    (c : QueueConfig) {t : Threads} → c.full_behavior ≢ block → Reach (launch c) t → IsAlert t
Reach-IsAlert c h here = launch-IsAlert c h
Reach-IsAlert c h (next {t = s} {u = t} r st) = Step-IsAlert s t (Reach-IsAlert c h r) st
