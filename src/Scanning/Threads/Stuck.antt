-- ===== src/Scanning/Threads/Stuck.antt =====
-- Two ways in which the threads of scanner-core/scanning/queue.go can come to a stand.
use bjorn2scan.Base.{nil-ne-middle, ◌≡◌, refl, sym, ◌∙◌, true, [], arith}
use bjorn2scan.Scanning.Queue.{
  ScanJob, HostScanJob, QueueConfig, JobQueue, Enqueued, refused, enqueue, resume_enqueue,
}
use bjorn2scan.Scanning.Host.{take_work, take_first, enqueue_host_job, shutdown}
use bjorn2scan.Scanning.Threads.{
  asleep, Threads, launch, Goes, adds, leaves, waits, Step, call, call_host, resume, take, commit,
  sleep, wake, leave, finish, stop, Reach, here, next,
}

-- `Shutdown` has been called, and the worker sleeps with nobody left to wake it.
pub record IsHung (s : Threads) : Type 0 where
  pub stopped : s.queue.stopped ≡ true
  pub sleeping : s.worker ≡ asleep
  pub no_awake : s.awake ≡ []

-- The worker finds the context alive, `Shutdown` cancels it and broadcasts, and only then does the
-- worker wait: this can happen under every configuration.
pub shutdown_can_hang : (c : QueueConfig) → (t : Threads) × Reach (launch c) t × IsHung t
unfolding launch shutdown take_work take_first
shutdown_can_hang c = (
  _,
  next (next (next here (commit refl refl refl refl)) (stop refl refl)) (sleep refl refl),
  record { stopped = refl; sleeping = refl; no_awake = refl },
)

enqueue_stopped : (q : JobQueue) (j : ScanJob) → q.stopped ≡ true → enqueue q j ≡ refused q
unfolding enqueue
enqueue_stopped q j h = ground arith

resume_enqueue_stopped :
    (q : JobQueue) (j : ScanJob) → q.stopped ≡ true → resume_enqueue q j ≡ refused q
unfolding resume_enqueue
resume_enqueue_stopped q j h = ground arith

enqueue_host_job_stopped :
    (q : JobQueue) (h : HostScanJob) → q.stopped ≡ true → enqueue_host_job q h ≡ refused q
unfolding enqueue_host_job
enqueue_host_job_stopped q h p = ground arith

-- A call that is refused with the queue unchanged changes nothing.
Goes-refused :
    (s t : Threads) (j : ScanJob) {r : Enqueued} → r ≡ refused s.queue → Goes s j t r → t ≡ s
Goes-refused s t j e (adds q g) = cc
Goes-refused s t j e (leaves q f) = ground arith
Goes-refused s t j e (waits f) = cc

Step-IsHung : (s t : Threads) → IsHung s → Step s t → IsHung t
Step-IsHung s t a (call j free g) =
    ground (arith, Goes-refused s t j (enqueue_stopped s.queue j a.stopped) g)
Step-IsHung s t a (call_host h j free g) =
    ground (arith, Goes-refused s t j (enqueue_host_job_stopped s.queue h a.stopped) g)
Step-IsHung s t a (resume before after j free e g) =
    absurd (nil-ne-middle before after j (sym e ∙ a.no_awake))
Step-IsHung s t a (take w q r e g) = cc (a.sleeping)
Step-IsHung s t a (commit r e f p) = cc (a.sleeping)
Step-IsHung s t a (sleep r e) = cc (a.sleeping)
Step-IsHung s t a (wake r e) = cc (a.sleeping)
Step-IsHung s t a (leave r e f p) = cc (a.sleeping)
Step-IsHung s t a (finish w r e) = cc (a.sleeping)
Step-IsHung s t a (stop f e) = cc (a.stopped)

-- From there no step of any thread wakes the worker: it never exits, and `Shutdown` never returns.
pub IsHung-forever : {s t : Threads} → IsHung s → Reach s t → IsHung t
IsHung-forever h here = h
IsHung-forever h (next {t = s} {u = t} r st) = Step-IsHung s t (IsHung-forever h r) st
