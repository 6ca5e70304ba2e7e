-- ===== src/Scanning/Threads.antt =====
-- The threads around the queue of scanner-core/scanning/queue.go: the worker, the callers of the
-- enqueue methods and of `Shutdown`, the lock `jobsMu` and the condition `jobsAvailable`.
-- A step is what one thread does while it holds the lock. The exceptions are the worker's test of
-- the context and its `Wait`, which are two steps (it holds the lock between them, and `Shutdown`
-- does not take the lock), and its processing of a job. `Shutdown` is called once.
-- `Shutdown`'s cancelling and its `Broadcast` are one step, and so are a producer's test of the context
-- and its `Wait`: a producer that tests before the one and waits behind the other is not modelled.
-- `Signal` wakes one waiting thread if there is one; which one is not said.
pub mod Alert
pub mod Stuck
pub mod Stranded
use bjorn2scan.Base.{◌≡◌, Bool, true, false, List, [], ◌∷◌, ◌++◌, Option, none, some, if◌then◌else◌}
use bjorn2scan.Scanning.Queue.{
  ScanJob, HostScanJob, QueueConfig, JobQueue, Enqueued, added, refused, waiting, new_job_queue,
  enqueue, resume_enqueue,
}
use bjorn2scan.Scanning.Host.{Work, take_work, count_processed, enqueue_host_job, shutdown}

-- `ready`: at the top of its loop. `committed`: it has seen that the context is not done, and is
-- about to wait. `woken`: signalled, and about to take the lock again.
pub data Phase : Type 0 where
  ready committed asleep woken exited : Phase
  busy : Work → Phase

-- `sleepers` are the jobs whose `Enqueue` waits, `awake` those of them that were signalled.
pub record Threads : Type 0 where
  pub queue : JobQueue
  pub worker : Phase
  pub sleepers : List ScanJob
  pub awake : List ScanJob

unfoldable pub launch : QueueConfig → Threads
unfolding new_job_queue
launch c = record { queue = new_job_queue c; worker = ready; sleepers = []; awake = [] }

abbrev pub is_asleep : Phase → Bool
is_asleep asleep = true
is_asleep _ = false

abbrev pub is_committed : Phase → Bool
is_committed committed = true
is_committed _ = false

-- `jobsAvailable.Signal()`.
pub data Signal (s t : Threads) : Type 0 where
  to_worker : is_asleep s.worker ≡ true → t ≡ record s { worker = woken } → Signal s t
  to_producer :
      (before after : List ScanJob) (j : ScanJob)
      → s.sleepers ≡ before ++ j ∷ after
      → t ≡ record s { sleepers = before ++ after; awake = j ∷ s.awake }
      → Signal s t
  to_none : is_asleep s.worker ≡ false → s.sleepers ≡ [] → t ≡ s → Signal s t

-- How a call of `Enqueue` goes on from its outcome.
pub data Goes (s : Threads) (j : ScanJob) (t : Threads) : Enqueued → Type 0 where
  adds : (q : JobQueue) → Signal (record s { queue = q }) t → Goes s j t (added q)
  leaves : (q : JobQueue) → t ≡ record s { queue = q } → Goes s j t (refused q)
  waits : t ≡ record s { sleepers = s.sleepers ++ j ∷ [] } → Goes s j t waiting

pub data Step (s t : Threads) : Type 0 where
  call : (j : ScanJob) → is_committed s.worker ≡ false → Goes s j t (enqueue s.queue j) → Step s t
  call_host :
      (h : HostScanJob) (j : ScanJob)
      → is_committed s.worker ≡ false
      → Goes s j t (enqueue_host_job s.queue h)
      → Step s t
  resume :
      (before after : List ScanJob) (j : ScanJob)
      → is_committed s.worker ≡ false
      → s.awake ≡ before ++ j ∷ after
      → Goes (record s { awake = before ++ after }) j t (resume_enqueue s.queue j)
      → Step s t
  take :
      (w : Work) (q : JobQueue)
      → s.worker ≡ ready
      → take_work s.queue ≡ some (w, q)
      → Signal (record s { queue = q; worker = busy w }) t
      → Step s t
  commit :
      s.worker ≡ ready
      → take_work s.queue ≡ none
      → s.queue.stopped ≡ false
      → t ≡ record s { worker = committed }
      → Step s t
  sleep : s.worker ≡ committed → t ≡ record s { worker = asleep } → Step s t
  wake :
      s.worker ≡ woken
      → t ≡ record s { worker = if s.queue.stopped then exited else ready }
      → Step s t
  leave :
      s.worker ≡ ready
      → take_work s.queue ≡ none
      → s.queue.stopped ≡ true
      → t ≡ record s { worker = exited }
      → Step s t
  finish :
      (w : Work)
      → s.worker ≡ busy w
      → t ≡ record s { worker = ready; queue = count_processed s.queue }
      → Step s t
  stop :
      s.queue.stopped ≡ false
      → t ≡ record s {
        queue = shutdown s.queue;
        worker = if is_asleep s.worker then woken else s.worker;
        sleepers = [];
        awake = s.sleepers ++ s.awake;
      }
      → Step s t

pub data Reach (s : Threads) : Threads → Type 0 where
  here : Reach s s
  next : {t u : Threads} → Reach s t → Step t u → Reach s u
