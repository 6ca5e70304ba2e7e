-- ===== src/Scanning/Order.antt =====
-- The order in which the worker of scanner-core/scanning/queue.go takes the jobs.
use bjorn2scan.Base.{
  ℕ, zero, suc, ◌+◌, ◌<◌, ◌≡◌, refl, ap, ◌∙◌, List, [], ◌∷◌, ◌++◌, none, some, arith, length, map,
  append_assoc, append-nil, if◌then◌else◌,
}
use mathlib.Core.List.{map-append}
use bjorn2scan.Scanning.Queue.{ScanJob, HostScanJob, JobQueue, get_queue_depth, update_metrics}
use bjorn2scan.Scanning.Host.{
  Work, image, host, take_first, take_work, count_processed, QueueJob, of_scan_job, of_host_job,
  get_queue_contents,
}

-- Where the worker's loop ends, with what it processed, in order: it exits, or it sleeps on the
-- condition. Every round takes a job, so the fuel that the depth asks for is enough.
pub data WorkerRun : Type 0 where
  exits : List Work → JobQueue → WorkerRun
  sleeps : List Work → JobQueue → WorkerRun
  out_of_fuel : WorkerRun

unfoldable pub worker : ℕ → JobQueue → List Work → WorkerRun
worker zero q done = out_of_fuel
worker (suc fuel) q done = elim (take_work q) [
  | none ↦ if q.stopped then exits done q else sleeps done q
  | some (w, q') ↦ worker fuel (count_processed q') (done ++ w ∷ [])
]

-- An abstract view: the jobs in the order of their priority and age.
abbrev pub pending : JobQueue → List Work
pending q = map image q.jobs ++ map host q.host_jobs

-- The entry of `GetQueueContents` for a job.
unfoldable pub of_work : Work → QueueJob
of_work (image j) = of_scan_job j
of_work (host h) = of_host_job h

map-of_work-image : (js : List ScanJob) → map of_work (map image js) ≡ map of_scan_job js
unfolding of_work
map-of_work-image [] = refl
map-of_work-image (j ∷ js) = ap (◌∷◌ (of_scan_job j)) (map-of_work-image js)

map-of_work-host : (hs : List HostScanJob) → map of_work (map host hs) ≡ map of_host_job hs
unfolding of_work
map-of_work-host [] = refl
map-of_work-host (h ∷ hs) = ap (◌∷◌ (of_host_job h)) (map-of_work-host hs)

after_take_image : JobQueue → List ScanJob → JobQueue
after_take_image q js = update_metrics (record q { jobs = js }) (length js + length q.host_jobs) 0 0

after_take_host : JobQueue → List HostScanJob → JobQueue
after_take_host q hs = update_metrics (record q { host_jobs = hs }) (length q.jobs + length hs) 0 0

take_work-image :
    (q : JobQueue) (j : ScanJob) (js : List ScanJob)
    → q.jobs ≡ j ∷ js
    → take_work q ≡ some (image j, after_take_image q js)
unfolding take_work after_take_image
take_work-image q j js e = rw (e, take_first)

take_work-host :
    (q : JobQueue) (h : HostScanJob) (hs : List HostScanJob)
    → q.jobs ≡ []
    → q.host_jobs ≡ h ∷ hs
    → take_work q ≡ some (host h, after_take_host q hs)
unfolding take_work after_take_host
take_work-host q h hs e f = rw (e, f, take_first)

take_work-none : (q : JobQueue) → q.jobs ≡ [] → q.host_jobs ≡ [] → take_work q ≡ none
unfolding take_work
take_work-none q e f = rw (e, f, take_first)

-- The worker comes to an end that has done these jobs besides those of before.
abbrev pub Drains : JobQueue → List Work → WorkerRun → Type 0
Drains q all w =
    (r : JobQueue) × (w ≡ (if q.stopped then exits all r else sleeps all r))
    × (r.jobs ≡ [])
    × (r.host_jobs ≡ [])
    × (r.metrics.total_processed ≡ q.metrics.total_processed + get_queue_depth q)

-- One round behind the worker, its job goes to the front of what the rest of the loop does.
Drains-step :
    (q q' : JobQueue) (w : Work) (done rest : List Work) (run : WorkerRun)
    → q'.stopped ≡ q.stopped
    → q'.metrics.total_processed ≡ q.metrics.total_processed + 1
    → get_queue_depth q ≡ get_queue_depth q' + 1
    → Drains q' ((done ++ w ∷ []) ++ rest) run
    → Drains q (done ++ (w ∷ rest)) run
Drains-step q q' w done rest run same count depth (r, ends, je, he, processed) =
    (r, ends ∙ cc (same, append_assoc done (w ∷ []) rest), je, he, omega arith)

worker_loop :
    (fuel : ℕ) (q : JobQueue) (js : List ScanJob) (hs : List HostScanJob) (done : List Work)
    → q.jobs ≡ js
    → q.host_jobs ≡ hs
    → length js + length hs < fuel
    → Drains q (done ++ (map image js ++ map host hs)) (worker fuel q done)
unfolding worker get_queue_depth count_processed after_take_image after_take_host update_metrics
worker_loop zero q js hs done e f m = absurd (omega arith)
worker_loop (suc fuel) q [] [] done e f m =
    rw (take_work-none q e f, worker, append-nil done) (q, refl, e, f, ground arith)
worker_loop (suc fuel) q (j ∷ js) hs done e f m =
    rw (take_work-image q j js e, worker)
      (Drains-step q (count_processed (after_take_image q js)) (image j) done
        (map image js ++ map host hs) _ refl refl (ground arith)
        (worker_loop fuel (count_processed (after_take_image q js)) js hs (done ++ image j ∷ [])
          refl f (omega arith)))
worker_loop (suc fuel) q [] (h ∷ hs) done e f m =
    rw (take_work-host q h hs e f, worker)
      (Drains-step q (count_processed (after_take_host q hs)) (host h) done (map host hs) _ refl
        refl (ground arith)
        (worker_loop fuel (count_processed (after_take_host q hs)) [] hs (done ++ host h ∷ []) e
          refl (omega arith)))

-- With fuel above the depth the worker's loop ends. It has then processed the waiting jobs and no
-- others, all image jobs before all host jobs and each kind oldest first, which is the order in
-- which `GetQueueContents` lists them; the queue is empty, and each job has been counted. It exits
-- if the queue is stopped, so `Shutdown` waits for every queued job, and sleeps if it is not.
pub worker-Drains :
    (fuel : ℕ) (q : JobQueue)
    → get_queue_depth q < fuel
    → Drains q (pending q) (worker fuel q [])
      × (map of_work (pending q) ≡ (get_queue_contents q).jobs)
unfolding get_queue_depth get_queue_contents
worker-Drains fuel q m = (
  worker_loop fuel q q.jobs q.host_jobs [] refl refl m,
  map-append of_work (map image q.jobs) (map host q.host_jobs)
      ∙ cc (map-of_work-image q.jobs, map-of_work-host q.host_jobs),
)
