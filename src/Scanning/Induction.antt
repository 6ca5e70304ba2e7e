-- ===== src/Scanning/Induction.antt =====
-- Induction over what happens to the queue of scanner-core/scanning/queue.go: a property of the
-- queue that each locked section keeps is kept by every run.
use bjorn2scan.Base.{ℕ, ◌≡◌, refl, List, [], ◌∷◌, Option, none, some}
use bjorn2scan.Scanning.Queue.{
  ScanJob, HostScanJob, JobQueue, Enqueued, added, refused, waiting, enqueue, resume_enqueue,
  update_metrics,
}
use bjorn2scan.Scanning.Host.{
  Work, enqueue_host_job, take_work, take_first, count_processed, shutdown,
}
use bjorn2scan.Scanning.Steps.{
  System, Event, offer, offer_host, wake_producer, take, finish, stop, step, run, take_turn,
  finish_turn, wake_turn, settle, settle_host,
}

-- The property of the queue that a call leaves behind.
abbrev pub After : (JobQueue → Type 0) → Enqueued → Type 0
After P (added q) = P q
After P (refused q) = P q
After P waiting = Unit {0}

abbrev pub AfterTake : (JobQueue → Type 0) → Option (Work × JobQueue) → Type 0
AfterTake P none = Unit {0}
AfterTake P (some (w, q)) = P q

pub record Stable (P : JobQueue → Type 0) : Type 0 where
  pub on_enqueue : (q : JobQueue) (j : ScanJob) → P q → After P (enqueue q j)
  pub on_resume : (q : JobQueue) (j : ScanJob) → P q → After P (resume_enqueue q j)
  pub on_enqueue_host : (q : JobQueue) (h : HostScanJob) → P q → After P (enqueue_host_job q h)
  pub on_take_image :
      (q : JobQueue) (j : ScanJob) (js : List ScanJob) (depth : ℕ)
      → q.jobs ≡ j ∷ js
      → P q
      → P (update_metrics (record q { jobs = js }) depth 0 0)
  pub on_take_host :
      (q : JobQueue) (h : HostScanJob) (hs : List HostScanJob) (depth : ℕ)
      → q.host_jobs ≡ h ∷ hs
      → P q
      → P (update_metrics (record q { host_jobs = hs }) depth 0 0)
  pub on_count : (q : JobQueue) → P q → P (count_processed q)
  pub on_shutdown : (q : JobQueue) → P q → P (shutdown q)

module _ (P : JobQueue → Type 0) (stable : Stable P) where
  take_first-After :
      (q : JobQueue) (js : List ScanJob) (hs : List HostScanJob)
      → q.jobs ≡ js
      → q.host_jobs ≡ hs
      → P q
      → AfterTake P (take_first js hs q)
  unfolding take_first
  take_first-After q (j ∷ js) hs e f p = stable.on_take_image q j js _ e p
  take_first-After q [] (h ∷ hs) e f p = stable.on_take_host q h hs _ f p
  take_first-After q [] [] e f p = tt

  settle-After :
      (s : System) (j : ScanJob) (r : Enqueued) → P s.queue → After P r → P (settle s j r).queue
  unfolding settle
  settle-After s j (added q) p a = a
  settle-After s j (refused q) p a = a
  settle-After s j waiting p a = p

  settle_host-After :
      (s : System) (r : Enqueued) → P s.queue → After P r → P (settle_host s r).queue
  unfolding settle_host
  settle_host-After s (added q) p a = a
  settle_host-After s (refused q) p a = a
  settle_host-After s waiting p a = p

  wake_turn-After : (s : System) (js : List ScanJob) → P s.queue → P (wake_turn s js).queue
  unfolding wake_turn
  wake_turn-After s [] p = p
  wake_turn-After s (j ∷ js) p =
      settle-After (record s { producers = js }) j (resume_enqueue s.queue j) p
        (stable.on_resume s.queue j p)

  finish_turn-After : (s : System) (w : Option Work) → P s.queue → P (finish_turn s w).queue
  unfolding finish_turn
  finish_turn-After s none p = p
  finish_turn-After s (some w) p = stable.on_count s.queue p

  take_turn-After :
      (s : System) (w : Option Work) (r : Option (Work × JobQueue))
      → P s.queue
      → AfterTake P r
      → P (take_turn s w r).queue
  unfolding take_turn
  take_turn-After s none none p a = p
  take_turn-After s none (some (w, q)) p a = a
  take_turn-After s (some w) r p a = p

  step-After : (s : System) (e : Event) → P s.queue → P (step s e).queue
  unfolding step take_work
  step-After s (offer j) p = settle-After s j (enqueue s.queue j) p (stable.on_enqueue s.queue j p)
  step-After s (offer_host h) p =
      settle_host-After s (enqueue_host_job s.queue h) p (stable.on_enqueue_host s.queue h p)
  step-After s wake_producer p = wake_turn-After s s.producers p
  step-After s take p =
      take_turn-After s s.in_hand (take_work s.queue) p
        (take_first-After s.queue s.queue.jobs s.queue.host_jobs refl refl p)
  step-After s finish p = finish_turn-After s s.in_hand p
  step-After s stop p = stable.on_shutdown s.queue p

  pub run-After : (s : System) (es : List Event) → P s.queue → P (run s es).queue
  unfolding run
  run-After s [] p = p
  run-After s (e ∷ es) p = run-After (step s e) es (step-After s e p)
