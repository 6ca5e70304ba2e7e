-- ===== src/Scanning/Threads/Stranded.antt =====
-- Blocking producers on the condition of the worker: scanner-core/scanning/queue.go under
-- `QueueFullBlock`.
use bjorn2scan.Base.{
  nil-ne-middle, ℕ, ◌≤◌, ◌<◌, ◌≡◌, ◌⊎◌, inl, inr, refl, sym, ◌∙◌, true, false, List, [], ◌∷◌, ◌++◌,
  arith, length,
}
use bjorn2scan.Scanning.Queue.{
  ScanJob, HostScanJob, block, QueueConfig, Enqueued, added, refused, waiting, enqueue,
  resume_enqueue, update_metrics,
}
use bjorn2scan.Scanning.Host.{take_work, take_first, count_processed, enqueue_host_job, shutdown}
use bjorn2scan.Scanning.Threads.{
  asleep, woken, exited, Threads, launch, to_producer, to_none, Goes, adds, leaves, waits, Step,
  call, call_host, resume, take, commit, sleep, wake, leave, finish, stop, Reach, here, next,
}

abbrev pub blocking : QueueConfig
blocking = record { max_depth = 1; full_behavior = block }

-- The queue is full, and the worker sleeps unsignalled.
pub record IsStranded (s : Threads) : Type 0 where
  pub alive : s.queue.stopped ≡ false
  pub full : s.queue.config.max_depth ≤ length s.queue.jobs
  pub limited : 0 < s.queue.config.max_depth
  pub blocks : s.queue.config.full_behavior ≡ block
  pub sleeping : s.worker ≡ asleep
  pub no_awake : s.awake ≡ []

-- Four producers and a limit of one job. The worker takes the second job, which signals the third
-- producer, and is back to wait before that producer runs; the producer's own signal then goes to
-- the fourth, which finds the queue full again.
infixl 30 ◌▸◌
abbrev ◌▸◌ : {s t u : Threads} → Reach s t → Step t u → Reach s u
r ▸ st = next r st

pub block_can_strand :
    (j₁ j₂ j₃ j₄ : ScanJob) → (t : Threads) × Reach (launch blocking) t × IsStranded t
unfolding launch take_work take_first enqueue resume_enqueue count_processed
block_can_strand j₁ j₂ j₃ j₄ = (
  _,
  here
      ▸ call j₁ refl (adds _ (to_none refl refl refl))
      ▸ take _ _ refl refl (to_none refl refl refl)
      ▸ call j₂ refl (adds _ (to_none refl refl refl))
      ▸ call j₃ refl (waits refl)
      ▸ call j₄ refl (waits refl)
      ▸ finish _ refl refl
      ▸ take _ _ refl refl (to_producer [] (j₄ ∷ []) j₃ refl refl)
      ▸ finish _ refl refl
      ▸ commit refl refl refl refl
      ▸ sleep refl refl
      ▸ resume [] [] j₃ refl refl (adds _ (to_producer [] [] j₄ refl refl))
      ▸ resume [] [] j₄ refl refl (waits refl),
  record {
    alive = refl;
    full = omega arith;
    limited = omega arith;
    blocks = refl;
    sleeping = refl;
    no_awake = refl;
  },
)

-- What stays true from there: the same jobs wait, and no more is processed. `Shutdown` ends the
-- worker, which exits with the jobs still in the queue.
record IsOver (js : List ScanJob) (processed : ℕ) (s : Threads) : Type 0 where
  pub jobs_left : s.queue.jobs ≡ js
  pub no_more : s.queue.metrics.total_processed ≡ processed
  pub over : IsStranded s ⊎ ((s.queue.stopped ≡ true) × ((s.worker ≡ woken) ⊎ (s.worker ≡ exited)))

-- A call to the stranded queue, whose outcome is a variable so that a match can set it.
abbrev Refuses : Threads → Enqueued → Type 0
Refuses s (added q) = ⊥
Refuses s (refused q) =
    (q.jobs ≡ s.queue.jobs)
    × (q.metrics.total_processed ≡ s.queue.metrics.total_processed)
    × (q.stopped ≡ s.queue.stopped)
    × (q.config ≡ s.queue.config)
Refuses s waiting = s.queue.stopped ≡ false

Goes-IsOver :
    (js : List ScanJob) (n : ℕ) (s t : Threads) (j : ScanJob) {r : Enqueued}
    → IsOver js n s
    → Refuses s r
    → Goes s j t r
    → IsOver js n t
Goes-IsOver js n s t j v f (adds q g) = absurd f
Goes-IsOver js n s t j v f (leaves q e) = ground arith
Goes-IsOver js n s t j v f (waits e) = ground arith

enqueue-Refuses :
    (s : Threads) (js : List ScanJob) (n : ℕ) (j : ScanJob)
    → IsOver js n s
    → Refuses s (enqueue s.queue j)
unfolding enqueue
enqueue-Refuses s js n j v = ground arith

enqueue_host_job-Refuses :
    (s : Threads) (js : List ScanJob) (n : ℕ) (h : HostScanJob)
    → IsOver js n s
    → Refuses s (enqueue_host_job s.queue h)
unfolding enqueue_host_job update_metrics
enqueue_host_job-Refuses s js n h v = ground arith

resume_enqueue-Refuses :
    (s : Threads) (js : List ScanJob) (n : ℕ) (j : ScanJob)
    → IsOver js n s
    → Refuses s (resume_enqueue s.queue j)
unfolding resume_enqueue
resume_enqueue-Refuses s js n j v = ground arith

-- No producer is woken while the queue is stranded, and after `Shutdown` it is refused.
forget_awake-IsOver :
    (js : List ScanJob) (n : ℕ) (s : Threads) (before after : List ScanJob) (j : ScanJob)
    → s.awake ≡ before ++ j ∷ after
    → IsOver js n s
    → IsOver js n (record s { awake = before ++ after })
forget_awake-IsOver js n s before after j e v = elim v.over [
  | inl h ↦ absurd (nil-ne-middle before after j (sym e ∙ h.no_awake))
  | inr h ↦ record { jobs_left = v.jobs_left; no_more = v.no_more; over = inr h }
]

Step-IsOver : (js : List ScanJob) (n : ℕ) (s t : Threads) → IsOver js n s → Step s t → IsOver js n t
Step-IsOver js n s t v (call j free g) = Goes-IsOver js n s t j v (enqueue-Refuses s js n j v) g
Step-IsOver js n s t v (call_host h j free g) =
    Goes-IsOver js n s t j v (enqueue_host_job-Refuses s js n h v) g
Step-IsOver js n s t v (resume before after j free e g) =
    Goes-IsOver js n _ t j (forget_awake-IsOver js n s before after j e v)
      (resume_enqueue-Refuses _ js n j (forget_awake-IsOver js n s before after j e v)) g
Step-IsOver js n s t v (take w q r e g) = absurd (ground arith)
Step-IsOver js n s t v (commit r e f p) = absurd (ground arith)
Step-IsOver js n s t v (sleep r e) = absurd (ground arith)
Step-IsOver js n s t v (wake r e) = ground arith
Step-IsOver js n s t v (leave r e f p) = absurd (ground arith)
Step-IsOver js n s t v (finish w r e) = absurd (ground arith)
Step-IsOver js n s t v (stop f e) = unfold shutdown in ground arith

Reach-IsOver :
    (s : Threads) {t : Threads}
    → IsOver s.queue.jobs s.queue.metrics.total_processed s
    → Reach s t
    → IsOver s.queue.jobs s.queue.metrics.total_processed t
Reach-IsOver s v here = v
Reach-IsOver s v (next {t = u} {u = t} r st) = Step-IsOver _ _ u t (Reach-IsOver s v r) st

-- In the stranded state no job is ever processed again, whatever the threads do.
pub IsStranded-forever :
    {s t : Threads}
    → IsStranded s
    → Reach s t
    → (t.queue.jobs ≡ s.queue.jobs)
      × (t.queue.metrics.total_processed ≡ s.queue.metrics.total_processed)
IsStranded-forever {s} h r =
    let v = Reach-IsOver s (record { jobs_left = refl; no_more = refl; over = inl h }) r in
    (v.jobs_left, v.no_more)
