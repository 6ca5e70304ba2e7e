-- ===== src/Scanning/Steps.antt =====
-- The queue as the producers and the worker move it, one locked section a step:
-- scanner-core/scanning/queue.go.
use bjorn2scan.Base.{List, [], ◌∷◌, Option, none, some}
use bjorn2scan.Scanning.Queue.{
  ScanJob, HostScanJob, QueueConfig, JobQueue, Enqueued, added, refused, waiting, new_job_queue,
  enqueue, resume_enqueue,
}
use bjorn2scan.Scanning.Host.{Work, take_work, count_processed, enqueue_host_job, shutdown}

-- The queue, the job that the worker has in hand, and the jobs whose `Enqueue` waits.
pub record System : Type 0 where
  pub queue : JobQueue
  pub in_hand : Option Work
  pub producers : List ScanJob

unfoldable pub start : QueueConfig → System
unfolding new_job_queue
start c = record { queue = new_job_queue c; in_hand = none; producers = [] }

pub data Event : Type 0 where
  offer : ScanJob → Event
  offer_host : HostScanJob → Event
  wake_producer take finish stop : Event

-- What a call's outcome does to the system: a waiting call joins the producers.
unfoldable pub settle : System → ScanJob → Enqueued → System
settle s j (added q) = record s { queue = q }
settle s j (refused q) = record s { queue = q }
settle s j waiting = record s { producers = j ∷ s.producers }

unfoldable pub settle_host : System → Enqueued → System
settle_host s (added q) = record s { queue = q }
settle_host s (refused q) = record s { queue = q }
settle_host s waiting = s

-- The worker's turn; it takes no job while it has one in hand.
unfoldable pub take_turn : System → Option Work → Option (Work × JobQueue) → System
take_turn s none (some (w, q)) = record s { queue = q; in_hand = some w }
take_turn s _ _ = s

unfoldable pub finish_turn : System → Option Work → System
finish_turn s (some w) = record s { queue = count_processed s.queue; in_hand = none }
finish_turn s none = s

unfoldable pub wake_turn : System → List ScanJob → System
wake_turn s [] = s
wake_turn s (j ∷ js) = settle (record s { producers = js }) j (resume_enqueue s.queue j)

unfoldable pub step : System → Event → System
step s (offer j) = settle s j (enqueue s.queue j)
step s (offer_host h) = settle_host s (enqueue_host_job s.queue h)
step s wake_producer = wake_turn s s.producers
step s take = take_turn s s.in_hand (take_work s.queue)
step s finish = finish_turn s s.in_hand
step s stop = record s { queue = shutdown s.queue }

unfoldable pub run : System → List Event → System
run s [] = s
run s (e ∷ es) = run (step s e) es
