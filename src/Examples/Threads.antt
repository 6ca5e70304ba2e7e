-- ===== src/Examples/Threads.antt =====
-- The threads around the scan queue on small inputs.
use bjorn2scan.Base.{◌≡◌, arith, true, refl, [], ◌∷◌}
use bjorn2scan.Scanning.Queue.{drop, QueueConfig, enqueue}
use bjorn2scan.Scanning.Threads.{Threads, launch, Reach, here, next, call, leaves, waits, asleep}
use bjorn2scan.Scanning.Threads.Alert.{IsAlert, Reach-IsAlert}
use bjorn2scan.Scanning.Threads.Stuck.{IsHung, shutdown_can_hang, IsHung-forever}
use bjorn2scan.Scanning.Threads.Stranded.{
  blocking, IsStranded, block_can_strand, IsStranded-forever,
}
use bjorn2scan.Examples.Queue.{nginx, redis, one_host}

abbrev dropping : QueueConfig
dropping = record { max_depth = 1; full_behavior = drop }

Reach-IsAlert_example : IsAlert (launch dropping)
Reach-IsAlert_example = Reach-IsAlert dropping (λ e. cc) here

shutdown_can_hang_example : (t : Threads) × Reach (launch dropping) t × IsHung t
shutdown_can_hang_example = shutdown_can_hang dropping

abbrev hung : Threads
hung = record {
  queue = record one_host { stopped = true };
  worker = asleep;
  sleepers = [];
  awake = [];
}

-- A later call of `Enqueue`.
hung_call : Reach hung hung
unfolding enqueue
hung_call = next here (call nginx refl (leaves _ refl))

IsHung-forever_example : IsHung hung
IsHung-forever_example =
    IsHung-forever (record { stopped = refl; sleeping = refl; no_awake = refl }) hung_call

block_can_strand_example : (t : Threads) × Reach (launch blocking) t × IsStranded t
block_can_strand_example = block_can_strand nginx redis nginx redis

abbrev stranded : Threads
stranded = record hung {
  queue = record one_host { jobs = nginx ∷ []; host_jobs = []; config = blocking };
  sleepers = redis ∷ [];
}

abbrev stranded_more : Threads
stranded_more = record stranded { sleepers = redis ∷ nginx ∷ [] }

-- One more producer comes and waits.
stranded_call : Reach stranded stranded_more
unfolding enqueue
stranded_call = next here (call nginx refl (waits refl))

stranded-IsStranded : IsStranded stranded
stranded-IsStranded = record {
  alive = refl;
  full = omega arith;
  limited = omega arith;
  blocks = refl;
  sleeping = refl;
  no_awake = refl;
}

IsStranded-forever_example :
    (stranded_more.queue.jobs ≡ nginx ∷ []) × (stranded_more.queue.metrics.total_processed ≡ 0)
IsStranded-forever_example = IsStranded-forever stranded-IsStranded stranded_call
