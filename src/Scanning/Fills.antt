-- ===== src/Scanning/Fills.antt =====
-- What the queues of scanner-core/scanning/queue.go can hold at once.
use bjorn2scan.Base.{
  ◌+◌, ◌≤◌, ◌<◌, ◌≡◌, refl, String, sym, ap, false, List, [], ◌∷◌, ◌++◌, map, arith, length,
  length-append, append_assoc, append-nil, subst, str_eq, eq_iff,
}
use bjorn2scan.Scanning.Queue.{
  ScanJob, HostScanJob, QueueConfig, JobQueue, added, enqueue, append_job, get_queue_depth,
  update_metrics,
}
use bjorn2scan.Scanning.Host.{queued_node, enqueue_host_job, append_host_job}
use bjorn2scan.Scanning.Steps.{
  System, Event, offer, offer_host, start, step, settle, settle_host, run,
}
use bjorn2scan.Scanning.Bounds.{Distinct}

run-append : (s : System) (xs ys : List Event) → run s (xs ++ ys) ≡ run (run s xs) ys
unfolding run
run-append s [] ys = refl
run-append s (x ∷ xs) ys = run-append (step s x) xs ys

-- The queue is open, has a configuration, and holds these jobs.
pub record Holds (c : QueueConfig) (js : List ScanJob) (hs : List HostScanJob) (q : JobQueue)
    : Type 0 where
  pub is_open : q.stopped ≡ false
  pub has_config : q.config ≡ c
  pub holds_jobs : q.jobs ≡ js
  pub holds_hosts : q.host_jobs ≡ hs

enqueue-room :
    (c : QueueConfig) (js : List ScanJob) (hs : List HostScanJob) (q : JobQueue) (j : ScanJob)
    → Holds c js hs q
    → (0 < c.max_depth → length js < c.max_depth)
    → enqueue q j ≡ added (append_job q j)
unfolding enqueue
enqueue-room c js hs q j h room =
    ground (arith, h.is_open, ap (λ k. k.max_depth) h.has_config, ap length h.holds_jobs, room)

enqueue-Holds :
    (c : QueueConfig) (js : List ScanJob) (hs : List HostScanJob) (s : System) (j : ScanJob)
    → Holds c js hs s.queue
    → (0 < c.max_depth → length js < c.max_depth)
    → Holds c (js ++ j ∷ []) hs (step s (offer j)).queue
unfolding step settle append_job update_metrics
enqueue-Holds c js hs s j h room =
    subst (λ r. Holds c (js ++ j ∷ []) hs (settle s j r).queue)
      (sym (enqueue-room c js hs s.queue j h room))
      (record {
        is_open = h.is_open;
        has_config = h.has_config;
        holds_jobs = ap (λ l. l ++ j ∷ []) h.holds_jobs;
        holds_hosts = h.holds_hosts;
      })

run-offers :
    (c : QueueConfig) (js : List ScanJob) (hs : List HostScanJob) (s : System) (more : List ScanJob)
    → Holds c js hs s.queue
    → (0 < c.max_depth → length js + length more ≤ c.max_depth)
    → Holds c (js ++ more) hs (run s (map offer more)).queue
unfolding run
run-offers c js hs s [] h room = subst (λ l. Holds c l hs s.queue) (sym (append-nil js)) h
run-offers c js hs s (j ∷ more) h room =
    subst (λ l. Holds c l hs (run (step s (offer j)) (map offer more)).queue)
      (append_assoc js (j ∷ []) more)
      (run-offers c (js ++ j ∷ []) hs (step s (offer j)) more
        (enqueue-Holds c js hs s j h (λ p. omega (arith, room p)))
        (λ p. omega (arith, room p, length-append js (j ∷ []))))

enqueue_host-room :
    (c : QueueConfig) (hs : List HostScanJob) (q : JobQueue) (x : HostScanJob)
    → Holds c [] hs q
    → queued_node x.node_name hs ≡ false
    → (0 < c.max_depth → length hs < c.max_depth)
    → enqueue_host_job q x ≡ added (append_host_job q x)
unfolding enqueue_host_job get_queue_depth
enqueue_host-room c hs q x h fresh room = ground (
  arith,
  h.is_open,
  ap (λ k. k.max_depth) h.has_config,
  ap length h.holds_jobs,
  ap length h.holds_hosts,
  ap (queued_node x.node_name) h.holds_hosts,
  room,
)

enqueue_host-Holds :
    (c : QueueConfig) (hs : List HostScanJob) (s : System) (x : HostScanJob)
    → Holds c [] hs s.queue
    → queued_node x.node_name hs ≡ false
    → (0 < c.max_depth → length hs < c.max_depth)
    → Holds c [] (hs ++ x ∷ []) (step s (offer_host x)).queue
unfolding step settle_host append_host_job update_metrics
enqueue_host-Holds c hs s x h fresh room =
    subst (λ r. Holds c [] (hs ++ x ∷ []) (settle_host s r).queue)
      (sym (enqueue_host-room c hs s.queue x h fresh room))
      (record {
        is_open = h.is_open;
        has_config = h.has_config;
        holds_jobs = h.holds_jobs;
        holds_hosts = ap (λ l. l ++ x ∷ []) h.holds_hosts;
      })

queued_node_middle :
    (name : String) (hs : List HostScanJob) (x : HostScanJob) (more : List HostScanJob)
    → queued_node name (hs ++ x ∷ more) ≡ false
    → str_eq x.node_name name ≡ false
unfolding queued_node
queued_node_middle name [] x more h = ground arith
queued_node_middle name (y ∷ hs) x more h = ground (arith, queued_node_middle name hs x more)

Distinct-fresh :
    (hs : List HostScanJob) (x : HostScanJob) (more : List HostScanJob)
    → Distinct (hs ++ x ∷ more)
    → queued_node x.node_name hs ≡ false
unfolding queued_node
Distinct-fresh [] x more d = refl
Distinct-fresh (y ∷ hs) x more d = ground (
  arith,
  Distinct-fresh hs x more d.1,
  queued_node_middle y.node_name hs x more,
  eq_iff x.node_name y.node_name,
  eq_iff y.node_name x.node_name,
)

run-offer_hosts :
    (c : QueueConfig) (hs : List HostScanJob) (s : System) (more : List HostScanJob)
    → Holds c [] hs s.queue
    → Distinct (hs ++ more)
    → (0 < c.max_depth → length hs + length more ≤ c.max_depth)
    → Holds c [] (hs ++ more) (run s (map offer_host more)).queue
unfolding run
run-offer_hosts c hs s [] h d room = subst (λ l. Holds c [] l s.queue) (sym (append-nil hs)) h
run-offer_hosts c hs s (x ∷ more) h d room =
    subst (λ l. Holds c [] l (run (step s (offer_host x)) (map offer_host more)).queue)
      (append_assoc hs (x ∷ []) more)
      (run-offer_hosts c (hs ++ x ∷ []) (step s (offer_host x)) more
        (enqueue_host-Holds c hs s x h (Distinct-fresh hs x more d) (λ p. omega (arith, room p)))
        (subst Distinct (sym (append_assoc hs (x ∷ []) more)) d)
        (λ p. omega (arith, room p, length-append hs (x ∷ []))))

start-Holds : (c : QueueConfig) → Holds c [] [] (start c).queue
unfolding start
start-Holds c = record { is_open = refl; has_config = refl; holds_jobs = refl; holds_hosts = refl }

-- A new queue takes any host jobs, no two for one node, and then any image jobs, where neither are
-- more than a depth limit: none is dropped or refused, and all wait in their order, so that with a
-- limit the depth of the queue can be twice the limit.
pub run-start-fills :
    (c : QueueConfig) (hs : List HostScanJob) (js : List ScanJob)
    → Distinct hs
    → (0 < c.max_depth → length hs ≤ c.max_depth)
    → (0 < c.max_depth → length js ≤ c.max_depth)
    → ((run (start c) (map offer_host hs ++ map offer js)).queue.jobs ≡ js)
      × ((run (start c) (map offer_host hs ++ map offer js)).queue.host_jobs ≡ hs)
      × (get_queue_depth (run (start c) (map offer_host hs ++ map offer js)).queue
          ≡ length js + length hs)
unfolding get_queue_depth
run-start-fills c hs js d few few' =
    let s = run (start c) (map offer_host hs) in
    let h = run-offer_hosts c [] (start c) hs (start-Holds c) d (λ p. omega (arith, few p)) in
    let r =
      subst (λ t. Holds c js hs t.queue)
        (sym (run-append (start c) (map offer_host hs) (map offer js)))
        (run-offers c [] hs s js h (λ p. omega (arith, few' p))) in
    (r.holds_jobs, r.holds_hosts, ground (arith, ap length r.holds_jobs, ap length r.holds_hosts))
