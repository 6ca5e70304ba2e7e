-- ===== src/Scheduler/Jobs.antt =====
-- The scheduler of scanner-core/scheduler/scheduler.go and job.go: its jobs, their timers and the
-- executions that run, by the events that change them. Times are natural numbers; a schedule is the
-- function `Next`, jitter included. What a job does, the wait of Stop and log lines are left out.
use Prim.Native.String.{◌++◌ as str_append}
use bjorn2scan.Base.{
  ℕ, ◌+◌, String, Bool, true, false, List, [], ◌∷◌, map, Option, none, some, Result, ok, err,
  str_eq, if◌then◌else◌, ltb, leb, holds,
}
use bjorn2scan.Base.Maps.{get, put}

pub record JobConfig : Type 0 where
  pub enabled : Bool
  -- 0 where there is no time-out.
  pub timeout : ℕ
  pub run_immediately : Bool

-- `IntervalSchedule.Next`: `draw n` is what the random number generator gives below `n`.
abbrev pub next : ℕ → ℕ → (ℕ → ℕ) → ℕ → ℕ
next interval jitter draw after =
    if ltb 0 jitter then after + interval + draw jitter else after + interval

pub record ScheduledJob : Type 0 where
  pub schedule : ℕ → ℕ
  pub config : JobConfig
  pub next_run : ℕ
  -- When the timer fires; `none` where it is not set, has fired or was stopped.
  pub timer : Option ℕ

-- The context: nil, alive or cancelled.
pub data Context : Type 0 where
  not_started alive cancelled : Context

pub record Scheduler : Type 0 where
  pub jobs : List (String × ScheduledJob)
  pub context : Context
  -- The executions that timers have started and that have not ended.
  pub executing : List String
  -- The names of all executions that timers have started.
  pub history : List String
  -- Those of the executions that RunJobNow has started.
  pub manual : List String
  -- A goroutine has panicked: the process is gone.
  pub panicked : Bool

unfoldable pub new : Scheduler
new = record {
  jobs = [];
  context = not_started;
  executing = [];
  history = [];
  manual = [];
  panicked = false;
}

abbrev pub scheduled : (ℕ → ℕ) → JobConfig → ℕ → ScheduledJob
scheduled schedule config now = record {
  schedule = schedule;
  config = config;
  next_run = if config.run_immediately then now else schedule now;
  timer = none;
}

-- A disabled job is skipped.
abbrev pub register : String → ScheduledJob → Bool → Scheduler → Scheduler
register name j true s = record s { jobs = put name j s.jobs }
register name j false s = s

abbrev pub add_new :
    String
    → (ℕ → ℕ)
    → JobConfig
    → ℕ
    → Option ScheduledJob
    → Scheduler
    → Result (Unit {0}) × Scheduler
add_new name schedule config now (some j) s =
    (err (str_append "job " (str_append name " already registered")), s)
add_new name schedule config now none s =
    (ok tt, register name (scheduled schedule config now) config.enabled s)

unfoldable pub add_job :
    String → (ℕ → ℕ) → JobConfig → ℕ → Scheduler → Result (Unit {0}) × Scheduler
add_job name schedule config now s = add_new name schedule config now (get name s.jobs) s

-- `scheduleJob`: a time that has passed fires at once.
abbrev pub schedule_job : ℕ → ScheduledJob → ScheduledJob
schedule_job now j = record j { timer = some (if ltb j.next_run now then now else j.next_run) }

unfoldable pub schedule_all : ℕ → List (String × ScheduledJob) → List (String × ScheduledJob)
schedule_all now [] = []
schedule_all now ((k, j) ∷ js) = (k, schedule_job now j) ∷ schedule_all now js

abbrev pub start_in : ℕ → Context → Scheduler → Result (Unit {0}) × Scheduler
start_in now not_started s = (ok tt, record s { context = alive; jobs = schedule_all now s.jobs })
start_in now _ s = (err "scheduler already started", s)

unfoldable pub start : ℕ → Scheduler → Result (Unit {0}) × Scheduler
unfolding schedule_all
start now s = start_in now s.context s

unfoldable pub stop_all : List (String × ScheduledJob) → List (String × ScheduledJob)
stop_all [] = []
stop_all ((k, j) ∷ js) = (k, record j { timer = none }) ∷ stop_all js

abbrev pub stop_in : Context → Scheduler → Result (Unit {0}) × Scheduler
stop_in not_started s = (err "scheduler not started", s)
stop_in _ s = (ok tt, record s { context = cancelled; jobs = stop_all s.jobs })

unfoldable pub stop : Scheduler → Result (Unit {0}) × Scheduler
unfolding stop_all
stop s = stop_in s.context s

-- The head of `executeJob`: nothing happens once the context is cancelled.
abbrev pub execute : String → Context → Scheduler → Scheduler
execute name cancelled s = s
execute name _ s = record s { executing = name ∷ s.executing; history = name ∷ s.history }

-- A timer that is due fires.
abbrev pub fire_due : String → ScheduledJob → Bool → Scheduler → Scheduler
fire_due name j false s = s
fire_due name j true s =
    execute name s.context (record s { jobs = put name (record j { timer = none }) s.jobs })

abbrev pub fire_timer : String → ScheduledJob → ℕ → Option ℕ → Scheduler → Scheduler
fire_timer name j now none s = s
fire_timer name j now (some t) s = fire_due name j (leb t now) s

abbrev pub fire_job : String → ℕ → Option ScheduledJob → Scheduler → Scheduler
fire_job name now none s = s
fire_job name now (some j) s = fire_timer name j now j.timer s

unfoldable pub fire : String → ℕ → Scheduler → Scheduler
fire name now s = fire_job name now (get name s.jobs) s

unfoldable pub remove_one : String → List String → List String
remove_one name [] = []
remove_one name (k ∷ ks) = let rest = remove_one name ks in if str_eq k name then ks else k ∷ rest

-- The end of `executeJob`: the next run is scheduled, also behind Stop.
abbrev pub finish_job : String → ℕ → Option ScheduledJob → Bool → Scheduler → Scheduler
finish_job name now (some j) true s = record s {
  executing = remove_one name s.executing;
  jobs = put name (schedule_job now (record j { next_run = j.schedule now })) s.jobs;
}
finish_job name now _ _ s = s

unfoldable pub finish : String → ℕ → Scheduler → Scheduler
unfolding remove_one
finish name now s = finish_job name now (get name s.jobs) (holds name s.executing) s

-- The goroutine of RunJobNow: a time-out of the nil context panics.
abbrev pub run_manually : String → Bool → Context → Scheduler → Scheduler
run_manually name true not_started s = record s { panicked = true }
run_manually name _ _ s = record s { manual = name ∷ s.manual }

abbrev pub run_found : String → Option ScheduledJob → Scheduler → Result (Unit {0}) × Scheduler
run_found name none s = (err (str_append "job " (str_append name " not found")), s)
run_found name (some j) s = (ok tt, run_manually name (ltb 0 j.config.timeout) s.context s)

unfoldable pub run_job_now : String → Scheduler → Result (Unit {0}) × Scheduler
run_job_now name s = run_found name (get name s.jobs) s

abbrev pub get_jobs : Scheduler → List String
get_jobs s = map (λ e. e.0) s.jobs

abbrev pub next_of : String → Option ScheduledJob → Result ℕ
next_of name none = err (str_append "job " (str_append name " not found"))
next_of name (some j) = ok j.next_run

abbrev pub get_next_run : String → Scheduler → Result ℕ
get_next_run name s = next_of name (get name s.jobs)

-- A call of the scheduler, a timer that fires, or an execution that ends; at a time.
pub data Event : Type 0 where
  adding : String → (ℕ → ℕ) → JobConfig → ℕ → Event
  starting : ℕ → Event
  stopping : Event
  firing : String → ℕ → Event
  finishing : String → ℕ → Event
  running_now : String → Event

unfoldable pub step : Event → Scheduler → Scheduler
unfolding add_job start stop fire finish run_job_now
step (adding name schedule config now) s = (add_job name schedule config now s).1
step (starting now) s = (start now s).1
step stopping s = (stop s).1
step (firing name now) s = fire name now s
step (finishing name now) s = finish name now s
step (running_now name) s = (run_job_now name s).1

unfoldable pub run : List Event → Scheduler → Scheduler
unfolding step
run [] s = s
run (e ∷ es) s = run es (step e s)
