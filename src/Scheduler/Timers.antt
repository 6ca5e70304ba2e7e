-- ===== src/Scheduler/Timers.antt =====
-- The timers and the executions of scanner-core/scheduler/scheduler.go: a job is not started again
-- before its execution has ended.
use bjorn2scan.Base.{
  ℕ, subst, ◌+◌, ◌≤◌, ◌≡◌, refl, String, Bool, true, false, List, [], ◌∷◌, Option, none, some,
  str_eq, eq_iff, arith, if◌then◌else◌, holds,
}
use bjorn2scan.Base.Maps.{get, put, get-put}
use bjorn2scan.Scheduler.Jobs.{
  JobConfig, ScheduledJob, Context, not_started, alive, cancelled, Scheduler, scheduled, register,
  add_new, schedule_all, start_in, stop_all, stop_in, remove_one,
}

unfoldable pub count : String → List String → ℕ
count n [] = 0
count n (k ∷ ks) = let rest = count n ks in if str_eq k n then rest + 1 else rest

-- Whether the timer of a job is set: 0 or 1.
abbrev pub timers : Option ScheduledJob → ℕ
timers none = 0
timers (some j) = elim j.timer [ none ↦ 0 | some t ↦ 1 ]

abbrev pub active : String → Scheduler → ℕ
active n s = count n s.executing + timers (get n s.jobs)

-- Before Start nothing is executed and no timer is set.
abbrev pub IsIdle : Context → List String → List (String × ScheduledJob) → Type 0
IsIdle not_started ks js = (ks ≡ []) × ((n : String) → timers (get n js) ≡ 0)
IsIdle alive ks js = Unit {0}
IsIdle cancelled ks js = Unit {0}

pub record IsSingle (s : Scheduler) : Type 0 where
  pub single : (n : String) → active n s ≤ 1
  pub idle : IsIdle s.context s.executing s.jobs

timers-schedule_all :
    (n : String) (now : ℕ) (js : List (String × ScheduledJob))
    → timers (get n (schedule_all now js)) ≤ 1
unfolding schedule_all
timers-schedule_all n now [] = ground arith
timers-schedule_all n now ((k, j) ∷ js) = ground (arith, timers-schedule_all n now js)

timers-stop_all :
    (n : String) (js : List (String × ScheduledJob)) → timers (get n (stop_all js)) ≡ 0
unfolding stop_all
timers-stop_all n [] = ground arith
timers-stop_all n ((k, j) ∷ js) = ground (arith, timers-stop_all n js)

pub count-remove_one :
    (n k : String) (ks : List String)
    → holds k ks ≡ true
    → count n ks ≡ count n (remove_one k ks) + (if str_eq k n then 1 else 0)
unfolding count remove_one
count-remove_one n k [] h = ground (arith, h)
count-remove_one n k (x ∷ ks) h =
    ground (arith, eq_iff x k, eq_iff k n, eq_iff x n, count-remove_one n k ks)

timers-le : (o : Option ScheduledJob) → timers o ≤ 1
timers-le none = ground arith
timers-le (some j) = ground arith

IsIdle-put :
    (name : String) (j : ScheduledJob) (c : Context) (ks : List String)
    (js : List (String × ScheduledJob))
    → j.timer ≡ none
    → IsIdle c ks js
    → IsIdle c ks (put name j js)
IsIdle-put name j not_started ks js e (h, k) =
    (h, λ n. ground (arith, k n, eq_iff name n, get-put name n j js))
IsIdle-put name j alive ks js e h = tt
IsIdle-put name j cancelled ks js e h = tt

-- A job whose timer is not set.
register-IsSingle :
    (name : String) (j : ScheduledJob) (b : Bool) (s : Scheduler)
    → j.timer ≡ none
    → IsSingle s
    → IsSingle (register name j b s)
register-IsSingle name j true s e h = record {
  single = λ n. ground (arith, h.single n, eq_iff name n, get-put name n j s.jobs);
  idle = IsIdle-put name j s.context s.executing s.jobs e h.idle;
}
register-IsSingle name j false s e h = h

pub add_new-IsSingle :
    (name : String) (f : ℕ → ℕ) (c : JobConfig) (now : ℕ) (o : Option ScheduledJob) (s : Scheduler)
    → IsSingle s
    → IsSingle (add_new name f c now o s).1
add_new-IsSingle name f c now (some j) s h = h
add_new-IsSingle name f c now none s h =
    register-IsSingle name (scheduled f c now) c.enabled s refl h

pub start_in-IsSingle :
    (now : ℕ) (c : Context) (s : Scheduler)
    → s.context ≡ c
    → IsSingle s
    → IsSingle (start_in now c s).1
unfolding count
start_in-IsSingle now not_started s e h = record {
  single = λ n. ground (
    arith,
    (subst (λ c. IsIdle c s.executing s.jobs) e h.idle).0,
    timers-schedule_all n now s.jobs,
  );
  idle = tt;
}
start_in-IsSingle now alive s e h = h
start_in-IsSingle now cancelled s e h = h

pub stop_in-IsSingle : (c : Context) (s : Scheduler) → IsSingle s → IsSingle (stop_in c s).1
stop_in-IsSingle not_started s h = h
stop_in-IsSingle alive s h = record {
  single = λ n. ground (arith, h.single n, timers-stop_all n s.jobs);
  idle = tt;
}
stop_in-IsSingle cancelled s h = record {
  single = λ n. ground (arith, h.single n, timers-stop_all n s.jobs);
  idle = tt;
}

-- The job whose timer fires: the timer is set, so it is not executed.
pub fired :
    (name n : String) (j : ScheduledJob) (t : ℕ) (s : Scheduler)
    → get name s.jobs ≡ some j
    → j.timer ≡ some t
    → IsSingle s
    → count n (name ∷ s.executing) + timers (get n (put name (record j { timer = none }) s.jobs))
      ≤ 1
unfolding count
fired name n j t s g e h = ground (
  arith,
  h.single n,
  h.single name,
  eq_iff name n,
  get-put name n (record j { timer = none }) s.jobs,
)

pub unfired :
    (name n : String) (j : ScheduledJob) (s : Scheduler)
    → IsSingle s
    → count n s.executing + timers (get n (put name (record j { timer = none }) s.jobs)) ≤ 1
unfired name n j s h =
    ground (arith, h.single n, eq_iff name n, get-put name n (record j { timer = none }) s.jobs)
