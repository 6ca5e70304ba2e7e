-- ===== src/Scheduler/Runs.antt =====
-- Every run of scanner-core/scheduler/scheduler.go keeps its timers and executions apart.
use bjorn2scan.Base.{
  ℕ, subst, sym, ◌≤◌, ◌≡◌, refl, String, Bool, true, false, List, [], ◌∷◌, Option, none, some,
  eq_iff, arith, holds, leb, ltb,
}
use bjorn2scan.Base.Maps.{get, put, get-put}
use bjorn2scan.Scheduler.Jobs.{
  ScheduledJob, Context, not_started, alive, cancelled, Scheduler, new, add_job, schedule_job,
  start, stop, execute, fire_due, fire_timer, fire_job, fire, finish_job, finish, run_manually,
  run_found, run_job_now, Event, adding, starting, stopping, firing, finishing, running_now, step,
  run,
}
use bjorn2scan.Scheduler.Timers.{
  count, active, IsIdle, IsSingle, count-remove_one, add_new-IsSingle, start_in-IsSingle,
  stop_in-IsSingle, fired, unfired,
}

abbrev unset : ScheduledJob → ScheduledJob
unset j = record j { timer = none }

execute-IsSingle :
    (name : String) (j : ScheduledJob) (t : ℕ) (c : Context) (s : Scheduler)
    → s.context ≡ c
    → get name s.jobs ≡ some j
    → j.timer ≡ some t
    → IsSingle s
    → IsSingle (execute name c (record s { jobs = put name (unset j) s.jobs }))
execute-IsSingle name j t not_started s e g f h =
    let (none_run, none_set) = subst (λ c. IsIdle c s.executing s.jobs) e h.idle in
    ground (arith, none_set name)
execute-IsSingle name j t alive s e g f h = record {
  single = λ n. fired name n j t s g f h;
  idle = subst (λ c. IsIdle c (name ∷ s.executing) (put name (unset j) s.jobs)) (sym e) tt;
}
execute-IsSingle name j t cancelled s e g f h = record {
  single = λ n. unfired name n j s h;
  idle = subst (λ c. IsIdle c s.executing (put name (unset j) s.jobs)) (sym e) tt;
}

fire_due-IsSingle :
    (name : String) (j : ScheduledJob) (t : ℕ) (b : Bool) (s : Scheduler)
    → get name s.jobs ≡ some j
    → j.timer ≡ some t
    → IsSingle s
    → IsSingle (fire_due name j b s)
fire_due-IsSingle name j t false s g f h = h
fire_due-IsSingle name j t true s g f h = execute-IsSingle name j t s.context s refl g f h

fire_timer-IsSingle :
    (name : String) (j : ScheduledJob) (now : ℕ) (o : Option ℕ) (s : Scheduler)
    → get name s.jobs ≡ some j
    → j.timer ≡ o
    → IsSingle s
    → IsSingle (fire_timer name j now o s)
fire_timer-IsSingle name j now none s g f h = h
fire_timer-IsSingle name j now (some t) s g f h = fire_due-IsSingle name j t (leb t now) s g f h

fire_job-IsSingle :
    (name : String) (now : ℕ) (o : Option ScheduledJob) (s : Scheduler)
    → get name s.jobs ≡ o
    → IsSingle s
    → IsSingle (fire_job name now o s)
fire_job-IsSingle name now none s g h = h
fire_job-IsSingle name now (some j) s g h = fire_timer-IsSingle name j now j.timer s g refl h

-- Where something is executed, the scheduler has been started.
IsIdle-started :
    (name : String) (c : Context) (ks ls : List String) (js ls' : List (String × ScheduledJob))
    → holds name ks ≡ true
    → IsIdle c ks js
    → IsIdle c ls ls'
IsIdle-started name not_started ks ls js ls' h (e, k) = ground (arith, e)
IsIdle-started name alive ks ls js ls' h i = tt
IsIdle-started name cancelled ks ls js ls' h i = tt

finish_job-IsSingle :
    (name : String) (now : ℕ) (o : Option ScheduledJob) (b : Bool) (s : Scheduler)
    → holds name s.executing ≡ b
    → IsSingle s
    → IsSingle (finish_job name now o b s)
finish_job-IsSingle name now none true s e h = h
finish_job-IsSingle name now none false s e h = h
finish_job-IsSingle name now (some j) false s e h = h
finish_job-IsSingle name now (some j) true s e h = record {
  single = λ n. ground (
    arith,
    h.single n,
    eq_iff name n,
    count-remove_one n name s.executing e,
    get-put name n (schedule_job now (record j { next_run = j.schedule now })) s.jobs,
  );
  idle = IsIdle-started name s.context s.executing _ s.jobs _ e h.idle;
}

run_manually-IsSingle :
    (name : String) (b : Bool) (c : Context) (s : Scheduler)
    → IsSingle s
    → IsSingle (run_manually name b c s)
run_manually-IsSingle name true not_started s h = record { single = h.single; idle = h.idle }
run_manually-IsSingle name true alive s h = record { single = h.single; idle = h.idle }
run_manually-IsSingle name true cancelled s h = record { single = h.single; idle = h.idle }
run_manually-IsSingle name false c s h = record { single = h.single; idle = h.idle }

run_found-IsSingle :
    (name : String) (o : Option ScheduledJob) (s : Scheduler)
    → IsSingle s
    → IsSingle (run_found name o s).1
run_found-IsSingle name none s h = h
run_found-IsSingle name (some j) s h =
    run_manually-IsSingle name (ltb 0 j.config.timeout) s.context s h

step-IsSingle : (e : Event) (s : Scheduler) → IsSingle s → IsSingle (step e s)
unfolding step add_job start stop fire finish run_job_now
step-IsSingle (adding name f c now) s h = add_new-IsSingle name f c now (get name s.jobs) s h
step-IsSingle (starting now) s h = start_in-IsSingle now s.context s refl h
step-IsSingle stopping s h = stop_in-IsSingle s.context s h
step-IsSingle (firing name now) s h = fire_job-IsSingle name now (get name s.jobs) s refl h
step-IsSingle (finishing name now) s h =
    finish_job-IsSingle name now (get name s.jobs) (holds name s.executing) s refl h
step-IsSingle (running_now name) s h = run_found-IsSingle name (get name s.jobs) s h

run-IsSingle : (es : List Event) (s : Scheduler) → IsSingle s → IsSingle (run es s)
unfolding run
run-IsSingle [] s h = h
run-IsSingle (e ∷ es) s h = run-IsSingle es (step e s) (step-IsSingle e s h)

new-IsSingle : IsSingle new
unfolding new count
new-IsSingle = record { single = λ n. ground arith; idle = (refl, λ n. refl) }

-- After any calls, timers that fire and executions that end, a job has at most one of: a timer that is
-- set, and an execution that a timer has started and that has not ended; so no timer starts a job that
-- a timer's execution is still running.
pub run-new-single : (es : List Event) (n : String) → active n (run es new) ≤ 1
run-new-single es n = (run-IsSingle es new new-IsSingle).single n
