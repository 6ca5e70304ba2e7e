-- ===== src/Examples/Scheduler.antt =====
-- The scheduler on small inputs.
use bjorn2scan.Base.{ℕ, ◌≡◌, ◌≤◌, refl, true, List, [], ◌∷◌, ok}
use bjorn2scan.Scheduler.Jobs.{
  JobConfig, Event, adding, starting, stopping, firing, finishing, new, run, get_next_run, next,
  step, add_job, start, stop, fire, finish, schedule_all, stop_all, remove_one,
}
use bjorn2scan.Scheduler.Timers.{active}
use bjorn2scan.Scheduler.Runs.{run-new-single}

abbrev hourly : ℕ → ℕ
hourly = next 60 0 (λ n. 0)

abbrev at_once : JobConfig
at_once = record { enabled = true; timeout = 30; run_immediately = true }

-- The job runs at 5 and ends at 7; Stop comes while the next run is executed.
abbrev day : List Event
day =
    adding "cleanup" hourly at_once 5
    ∷ starting 5
    ∷ firing "cleanup" 5
    ∷ finishing "cleanup" 7
    ∷ firing "cleanup" 66
    ∷ firing "cleanup" 67
    ∷ stopping
    ∷ finishing "cleanup" 70
    ∷ firing "cleanup" 200
    ∷ []

day_runs :
    ((run day new).history ≡ "cleanup" ∷ "cleanup" ∷ [])
    × (get_next_run "cleanup" (run day new) ≡ ok 130)
unfolding run new step add_job start stop fire finish schedule_all stop_all remove_one
day_runs = (refl, refl)

run-new-single_example : active "cleanup" (run day new) ≤ 1
run-new-single_example = run-new-single day "cleanup"
