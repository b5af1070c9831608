-- ===== src/Examples/Workers.antt =====
-- The theorems on the worker pool and the scheduler, applied.
use forge_queue.Prelude.{
  ℕ, ◌+◌, Option, none, some, true, List, [], ◌∷◌, ◌≡◌, refl, pos, arith, if◌then◌else◌,
}
use forge_queue.Tables.{Job, Db, ScheduleRow, dead, failed}
use forge_queue.Tables.Rows.{find_job, find}
use forge_queue.Tx.{Env}
use forge_queue.Queue.Enqueue.{enqueue}
use forge_queue.Queue.Settle.{acked}
use forge_queue.Queue.History.{Call, dequeues, acks, run}
use forge_queue.Queue.WellFormed.Step.{empty_db, run-IsWellFormed}
use forge_queue.Worker.{Pool, Registry, Report, poll, job_succeeded, job_failed, handle, execute}
use forge_queue.Worker.Progress.{worker_completes}
use forge_queue.Worker.Failures.{is_spent, worker_fails}
use forge_queue.Queue.Nacks.{IsNacked}
use forge_queue.Scheduler.{Cron, Schedule, to_schedule, fire}
use forge_queue.Scheduler.{due_rows}
use forge_queue.Scheduler.Store.{set_enabled, delete, paused_not_due}
use forge_queue.Prelude.{any_of, ◌==◌, false}
use forge_queue.Queue.Holders.{holders}
use forge_queue.Scheduler.Once.{occurrence_once, fire_advances}
use forge_queue.Examples.{at_time, waiting_job, leased_job, lease, tenants}
use forge_queue.Examples.Calls.{waiting_db, waiting_db-IsWellFormed}

abbrev pool : Pool
pool = record {
  queues = "default" ∷ [];
  concurrency = pos 1;
  worker_id = "w1";
  lease = lease;
  job_timeout = pos 30000000000;
  poll_interval = pos 100000000;
  shutdown_grace = pos 20000000000;
}

-- The echo handler alone, under any name.
abbrev echo : Registry
echo name = some (λ job. none)

abbrev others : List (Env × Call)
others = (at_time 300, dequeues [] (pos 5) "w2" lease) ∷ (at_time 400, acks 100 "w2") ∷ []

worker_completes_example :
    ((execute
        (at_time 500)
        (λ n. pos 0)
        pool
        echo
        (λ s. s)
        leased_job
        (run (poll (at_time 200) pool waiting_db).1 others)).0
      ≡ some (job_succeeded (acked 500 leased_job)))
    × (find_job 100
          (execute
            (at_time 500)
            (λ n. pos 0)
            pool
            echo
            (λ s. s)
            leased_job
            (run (poll (at_time 200) pool waiting_db).1 others)).1.jobs
        ≡ some (acked 500 leased_job))
unfolding poll handle
worker_completes_example =
    worker_completes (at_time 200) (at_time 500) (λ n. pos 0) pool echo (λ s. s) waiting_db
      leased_job others waiting_db-IsWellFormed refl refl
      (omega arith, tt, (omega arith, (refl, refl), tt))
      (record { begin = refl; statement = λ k. refl; commit = refl })

-- Every 60 seconds.
abbrev each_minute : Cron
each_minute = record { next = λ expr t. some (t + 60000000); rfc3339 = λ t. "time" }

abbrev report_row : ScheduleRow
report_row = record {
  id = 7;
  tenant_id = 1;
  name = some "report";
  cron_expr = "@every 1m";
  payload = none;
  queue = none;
  handler = "echo";
  enabled = true;
  last_run_at = none;
  next_run_at = some 60000000;
}

abbrev report : Schedule
report = to_schedule report_row 60000000

abbrev scheduled_db : Db
scheduled_db = record empty_db { tenants = tenants; schedules = report_row ∷ [] }

abbrev report_job : Job
report_job = record waiting_job {
  id = 60000500;
  max_attempts = 5;
  run_at = 60000500;
  idempotency_key = some "schedule:tenant:time";
  created_at = 60000500;
  updated_at = 60000500;
}

abbrev fired_db : Db
fired_db = run (fire each_minute (at_time 60000500) report scheduled_db).1 others

occurrence_once_example :
    ((fire each_minute (at_time 60000900) report fired_db).1.jobs ≡ fired_db.jobs)
    × (holders 1 "schedule:tenant:time" (fire each_minute (at_time 60000900) report fired_db).1.jobs
        ≡ 1)
unfolding enqueue run
occurrence_once_example =
    occurrence_once each_minute (at_time 60000500) (at_time 60000900) report 120000000 others
      scheduled_db report_job true
      (record {
        jobs_keyed = tt;
        runs_keyed = tt;
        shaped = tt;
        keys_unique = tt;
        runs_match = (run-IsWellFormed []).runs_match;
        letters_match = (run-IsWellFormed []).letters_match;
      })
      refl refl refl

fire_advances_example :
    (next : ℕ) × (some 120000000 ≡ some next)
    × (find (λ r. r.id) 7 (fire each_minute (at_time 60000500) report scheduled_db).1.schedules
        ≡ some (record report_row { last_run_at = some 60000000; next_run_at = some next }))
unfolding fire find
fire_advances_example =
    fire_advances each_minute (at_time 60000500) report report_row scheduled_db
      (fire each_minute (at_time 60000500) report scheduled_db).1 refl refl

paused_not_due_example :
    (any_of
        (λ (s : Schedule). s.id == 7)
        (due_rows 90000000 (set_enabled (at_time 60000500) 7 false scheduled_db).1.schedules)
      ≡ false)
    × (any_of
          (λ (s : Schedule). s.id == 7)
          (due_rows 90000000 (delete (at_time 60000500) 7 scheduled_db).1.schedules)
        ≡ false)
paused_not_due_example = paused_not_due (at_time 60000500) 7 90000000 scheduled_db refl

abbrev broken : Registry
broken name = some (λ job. some "broken")

abbrev failing : Option Report × Db
failing =
    execute (at_time 500) (λ n. pos 3000) pool broken (λ s. s) leased_job
      (run (poll (at_time 200) pool waiting_db).1 others)

worker_fails_example :
    (row : Job) × (failing.0
      ≡ some (
          job_failed row
            (is_spent leased_job)
            (if is_spent leased_job then pos 0 else pos 3000)
            "broken"
            (if is_spent leased_job then dead else failed)))
    × (find_job 100 failing.1.jobs ≡ some row)
    × IsNacked 500 (pos 3000) (some "broken") leased_job row
unfolding poll handle
worker_fails_example =
    worker_fails (at_time 200) (at_time 500) (λ n. pos 3000) pool broken (λ s. s) waiting_db
      leased_job others "broken" waiting_db-IsWellFormed refl refl
      (omega arith, tt, (omega arith, (refl, refl), tt))
      (record { begin = refl; statement = λ k. refl; commit = refl })
