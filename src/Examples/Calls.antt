-- ===== src/Examples/Calls.antt =====
-- Small tables, and histories that reach them.
use forge_queue.Prelude.{none, List, [], ◌∷◌, ◌≡◌, refl, pos, subst}
use forge_queue.Tables.{Db, Run, running}
use forge_queue.Tx.{Env}
use forge_queue.Queue.History.{Call, enqueues, dequeues, run}
use forge_queue.Queue.WellFormed.{IsWellFormed}
use forge_queue.Queue.WellFormed.Step.{empty_db, run-IsWellFormed}
use forge_queue.Examples.{at_time, params, tenants, waiting_job, leased_job, lease}

abbrev pub enqueued : List (Env × Call)
enqueued = (at_time 100, enqueues params) ∷ []

abbrev pub dequeued : List (Env × Call)
dequeued = (at_time 100, enqueues params) ∷ (at_time 200, dequeues [] (pos 1) "w1" lease) ∷ []

abbrev pub waiting_db : Db
waiting_db = record {
  tenants = tenants;
  jobs = waiting_job ∷ [];
  runs = [];
  schedules = [];
  dead_letter = [];
}

abbrev pub first_run : Run
first_run = record {
  id = 200;
  job_id = 100;
  attempt = 1;
  started_at = 200;
  finished_at = none;
  status = running;
  error = none;
}

abbrev pub leased_db : Db
leased_db = record waiting_db { jobs = leased_job ∷ []; runs = first_run ∷ [] }

reaches_waiting : run empty_db enqueued ≡ waiting_db
unfolding run
reaches_waiting = refl

reaches_leased : run empty_db dequeued ≡ leased_db
unfolding run
reaches_leased = refl

pub waiting_db-IsWellFormed : IsWellFormed waiting_db
waiting_db-IsWellFormed = subst IsWellFormed reaches_waiting (run-IsWellFormed enqueued)

pub leased_db-IsWellFormed : IsWellFormed leased_db
leased_db-IsWellFormed = subst IsWellFormed reaches_leased (run-IsWellFormed dequeued)
