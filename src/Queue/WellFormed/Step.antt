-- ===== src/Queue/WellFormed/Step.antt =====
-- The invariant over whole histories of calls.
use forge_queue.Prelude.{refl, List, [], ◌∷◌, subst, Bool}
use forge_queue.Tables.{Tenant, Job, Db}
use forge_queue.Tables.Rows.{find}
use forge_queue.Tables.Find.{Distinct}
use forge_queue.Tx.{Env}
use forge_queue.Queue.Params.{EnqueueParams}
use forge_queue.Queue.Inserts.{Inserts, added, found}
use forge_queue.Queue.History.{
  Effect, unchanged, tenanted, inserted, claimed, acknowledged, died, requeued_later, leased,
  withdrawn, revived, Call, step, run, step-Effect,
}
use forge_queue.Queue.WellFormed.{active, letters, IsWellFormed}
use forge_queue.Queue.WellFormed.Kept.{
  acknowledged-IsWellFormed, died-IsWellFormed, requeued_later-IsWellFormed, leased-IsWellFormed,
  withdrawn-IsWellFormed, revived-IsWellFormed,
}
use forge_queue.Queue.WellFormed.Grown.{added-IsWellFormed, claimed-IsWellFormed}

abbrev pub empty_db : Db
empty_db = record { tenants = []; jobs = []; runs = []; schedules = []; dead_letter = [] }

empty-IsWellFormed : IsWellFormed empty_db
unfolding active letters find
empty-IsWellFormed = record {
  jobs_keyed = tt;
  runs_keyed = tt;
  shaped = tt;
  keys_unique = tt;
  runs_match = λ i. refl;
  letters_match = λ i. refl;
}

tenanted-IsWellFormed :
    (db : Db) (tenants : List Tenant)
    → IsWellFormed db
    → IsWellFormed (record db { tenants = tenants })
tenanted-IsWellFormed db tenants w = record {
  jobs_keyed = w.jobs_keyed;
  runs_keyed = w.runs_keyed;
  shaped = w.shaped;
  keys_unique = w.keys_unique;
  runs_match = w.runs_match;
  letters_match = w.letters_match;
}

inserted-IsWellFormed :
    (env : Env) (db db' : Db) (tenants : List Tenant) (p : EnqueueParams) (job : Job)
    (created : Bool)
    → IsWellFormed db
    → Inserts env p (record db { tenants = tenants }) job created db'
    → IsWellFormed db'
inserted-IsWellFormed env db db' tenants p job created w (found _ _ _ e) =
    rw e (tenanted-IsWellFormed db tenants w)
inserted-IsWellFormed env db db' tenants p job created w (added new _ fresh _ free e) =
    rw e (added-IsWellFormed env db p tenants job w new fresh free)

Effect-IsWellFormed :
    (env : Env) (db db' : Db) → IsWellFormed db → Effect env db db' → IsWellFormed db'
Effect-IsWellFormed env db db' w (unchanged e) = rw e w
Effect-IsWellFormed env db db' w (tenanted tenants e) = rw e (tenanted-IsWellFormed db _ w)
Effect-IsWellFormed env db db' w (inserted tenants p job created i) =
    inserted-IsWellFormed env db db' _ p job created w i
Effect-IsWellFormed env db db' w (claimed queues limit worker_id lease e d) = rw e (
    claimed-IsWellFormed env queues limit worker_id lease db w _ refl
      (subst (λ (x : Db). Distinct (λ r. r.id) x.runs) e (d w.runs_keyed)))
Effect-IsWellFormed env db db' w (acknowledged job_id worker_id old h e) =
    rw e (acknowledged-IsWellFormed env db w job_id worker_id old h)
Effect-IsWellFormed env db db' w (died job_id worker_id message old h e) =
    rw e (died-IsWellFormed env db w job_id worker_id old h message)
Effect-IsWellFormed env db db' w (requeued_later job_id worker_id delay message old h e) =
    rw e (requeued_later-IsWellFormed env db w job_id worker_id old h delay message)
Effect-IsWellFormed env db db' w (leased job_id worker_id lease e) =
    rw e (leased-IsWellFormed env db w job_id worker_id lease)
Effect-IsWellFormed env db db' w (withdrawn job_id e) =
    rw e (withdrawn-IsWellFormed env db w job_id)
Effect-IsWellFormed env db db' w (revived job_id e) = rw e (revived-IsWellFormed env db w job_id)

-- Every call keeps the invariant, whatever fails on its way.
pub step-IsWellFormed :
    (env : Env) (c : Call) (db : Db) → IsWellFormed db → IsWellFormed (step env c db)
step-IsWellFormed env c db w = Effect-IsWellFormed env db (step env c db) w (step-Effect env c db)

pub run_from-IsWellFormed :
    (cs : List (Env × Call)) (db : Db) → IsWellFormed db → IsWellFormed (run db cs)
unfolding run
run_from-IsWellFormed [] db w = w
run_from-IsWellFormed ((env, c) ∷ cs) db w =
    run_from-IsWellFormed cs (step env c db) (step-IsWellFormed env c db w)

-- From empty tables, every history of calls, failed and half-failed ones included, leaves the
-- database well formed: the primary keys and the idempotency keys are unique, the CHECK
-- constraints hold, each job has a lease exactly while it runs and then exactly one open run, and
-- exactly the dead jobs are in `dead_letter`.
pub run-IsWellFormed : (cs : List (Env × Call)) → IsWellFormed (run empty_db cs)
run-IsWellFormed cs = run_from-IsWellFormed cs empty_db empty-IsWellFormed
