-- ===== src/Queue/Lookups.antt =====
-- GetJob of internal/queue/postgres.go on a job that Enqueue has made.
use forge_queue.Prelude.{
  ℕ, ◌≡◌, refl, ◌==◌, true, some, List, ◌++◌, select, first, arith, ◌∙◌, ap, sym, subst, pos,
  false≢true,
}
use forge_queue.Tables.{Tenant, Job, Db}
use forge_queue.Tables.Rows.{find_job}
use forge_queue.Tables.Find.{first-select, find_key, find-append, find-Absent, any-Absent}
use forge_queue.Tx.{Env, works, ok}
use forge_queue.Queue.Params.{EnqueueParams, or_default, default_priority, normalize_enqueue_params}
use forge_queue.Queue.Enqueue.{enqueue}
use forge_queue.Queue.Views.{get_job}
use forge_queue.Queue.Inserts.{Inserts, IsNewRow, added, found}
use forge_queue.Queue.Keys.{enqueue-ok}
use forge_queue.Queue.History.{Call, enqueues, step, run}
use forge_queue.Queue.Lifecycle.{SameJob}
use forge_queue.Queue.Traces.{run-SameJob}
use forge_queue.Queue.WellFormed.{IsWellFormed}
use forge_queue.Queue.WellFormed.Step.{step-IsWellFormed, run_from-IsWellFormed}

-- What a row says of the parameters that it was made from.
pub record IsMadeFrom (env : Env) (params : EnqueueParams) (row : Job) : Type 0 where
  pub handler : row.handler ≡ params.handler
  pub queue : row.queue ≡ or_default "default" params.queue
  pub payload : env.jsonb (or_default "{}" params.payload) ≡ some row.payload
  pub priority : pos row.priority ≡ default_priority params.priority

new_row-IsMadeFrom :
    (env : Env) (params : EnqueueParams) (job row : Job)
    → IsNewRow env (normalize_enqueue_params env.clock params) job
    → SameJob job row
    → IsMadeFrom env params row
unfolding normalize_enqueue_params
new_row-IsMadeFrom env params job row new same = record {
  handler = same.handler ∙ new.handler;
  queue = same.queue ∙ new.queue;
  payload = new.payload ∙ ap some (sym same.payload);
  priority = ap pos same.priority ∙ sym new.priority;
}

created_row :
    (env : Env) (p : EnqueueParams) (tenants : List Tenant) (db : Db) (job : Job) (db' : Db)
    → Inserts env p (record db { tenants = db.tenants ++ tenants }) job true db'
    → IsNewRow env p job × (find_job job.id db'.jobs ≡ some job)
created_row env p tenants db job db' (added new _ absent _ _ e) =
    let nowhere =
      find-Absent (λ j. j.id) job.id db.jobs (any-Absent (λ j. j.id) job.id db.jobs absent) in
    (new, rw e (find-append (λ j. j.id) job.id db.jobs job ∙ rw nowhere (ground arith)))
created_row env p tenants db job db' (found c _ _ _) = absurd (false≢true (sym c))

get_found :
    (env : Env) (i : ℕ) (db : Db) (row : Job)
    → IsWellFormed db
    → env.statement 0 ≡ works
    → find_job i db.jobs ≡ some row
    → get_job env i db ≡ ok row
unfolding get_job
get_found env i db row w live here =
    let one : first (select (λ (j : Job). j.id == i) db.jobs) ≡ some row =
      first-select (λ j. j.id) (λ j. j.id == i) i (λ x h. ground arith) db.jobs w.jobs_keyed
      ∙ rw here (ground (arith, find_key (λ j. j.id) i db.jobs row here)) in
    rw (live, one) refl

-- On a well-formed database, a job that Enqueue has created is read back: after any calls, GetJob,
-- if the server answers, returns its row, with the handler, queue, priority and payload of the
-- parameters: defaults filled in, and the payload as jsonb stores it.
pub enqueue_get :
    (env env' : Env) (params : EnqueueParams) (cs : List (Env × Call)) (db : Db) (job : Job)
    (db' : Db)
    → IsWellFormed db
    → enqueue env params db ≡ (ok (job, true), db')
    → env'.statement 0 ≡ works
    → (row : Job) × (get_job env' job.id (run db' cs) ≡ ok row) × IsMadeFrom env params row
unfolding step
enqueue_get env env' params cs db job db' w h live =
    let w' : IsWellFormed db' =
      subst IsWellFormed (ap (λ r. r.1) h) (step-IsWellFormed env (enqueues params) db w) in
    let (tenants, i) = enqueue-ok env params db h in
    let (new, at) =
      created_row env (normalize_enqueue_params env.clock params) tenants db job db' i in
    let (row, later, same) = run-SameJob cs db' job.id job w' at in
    (
      row,
      get_found env' job.id (run db' cs) row (run_from-IsWellFormed cs db' w') live later,
      new_row-IsMadeFrom env params job row new same,
    )
