-- ===== src/Queue/History.antt =====
-- The calls of a Queue, one after another: each is a transaction or a committed statement, so a
-- history of the database is a sequence of calls, each in a surrounding of its own.
use forge_queue.Prelude.{
  ℕ, ◌≡◌, refl, ◌==◌, inl, inr, if◌then◌else◌, leb, String, Bool, Option, some, List, [], ◌∷◌, ◌++◌,
  any_of, sym, subst, select, first, ℤ, arith, true, false, Bool-cases,
}
use mathlib.Core.List.{append-nil}
use forge_queue.Tables.{Tenant, Job, succeeded, dead, failed, Db}
use forge_queue.Tables.Rows.{update}
use forge_queue.Tables.Find.{Distinct}
use forge_queue.Tx.{Env, Result, ok, err, autocommit}
use forge_queue.Tx.Laws.{transact_cases, autocommit_cases}
use forge_queue.Queue.Params.{
  default_tenant_id, EnqueueParams, normalize_enqueue_params, ensure_tenant,
}
use forge_queue.Queue.Enqueue.{insert_statement, insert_after, enqueue}
use forge_queue.Queue.Dequeue.{interval_literal, dequeue}
use forge_queue.Queue.Settle.{
  is_held, acked, finished_runs, ack, buried, put_dead_letter, retried, nack, error_string,
  is_leased_by, extended, extend_lease, is_cancellable, cancelled, cancel, is_buried, requeued,
  remove_dead_letter, requeue_dlq, extend_body, cancel_body, bury, retry,
}
use forge_queue.Queue.Effects.{
  ack_body-ok, nack_body-ok, bury-ok, retry-ok, requeue_body-ok, extend_body-ok, cancel_body-ok,
  dequeue_body-ok, dequeue_body-Distinct, jobs_claimed, claimed_rows, runs_closed, started_runs,
}
use forge_queue.Queue.Inserts.{Inserts, insert_statement-ok}

pub data Call : Type 0 where
  enqueues : EnqueueParams → Call
  dequeues : List String → ℤ → String → ℤ → Call
  acks : ℕ → String → Call
  nacks : (ℕ → ℤ) → ℕ → String → Option String → Call
  extends : ℕ → String → ℤ → Call
  cancels : ℕ → Call
  requeues : ℕ → Call

unfoldable pub step : Env → Call → Db → Db
unfolding enqueue dequeue ack nack extend_lease cancel requeue_dlq
step env (enqueues params) db = (enqueue env params db).1
step env (dequeues queues limit worker_id lease) db =
    (dequeue env queues limit worker_id lease db).1
step env (acks job_id worker_id) db = (ack env job_id worker_id db).1
step env (nacks backoff job_id worker_id cause) db = (nack env backoff job_id worker_id cause db).1
step env (extends job_id worker_id lease) db = (extend_lease env job_id worker_id lease db).1
step env (cancels job_id) db = (cancel env job_id db).1
step env (requeues job_id) db = (requeue_dlq env job_id db).1

unfoldable pub run : Db → List (Env × Call) → Db
unfolding step
run db [] = db
run db ((env, c) ∷ cs) = run (step env c db) cs

-- What a call can have made of the tables.
pub data Effect (env : Env) (db db' : Db) : Type 0 where
  unchanged : db' ≡ db → Effect env db db'
  tenanted :
      (tenants : List Tenant)
      → db' ≡ record db { tenants = db.tenants ++ tenants }
      → Effect env db db'
  inserted :
      (tenants : List Tenant) (p : EnqueueParams) (job : Job) (created : Bool)
      → Inserts env p (record db { tenants = db.tenants ++ tenants }) job created db'
      → Effect env db db'
  claimed :
      (queues : List String) (limit : ℤ) (worker_id : String) (lease : ℤ)
      → db' ≡ record db {
        jobs = jobs_claimed env queues limit worker_id lease db;
        runs =
            runs_closed env db
            ++ started_runs env 0 (claimed_rows env queues limit worker_id lease db);
      }
      → (Distinct (λ r. r.id) db.runs → Distinct (λ r. r.id) db'.runs)
      → Effect env db db'
  acknowledged :
      (job_id : ℕ) (worker_id : String) (old : Job)
      → first (select (is_held job_id worker_id) db.jobs) ≡ some old
      → db' ≡ record db {
        jobs = update (is_held job_id worker_id) (acked env.now) db.jobs;
        runs = finished_runs env.now job_id succeeded "" db.runs;
      }
      → Effect env db db'
  died :
      (job_id : ℕ) (worker_id : String) (message : String) (old : Job)
      → first (select (is_held job_id worker_id) db.jobs) ≡ some old
      → db' ≡ record db {
        jobs = update (λ j. j.id == job_id) (buried env.now message) db.jobs;
        runs = finished_runs env.now job_id dead message db.runs;
        dead_letter =
            put_dead_letter
              (record { job_id = job_id; dead_at = env.now; reason = message })
              db.dead_letter;
      }
      → Effect env db db'
  requeued_later :
      (job_id : ℕ) (worker_id : String) (delay : ℕ) (message : String) (old : Job)
      → first (select (is_held job_id worker_id) db.jobs) ≡ some old
      → db' ≡ record db {
        jobs = update (λ j. j.id == job_id) (retried env.now delay message) db.jobs;
        runs = finished_runs env.now job_id failed message db.runs;
      }
      → Effect env db db'
  leased :
      (job_id : ℕ) (worker_id : String) (lease : ℕ)
      → db' ≡ record db {
        jobs = update (is_leased_by job_id worker_id) (extended env.now lease) db.jobs;
      }
      → Effect env db db'
  withdrawn :
      (job_id : ℕ)
      → db' ≡ record db { jobs = update (is_cancellable job_id) (cancelled env.now) db.jobs }
      → Effect env db db'
  revived :
      (job_id : ℕ)
      → db' ≡ record db {
        jobs = update (is_buried job_id) (requeued env.now) db.jobs;
        dead_letter = remove_dead_letter job_id db.dead_letter;
      }
      → Effect env db db'

ensure_tenant-ok :
    (env : Env) (id : ℕ) (db : Db) {u : Unit {0}} {db' : Db}
    → ensure_tenant env id db ≡ ok (u, db')
    → (tenants : List Tenant) × (db' ≡ record db { tenants = db.tenants ++ tenants })
unfolding ensure_tenant
ensure_tenant-ok env id db h = elim (Bool-cases (any_of (λ (t : Tenant). t.id == id) db.tenants)) [
  | inl e ↦ ([], ground (arith, append-nil db.tenants))
  | inr e ↦ (
    record { id = id; name = if id == default_tenant_id then "default" else env.uuid_text id } ∷ [],
    ground arith,
  )
]

-- Whether ensureTenant succeeds or fails, it adds tenants at most.
pub tenant_added :
    (env : Env) (id : ℕ) (db : Db)
    → (tenants : List Tenant) × ((autocommit (env.statement 0) (ensure_tenant env id) db).1
        ≡ record db { tenants = db.tenants ++ tenants })
tenant_added env id db =
    autocommit_cases
      (λ after. (tenants : List Tenant) × (after ≡ record db { tenants = db.tenants ++ tenants }))
      (env.statement 0) (ensure_tenant env id) db ([], ground (arith, append-nil db.tenants))
      (λ u after h. ensure_tenant-ok env id db h)

-- Enqueue by cases: the tenant is there or was added, and then the job.
module _ {ℓ} (P : Db → Type ℓ) (env : Env) (db : Db)
    (tenanted_case : (tenants : List Tenant) → P (record db { tenants = db.tenants ++ tenants }))
    (inserted_case : (tenants : List Tenant) (p : EnqueueParams) (job : Job) (created : Bool)
        (db' : Db)
      → Inserts env p (record db { tenants = db.tenants ++ tenants }) job created db'
      → P db') where
  insert_after_cases :
      (p : EnqueueParams) (r : Result (Unit {0})) (db1 : Db) (tenants : List Tenant)
      → db1 ≡ record db { tenants = db.tenants ++ tenants }
      → P (insert_after env p r db1).1
  unfolding insert_after
  insert_after_cases p (err e) db1 tenants h = subst P (sym h) (tenanted_case tenants)
  insert_after_cases p (ok u) db1 tenants h =
      autocommit_cases P (env.statement 1) (insert_statement env p) db1
        (subst P (sym h) (tenanted_case tenants))
        λ (job, created) db' done.
          inserted_case tenants p job created db' (rw h at (insert_statement-ok env p db1 done))

  pub enqueue_cases : (params : EnqueueParams) → P (enqueue env params db).1
  unfolding enqueue
  enqueue_cases params =
      let p = normalize_enqueue_params env.clock params in
      let (tenant, db1) = autocommit (env.statement 0) (ensure_tenant env p.tenant_id) db in
      let (tenants, e) = tenant_added env p.tenant_id db in
      insert_after_cases p tenant db1 tenants e

nack-Effect :
    (env : Env) (job_id : ℕ) (worker_id : String) (delay : ℤ) (message : String) (db db' : Db)
    (old : Job) (b : Bool) {x : Job × Bool × ℤ}
    → first (select (is_held job_id worker_id) db.jobs) ≡ some old
    → (if b then bury env job_id message db else retry env job_id delay message db) ≡ ok (x, db')
    → Effect env db db'
nack-Effect env job_id worker_id delay message db db' old true found h =
    let (_, _, _, _, e) = bury-ok env job_id message db h in
    died job_id worker_id message old found e
nack-Effect env job_id worker_id delay message db db' old false found h =
    let (_, _, _, _, _, e) = retry-ok env job_id delay message db h in
    requeued_later job_id worker_id (interval_literal delay) message old found e

pub step-Effect : (env : Env) (c : Call) (db : Db) → Effect env db (step env c db)
unfolding step
step-Effect env (enqueues params) db =
    enqueue_cases (Effect env db) env db (λ tenants. tenanted tenants refl)
      (λ tenants p job created db' i. inserted tenants p job created i) params
step-Effect env (dequeues queues limit worker_id lease) db =
    transact_cases (Effect env db) env _ db (unchanged refl) λ jobs db' h.
      claimed queues limit worker_id lease (dequeue_body-ok env queues limit worker_id lease db h).1
        (dequeue_body-Distinct env queues limit worker_id lease db h)
step-Effect env (acks job_id worker_id) db =
    transact_cases (Effect env db) env _ db (unchanged refl) λ job db' h.
      let (old, found, _, e) = ack_body-ok env job_id worker_id db h in
      acknowledged job_id worker_id old found e
step-Effect env (nacks backoff job_id worker_id cause) db =
    transact_cases (Effect env db) env _ db (unchanged refl) λ x db' h.
      let (old, found, e) = nack_body-ok env backoff job_id worker_id cause db h in
      nack-Effect env job_id worker_id (backoff old.attempts) (error_string cause) db db' old
        (leb old.max_attempts old.attempts) found e
step-Effect env (extends job_id worker_id lease) db =
    autocommit_cases (Effect env db) (env.statement 0) (extend_body env job_id worker_id lease) db
      (unchanged refl)
      λ u db' h.
        leased job_id worker_id (interval_literal lease)
          (extend_body-ok env job_id worker_id lease db h).2
step-Effect env (cancels job_id) db =
    autocommit_cases (Effect env db) (env.statement 0) (cancel_body env job_id) db (unchanged refl)
      λ job db' h. withdrawn job_id (cancel_body-ok env job_id db h).3
step-Effect env (requeues job_id) db =
    transact_cases (Effect env db) env _ db (unchanged refl)
      λ job db' h. revived job_id (requeue_body-ok env job_id db h).3
