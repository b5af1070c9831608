-- ===== src/Queue/Effects.antt =====
-- What a transaction or statement that succeeds has made of each table.
use forge_queue.Prelude.{
  ℕ, suc, ◌≡◌, refl, ◌==◌, ◌&&◌, leb, if◌then◌else◌, String, Bool, true, false, Option, some, List,
  [], ◌∷◌, ◌++◌, select, first, arith, ℤ, positive_or, subst, sym, ap, ◌+◌, any_of,
}
use mathlib.Core.List.{append-nil, append_assoc}
use forge_queue.Tables.{Job, Run, succeeded, failed, dead, Db}
use forge_queue.Tables.Rows.{update, is_running, update_returning, has_id}
use forge_queue.Tables.Find.{Distinct, Distinct-append, Distinct-update, any-Absent}
use forge_queue.Tx.{Env, ok, exec}
use forge_queue.Tx.Laws.{exec-ok, bind-ok}
use forge_queue.Queue.Dequeue.{
  interval_literal, is_expired, closed_run, reclaimed, picked, claimed, started_run, insert_run,
  start_runs, or_default_queue, dequeue_body,
}
use forge_queue.Queue.Settle.{
  is_held, acked, finished_runs, ack_body, buried, put_dead_letter, bury, retried, retry, is_buried,
  requeued, requeue_body, remove_dead_letter, is_leased_by, extended, extend_body, is_cancellable,
  cancelled, cancel_body, error_string, nack_body, select_for_update,
}

pub update_returning-ok :
    (p : Job → Bool) (f : Job → Job) (db : Db) {job : Job} {db' : Db}
    → update_returning p f db ≡ ok (job, db')
    → (old : Job) × (first (select p db.jobs) ≡ some old)
      × (job ≡ f old)
      × (db' ≡ record db { jobs = update p f db.jobs })
unfolding update_returning
update_returning-ok p f db h = ground arith

pub ack_body-ok :
    (env : Env) (job_id : ℕ) (worker_id : String) (db : Db) {job : Job} {db' : Db}
    → ack_body env job_id worker_id db ≡ ok (job, db')
    → (old : Job) × (first (select (is_held job_id worker_id) db.jobs) ≡ some old)
      × (job ≡ acked env.now old)
      × (db' ≡ record db {
        jobs = update (is_held job_id worker_id) (acked env.now) db.jobs;
        runs = finished_runs env.now job_id succeeded "" db.runs;
      })
unfolding ack_body
ack_body-ok env job_id worker_id db h = ground arith

-- The two ways in which Nack ends: the retry budget is spent, or it is not.
pub bury-ok :
    (env : Env) (job_id : ℕ) (message : String) (db : Db) {job : Job} {d : Bool} {delay : ℤ}
    {db' : Db}
    → bury env job_id message db ≡ ok ((job, d, delay), db')
    → (old : Job) × (first (select (λ j. j.id == job_id) db.jobs) ≡ some old)
      × (job ≡ buried env.now message old)
      × (d ≡ true)
      × (db' ≡ record db {
        jobs = update (λ j. j.id == job_id) (buried env.now message) db.jobs;
        runs = finished_runs env.now job_id dead message db.runs;
        dead_letter =
            put_dead_letter
              (record { job_id = job_id; dead_at = env.now; reason = message })
              db.dead_letter;
      })
unfolding bury
bury-ok env job_id message db h = ground arith

pub retry-ok :
    (env : Env) (job_id : ℕ) (wait : ℤ) (message : String) (db : Db) {job : Job} {d : Bool}
    {delay : ℤ} {db' : Db}
    → retry env job_id wait message db ≡ ok ((job, d, delay), db')
    → (old : Job) × (first (select (λ j. j.id == job_id) db.jobs) ≡ some old)
      × (job ≡ retried env.now (interval_literal wait) message old)
      × (d ≡ false)
      × (delay ≡ wait)
      × (db' ≡ record db {
        jobs =
            update (λ j. j.id == job_id) (retried env.now (interval_literal wait) message) db.jobs;
        runs = finished_runs env.now job_id failed message db.runs;
      })
unfolding retry
retry-ok env job_id wait message db h = ground arith

pub nack_body-ok :
    (env : Env) (backoff : ℕ → ℤ) (job_id : ℕ) (worker_id : String) (cause : Option String)
    (db : Db) {x : (Job × Bool × ℤ) × Db}
    → nack_body env backoff job_id worker_id cause db ≡ ok x
    → (old : Job) × (first (select (is_held job_id worker_id) db.jobs) ≡ some old)
      × ((if leb old.max_attempts old.attempts
            then bury env job_id (error_string cause) db
            else retry env job_id (backoff old.attempts) (error_string cause) db)
          ≡ ok x)
unfolding nack_body select_for_update
nack_body-ok env backoff job_id worker_id cause db h = ground arith

-- Both ways update the row of the job alone.
pub nack_jobs :
    (env : Env) (job_id : ℕ) (delay : ℤ) (message : String) (db : Db) (b : Bool)
    {x : Job × Bool × ℤ} {db' : Db}
    → (if b then bury env job_id message db else retry env job_id delay message db) ≡ ok (x, db')
    → (f : Job → Job) × ((j : Job) → (f j).id ≡ j.id)
      × (db'.jobs ≡ update (λ j. j.id == job_id) f db.jobs)
nack_jobs env job_id delay message db true h =
    (buried env.now message, λ j. refl, ap (λ (y : Db). y.jobs) (bury-ok env job_id message db h).4)
nack_jobs env job_id delay message db false h = (
  retried env.now (interval_literal delay) message,
  λ j. refl,
  ap (λ (y : Db). y.jobs) (retry-ok env job_id delay message db h).5,
)

-- The rows that Dequeue adds to `job_runs`.
unfoldable pub started_runs : Env → ℕ → List Job → List Run
started_runs env k [] = []
started_runs env k (job ∷ jobs) = started_run env k job ∷ started_runs env (suc k) jobs

insert_run-ok :
    (run : Run) (db : Db) {u : Unit {0}} {db' : Db}
    → insert_run run db ≡ ok (u, db')
    → (any_of (λ (r : Run). r.id == run.id) db.runs ≡ false)
      × (db' ≡ record db { runs = db.runs ++ run ∷ [] })
unfolding insert_run
insert_run-ok run db h = ground arith

pub start_runs-ok :
    (env : Env) (k : ℕ) (jobs : List Job) (db : Db) {u : Unit {0}} {db' : Db}
    → start_runs env k jobs db ≡ ok (u, db')
    → db' ≡ record db { runs = db.runs ++ started_runs env k jobs }
unfolding start_runs started_runs
start_runs-ok env k [] db h = ground (arith, append-nil db.runs)
start_runs-ok env k (job ∷ jobs) db {u} {db'} h =
    let db1 : Db = record db { runs = db.runs ++ started_run env k job ∷ [] } in
    ground (
      arith,
      start_runs-ok env (suc k) jobs db1 {u = u} {db' = db'},
      append_assoc db.runs (started_run env k job ∷ []) (started_runs env (suc k) jobs),
    )

start_runs-Distinct :
    (env : Env) (k : ℕ) (jobs : List Job) (db : Db) {u : Unit {0}} {db' : Db}
    → start_runs env k jobs db ≡ ok (u, db')
    → Distinct (λ r. r.id) db.runs
    → Distinct (λ r. r.id) db'.runs
unfolding start_runs
start_runs-Distinct env k [] db {u} {db'} h d =
    let same : db ≡ db' = ground arith in subst (λ (x : Db). Distinct (λ r. r.id) x.runs) same d
start_runs-Distinct env k (job ∷ jobs) db {u} {db'} h d =
    let run = started_run env k job in
    let (_, db1, inserted, rest) =
      bind-ok (exec (env.statement (3 + k)) (insert_run run)) (λ _. start_runs env (suc k) jobs) db
        h in
    let (fresh, after) =
      insert_run-ok run db (exec-ok (env.statement (3 + k)) (insert_run run) db inserted) in
    start_runs-Distinct env (suc k) jobs db1 {u = u} {db' = db'} rest (
      subst (λ (x : Db). Distinct (λ r. r.id) x.runs) (sym after)
        (Distinct-append (λ r. r.id) db.runs run d (any-Absent (λ r. r.id) run.id db.runs fresh)))

-- The tables that the statements of Dequeue leave behind them.
abbrev pub jobs_reclaimed : Env → Db → List Job
jobs_reclaimed env db = update (is_expired env.now) (reclaimed env.now) db.jobs

abbrev pub runs_closed : Env → Db → List Run
runs_closed env db =
    update (λ r. is_running r.status && has_id r.job_id (select (is_expired env.now) db.jobs))
      (closed_run env.now) db.runs

abbrev pub chosen : Env → List String → ℤ → Db → List Job
chosen env queues limit db =
    picked env (or_default_queue queues) (positive_or 1 limit) (jobs_reclaimed env db)

module _ (env : Env) (queues : List String) (limit : ℤ) (worker_id : String) (lease : ℤ)
    (db : Db) where
  abbrev pub jobs_claimed : List Job
  jobs_claimed =
      update (λ (j : Job). has_id j.id (chosen env queues limit db))
        (claimed env.now worker_id (interval_literal lease)) (jobs_reclaimed env db)

  abbrev pub claimed_rows : List Job
  claimed_rows = select (λ (j : Job). has_id j.id (chosen env queues limit db)) jobs_claimed

  dequeue_body-starts :
      {jobs : List Job} {db' : Db}
      → dequeue_body env queues limit worker_id lease db ≡ ok (jobs, db')
      → (jobs ≡ claimed_rows)
        × (start_runs env 0 claimed_rows
              (record db { jobs = jobs_claimed; runs = runs_closed env db })
            ≡ ok (tt, db'))
  unfolding dequeue_body
  dequeue_body-starts h = ground arith

  pub dequeue_body-ok :
      {jobs : List Job} {db' : Db}
      → dequeue_body env queues limit worker_id lease db ≡ ok (jobs, db')
      → (jobs ≡ claimed_rows)
        × (db' ≡ record db {
          jobs = jobs_claimed;
          runs = runs_closed env db ++ started_runs env 0 claimed_rows;
        })
  dequeue_body-ok h =
      let (rows, started) = dequeue_body-starts h in
      (rows, start_runs-ok env 0 claimed_rows _ started)

  -- PRIMARY KEY of `job_runs`.
  pub dequeue_body-Distinct :
      {jobs : List Job} {db' : Db}
      → dequeue_body env queues limit worker_id lease db ≡ ok (jobs, db')
      → Distinct (λ r. r.id) db.runs
      → Distinct (λ r. r.id) db'.runs
  dequeue_body-Distinct h d =
      start_runs-Distinct env 0 claimed_rows _ (dequeue_body-starts h).1
        (Distinct-update (λ r. r.id) _ (closed_run env.now) (λ r. refl) db.runs d)

pub requeue_body-ok :
    (env : Env) (job_id : ℕ) (db : Db) {job : Job} {db' : Db}
    → requeue_body env job_id db ≡ ok (job, db')
    → (old : Job) × (first (select (is_buried job_id) db.jobs) ≡ some old)
      × (job ≡ requeued env.now old)
      × (db' ≡ record db {
        jobs = update (is_buried job_id) (requeued env.now) db.jobs;
        dead_letter = remove_dead_letter job_id db.dead_letter;
      })
unfolding requeue_body
requeue_body-ok env job_id db h = ground arith

pub extend_body-ok :
    (env : Env) (job_id : ℕ) (worker_id : String) (lease : ℤ) (db : Db) {u : Unit {0}} {db' : Db}
    → extend_body env job_id worker_id lease db ≡ ok (u, db')
    → (old : Job) × (first (select (is_leased_by job_id worker_id) db.jobs) ≡ some old)
      × (db' ≡ record db {
        jobs =
            update
              (is_leased_by job_id worker_id)
              (extended env.now (interval_literal lease))
              db.jobs;
      })
unfolding extend_body
extend_body-ok env job_id worker_id lease db h = ground arith

pub cancel_body-ok :
    (env : Env) (job_id : ℕ) (db : Db) {job : Job} {db' : Db}
    → cancel_body env job_id db ≡ ok (job, db')
    → (old : Job) × (first (select (is_cancellable job_id) db.jobs) ≡ some old)
      × (job ≡ cancelled env.now old)
      × (db' ≡ record db { jobs = update (is_cancellable job_id) (cancelled env.now) db.jobs })
unfolding cancel_body
cancel_body-ok env job_id db h = ground arith
