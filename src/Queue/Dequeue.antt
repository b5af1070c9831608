-- ===== src/Queue/Dequeue.antt =====
-- internal/queue/postgres.go: Queue.Dequeue, one transaction of four kinds of statements.
use forge_queue.Prelude.{
  ℕ, suc, ◌+◌, ◌/◌, ◌==◌, ltb, leb, if◌then◌else◌, String, Bool, true, false, not, ◌&&◌, none, some,
  List, [], ◌∷◌, ◌++◌, any_of, select, take, ℤ, positive_or,
}
use forge_queue.Tables.{Job, Run, ready, running, failed, Db}
use forge_queue.Tables.Rows.{update, is_ready, is_running, is_before, has_id, is_any, order_by}
use forge_queue.Tx.{Env, Tx, Result, ok, err, database, ◌>>=◌, ◌>>◌, pure, exec, transact}

-- intervalLiteral, in microseconds: Sprintf("%f seconds") keeps six decimals of a duration in
-- nanoseconds. An exact half goes up here, and either way there, as the float64 of the duration is
-- above or below it.
unfoldable pub interval_literal : ℤ → ℕ
interval_literal duration = (positive_or 1000000000 duration + 500) / 1000

abbrev pub lease_expired : String
lease_expired = "worker lease expired before acknowledgement"

-- WHERE status = 'running' AND locked_until < now().
abbrev pub is_expired : ℕ → Job → Bool
is_expired now j = is_running j.status && is_before j.locked_until now

abbrev pub closed_run : ℕ → Run → Run
closed_run now r = record r { finished_at = some now; status = failed; error = some lease_expired }

unfoldable pub close_abandoned_runs : Env → Tx (Unit {0})
unfolding update has_id
close_abandoned_runs env db = ok (
  tt,
  record db {
    runs =
        update (λ r. is_running r.status && has_id r.job_id (select (is_expired env.now) db.jobs))
          (closed_run env.now) db.runs;
  },
)

abbrev pub reclaimed : ℕ → Job → Job
reclaimed now j = record j {
  status = ready;
  locked_by = none;
  locked_until = none;
  last_error = some lease_expired;
  updated_at = now;
}

unfoldable pub reclaim_expired : Env → Tx (Unit {0})
unfolding update
reclaim_expired env db =
    ok (tt, record db { jobs = update (is_expired env.now) (reclaimed env.now) db.jobs })

-- WHERE status = 'ready' AND run_at <= now() AND queue = ANY($1), less the rows that SKIP LOCKED
-- passes over.
abbrev pub is_eligible : Env → List String → Job → Bool
is_eligible env queues j =
    is_ready j.status && leb j.run_at env.now && is_any j.queue queues && not (env.row_locked j.id)

-- ORDER BY priority DESC, run_at ASC.
abbrev pub precedes : Job → Job → Bool
precedes a b =
    if ltb b.priority a.priority
    then true
    else if ltb a.priority b.priority
    then false
    else leb a.run_at b.run_at

unfoldable pub picked : Env → List String → ℕ → List Job → List Job
unfolding order_by
picked env queues limit jobs = take limit (order_by precedes (select (is_eligible env queues) jobs))

abbrev pub claimed : ℕ → String → ℕ → Job → Job
claimed now worker_id lease j = record j {
  status = running;
  locked_by = some worker_id;
  locked_until = some (now + lease);
  attempts = j.attempts + 1;
  updated_at = now;
}

-- UPDATE jobs … FROM picked … RETURNING.
unfoldable pub claim : Env → List String → ℕ → String → ℕ → Tx (List Job)
unfolding update has_id picked
claim env queues limit worker_id lease db =
    let chosen = picked env queues limit db.jobs in
    let jobs = update (λ (j : Job). has_id j.id chosen) (claimed env.now worker_id lease) db.jobs in
    ok (select (λ (j : Job). has_id j.id chosen) jobs, record db { jobs = jobs })

abbrev pub started_run : Env → ℕ → Job → Run
started_run env k job = record {
  id = env.fresh k;
  job_id = job.id;
  attempt = job.attempts;
  started_at = env.now;
  finished_at = none;
  status = running;
  error = none;
}

-- INSERT INTO job_runs: the primary key is new.
unfoldable pub insert_run : Run → Tx (Unit {0})
insert_run run db =
    if any_of (λ (r : Run). r.id == run.id) db.runs
    then err database
    else ok (tt, record db { runs = db.runs ++ run ∷ [] })

-- The loop over the claimed jobs; the k-th insertion is statement 3 + k.
unfoldable pub start_runs : Env → ℕ → List Job → Tx (Unit {0})
unfolding insert_run
start_runs env k [] = pure tt
start_runs env k (job ∷ jobs) = do
  exec (env.statement (3 + k)) (insert_run (started_run env k job))
  start_runs env (suc k) jobs

abbrev pub or_default_queue : List String → List String
or_default_queue [] = "default" ∷ []
or_default_queue (q ∷ qs) = q ∷ qs

unfoldable pub dequeue_body : Env → List String → ℤ → String → ℤ → Tx (List Job)
unfolding interval_literal close_abandoned_runs reclaim_expired claim start_runs
dequeue_body env queues limit worker_id lease = do
  exec (env.statement 0) (close_abandoned_runs env)
  exec (env.statement 1) (reclaim_expired env)
  jobs ←
      exec (env.statement 2) (
        claim env (or_default_queue queues) (positive_or 1 limit) worker_id
          (interval_literal lease))
  start_runs env 0 jobs
  pure jobs

unfoldable pub dequeue : Env → List String → ℤ → String → ℤ → Db → Result (List Job) × Db
unfolding dequeue_body
dequeue env queues limit worker_id lease db =
    transact env (dequeue_body env queues limit worker_id lease) db
