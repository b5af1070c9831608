-- ===== src/Worker/Progress.antt =====
-- What becomes of a job that a worker of internal/worker/pool.go runs.
use forge_queue.Prelude.{
  ℕ, ◌+◌, ◌≡◌, refl, String, eq_iff, true, none, some, List, [], ◌∷◌, select, first, arith, ap, ◌∙◌,
  ℤ, pos,
}
use forge_queue.Tables.{Job, Db}
use forge_queue.Tables.Rows.{find_job, update_returning}
use forge_queue.Tables.Find.{first-select}
use forge_queue.Tx.{Env, Result, ok, err}
use forge_queue.Tx.Laws.{IsWorking}
use forge_queue.Queue.Dequeue.{interval_literal, dequeue}
use forge_queue.Queue.Settle.{is_held, acked, ack, ack_body, finish_run}
use forge_queue.Queue.History.{Call, dequeues, run, step}
use forge_queue.Queue.WellFormed.{IsWellFormed}
use forge_queue.Queue.WellFormed.Step.{step-IsWellFormed, run_from-IsWellFormed}
use forge_queue.Queue.Picking.{dequeue_hands_out, dequeue_found}
use forge_queue.Queue.Leases.{IsLeased, AllForeign, lease_exclusive}
use forge_queue.Queue.Outcomes.{ack_completes}
use forge_queue.Worker.{
  Pool, runs, turn, poll, job_succeeded, report_ack, finish, Registry, handle, execute,
}

-- The row that the worker holds can be acknowledged.
pub ack_works :
    (env : Env) (db : Db) (job_id : ℕ) (job : Job) (worker_id : String)
    → IsWorking env
    → first (select (is_held job_id worker_id) db.jobs) ≡ some job
    → (ack env job_id worker_id db).0 ≡ ok (acked env.now job)
unfolding ack ack_body update_returning finish_run
ack_works env db job_id job worker_id live held =
    ground (arith, live.begin, live.statement 0, live.statement 1, live.commit, held)

pub turn_runs :
    (r : Result (List Job)) (job : Job)
    → turn r ≡ runs job
    → (rest : List Job) × (r ≡ ok (job ∷ rest))
turn_runs (err e) job h = absurd (ground arith)
turn_runs (ok []) job h = absurd (ground arith)
turn_runs (ok (x ∷ xs)) job h = (xs, ground arith)

-- A job that a slot runs stands in the table under a lease of the worker.
pub polled :
    (env : Env) (p : Pool) (db : Db) (job : Job)
    → IsWellFormed db
    → (poll env p db).0 ≡ runs job
    → IsWellFormed (poll env p db).1
      × IsLeased p.worker_id (env.now + interval_literal p.lease) job
      × (find_job job.id (poll env p db).1.jobs ≡ some job)
unfolding poll step
polled env p db job w h =
    let (r, db') = dequeue env p.queues (pos 1) p.worker_id p.lease db in
    let (rest, e) = turn_runs r job h in
    let whole : dequeue env p.queues (pos 1) p.worker_id p.lease db ≡ (ok (job ∷ rest), db') =
      ap (λ (x : Result (List Job)). (x, db')) e in
    let (old, at, handed) =
      (dequeue_hands_out env p.queues (pos 1) p.worker_id p.lease db (job ∷ rest) db' w
        whole).1.0 in
    (
      step-IsWellFormed env (dequeues p.queues (pos 1) p.worker_id p.lease) db w,
      record { busy = handed.running; owner = handed.owner; term = handed.term },
      (dequeue_found env p.queues (pos 1) p.worker_id p.lease db (job ∷ rest) db' w whole).0,
    )

-- After calls that are not made in the worker's name and not after the lease ended, the worker still
-- holds the row that it polled.
pub still_held :
    (env : Env) (p : Pool) (db : Db) (job : Job) (cs : List (Env × Call))
    → IsWellFormed db
    → (poll env p db).0 ≡ runs job
    → AllForeign p.worker_id (env.now + interval_literal p.lease) cs
    → let db' = run (poll env p db).1 cs in
      IsWellFormed db'
      × (find_job job.id db'.jobs ≡ some job)
      × (first (select (is_held job.id p.worker_id) db'.jobs) ≡ some job)
still_held env p db job cs w h foreign =
    let (w1, leased, at1) = polled env p db job w h in
    let db1 = (poll env p db).1 in
    let w2 = run_from-IsWellFormed cs db1 w1 in
    let at2 =
      lease_exclusive cs db1 p.worker_id (env.now + interval_literal p.lease) job.id job w1 leased
        at1 foreign in
    let is_ours : is_held job.id p.worker_id job ≡ true =
      ground (arith, leased.busy, leased.owner, eq_iff p.worker_id p.worker_id) in
    (
      w2,
      at2,
      first-select (λ j. j.id) (is_held job.id p.worker_id) job.id (λ x q. ground arith)
            (run db1 cs).jobs w2.jobs_keyed
          ∙ rw (at2, is_ours) refl,
    )

-- From a well-formed database, a job that a slot of a pool polled, and for which its handler
-- returns no error, ends as succeeded, whatever other calls came in between: if those were not
-- made in the worker's name and not after the lease ended, and the server answers the Ack, then
-- execute reports the job's success and the table holds it as succeeded.
pub worker_completes :
    (env1 env2 : Env) (backoff : ℕ → ℤ) (p : Pool) (registry : Registry) (quote : String → String)
    (db : Db) (job : Job) (cs : List (Env × Call))
    → IsWellFormed db
    → (poll env1 p db).0 ≡ runs job
    → handle registry quote job ≡ none
    → AllForeign p.worker_id (env1.now + interval_literal p.lease) cs
    → IsWorking env2
    → (execute env2 backoff p registry quote job (run (poll env1 p db).1 cs)).0
        ≡ some (job_succeeded (acked env2.now job))
      × (find_job job.id
            (execute env2 backoff p registry quote job (run (poll env1 p db).1 cs)).1.jobs
          ≡ some (acked env2.now job))
unfolding execute finish report_ack
worker_completes env1 env2 backoff p registry quote db job cs w h handled foreign live =
    let db2 = run (poll env1 p db).1 cs in
    let (w2, _, held) = still_held env1 p db job cs w h foreign in
    let acks = ack_works env2 db2 job.id job p.worker_id live held in
    let (old, at, _, e, at') =
      ack_completes env2 db2 (ack env2 job.id p.worker_id db2).1 job.id p.worker_id
        (acked env2.now job) w2.jobs_keyed
        (ap (λ (x : Result Job). (x, (ack env2 job.id p.worker_id db2).1)) acks) in
    rw handled (ap report_ack acks, at')
