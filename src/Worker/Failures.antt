-- ===== src/Worker/Failures.antt =====
-- What becomes of a job whose handler fails in a worker of internal/worker/pool.go.
use forge_queue.Prelude.{
  ℕ, ◌+◌, ◌≡◌, refl, ◌==◌, leb, if◌then◌else◌, String, Bool, some, List, select, first, arith, ap,
  ◌∙◌, ℤ, pos, Bool-cases, inl, inr,
}
use forge_queue.Tables.{Job, Db, dead, failed}
use forge_queue.Tables.Rows.{find_job, update_returning}
use forge_queue.Tables.Find.{first-select, find_key}
use forge_queue.Tx.{Env, Result, ok}
use forge_queue.Tx.Laws.{IsWorking}
use forge_queue.Queue.Dequeue.{interval_literal}
use forge_queue.Queue.Settle.{
  is_held, nack, nack_body, bury, retry, select_for_update, finish_run, insert_dead_letter,
}
use forge_queue.Queue.History.{Call, run}
use forge_queue.Queue.WellFormed.{IsWellFormed}
use forge_queue.Queue.Leases.{AllForeign}
use forge_queue.Queue.Nacks.{nacked, IsNacked, nacked-IsNacked}
use forge_queue.Queue.Outcomes.{nack_returns}
use forge_queue.Worker.{
  Pool, runs, poll, job_failed, nack_status, report_nack, finish, Registry, handle, execute,
}
use forge_queue.Worker.Progress.{still_held}

abbrev pub is_spent : Job → Bool
is_spent job = leb job.max_attempts job.attempts

nack_works :
    (env : Env) (backoff : ℕ → ℤ) (message : String) (db : Db) (job : Job) (worker_id : String)
    → IsWorking env
    → first (select (is_held job.id worker_id) db.jobs) ≡ some job
    → first (select (λ (j : Job). j.id == job.id) db.jobs) ≡ some job
    → (nack env backoff job.id worker_id (some message) db).0
      ≡ ok (
        nacked env backoff (some message) job,
        is_spent job,
        if is_spent job then pos 0 else backoff job.attempts,
      )
unfolding nack nack_body bury retry select_for_update update_returning finish_run insert_dead_letter
nack_works env backoff message db job worker_id live held one =
    elim (Bool-cases (leb job.max_attempts job.attempts)) [
      | inl spent ↦ ground (
        arith,
        spent,
        live.begin,
        live.statement 0,
        live.statement 1,
        live.statement 2,
        live.statement 3,
        live.commit,
        held,
        one,
      )
      | inr left ↦ ground (
        arith,
        left,
        live.begin,
        live.statement 0,
        live.statement 1,
        live.statement 2,
        live.commit,
        held,
        one,
      )
    ]

status_shown : (b : Bool) → nack_status b ≡ (if b then dead else failed)
status_shown b = ground arith

-- From a well-formed database, a job that a slot of a pool polled, and for which its handler
-- returns an error, is dead if its attempts have reached its budget and otherwise ready, to run at
-- the time of the Nack plus the backoff of its attempts to the nearest microsecond (a second if
-- that is not positive), whatever other calls came in between: if those were not made in the
-- worker's name and not after the lease ended, and the server answers the Nack, then execute
-- reports that row, the error's text, and the backoff or, of a dead job, zero, and the table holds
-- the row, with its lease gone and its attempts kept.
pub worker_fails :
    (env1 env2 : Env) (backoff : ℕ → ℤ) (p : Pool) (registry : Registry) (quote : String → String)
    (db : Db) (job : Job) (cs : List (Env × Call)) (message : String)
    → IsWellFormed db
    → (poll env1 p db).0 ≡ runs job
    → handle registry quote job ≡ some message
    → AllForeign p.worker_id (env1.now + interval_literal p.lease) cs
    → IsWorking env2
    → let r = execute env2 backoff p registry quote job (run (poll env1 p db).1 cs) in
      (row : Job) × (r.0
        ≡ some (
            job_failed row
              (is_spent job)
              (if is_spent job then pos 0 else backoff job.attempts)
              message
              (if is_spent job then dead else failed)))
      × (find_job job.id r.1.jobs ≡ some row)
      × IsNacked env2.now (backoff job.attempts) (some message) job row
unfolding execute finish report_nack
worker_fails env1 env2 backoff p registry quote db job cs message w h handled foreign live =
    let db2 = run (poll env1 p db).1 cs in
    let (w2, at, held) = still_held env1 p db job cs w h foreign in
    let one : first (select (λ (j : Job). j.id == job.id) db2.jobs) ≡ some job =
      first-select (λ j. j.id) (λ j. j.id == job.id) job.id (λ x q. ground arith) db2.jobs
        w2.jobs_keyed
      ∙ rw at (ground (arith, find_key (λ j. j.id) job.id db2.jobs job at)) in
    let nacks = nack_works env2 backoff message db2 job p.worker_id live held one in
    let after = (nack env2 backoff job.id p.worker_id (some message) db2).1 in
    let row = nacked env2 backoff (some message) job in
    let (old, at', _, _, _, e, there) =
      nack_returns env2 backoff (some message) db2 after job.id p.worker_id row (is_spent job)
        (if is_spent job then pos 0 else backoff job.attempts) w2.jobs_keyed
        (ap (λ (x : Result (Job × Bool × ℤ)). (x, after)) nacks) in
    rw handled (
      row,
      ap (report_nack message) nacks ∙ rw (status_shown (is_spent job)) refl,
      there,
      nacked-IsNacked env2 backoff (some message) job,
    )
