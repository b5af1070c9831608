-- ===== src/Worker/Heartbeat.antt =====
-- The heartbeat of internal/worker/pool.go, and the lease that it keeps.
use forge_queue.Prelude.{
  ℕ, ◌+◌, ◌≤◌, ◌≡◌, refl, eq_iff, true, some, List, [], ◌∷◌, select, first, arith, ◌∙◌, ap,
}
use forge_queue.Tables.{Job, Db}
use forge_queue.Tables.Rows.{find_job, update}
use forge_queue.Tables.Find.{first-select, find-update, find_key}
use forge_queue.Tx.{Env, works}
use forge_queue.Queue.Dequeue.{interval_literal}
use forge_queue.Queue.Settle.{is_leased_by, extended, extend_lease, extend_body}
use forge_queue.Queue.History.{Call, extends, step, run}
use forge_queue.Queue.Leases.{IsForeign, IsLeased, step-Kept}
use forge_queue.Queue.WellFormed.{IsWellFormed}
use forge_queue.Queue.WellFormed.Step.{step-IsWellFormed}
use forge_queue.Worker.{Pool}

-- A history in which a worker attends to its job: its calls are beats that the server answers,
-- and calls that are not made in the worker's name, up to the end that the last beat gave the lease.
pub data Attended (p : Pool) (i : ℕ) : ℕ → List (Env × Call) → ℕ → Type 0 where
  rests : {until : ℕ} → Attended p i until [] until
  passes :
      {until later : ℕ} {env : Env} {c : Call} {cs : List (Env × Call)}
      → env.now ≤ until
      → IsForeign p.worker_id c
      → Attended p i until cs later
      → Attended p i until ((env, c) ∷ cs) later
  beats :
      {until later : ℕ} {env : Env} {cs : List (Env × Call)}
      → env.statement 0 ≡ works
      → Attended p i (env.now + interval_literal p.lease) cs later
      → Attended p i until ((env, extends i p.worker_id p.lease) ∷ cs) later

module _ (env : Env) (p : Pool) (db : Db) (w : IsWellFormed db) (i until : ℕ) (j : Job)
    (l : IsLeased p.worker_id until j) (here : find_job i db.jobs ≡ some j)
    (live : env.statement 0 ≡ works) where
  held : is_leased_by i p.worker_id j ≡ true
  held = ground (
    arith,
    l.busy,
    l.owner,
    find_key (λ x. x.id) i db.jobs j here,
    (eq_iff p.worker_id p.worker_id).1 refl,
  )

  leased_row : first (select (is_leased_by i p.worker_id) db.jobs) ≡ some j
  leased_row =
      first-select (λ x. x.id) (is_leased_by i p.worker_id) i (λ x h. ground arith) db.jobs
        w.jobs_keyed
      ∙ rw here (rw held refl)

  beat_jobs :
      (extend_lease env i p.worker_id p.lease db).1.jobs
      ≡ update (is_leased_by i p.worker_id) (extended env.now (interval_literal p.lease)) db.jobs
  unfolding extend_lease extend_body
  beat_jobs = ground (arith, leased_row, live)

  beaten :
      find_job i (step env (extends i p.worker_id p.lease) db).jobs
      ≡ some (extended env.now (interval_literal p.lease) j)
  unfolding step
  beaten =
      ap (find_job i) beat_jobs
      ∙ find-update (λ x. x.id) (is_leased_by i p.worker_id)
          (extended env.now (interval_literal p.lease)) (λ x. refl) i db.jobs
      ∙ rw here (rw held refl)

-- From a well-formed database, a worker that attends to its leased job keeps it: after a history
-- of its beats, which the server answers, and of calls not made in its name, none of them later
-- than the end that the last beat gave the lease, the job runs under its lease, up to the end
-- given by the last beat, and with no further attempt.
pub Attended-IsLeased :
    (p : Pool) (i until later : ℕ) (cs : List (Env × Call)) (db : Db) (j : Job)
    → IsWellFormed db
    → IsLeased p.worker_id until j
    → find_job i db.jobs ≡ some j
    → Attended p i until cs later
    → (j' : Job) × (find_job i (run db cs).jobs ≡ some j')
      × IsLeased p.worker_id later j'
      × (j'.attempts ≡ j.attempts)
unfolding run
Attended-IsLeased p i until later [] db j w l here rests = (j, here, l, refl)
Attended-IsLeased p i until later ((env, c) ∷ cs) db j w l here (passes t f rest) =
    Attended-IsLeased p i until later cs (step env c db) j (step-IsWellFormed env c db w) l
      (step-Kept env db w p.worker_id until i j l here c t f) rest
Attended-IsLeased p i until later ((env, c) ∷ cs) db j w l here (beats live rest) =
    Attended-IsLeased p i (env.now + interval_literal p.lease) later cs (step env c db)
      (extended env.now (interval_literal p.lease) j) (step-IsWellFormed env c db w)
      (record { busy = l.busy; owner = l.owner; term = refl })
      (beaten env p db w i until j l here live) rest
