-- ===== src/Queue/Traces.antt =====
-- What a whole history of calls leaves of a job.
use forge_queue.Prelude.{ℕ, ◌≡◌, true, some, List, [], ◌∷◌, arith, ◌∙◌, ap}
use forge_queue.Tables.{Job, Db}
use forge_queue.Tables.Rows.{find_job}
use forge_queue.Tx.{Env}
use forge_queue.Queue.History.{Call, step, run}
use forge_queue.Queue.Lifecycle.{SameJob, is_terminal, step-AllEvolve}
use forge_queue.Queue.WellFormed.{IsWellFormed}
use forge_queue.Queue.WellFormed.Step.{step-IsWellFormed}

pub SameJob-refl : (j : Job) → SameJob j j
SameJob-refl j = ground arith

pub SameJob-trans : (a b c : Job) → SameJob a b → SameJob b c → SameJob a c
SameJob-trans a b c p q = ground arith

-- From a well-formed database, a history of calls loses no job and never changes what it is: its
-- id, tenant, queue, handler, payload, priority, retry budget, idempotency key and time of
-- creation.
pub run-SameJob :
    (cs : List (Env × Call)) (db : Db) (i : ℕ) (j : Job)
    → IsWellFormed db
    → find_job i db.jobs ≡ some j
    → (j' : Job) × (find_job i (run db cs).jobs ≡ some j') × SameJob j j'
unfolding run
run-SameJob [] db i j w e = (j, e, SameJob-refl j)
run-SameJob ((env, c) ∷ cs) db i j w e =
    let (j1, e1, v) = step-AllEvolve env c db w.jobs_keyed i j e in
    let (j2, e2, same) = run-SameJob cs (step env c db) i j1 (step-IsWellFormed env c db w) e1 in
    (j2, e2, SameJob-trans j j1 j2 v.same same)

-- In a well-formed database, a job that has succeeded, or was cancelled, is final: no history of
-- calls changes anything of its row.
pub run_terminal :
    (cs : List (Env × Call)) (db : Db) (i : ℕ) (j : Job)
    → IsWellFormed db
    → find_job i db.jobs ≡ some j
    → is_terminal j.status ≡ true
    → find_job i (run db cs).jobs ≡ some j
unfolding run
run_terminal [] db i j w e t = e
run_terminal ((env, c) ∷ cs) db i j w e t =
    let (j1, e1, v) = step-AllEvolve env c db w.jobs_keyed i j e in
    run_terminal cs (step env c db) i j (step-IsWellFormed env c db w) (e1 ∙ ap some (v.final t)) t
