-- ===== src/Queue/Lifecycle.antt =====
-- The state machine of a job: what any call of the Queue can make of a job that is in the table.
use forge_queue.Prelude.{
  ℕ, ◌≡◌, refl, ◌==◌, inl, inr, if◌then◌else◌, Bool, true, false, some, List, [], ◌∷◌, ◌++◌, String,
  select, first, ℤ, arith, Bool-cases, ◌∙◌, sym, subst, false≢true,
}
use forge_queue.Tables.{Job, Status, ready, running, succeeded, failed, dead, Db}
use forge_queue.Tables.Rows.{update, find_job, has_id, is_ready, is_running, is_dead}
use forge_queue.Tables.Find.{
  applied, test, Distinct, find-update, find-append, find_key, first-select,
}
use forge_queue.Tx.{Env}
use forge_queue.Queue.Dequeue.{
  is_expired, reclaimed, is_eligible, claimed as claimed_job, interval_literal, or_default_queue,
}
use forge_queue.Queue.Settle.{
  is_held, acked, buried, retried, is_leased_by, extended, is_cancellable, cancelled, is_buried,
  requeued,
}
use forge_queue.Queue.Effects.{jobs_reclaimed, chosen, jobs_claimed}
use forge_queue.Queue.Inserts.{added, found}
use forge_queue.Queue.Claims.{row_claimed, find_reclaimed, find_claimed, chosen-eligible}
use forge_queue.Queue.History.{
  Effect, unchanged, tenanted, inserted, claimed, acknowledged, died, requeued_later, leased,
  withdrawn, revived, Call, step, step-Effect,
}

-- The edges of the state machine; within one Dequeue a running job with an expired lease can be
-- claimed again.
pub data Edge : Status → Status → Type 0 where
  stays : {s : Status} → Edge s s
  claims : Edge ready running
  returns : Edge running ready
  completes : Edge running succeeded
  dies : Edge running dead
  withdraws : Edge ready failed
  revives : Edge dead ready

-- What a job is, and never changes.
pub record SameJob (j j' : Job) : Type 0 where
  pub id : j'.id ≡ j.id
  pub tenant_id : j'.tenant_id ≡ j.tenant_id
  pub queue : j'.queue ≡ j.queue
  pub handler : j'.handler ≡ j.handler
  pub payload : j'.payload ≡ j.payload
  pub priority : j'.priority ≡ j.priority
  pub max_attempts : j'.max_attempts ≡ j.max_attempts
  pub idempotency_key : j'.idempotency_key ≡ j.idempotency_key
  pub created_at : j'.created_at ≡ j.created_at

abbrev pub is_terminal : Status → Bool
is_terminal succeeded = true
is_terminal failed = true
is_terminal _ = false

pub record Evolves (j j' : Job) : Type 0 where
  pub same : SameJob j j'
  pub edge : Edge j.status j'.status
  pub final : is_terminal j.status ≡ true → j' ≡ j

-- Each job of the first table is in the second, and has evolved.
abbrev pub AllEvolve : List Job → List Job → Type 0
AllEvolve js js' =
    (i : ℕ) (j : Job)
    → find_job i js ≡ some j
    → (j' : Job) × (find_job i js' ≡ some j') × Evolves j j'

Evolves-refl : (j : Job) → Evolves j j
Evolves-refl j = record { same = ground arith; edge = stays; final = λ t. refl }

abbrev KeepsId : (Job → Job) → Type 0
KeepsId f = (j : Job) → (f j).id ≡ j.id

AllEvolve-update :
    (p : Job → Bool) (f : Job → Job)
    → KeepsId f
    → (js : List Job) → ((j : Job) → find_job j.id js ≡ some j → p j ≡ true → Evolves j (f j))
    → AllEvolve js (update p f js)
AllEvolve-update p f keeps js evolves i j e = (
  applied p f j,
  find-update (λ j. j.id) p f keeps i js ∙ rw e refl,
  elim (Bool-cases (p j)) [
    | inl h ↦
        rw h (
          evolves j (subst (λ k. find_job k js ≡ some j) (sym (find_key (λ j. j.id) i js j e)) e) h)
    | inr h ↦ rw h (Evolves-refl j)
  ],
)

from_ready : {s t : Status} → is_ready s ≡ true → Edge ready t → Edge s t
from_ready {s = ready} h e = e
from_ready {s = running} h e = absurd (false≢true h)
from_ready {s = succeeded} h e = absurd (false≢true h)
from_ready {s = failed} h e = absurd (false≢true h)
from_ready {s = dead} h e = absurd (false≢true h)

from_running : {s t : Status} → is_running s ≡ true → Edge running t → Edge s t
from_running {s = running} h e = e
from_running {s = ready} h e = absurd (false≢true h)
from_running {s = succeeded} h e = absurd (false≢true h)
from_running {s = failed} h e = absurd (false≢true h)
from_running {s = dead} h e = absurd (false≢true h)

from_dead : {s t : Status} → is_dead s ≡ true → Edge dead t → Edge s t
from_dead {s = dead} h e = e
from_dead {s = ready} h e = absurd (false≢true h)
from_dead {s = running} h e = absurd (false≢true h)
from_dead {s = succeeded} h e = absurd (false≢true h)
from_dead {s = failed} h e = absurd (false≢true h)

AllEvolve-refl : (js : List Job) → AllEvolve js js
AllEvolve-refl js i j e = (j, e, Evolves-refl j)

AllEvolve-append : (js : List Job) (job : Job) → AllEvolve js (js ++ job ∷ [])
AllEvolve-append js job i j e = (j, find-append (λ j. j.id) i js job ∙ rw e refl, Evolves-refl j)

-- A row that a query by primary key has found.
module _ (p : Job → Bool) (i : ℕ) (only : (j : Job) → p j ≡ true → j.id ≡ i) where
  pub held_row :
      (js : List Job) (old : Job)
      → Distinct (λ j. j.id) js
      → first (select p js) ≡ some old
      → (find_job i js ≡ some old) × (p old ≡ true)
  held_row js old d e = ground (arith, first-select (λ j. j.id) p i only js d)

-- A row that Dequeue reclaims and claims at once stays running.
Evolves-Dequeue :
    (now lease : ℕ) (worker_id : String) (j : Job) (expired claim : Bool)
    → (expired ≡ true → is_running j.status ≡ true)
    → (claim ≡ true → is_ready (if expired then reclaimed now j else j).status ≡ true)
    → let waiting = if expired then reclaimed now j else j in
      Evolves j (if claim then claimed_job now worker_id lease waiting else waiting)
Evolves-Dequeue now lease worker_id j true true r e = record {
  same = ground arith;
  edge = from_running (r refl) stays;
  final = λ t. ground arith;
}
Evolves-Dequeue now lease worker_id j true false r e = record {
  same = ground arith;
  edge = from_running (r refl) returns;
  final = λ t. ground arith;
}
Evolves-Dequeue now lease worker_id j false true r e = record {
  same = ground arith;
  edge = from_ready (e refl) claims;
  final = λ t. ground arith;
}
Evolves-Dequeue now lease worker_id j false false r e = Evolves-refl j

AllEvolve-Dequeue :
    (env : Env) (queues : List String) (limit : ℤ) (worker_id : String) (lease : ℤ) (db : Db)
    → Distinct (λ j. j.id) db.jobs
    → AllEvolve db.jobs (jobs_claimed env queues limit worker_id lease db)
AllEvolve-Dequeue env queues limit worker_id lease db d i j e = (
  row_claimed env queues limit worker_id lease db i waiting,
  find_claimed env queues limit worker_id lease db i ∙ rw here refl,
  Evolves-Dequeue env.now (interval_literal lease) worker_id j (is_expired env.now j)
      (has_id i (chosen env queues limit db)) (λ x. ground arith)
      (λ picked. eligible_ready waiting (
        subst (λ o. test (is_eligible env (or_default_queue queues)) o ≡ true) here
          (chosen-eligible env queues limit db i d picked))),
)
  where
    waiting : Job
    waiting = applied (is_expired env.now) (reclaimed env.now) j

    here : find_job i (jobs_reclaimed env db) ≡ some waiting
    here = find_reclaimed env db i ∙ rw e refl

    eligible_ready :
        (k : Job) → is_eligible env (or_default_queue queues) k ≡ true → is_ready k.status ≡ true
    eligible_ready k h = ground arith

module _ (env : Env) (db db' : Db) (distinct : Distinct (λ j. j.id) db.jobs) where
  -- A job that Nack has read, and so holds.
  held_running :
      (job_id : ℕ) (worker_id : String) (old j : Job)
      → first (select (is_held job_id worker_id) db.jobs) ≡ some old
      → find_job j.id db.jobs ≡ some j
      → (j.id == job_id) ≡ true
      → is_running j.status ≡ true
  held_running job_id worker_id old j h at here =
      let (row, held) =
        held_row (is_held job_id worker_id) job_id (λ k p. ground arith) db.jobs old distinct h in
      let same : j.id ≡ job_id = ground arith in
      ground (arith, subst (λ i. find_job i db.jobs ≡ some j) same at)

  Effect-AllEvolve : Effect env db db' → AllEvolve db.jobs db'.jobs
  Effect-AllEvolve (unchanged e) = rw e (AllEvolve-refl db.jobs)
  Effect-AllEvolve (tenanted tenants e) = rw e (AllEvolve-refl db.jobs)
  Effect-AllEvolve (inserted tenants p job created (found _ _ _ e)) = rw e (AllEvolve-refl db.jobs)
  Effect-AllEvolve (inserted tenants p job created (added _ _ _ _ _ e)) =
      rw e (AllEvolve-append db.jobs job)
  Effect-AllEvolve (claimed queues limit worker_id lease e _) =
      rw e (AllEvolve-Dequeue env queues limit worker_id lease db distinct)
  Effect-AllEvolve (acknowledged job_id worker_id old h e) = rw e (
      AllEvolve-update (is_held job_id worker_id) (acked env.now) (λ j. refl) db.jobs
        (λ j at held. record {
          same = ground arith;
          edge = from_running (ground arith) completes;
          final = λ t. ground arith;
        }))
  Effect-AllEvolve (died job_id worker_id message old h e) = rw e (
      AllEvolve-update (λ j. j.id == job_id) (buried env.now message) (λ j. refl) db.jobs
        (λ j at held. record {
          same = ground arith;
          edge = from_running (held_running job_id worker_id old j h at held) dies;
          final = λ t. ground (arith, held_running job_id worker_id old j h at held);
        }))
  Effect-AllEvolve (requeued_later job_id worker_id delay message old h e) = rw e (
      AllEvolve-update (λ j. j.id == job_id) (retried env.now delay message) (λ j. refl) db.jobs
        (λ j at held. record {
          same = ground arith;
          edge = from_running (held_running job_id worker_id old j h at held) returns;
          final = λ t. ground (arith, held_running job_id worker_id old j h at held);
        }))
  Effect-AllEvolve (leased job_id worker_id lease e) = rw e (
      AllEvolve-update (is_leased_by job_id worker_id) (extended env.now lease) (λ j. refl) db.jobs
        (λ j at held. record { same = ground arith; edge = stays; final = λ t. ground arith }))
  Effect-AllEvolve (withdrawn job_id e) = rw e (
      AllEvolve-update (is_cancellable job_id) (cancelled env.now) (λ j. refl) db.jobs
        (λ j at held. record {
          same = ground arith;
          edge = from_ready (ground arith) withdraws;
          final = λ t. ground arith;
        }))
  Effect-AllEvolve (revived job_id e) = rw e (
      AllEvolve-update (is_buried job_id) (requeued env.now) (λ j. refl) db.jobs
        (λ j at held. record {
          same = ground arith;
          edge = from_dead (ground arith) revives;
          final = λ t. ground arith;
        }))

-- Where job ids are distinct, no call loses a job or changes what it is; each call takes each job
-- along an edge of the state machine or leaves its status, and leaves the row of a succeeded or
-- failed job as it is.
pub step-AllEvolve :
    (env : Env) (c : Call) (db : Db)
    → Distinct (λ j. j.id) db.jobs
    → AllEvolve db.jobs (step env c db).jobs
step-AllEvolve env c db d = Effect-AllEvolve env db (step env c db) d (step-Effect env c db)
