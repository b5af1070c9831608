-- ===== src/Queue/Leases.antt =====
-- Leases of internal/queue/postgres.go: what calls that are not made in the holder's name do to a
-- job that is under one.
use forge_queue.Prelude.{
  ℕ, ◌≡◌, refl, ◌≤◌, ◌==◌, inl, inr, leb, String, str_eq, Bool, true, false, Option, some, List, [],
  ◌∷◌, ◌++◌, arith, ◌∙◌, subst, ap, Bool-cases, ℤ,
}
use forge_queue.Tables.{Tenant, Job, Db}
use forge_queue.Tables.Rows.{update, find_job, is_running, has_id}
use forge_queue.Tables.Find.{test, find-update, find_key, find-append}
use forge_queue.Tx.{Env}
use forge_queue.Tx.Laws.{transact_cases, autocommit_cases}
use forge_queue.Queue.Dequeue.{
  is_eligible, interval_literal, or_default_queue, dequeue, dequeue_body,
}
use forge_queue.Queue.Settle.{
  is_held, acked, is_leased_by, extended, is_cancellable, cancelled, is_buried, requeued,
  error_string, extend_body, cancel_body, ack, nack, extend_lease, cancel, requeue_dlq, ack_body,
  nack_body, requeue_body,
}
use forge_queue.Queue.Effects.{
  jobs_reclaimed, chosen, jobs_claimed, ack_body-ok, nack_body-ok, nack_jobs, requeue_body-ok,
  extend_body-ok, cancel_body-ok, dequeue_body-ok,
}
use forge_queue.Queue.Inserts.{Inserts, added, found}
use forge_queue.Queue.History.{
  Call, enqueues, dequeues, acks, nacks, extends, cancels, requeues, step, run, enqueue_cases,
}
use forge_queue.Queue.Claims.{row_claimed, find_reclaimed, find_claimed, chosen-eligible}
use forge_queue.Queue.Lifecycle.{held_row}
use forge_queue.Queue.Enqueue.{enqueue}
use forge_queue.Queue.Params.{EnqueueParams}
use forge_queue.Queue.WellFormed.{IsWellFormed}
use forge_queue.Queue.WellFormed.Step.{step-IsWellFormed}

-- A worker name under which a call cannot reach another worker's lease; '' reaches all.
abbrev pub IsOther : String → String → Type 0
IsOther holder worker_id = (str_eq worker_id "" ≡ false) × (str_eq holder worker_id ≡ false)

-- A call that is not made in the name of the lease's holder.
abbrev pub IsForeign : String → Call → Type 0
IsForeign holder (acks job_id worker_id) = IsOther holder worker_id
IsForeign holder (nacks backoff job_id worker_id cause) = IsOther holder worker_id
IsForeign holder (extends job_id worker_id lease) = IsOther holder worker_id
IsForeign holder _ = Unit

pub record IsLeased (holder : String) (until : ℕ) (j : Job) : Type 0 where
  pub busy : is_running j.status ≡ true
  pub owner : j.locked_by ≡ some holder
  pub term : j.locked_until ≡ some until

-- A row that an update does not select.
pub missed :
    (p : Job → Bool) (f : Job → Job) (i : ℕ) (js : List Job) (j : Job)
    → ((x : Job) → (f x).id ≡ x.id)
    → find_job i js ≡ some j
    → p j ≡ false
    → find_job i (update p f js) ≡ some j
missed p f i js j id e miss = find-update (λ x. x.id) p f id i js ∙ rw e (rw miss refl)

module _ (env : Env) (db : Db) (w : IsWellFormed db) (holder : String) (until : ℕ) (i : ℕ) (j : Job)
    (l : IsLeased holder until j) (here : find_job i db.jobs ≡ some j) where
  abbrev Kept : Db → Type 0
  Kept db' = find_job i db'.jobs ≡ some j

  Kept-update :
      (p : Job → Bool) (f : Job → Job) (db' : Db)
      → ((x : Job) → (f x).id ≡ x.id)
      → p j ≡ false
      → db'.jobs ≡ update p f db.jobs
      → Kept db'
  Kept-update p f db' id miss e = rw e (missed p f i db.jobs j id here miss)

  dequeue_kept :
      (queues : List String) (limit : ℤ) (worker_id : String) (lease : ℤ)
      → env.now ≤ until
      → find_job i (jobs_claimed env queues limit worker_id lease db) ≡ some j
  dequeue_kept queues limit worker_id lease t =
      find_claimed env queues limit worker_id lease db i
      ∙ rw reclaim (stays (has_id i (chosen env queues limit db)) refl)
    where
      reclaim : find_job i (jobs_reclaimed env db) ≡ some j
      reclaim = find_reclaimed env db i ∙ rw here (ground (arith, l.busy, l.term))

      stays :
          (b : Bool)
          → has_id i (chosen env queues limit db) ≡ b
          → some (row_claimed env queues limit worker_id lease db i j) ≡ some j
      stays false e = rw e refl
      stays true e =
          let eligible =
            subst (λ o. test (is_eligible env (or_default_queue queues)) o ≡ true) reclaim
              (chosen-eligible env queues limit db i w.jobs_keyed e) in
          ground (arith, l.busy)

  enqueue-Kept : (params : EnqueueParams) → Kept (enqueue env params db).1
  enqueue-Kept params = enqueue_cases Kept env db (λ tenants. here) (grown) params
    where
      grown :
          (tenants : List Tenant) (p : EnqueueParams) (job : Job) (created : Bool) (db' : Db)
          → Inserts env p (record db { tenants = db.tenants ++ tenants }) job created db'
          → Kept db'
      grown tenants p job created db' (found _ _ _ e) = rw e here
      grown tenants p job created db' (added _ _ _ _ _ e) =
          rw e (find-append (λ x. x.id) i db.jobs job ∙ rw here refl)

  dequeue_call-Kept :
      (queues : List String) (limit : ℤ) (worker_id : String) (lease : ℤ)
      → env.now ≤ until
      → Kept (dequeue env queues limit worker_id lease db).1
  unfolding dequeue
  dequeue_call-Kept queues limit worker_id lease t =
      transact_cases Kept env (dequeue_body env queues limit worker_id lease) db here λ jobs db' h.
        rw (dequeue_body-ok env queues limit worker_id lease db h).1
          (dequeue_kept queues limit worker_id lease t)

  ack-Kept :
      (job_id : ℕ) (worker_id : String)
      → IsOther holder worker_id
      → Kept (ack env job_id worker_id db).1
  unfolding ack
  ack-Kept job_id worker_id f =
      transact_cases Kept env (ack_body env job_id worker_id) db here λ job db' h.
        let (_, _, _, e) = ack_body-ok env job_id worker_id db h in
        Kept-update (is_held job_id worker_id) (acked env.now) db' (λ x. refl)
          (ground (arith, l.owner, f.0, f.1)) (ap (λ (x : Db). x.jobs) e)

  nack-Kept :
      (backoff : ℕ → ℤ) (job_id : ℕ) (worker_id : String) (cause : Option String)
      → IsOther holder worker_id
      → Kept (nack env backoff job_id worker_id cause db).1
  unfolding nack
  nack-Kept backoff job_id worker_id cause f =
      transact_cases Kept env (nack_body env backoff job_id worker_id cause) db here λ x db' h.
        let (old, first_row, ends) = nack_body-ok env backoff job_id worker_id cause db h in
        let (row, held) =
          held_row (is_held job_id worker_id) job_id (λ x p. ground arith) db.jobs old w.jobs_keyed
            first_row in
        let (g, id, e) =
          nack_jobs env job_id (backoff old.attempts) (error_string cause) db
            (leb old.max_attempts old.attempts) ends in
        Kept-update (λ x. x.id == job_id) g db' id
          (elim (Bool-cases (j.id == job_id)) [
            | inr other ↦ other
            | inl same ↦
                let at : find_job job_id db.jobs ≡ some j =
                  subst (λ n. find_job n db.jobs ≡ some j)
                    (ground (arith, find_key (λ x. x.id) i db.jobs j here)) here in
                absurd (ground (arith, l.owner, f.0, f.1))
          ])
          e

  extend-Kept :
      (job_id : ℕ) (worker_id : String) (lease : ℤ)
      → IsOther holder worker_id
      → Kept (extend_lease env job_id worker_id lease db).1
  unfolding extend_lease
  extend-Kept job_id worker_id lease f =
      autocommit_cases Kept (env.statement 0) (extend_body env job_id worker_id lease) db here
        λ u db' h.
          Kept-update (is_leased_by job_id worker_id) (extended env.now (interval_literal lease))
            db' (λ x. refl) (ground (arith, l.owner, f.1))
            (ap (λ (x : Db). x.jobs) (extend_body-ok env job_id worker_id lease db h).2)

  cancel-Kept : (job_id : ℕ) → Kept (cancel env job_id db).1
  unfolding cancel
  cancel-Kept job_id =
      autocommit_cases Kept (env.statement 0) (cancel_body env job_id) db here λ job db' h.
        Kept-update (is_cancellable job_id) (cancelled env.now) db' (λ x. refl)
          (ground (arith, l.busy)) (ap (λ (x : Db). x.jobs) (cancel_body-ok env job_id db h).3)

  requeue-Kept : (job_id : ℕ) → Kept (requeue_dlq env job_id db).1
  unfolding requeue_dlq
  requeue-Kept job_id = transact_cases Kept env (requeue_body env job_id) db here λ job db' h.
      Kept-update (is_buried job_id) (requeued env.now) db' (λ x. refl) (ground (arith, l.busy))
        (ap (λ (x : Db). x.jobs) (requeue_body-ok env job_id db h).3)

  pub step-Kept : (c : Call) → env.now ≤ until → IsForeign holder c → Kept (step env c db)
  unfolding step
  step-Kept (enqueues params) t f = enqueue-Kept params
  step-Kept (dequeues queues limit worker_id lease) t f =
      dequeue_call-Kept queues limit worker_id lease t
  step-Kept (acks job_id worker_id) t f = ack-Kept job_id worker_id f
  step-Kept (nacks backoff job_id worker_id cause) t f = nack-Kept backoff job_id worker_id cause f
  step-Kept (extends job_id worker_id lease) t f = extend-Kept job_id worker_id lease f
  step-Kept (cancels job_id) t f = cancel-Kept job_id
  step-Kept (requeues job_id) t f = requeue-Kept job_id

-- A history of foreign calls, all at times up to the end of the lease.
abbrev pub AllForeign : String → ℕ → List (Env × Call) → Type 0
AllForeign holder until [] = Unit
AllForeign holder until ((env, c) ∷ cs) =
    (env.now ≤ until) × IsForeign holder c × AllForeign holder until cs

-- In a well-formed database, while its lease lasts, a running job's row is not changed by any
-- history of calls that are not made in the holder's name: no other worker claims, settles or
-- extends it, and it is not cancelled or requeued. Ack and Nack with an empty worker name count as
-- made in the holder's name.
pub lease_exclusive :
    (cs : List (Env × Call)) (db : Db) (holder : String) (until : ℕ) (i : ℕ) (j : Job)
    → IsWellFormed db
    → IsLeased holder until j
    → find_job i db.jobs ≡ some j
    → AllForeign holder until cs
    → find_job i (run db cs).jobs ≡ some j
unfolding run
lease_exclusive [] db holder until i j w l e f = e
lease_exclusive ((env, c) ∷ cs) db holder until i j w l e f =
    lease_exclusive cs (step env c db) holder until i j (step-IsWellFormed env c db w) l
      (step-Kept env db w holder until i j l e c f.0 f.1) f.2
