-- ===== src/Queue/Spec/Refines.antt =====
-- The calls of internal/queue/postgres.go as steps of the abstract machine.
use forge_queue.Prelude.{
  ℕ, ◌+◌, ◌≡◌, refl, ◌==◌, leb, String, eq_iff, Bool, true, false, Option, none, some, List, [],
  ◌∷◌, ◌++◌, ℤ, if◌then◌else◌, select, first, arith, ◌∙◌, sym, ap, subst, Bool-cases, inl, inr,
}
use forge_queue.Tables.{Job, Status, Db, Tenant}
use forge_queue.Tables.Rows.{update, find_job, is_ready, is_running, is_dead, has_id}
use forge_queue.Tables.Find.{applied, map_row, test, find-update, find_key, find-append}
use forge_queue.Tables.Member.{All-In, find-In}
use forge_queue.Tx.{Env, ok}
use forge_queue.Tx.Laws.{transact_cases, autocommit_cases}
use forge_queue.Queue.Params.{EnqueueParams}
use forge_queue.Queue.Enqueue.{enqueue}
use forge_queue.Queue.Dequeue.{
  is_expired, reclaimed, is_eligible, claimed, interval_literal, or_default_queue, dequeue,
  dequeue_body,
}
use forge_queue.Queue.Settle.{
  is_held, acked, buried as buried_job, retried, is_leased_by, extended, is_cancellable, cancelled,
  is_buried, requeued, error_string, ack, nack, extend_lease, cancel, requeue_dlq, ack_body,
  nack_body, extend_body, cancel_body, requeue_body, bury, retry,
}
use forge_queue.Queue.Effects.{
  jobs_reclaimed, chosen, jobs_claimed, ack_body-ok, nack_body-ok, bury-ok, retry-ok,
  requeue_body-ok, extend_body-ok, cancel_body-ok, dequeue_body-ok,
}
use forge_queue.Queue.Inserts.{Inserts, added, found}
use forge_queue.Queue.History.{
  Call, enqueues, dequeues, acks, nacks, extends, cancels, requeues, step, run, enqueue_cases,
}
use forge_queue.Queue.Claims.{row_claimed, find_reclaimed, find_claimed, chosen-eligible}
use forge_queue.Queue.Lifecycle.{held_row}
use forge_queue.Queue.WellFormed.{IsWellFormed, IsShaped}
use forge_queue.Queue.WellFormed.Step.{step-IsWellFormed}
use forge_queue.Queue.Spec.{
  Phase, waiting, leased, View, Moves, idles, claims, expires, takes_over, completes, retries, dies,
  renews, withdraws, revives, Goes, stays_away, comes, goes, Runs, halts, takes, holder_of,
  until_of, phase_of, view, abstract,
}

pub running_phase :
    (s : Status) (by : Option String) (until : Option ℕ)
    → is_running s ≡ true
    → phase_of s by until ≡ leased (holder_of by) (until_of until)
running_phase s by until h = ground arith

ready_phase :
    (s : Status) (by : Option String) (until : Option ℕ)
    → is_ready s ≡ true
    → phase_of s by until ≡ waiting
ready_phase s by until h = ground arith

dead_phase :
    (s : Status) (by : Option String) (until : Option ℕ)
    → is_dead s ≡ true
    → phase_of s by until ≡ Phase.buried
dead_phase s by until h = ground arith

unmoved : (env : Env) (i : ℕ) (c : Call) (o : Option View) → Goes env i o c o
unmoved env i c none = stays_away
unmoved env i c (some v) = goes idles

module _ (env : Env) (db : Db) (w : IsWellFormed db) (i : ℕ) where
  -- A call that updates rows, if each update is a step of the machine.
  update-Goes :
      (c : Call) (p : Job → Bool) (f : Job → Job) (db' : Db)
      → ((x : Job) → (f x).id ≡ x.id)
      → ((j : Job) → find_job i db.jobs ≡ some j → p j ≡ true → Moves env i (view j) c (view (f j)))
      → db'.jobs ≡ update p f db.jobs
      → Goes env i (abstract db i) c (abstract db' i)
  update-Goes c p f db' id moves e =
      rw (e, find-update (λ x. x.id) p f id i db.jobs) (by_row (find_job i db.jobs) refl)
    where
      by_row :
          (o : Option Job)
          → find_job i db.jobs ≡ o
          → Goes env i (map_row view o) c (map_row view (map_row (applied p f) o))
      by_row none e = stays_away
      by_row (some j) e =
          goes (elim (Bool-cases (p j)) [ inl h ↦ rw h (moves j e h) | inr h ↦ rw h idles ])

  shape : (j : Job) → find_job i db.jobs ≡ some j → IsShaped j
  shape j e = All-In IsShaped j db.jobs w.shaped (find-In i db.jobs j e)

  ack-Goes :
      (job_id : ℕ) (worker_id : String)
      → Goes env i
          (abstract db i)
          (acks job_id worker_id)
          (abstract (ack env job_id worker_id db).1 i)
  unfolding ack
  ack-Goes job_id worker_id =
      transact_cases
        (λ after. Goes env i (abstract db i) (acks job_id worker_id) (abstract after i)) env
        (ack_body env job_id worker_id) db (unmoved env i (acks job_id worker_id) (abstract db i))
        λ job db' h.
          let (_, _, _, e) = ack_body-ok env job_id worker_id db h in
          update-Goes (acks job_id worker_id) (is_held job_id worker_id) (acked env.now) db'
            (λ x. refl)
            (λ j at held.
              let same : job_id ≡ i = ground (arith, find_key (λ x. x.id) i db.jobs j at) in
              let s = shape j at in
              rw same (
                completes {worker_id = worker_id} (holder_of j.locked_by) (until_of j.locked_until)
                  (running_phase j.status j.locked_by j.locked_until (ground arith))
                  (ground (arith, s.0))))
            (ap (λ (x : Db). x.jobs) e)

  -- The row that a Nack has read is the row that it updates.
  nack_end-Goes :
      (backoff : ℕ → ℤ) (worker_id : String) (cause : Option String) (job_id : ℕ) (old : Job)
      (b : Bool) (db' : Db) {x : Job × Bool × ℤ}
      → first (select (is_held job_id worker_id) db.jobs) ≡ some old
      → leb old.max_attempts old.attempts ≡ b
      → (if b
          then bury env job_id (error_string cause) db
          else retry env job_id (backoff old.attempts) (error_string cause) db)
        ≡ ok (x, db')
      → Goes env i (abstract db i) (nacks backoff job_id worker_id cause) (abstract db' i)
  nack_end-Goes backoff worker_id cause job_id old b db' {x} read spent h = by_end b spent h
    where
      found_old : (find_job job_id db.jobs ≡ some old) × (is_held job_id worker_id old ≡ true)
      found_old =
          held_row (is_held job_id worker_id) job_id (λ y p. ground arith) db.jobs old w.jobs_keyed
            read

      same_row :
          (j : Job)
          → find_job i db.jobs ≡ some j
          → (j.id == job_id) ≡ true
          → (job_id ≡ i) × (j ≡ old)
      same_row j at h =
          let same : job_id ≡ i = ground (arith, find_key (λ y. y.id) i db.jobs j at) in
          let again : find_job i db.jobs ≡ some old =
            subst (λ n. find_job n db.jobs ≡ some old) same found_old.0 in
          (same, ground (arith, at, again))

      by_end :
          (b : Bool)
          → leb old.max_attempts old.attempts ≡ b
          → (if b
              then bury env job_id (error_string cause) db
              else retry env job_id (backoff old.attempts) (error_string cause) db)
            ≡ ok (x, db')
          → Goes env i (abstract db i) (nacks backoff job_id worker_id cause) (abstract db' i)
      by_end true spent h =
          let (_, _, _, _, e) = bury-ok env job_id (error_string cause) db h in
          update-Goes (nacks backoff job_id worker_id cause) (λ y. y.id == job_id)
            (buried_job env.now (error_string cause)) db' (λ y. refl)
            (λ j at held.
              let (same, row) = same_row j at held in
              let s = shape j at in
              let ours : is_held job_id worker_id j ≡ true = rw row found_old.1 in
              rw same (
                dies {worker_id = worker_id} (holder_of j.locked_by) (until_of j.locked_until)
                  (running_phase j.status j.locked_by j.locked_until (ground arith))
                  (ground (arith, s.0)) (rw row (ground arith))))
            (ap (λ (y : Db). y.jobs) e)
      by_end false spent h =
          let (_, _, _, _, _, e) =
            retry-ok env job_id (backoff old.attempts) (error_string cause) db h in
          update-Goes (nacks backoff job_id worker_id cause) (λ y. y.id == job_id)
            (retried env.now (interval_literal (backoff old.attempts)) (error_string cause)) db'
            (λ y. refl)
            (λ j at held.
              let (same, row) = same_row j at held in
              let s = shape j at in
              let ours : is_held job_id worker_id j ≡ true = rw row found_old.1 in
              rw same (
                retries {worker_id = worker_id} (holder_of j.locked_by) (until_of j.locked_until)
                  (running_phase j.status j.locked_by j.locked_until (ground arith))
                  (ground (arith, s.0)) (rw row (ground arith))))
            (ap (λ (y : Db). y.jobs) e)

  nack-Goes :
      (backoff : ℕ → ℤ) (job_id : ℕ) (worker_id : String) (cause : Option String)
      → Goes env i
          (abstract db i)
          (nacks backoff job_id worker_id cause)
          (abstract (nack env backoff job_id worker_id cause db).1 i)
  unfolding nack
  nack-Goes backoff job_id worker_id cause =
      transact_cases
        (λ after.
          Goes env i (abstract db i) (nacks backoff job_id worker_id cause) (abstract after i))
        env (nack_body env backoff job_id worker_id cause) db
        (unmoved env i (nacks backoff job_id worker_id cause) (abstract db i))
        λ x db' h.
          let (old, read, ends) = nack_body-ok env backoff job_id worker_id cause db h in
          nack_end-Goes backoff worker_id cause job_id old (leb old.max_attempts old.attempts) db'
            read refl ends

  extend-Goes :
      (job_id : ℕ) (worker_id : String) (lease : ℤ)
      → Goes env i
          (abstract db i)
          (extends job_id worker_id lease)
          (abstract (extend_lease env job_id worker_id lease db).1 i)
  unfolding extend_lease
  extend-Goes job_id worker_id lease =
      autocommit_cases
        (λ after. Goes env i (abstract db i) (extends job_id worker_id lease) (abstract after i))
        (env.statement 0) (extend_body env job_id worker_id lease) db
        (unmoved env i (extends job_id worker_id lease) (abstract db i))
        λ u db' h.
          update-Goes (extends job_id worker_id lease) (is_leased_by job_id worker_id)
            (extended env.now (interval_literal lease)) db' (λ x. refl)
            (λ j at held.
              let same : job_id ≡ i = ground (arith, find_key (λ x. x.id) i db.jobs j at) in
              let ours : holder_of j.locked_by ≡ worker_id =
                ground (arith, eq_iff (holder_of j.locked_by) worker_id) in
              rw same (extended_view j worker_id lease (ground arith) ours))
            (ap (λ (x : Db). x.jobs) (extend_body-ok env job_id worker_id lease db h).2)
    where
      extended_view :
          (j : Job) (worker_id : String) (lease : ℤ)
          → is_running j.status ≡ true
          → holder_of j.locked_by ≡ worker_id
          → Moves env i
              (view j)
              (extends i worker_id lease)
              (view (extended env.now (interval_literal lease) j))
      extended_view j worker_id lease runs ours =
          subst
            (λ p. Moves env i (view j) (extends i worker_id lease) (record (view j) { phase = p }))
            (sym (phase_now (some (env.now + interval_literal lease))))
            (renews (until_of j.locked_until) (phase_now j.locked_until))
        where
          phase_now :
              (until : Option ℕ)
              → phase_of j.status j.locked_by until ≡ leased worker_id (until_of until)
          phase_now until =
              running_phase j.status j.locked_by until runs
              ∙ ap (λ h. leased h (until_of until)) ours

  cancel-Goes :
      (job_id : ℕ)
      → Goes env i (abstract db i) (cancels job_id) (abstract (cancel env job_id db).1 i)
  unfolding cancel
  cancel-Goes job_id =
      autocommit_cases (λ after. Goes env i (abstract db i) (cancels job_id) (abstract after i))
        (env.statement 0) (cancel_body env job_id) db
        (unmoved env i (cancels job_id) (abstract db i))
        λ job db' h.
          update-Goes (cancels job_id) (is_cancellable job_id) (cancelled env.now) db' (λ x. refl)
            (λ j at held.
              let same : job_id ≡ i = ground (arith, find_key (λ x. x.id) i db.jobs j at) in
              rw same (withdraws (ready_phase j.status j.locked_by j.locked_until (ground arith))))
            (ap (λ (x : Db). x.jobs) (cancel_body-ok env job_id db h).3)

  requeue-Goes :
      (job_id : ℕ)
      → Goes env i (abstract db i) (requeues job_id) (abstract (requeue_dlq env job_id db).1 i)
  unfolding requeue_dlq
  requeue-Goes job_id =
      transact_cases (λ after. Goes env i (abstract db i) (requeues job_id) (abstract after i)) env
        (requeue_body env job_id) db (unmoved env i (requeues job_id) (abstract db i))
        λ job db' h.
          update-Goes (requeues job_id) (is_buried job_id) (requeued env.now) db' (λ x. refl)
            (λ j at held.
              let same : job_id ≡ i = ground (arith, find_key (λ x. x.id) i db.jobs j at) in
              rw same (revives (dead_phase j.status j.locked_by j.locked_until (ground arith))))
            (ap (λ (x : Db). x.jobs) (requeue_body-ok env job_id db h).3)

  enqueue-Goes :
      (params : EnqueueParams)
      → Goes env i (abstract db i) (enqueues params) (abstract (enqueue env params db).1 i)
  enqueue-Goes params =
      enqueue_cases (λ after. Goes env i (abstract db i) (enqueues params) (abstract after i)) env
        db (λ tenants. unmoved env i (enqueues params) (abstract db i)) grown params
    where
      grown :
          (tenants : List Tenant) (p : EnqueueParams) (job : Job) (created : Bool) (db' : Db)
          → Inserts env p (record db { tenants = db.tenants ++ tenants }) job created db'
          → Goes env i (abstract db i) (enqueues params) (abstract db' i)
      grown tenants p job created db' (found _ _ _ e) =
          rw e (unmoved env i (enqueues params) (abstract db i))
      grown tenants p job created db' (added new _ _ _ _ e) =
          rw (e, find-append (λ x. x.id) i db.jobs job) (by_row (find_job i db.jobs) (job.id == i))
        where
          by_row :
              (o : Option Job) (b : Bool)
              → Goes env i
                  (map_row view o)
                  (enqueues params)
                  (map_row view (elim o [ some x ↦ some x | none ↦ if b then some job else none ]))
          by_row (some j) b = goes idles
          by_row none true = comes (rw new.status refl) new.attempts new.budget
          by_row none false = stays_away

  -- Dequeue reclaims the row where its lease has expired, and claims it where it has picked it.
  dequeued_view :
      (queues : List String) (limit : ℤ) (worker_id : String) (lease : ℤ) (j : Job)
      (expired claim : Bool)
      → is_expired env.now j ≡ expired
      → IsShaped j
      → (claim ≡ true → is_ready (if expired then reclaimed env.now j else j).status ≡ true)
      → let now_waiting = if expired then reclaimed env.now j else j in
        Moves env i (view j) (dequeues queues limit worker_id lease) (
          view (
            if claim
            then claimed env.now worker_id (interval_literal lease) now_waiting
            else now_waiting))
  dequeued_view queues limit worker_id lease j true true e s r =
      takes_over (holder_of j.locked_by) (until_of j.locked_until)
        (running_phase j.status j.locked_by j.locked_until (ground arith)) (ground arith)
  dequeued_view queues limit worker_id lease j true false e s r =
      expires (holder_of j.locked_by) (until_of j.locked_until)
        (running_phase j.status j.locked_by j.locked_until (ground arith)) (ground arith)
  dequeued_view queues limit worker_id lease j false true e s r =
      claims (ready_phase j.status j.locked_by j.locked_until (r refl))
  dequeued_view queues limit worker_id lease j false false e s r = idles

  dequeue-Goes :
      (queues : List String) (limit : ℤ) (worker_id : String) (lease : ℤ)
      → Goes env i
          (abstract db i)
          (dequeues queues limit worker_id lease)
          (abstract (dequeue env queues limit worker_id lease db).1 i)
  unfolding dequeue
  dequeue-Goes queues limit worker_id lease =
      transact_cases
        (λ after.
          Goes env i (abstract db i) (dequeues queues limit worker_id lease) (abstract after i))
        env (dequeue_body env queues limit worker_id lease) db
        (unmoved env i (dequeues queues limit worker_id lease) (abstract db i))
        λ js db' h. rw ((dequeue_body-ok env queues limit worker_id lease db h).1) after_claim
    where
      moved :
          (job : Option Job)
          → find_job i db.jobs ≡ job
          → Goes env i (map_row view job) (dequeues queues limit worker_id lease) (
              map_row view (
                map_row
                  (row_claimed env queues limit worker_id lease db i)
                  (map_row (applied (is_expired env.now) (reclaimed env.now)) job)))
      moved none e = stays_away
      moved (some j) e = goes (
          dequeued_view queues limit worker_id lease j (is_expired env.now j)
            (has_id i (chosen env queues limit db)) refl (shape j e)
            (λ picked.
              let k = applied (is_expired env.now) (reclaimed env.now) j in
              let there : find_job i (jobs_reclaimed env db) ≡ some k =
                find_reclaimed env db i ∙ rw e refl in
              let eligible : is_eligible env (or_default_queue queues) k ≡ true =
                subst (λ o. test (is_eligible env (or_default_queue queues)) o ≡ true) there
                  (chosen-eligible env queues limit db i w.jobs_keyed picked) in
              ground arith))

      after_claim :
          Goes env i
            (abstract db i)
            (dequeues queues limit worker_id lease)
            (map_row view (find_job i (jobs_claimed env queues limit worker_id lease db)))
      after_claim =
          rw (find_claimed env queues limit worker_id lease db i, find_reclaimed env db i)
            (moved (find_job i db.jobs) refl)

  pub step-Goes : (c : Call) → Goes env i (abstract db i) c (abstract (step env c db) i)
  unfolding step
  step-Goes (enqueues params) = enqueue-Goes params
  step-Goes (dequeues queues limit worker_id lease) = dequeue-Goes queues limit worker_id lease
  step-Goes (acks job_id worker_id) = ack-Goes job_id worker_id
  step-Goes (nacks backoff job_id worker_id cause) = nack-Goes backoff job_id worker_id cause
  step-Goes (extends job_id worker_id lease) = extend-Goes job_id worker_id lease
  step-Goes (cancels job_id) = cancel-Goes job_id
  step-Goes (requeues job_id) = requeue-Goes job_id

-- From a well-formed database, what a history of calls does to one job, whatever fails on its way,
-- is a run of the abstract machine: there the job comes only by Enqueue, as waiting; Dequeue
-- claims it when it waits or its lease has expired, with one more attempt; Ack completes it, and
-- Nack sends it back to wait or buries it by its attempts and budget, only from a lease that the
-- caller's name matches; its holder renews the lease; Cancel takes it only from waiting and
-- RequeueDLQ only from the dead.
pub run_refines :
    (i : ℕ) (cs : List (Env × Call)) (db : Db)
    → IsWellFormed db
    → Runs i (abstract db i) cs (abstract (run db cs) i)
unfolding run
run_refines i [] db w = halts
run_refines i ((env, c) ∷ cs) db w =
    takes (step-Goes env db w i c) (run_refines i cs (step env c db) (step-IsWellFormed env c db w))
