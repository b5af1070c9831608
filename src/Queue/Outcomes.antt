-- ===== src/Queue/Outcomes.antt =====
-- What Ack, Nack and ExtendLease of internal/queue/postgres.go answer a worker that does not hold
-- the job, and what they make of a job that the worker holds.
use forge_queue.Prelude.{
  ℕ, ◌≡◌, refl, ◌==◌, ◌&&◌, leb, if◌then◌else◌, String, str_eq, Bool, true, false, Option, none,
  some, List, select, first, arith, ◌∙◌, ℤ, pos, ap, sym, subst,
}
use forge_queue.Tables.{Job, Db}
use forge_queue.Tables.Rows.{update, update_returning, find_job, is_running, equals}
use forge_queue.Tables.Find.{Distinct, test, keep_if, find_key, first-select, find-update}
use forge_queue.Tx.{Env, works, ok, err, invalid_transition}
use forge_queue.Tx.Laws.{transact-ok}
use forge_queue.Queue.Dequeue.{interval_literal}
use forge_queue.Queue.Settle.{
  is_held, acked, buried, retried, error_string, is_leased_by, bury, retry, ack, ack_body, nack,
  nack_body, extend_lease, extend_body, select_for_update,
}
use forge_queue.Queue.Effects.{ack_body-ok, nack_body-ok, bury-ok, retry-ok}
use forge_queue.Queue.Lifecycle.{held_row}
use forge_queue.Queue.Nacks.{nacked, IsNacked, nacked-IsNacked}

-- The job does not run under a lease of the worker.
abbrev pub IsLost : ℕ → String → Db → Type 0
IsLost job_id worker_id db =
    test (λ j. is_running j.status && equals j.locked_by worker_id) (find_job job_id db.jobs)
    ≡ false

kept_none :
    (p q : Job → Bool)
    → ((j : Job) → q j ≡ false → p j ≡ false)
    → (o : Option Job) → test q o ≡ false
    → keep_if p o ≡ none
kept_none p q only none h = refl
kept_none p q only (some j) h = ground (arith, only j h)

module _ (env : Env) (db : Db) (job_id : ℕ) (worker_id : String)
    (keyed : Distinct (λ j. j.id) db.jobs) (named : str_eq worker_id "" ≡ false)
    (lost : IsLost job_id worker_id db) where
  held_none : first (select (is_held job_id worker_id) db.jobs) ≡ none
  held_none =
      first-select (λ j. j.id) (is_held job_id worker_id) job_id (λ x p. ground arith) db.jobs keyed
      ∙ kept_none (is_held job_id worker_id)
          (λ j. is_running j.status && equals j.locked_by worker_id) (λ j m. ground (arith, named))
          (find_job job_id db.jobs) lost

  leased_none : first (select (is_leased_by job_id worker_id) db.jobs) ≡ none
  leased_none =
      first-select (λ j. j.id) (is_leased_by job_id worker_id) job_id (λ x p. ground arith) db.jobs
        keyed
      ∙ kept_none (is_leased_by job_id worker_id)
          (λ j. is_running j.status && equals j.locked_by worker_id) (λ j m. ground (arith, named))
          (find_job job_id db.jobs) lost

  -- Where job ids are distinct, Ack, Nack and ExtendLease in the name of a worker under whose
  -- lease the job does not run answer ErrInvalidTransition, if the server answers, and change
  -- nothing.
  pub stale_worker_refused :
      (backoff : ℕ → ℤ) (cause : Option String) (lease : ℤ)
      → env.begin ≡ works
      → env.statement 0 ≡ works
      → (ack env job_id worker_id db ≡ (err invalid_transition, db))
        × (nack env backoff job_id worker_id cause db ≡ (err invalid_transition, db))
        × (extend_lease env job_id worker_id lease db ≡ (err invalid_transition, db))
  unfolding ack nack extend_lease ack_body nack_body extend_body update_returning select_for_update
  stale_worker_refused backoff cause lease b s = (
    ground (arith, b, s, held_none),
    ground (arith, b, s, held_none),
    ground (arith, s, leased_none),
  )

find_updated :
    (p : Job → Bool) (f : Job → Job) (i : ℕ) (js : List Job) (old : Job)
    → ((j : Job) → (f j).id ≡ j.id)
    → find_job i js ≡ some old
    → p old ≡ true
    → find_job i (update p f js) ≡ some (f old)
find_updated p f i js old keeps e h = find-update (λ x. x.id) p f keeps i js ∙ rw e (rw h refl)

-- Where job ids are distinct, after an Ack that succeeds: the job ran under a lease that the
-- caller's name matches, it is returned as succeeded and without a lease, and the table holds the
-- row that is returned.
pub ack_completes :
    (env : Env) (db db' : Db) (job_id : ℕ) (worker_id : String) (row : Job)
    → Distinct (λ j. j.id) db.jobs
    → ack env job_id worker_id db ≡ (ok row, db')
    → (old : Job) × (find_job job_id db.jobs ≡ some old)
      × (is_held job_id worker_id old ≡ true)
      × (row ≡ acked env.now old)
      × (find_job job_id db'.jobs ≡ some row)
unfolding ack
ack_completes env db db' job_id worker_id row d h =
    let (old, first_row, e, after) =
      ack_body-ok env job_id worker_id db (transact-ok env (ack_body env job_id worker_id) db h) in
    let (found, held) =
      held_row (is_held job_id worker_id) job_id (λ x p. ground arith) db.jobs old d first_row in
    (
      old,
      found,
      held,
      e,
      rw (after, e)
          (find_updated (is_held job_id worker_id) (acked env.now) job_id db.jobs old (λ x. refl)
            found held),
    )

bury_delay :
    (env : Env) (job_id : ℕ) (message : String) (db : Db) {job : Job} {d : Bool} {delay : ℤ}
    {db' : Db}
    → bury env job_id message db ≡ ok ((job, d, delay), db')
    → delay ≡ pos 0
unfolding bury
bury_delay env job_id message db h = ground arith

nack_row :
    (env : Env) (job_id : ℕ) (wait : ℤ) (message : String) (db db' : Db) (old : Job) (b : Bool)
    {row : Job} {d : Bool} {delay : ℤ}
    → find_job job_id db.jobs ≡ some old
    → first (select (λ j. j.id == job_id) db.jobs) ≡ some old
    → (if b then bury env job_id message db else retry env job_id wait message db)
      ≡ ok ((row, d, delay), db')
    → (d ≡ b)
      × (row ≡ (
          if b
          then buried env.now message old
          else retried env.now (interval_literal wait) message old))
      × (find_job job_id db'.jobs ≡ some row)
      × (delay ≡ (if b then pos 0 else wait))
nack_row env job_id wait message db db' old true {row = row} found one h =
    let (same, at, e, d, after) = bury-ok env job_id message db h in
    let eq : row ≡ buried env.now message old = ground arith in
    (
      d,
      eq,
      rw (after, eq)
          (find_updated (λ j. j.id == job_id) (buried env.now message) job_id db.jobs old
            (λ x. refl) found (ground (arith, find_key (λ j. j.id) job_id db.jobs old found))),
      bury_delay env job_id message db h,
    )
nack_row env job_id wait message db db' old false {row = row} found one h =
    let (same, at, e, d, delay, after) = retry-ok env job_id wait message db h in
    let eq : row ≡ retried env.now (interval_literal wait) message old = ground arith in
    (
      d,
      eq,
      rw (after, eq)
          (find_updated (λ j. j.id == job_id) (retried env.now (interval_literal wait) message)
            job_id db.jobs old (λ x. refl) found
            (ground (arith, find_key (λ j. j.id) job_id db.jobs old found))),
      ground arith,
    )

pub nack_returns :
    (env : Env) (backoff : ℕ → ℤ) (cause : Option String) (db db' : Db) (job_id : ℕ)
    (worker_id : String) (row : Job) (d : Bool) (delay : ℤ)
    → Distinct (λ j. j.id) db.jobs
    → nack env backoff job_id worker_id cause db ≡ (ok (row, d, delay), db')
    → (old : Job) × (find_job job_id db.jobs ≡ some old)
      × (is_held job_id worker_id old ≡ true)
      × (d ≡ leb old.max_attempts old.attempts)
      × (delay ≡ (if leb old.max_attempts old.attempts then pos 0 else backoff old.attempts))
      × (row ≡ nacked env backoff cause old)
      × (find_job job_id db'.jobs ≡ some row)
unfolding nack
nack_returns env backoff cause db db' job_id worker_id row d delay keyed h =
    let (old, first_row, ends) =
      nack_body-ok env backoff job_id worker_id cause db
        (transact-ok env (nack_body env backoff job_id worker_id cause) db h) in
    let (found, held) =
      held_row (is_held job_id worker_id) job_id (λ x p. ground arith) db.jobs old keyed
        first_row in
    let one : first (select (λ (j : Job). j.id == job_id) db.jobs) ≡ some old =
      first-select (λ j. j.id) (λ j. j.id == job_id) job_id (λ x p. ground arith) db.jobs keyed
      ∙ rw found (ground (arith, find_key (λ j. j.id) job_id db.jobs old found)) in
    let (flag, eq, after, wait) =
      nack_row env job_id (backoff old.attempts) (error_string cause) db db' old
        (leb old.max_attempts old.attempts) found one ends in
    (old, found, held, flag, wait, eq, after)

-- Where job ids are distinct, after a Nack that succeeds: the job ran under a lease that the
-- caller's name matches; if its attempts had reached its budget it is dead, as the flag says, and
-- the delay returned is zero; otherwise it is ready, to run at now plus the backoff of its
-- attempts to the nearest microsecond (a second if that is not positive), and the backoff is the
-- delay returned; the lease is gone, attempts and what the job is are kept, the error's text is
-- stored; and the table holds the row that is returned.
pub nack_settles :
    (env : Env) (backoff : ℕ → ℤ) (cause : Option String) (db db' : Db) (job_id : ℕ)
    (worker_id : String) (row : Job) (d : Bool) (delay : ℤ)
    → Distinct (λ j. j.id) db.jobs
    → nack env backoff job_id worker_id cause db ≡ (ok (row, d, delay), db')
    → (old : Job) × (find_job job_id db.jobs ≡ some old)
      × (is_held job_id worker_id old ≡ true)
      × (d ≡ leb old.max_attempts old.attempts)
      × (delay ≡ (if d then pos 0 else backoff old.attempts))
      × IsNacked env.now (backoff old.attempts) cause old row
      × (find_job job_id db'.jobs ≡ some row)
nack_settles env backoff cause db db' job_id worker_id row d delay keyed h =
    let (old, found, held, flag, wait, eq, after) =
      nack_returns env backoff cause db db' job_id worker_id row d delay keyed h in
    (
      old,
      found,
      held,
      flag,
      wait ∙ ap (λ b. if b then pos 0 else backoff old.attempts) (sym flag),
      subst (IsNacked env.now (backoff old.attempts) cause old) (sym eq)
          (nacked-IsNacked env backoff cause old),
      after,
    )
