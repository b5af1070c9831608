-- ===== src/Queue/Spec/Retries.antt =====
-- How often workers of internal/queue/postgres.go can fail one job before it is dead.
use forge_queue.Prelude.{
  ℕ, ◌+◌, ◌-◌, ◌≤◌, ◌≡◌, refl, ◌==◌, leb, String, Bool, true, false, Option, some, List, [], ◌∷◌, ℤ,
  if◌then◌else◌, arith, ◌∙◌, sym, ap, subst, Bool-cases, inl, inr,
}
use forge_queue.Tables.{Job, Db}
use forge_queue.Tables.Rows.{is_running}
use forge_queue.Tables.Find.{map_row}
use forge_queue.Tx.{Env, Result, ok, err}
use forge_queue.Queue.Settle.{nack}
use forge_queue.Queue.History.{
  Call, enqueues, dequeues, acks, nacks, extends, cancels, requeues, step, run,
}
use forge_queue.Queue.Nacks.{nacked}
use forge_queue.Queue.Outcomes.{nack_returns}
use forge_queue.Queue.WellFormed.{IsWellFormed}
use forge_queue.Queue.WellFormed.Step.{step-IsWellFormed}
use forge_queue.Queue.Spec.{
  Phase, waiting, leased, View, Moves, idles, claims, expires, takes_over, completes, retries, dies,
  renews, withdraws, revives, Goes, goes, view, abstract,
}
use forge_queue.Queue.Spec.Refines.{running_phase, step-Goes}

-- The failures that a job has left: one for each attempt of its budget that is to come, and one for
-- the attempt that runs; a job that waits has one attempt at least.
abbrev pub failures_of : Phase → ℕ → ℕ → ℕ
failures_of waiting attempts budget = if leb budget attempts then 1 else budget - attempts
failures_of (leased _ _) attempts budget = (budget - attempts) + 1
failures_of _ attempts budget = 0

abbrev pub failures_left : View → ℕ
failures_left v = failures_of v.phase v.attempts v.budget

abbrev pub is_requeue : ℕ → Call → Bool
is_requeue i (requeues job_id) = job_id == i
is_requeue i _ = false

abbrev pub NoRequeue : ℕ → List (Env × Call) → Type 0
NoRequeue i [] = Unit
NoRequeue i ((env, c) ∷ cs) = (is_requeue i c ≡ false) × NoRequeue i cs

abbrev pub succeeds : {A : Type 0} → Result A → ℕ
succeeds (ok a) = 1
succeeds (err e) = 0

-- 1 for a Nack of the job that succeeds.
abbrev pub failure : ℕ → Env → Call → Db → ℕ
failure i env (nacks backoff job_id worker_id cause) db =
    if job_id == i then succeeds (nack env backoff job_id worker_id cause db).0 else 0
failure i env _ db = 0

unfoldable pub failures : ℕ → Db → List (Env × Call) → ℕ
failures i db [] = 0
failures i db ((env, c) ∷ cs) = failure i env c db + failures i (step env c db) cs

Moves-failures_left :
    {env : Env} {i : ℕ} {v v' : View} {c : Call}
    → is_requeue i c ≡ false
    → Moves env i v c v'
    → failures_left v' ≤ failures_left v
Moves-failures_left n idles = ground arith
Moves-failures_left n (claims p) = rw p (ground arith)
Moves-failures_left n (expires holder until p _) = rw p (ground arith)
Moves-failures_left n (takes_over holder until p _) = rw p (ground arith)
Moves-failures_left n (completes holder until p _) = ground arith
Moves-failures_left n (retries holder until p _ _) = rw p (ground arith)
Moves-failures_left n (dies holder until p _ _) = ground arith
Moves-failures_left n (renews until p) = rw p (ground arith)
Moves-failures_left n (withdraws p) = ground arith
Moves-failures_left n (revives p) = ground arith

Goes-some :
    {env : Env} {i : ℕ} {v : View} {c : Call} {o : Option View}
    → Goes env i (some v) c o
    → (v' : View) × (o ≡ some v') × Moves env i v c v'
Goes-some (goes {v' = v'} m) = (v', refl, m)

some_eq : {x y : View} → some x ≡ some y → y ≡ x
some_eq e = ground (arith, e)

-- A Nack that succeeds uses one of them.
nack_uses :
    (env : Env) (backoff : ℕ → ℤ) (cause : Option String) (db : Db) (i : ℕ) (worker_id : String)
    (v v' : View)
    → IsWellFormed db
    → abstract db i ≡ some v
    → abstract (nack env backoff i worker_id cause db).1 i ≡ some v'
    → failures_left v' ≤ failures_left v
    → succeeds (nack env backoff i worker_id cause db).0 + failures_left v' ≤ failures_left v
nack_uses env backoff cause db i worker_id v v' w here there fewer =
    by_result (nack env backoff i worker_id cause db) refl
  where
    spent :
        (old : Job)
        → is_running old.status ≡ true
        → 1 + failures_left (view (nacked env backoff cause old)) ≤ failures_left (view old)
    spent old r = elim (Bool-cases (leb old.max_attempts old.attempts)) [
      | inl b ↦ rw (b, running_phase old.status old.locked_by old.locked_until r) (ground arith)
      | inr b ↦ rw (b, running_phase old.status old.locked_by old.locked_until r) (ground arith)
    ]

    by_result :
        (r : Result (Job × Bool × ℤ) × Db)
        → nack env backoff i worker_id cause db ≡ r
        → succeeds r.0 + failures_left v' ≤ failures_left v
    by_result (err e, db') h = ground (arith, fewer)
    by_result (ok (row, d, delay), db') h =
        let (old, found, held, _, _, row_eq, after) =
          nack_returns env backoff cause db db' i worker_id row d delay w.jobs_keyed h in
        let before : v ≡ view old = ground (arith, here, found) in
        let later : v' ≡ view (nacked env backoff cause old) = some_eq (
          subst (λ o. map_row view o ≡ some v') (after ∙ ap some row_eq)
            (subst (λ r. abstract r.1 i ≡ some v') h there)) in
        rw (before, later) (spent old (ground arith))

module _ (i : ℕ) where
  step_uses :
      (env : Env) (c : Call) (db : Db) (v v' : View)
      → IsWellFormed db
      → is_requeue i c ≡ false
      → abstract db i ≡ some v
      → abstract (step env c db) i ≡ some v'
      → failures_left v' ≤ failures_left v
      → failure i env c db + failures_left v' ≤ failures_left v
  unfolding step
  step_uses env (nacks backoff job_id worker_id cause) db v v' w n here there fewer =
      elim (Bool-cases (job_id == i)) [
        | inl e ↦
            let same : job_id ≡ i = ground arith in
            rw e (
              subst
                (λ k.
                  succeeds (nack env backoff k worker_id cause db).0 + failures_left v'
                  ≤ failures_left v)
                (sym same)
                (nack_uses env backoff cause db i worker_id v v' w here
                  (subst (λ k. abstract (nack env backoff k worker_id cause db).1 i ≡ some v') same
                    there)
                  fewer))
        | inr e ↦ rw e (ground (arith, fewer))
      ]
  step_uses env (enqueues params) db v v' w n here there fewer = ground (arith, fewer)
  step_uses env (dequeues queues limit worker_id lease) db v v' w n here there fewer =
      ground (arith, fewer)
  step_uses env (acks job_id worker_id) db v v' w n here there fewer = ground (arith, fewer)
  step_uses env (extends job_id worker_id lease) db v v' w n here there fewer =
      ground (arith, fewer)
  step_uses env (cancels job_id) db v v' w n here there fewer = ground (arith, fewer)
  step_uses env (requeues job_id) db v v' w n here there fewer = ground (arith, fewer)

  -- In a well-formed database, the Nacks of a job that succeed in a history of calls without a
  -- RequeueDLQ of that job are at most as many as it has failures left: for a waiting job what its
  -- budget exceeds its attempts by, or 1 if it does not; for a leased job that excess and 1 more;
  -- for any other job none.
  pub retries_bounded :
      (cs : List (Env × Call)) (db : Db) (v : View)
      → IsWellFormed db
      → NoRequeue i cs
      → abstract db i ≡ some v
      → failures i db cs ≤ failures_left v
  unfolding run failures
  retries_bounded [] db v w n here = ground arith
  retries_bounded ((env, c) ∷ cs) db v w (first, n) here =
      let (v', there, m) =
        Goes-some (
          subst (λ o. Goes env i o c (abstract (step env c db) i)) here (step-Goes env db w i c)) in
      let used = step_uses env c db v v' w first here there (Moves-failures_left first m) in
      let rest = retries_bounded cs (step env c db) v' (step-IsWellFormed env c db w) n there in
      ground arith
