-- ===== src/Queue/WellFormed/Grown.antt =====
-- Enqueue and Dequeue, and the invariant of the database.
use forge_queue.Prelude.{
  ℕ, ◌+◌, ◌≡◌, refl, ◌==◌, ◌⊎◌, if◌then◌else◌, Bool, true, false, Option, none, some, List, [], ◌∷◌,
  ◌++◌, String, select, first, arith, sym, ap, ap₂, subst, ◌∙◌, ℤ, any_of, str_eq,
}
use forge_queue.Tables.{Tenant, Job, Run, Db}
use forge_queue.Tables.Rows.{find_job, is_running, is_dead, has_id}
use forge_queue.Tables.Find.{
  applied, map_row, test, Distinct, Distinct-append, Distinct-select, any-Absent, find_key,
  find-append, has_id-select,
}
use forge_queue.Tx.{Env}
use forge_queue.Queue.Dequeue.{is_expired, reclaimed, is_eligible, or_default_queue}
use forge_queue.Queue.Params.{EnqueueParams}
use forge_queue.Queue.Enqueue.{has_key}
use forge_queue.Queue.Effects.{
  jobs_reclaimed, chosen, jobs_claimed, claimed_rows, runs_closed, started_runs,
}
use forge_queue.Queue.Inserts.{IsNewRow}
use forge_queue.Queue.Claims.{row_claimed, find_reclaimed, find_claimed, chosen-eligible}
use forge_queue.Queue.WellFormed.{flag, IsShaped, active, IsWellFormed}
use forge_queue.Queue.WellFormed.Settled.{RowsOk, rows_of, RowsOk-update}
use forge_queue.Queue.WellFormed.Rows.{All-append, UniqueKeys-append}
use forge_queue.Queue.WellFormed.Runs.{active-append, active-closed, active-started}

append_row :
    (t : Job → Bool) (i : ℕ) (js : List Job) (job : Job)
    → t job ≡ false
    → test t (find_job i (js ++ job ∷ [])) ≡ test t (find_job i js)
append_row t i js job idle =
    ap (test t) (find-append (λ j. j.id) i js job) ∙ on_row (find_job i js) (job.id == i)
  where
    on_row :
        (o : Option Job) (b : Bool)
        → test t (elim o [ some x ↦ some x | none ↦ if b then some job else none ]) ≡ test t o
    on_row none true = idle
    on_row none false = refl
    on_row (some j) b = refl

new-IsShaped : (env : Env) (p : EnqueueParams) (job : Job) → IsNewRow env p job → IsShaped job
new-IsShaped env p job new = ground arith

pub added-IsWellFormed :
    (env : Env) (db : Db) (p : EnqueueParams) (tenants : List Tenant) (job : Job)
    → IsWellFormed db
    → IsNewRow env p job
    → any_of (λ (j : Job). j.id == job.id) db.jobs ≡ false
    → (str_eq p.idempotency_key "" ≡ true)
      ⊎ (first (select (has_key p.tenant_id p.idempotency_key) db.jobs) ≡ none)
    → IsWellFormed (record db { tenants = tenants; jobs = db.jobs ++ job ∷ [] })
added-IsWellFormed env db p tenants job w new fresh free = record {
  jobs_keyed =
      Distinct-append (λ j. j.id) db.jobs job w.jobs_keyed
        (any-Absent (λ j. j.id) job.id db.jobs fresh);
  runs_keyed = w.runs_keyed;
  shaped = All-append IsShaped db.jobs job w.shaped (new-IsShaped env p job new);
  keys_unique = UniqueKeys-append env p db.jobs job new free w.keys_unique;
  runs_match = λ i.
      w.runs_match i
      ∙ ap flag
          (sym (append_row (λ j. is_running j.status) i db.jobs job (ground (arith, new.status))));
  letters_match = λ i.
      w.letters_match i
      ∙ ap flag
          (sym (append_row (λ j. is_dead j.status) i db.jobs job (ground (arith, new.status))));
}

module _ (env : Env) (queues : List String) (limit : ℤ) (worker_id : String) (lease : ℤ) (db : Db)
    (w : IsWellFormed db) where
  waiting_ok : RowsOk (jobs_reclaimed env db)
  waiting_ok =
      RowsOk-update db.jobs
        (record {
          id = λ j. refl;
          tenant = λ j. refl;
          key = λ j. refl;
          shape = λ j p s. ground arith;
        })
        (rows_of w)

  rows_ok : RowsOk (jobs_claimed env queues limit worker_id lease db)
  rows_ok =
      RowsOk-update (jobs_reclaimed env db)
        (record {
          id = λ j. refl;
          tenant = λ j. refl;
          key = λ j. refl;
          shape = λ j p s. ground arith;
        })
        waiting_ok

  -- What becomes of one row, and of its open runs, by the two tests on it.
  count_row :
      (i : ℕ) (o : Option Job) (n : ℕ)
      → n ≡ flag (test (λ (j : Job). is_running j.status) o)
      → (has_id i (chosen env queues limit db) ≡ true
          → test
              (is_eligible env (or_default_queue queues))
              (map_row (applied (is_expired env.now) (reclaimed env.now)) o)
            ≡ true)
      → ((j : Job) → o ≡ some j → j.id ≡ i)
      → let after =
          map_row
            (row_claimed env queues limit worker_id lease db i)
            (map_row (applied (is_expired env.now) (reclaimed env.now)) o) in
        (if test (is_expired env.now) o then 0 else n)
          + flag (test (λ (j : Job). has_id j.id (chosen env queues limit db)) after)
        ≡ flag (test (λ (j : Job). is_running j.status) after)
  count_row i none n same eligible at = ground arith
  count_row i (some j) n same eligible at = ground (arith, at j refl)

  dead_row :
      (i : ℕ) (o : Option Job)
      → (has_id i (chosen env queues limit db) ≡ true
          → test
              (is_eligible env (or_default_queue queues))
              (map_row (applied (is_expired env.now) (reclaimed env.now)) o)
            ≡ true)
      → test (λ (j : Job). is_dead j.status) o
        ≡ test
            (λ (j : Job). is_dead j.status)
            (map_row
              (row_claimed env queues limit worker_id lease db i)
              (map_row (applied (is_expired env.now) (reclaimed env.now)) o))
  dead_row i none eligible = refl
  dead_row i (some j) eligible = ground arith

  module _ (i : ℕ) where
    row_after :
        find_job i (jobs_claimed env queues limit worker_id lease db)
        ≡ map_row
            (row_claimed env queues limit worker_id lease db i)
            (map_row (applied (is_expired env.now) (reclaimed env.now)) (find_job i db.jobs))
    row_after =
        find_claimed env queues limit worker_id lease db i
        ∙ ap (map_row (row_claimed env queues limit worker_id lease db i)) (find_reclaimed env db i)

    eligible_row :
        has_id i (chosen env queues limit db) ≡ true
        → test
            (is_eligible env (or_default_queue queues))
            (map_row (applied (is_expired env.now) (reclaimed env.now)) (find_job i db.jobs))
          ≡ true
    eligible_row h =
        subst (λ o. test (is_eligible env (or_default_queue queues)) o ≡ true)
          (find_reclaimed env db i) (chosen-eligible env queues limit db i w.jobs_keyed h)

    open_after_close :
        active i (runs_closed env db)
        ≡ (if test (is_expired env.now) (find_job i db.jobs) then 0 else active i db.runs)
    open_after_close =
        active-closed env.now (λ n. has_id n (select (is_expired env.now) db.jobs)) i db.runs
        ∙ ap (λ b. if b then 0 else active i db.runs)
            (has_id-select (is_expired env.now) i db.jobs w.jobs_keyed)

    opened :
        active i (started_runs env 0 (claimed_rows env queues limit worker_id lease db))
        ≡ flag (
            test
              (λ (j : Job). has_id j.id (chosen env queues limit db))
              (find_job i (jobs_claimed env queues limit worker_id lease db)))
    opened =
        active-started env 0 i (claimed_rows env queues limit worker_id lease db)
          (Distinct-select _ _ rows_ok.0)
        ∙ ap flag (has_id-select _ i (jobs_claimed env queues limit worker_id lease db) rows_ok.0)

    claimed-runs_match :
        active i (
          runs_closed env db
          ++ started_runs env 0 (claimed_rows env queues limit worker_id lease db))
        ≡ flag (
            test
              (λ (j : Job). is_running j.status)
              (find_job i (jobs_claimed env queues limit worker_id lease db)))
    claimed-runs_match =
        active-append i (runs_closed env db) _
        ∙ ap₂ ◌+◌ open_after_close (
            opened
            ∙ ap (λ o. flag (test (λ (j : Job). has_id j.id (chosen env queues limit db)) o))
                row_after)
        ∙ count_row i (find_job i db.jobs) (active i db.runs) (w.runs_match i) eligible_row
            (find_key (λ j. j.id) i db.jobs)
        ∙ ap (λ o. flag (test (λ (j : Job). is_running j.status) o)) (sym row_after)

  pub claimed-IsWellFormed :
      (rs : List Run)
      → rs
        ≡ runs_closed env db
          ++ started_runs env 0 (claimed_rows env queues limit worker_id lease db)
      → Distinct (λ r. r.id) rs
      → IsWellFormed
          (record db { jobs = jobs_claimed env queues limit worker_id lease db; runs = rs })
  claimed-IsWellFormed rs e d = record {
    jobs_keyed = rows_ok.0;
    runs_keyed = d;
    shaped = rows_ok.1;
    keys_unique = rows_ok.2;
    runs_match = λ i. ap (active i) e ∙ claimed-runs_match i;
    letters_match = λ i.
        w.letters_match i
        ∙ ap flag (dead_row i (find_job i db.jobs) (eligible_row i))
        ∙ ap (λ o. flag (test (λ (j : Job). is_dead j.status) o)) (sym (row_after i));
  }
