-- ===== src/Queue/Claims.antt =====
-- Which rows Dequeue claims, and what each row of `jobs` becomes.
use forge_queue.Prelude.{
  ℕ, ◌≡◌, refl, if◌then◌else◌, true, Option, none, some, List, String, select, ℤ, positive_or, ◌∙◌,
  sym,
}
use forge_queue.Tables.{Job, Db}
use forge_queue.Tables.Rows.{find_job, has_id, order_by}
use forge_queue.Tables.Find.{
  applied, map_row, test, Distinct, Distinct-update, find-update, find_key, has_id-select,
}
use forge_queue.Tables.Order.{has_id-take, has_id-order_by}
use forge_queue.Tx.{Env}
use forge_queue.Queue.Dequeue.{
  is_expired, reclaimed, is_eligible, precedes, picked, claimed, interval_literal, or_default_queue,
}
use forge_queue.Queue.Effects.{jobs_reclaimed, chosen, jobs_claimed}

pub find_reclaimed :
    (env : Env) (db : Db) (i : ℕ)
    → find_job i (jobs_reclaimed env db)
      ≡ map_row (applied (is_expired env.now) (reclaimed env.now)) (find_job i db.jobs)
find_reclaimed env db i =
    find-update (λ j. j.id) (is_expired env.now) (reclaimed env.now) (λ j. refl) i db.jobs

pub chosen-eligible :
    (env : Env) (queues : List String) (limit : ℤ) (db : Db) (i : ℕ)
    → Distinct (λ j. j.id) db.jobs
    → has_id i (chosen env queues limit db) ≡ true
    → test (is_eligible env (or_default_queue queues)) (find_job i (jobs_reclaimed env db)) ≡ true
unfolding picked
chosen-eligible env queues limit db i d h =
    let waiting = jobs_reclaimed env db in
    let eligible = is_eligible env (or_default_queue queues) in
    sym (
      has_id-select eligible i waiting (
        Distinct-update (λ j. j.id) (is_expired env.now) (reclaimed env.now) (λ j. refl) db.jobs d))
    ∙ sym (has_id-order_by precedes i (select eligible waiting))
    ∙ has_id-take (positive_or 1 limit) i (order_by precedes (select eligible waiting)) h

module _ (env : Env) (queues : List String) (limit : ℤ) (worker_id : String) (lease : ℤ)
    (db : Db) where
  -- What the claim makes of one row.
  abbrev pub row_claimed : ℕ → Job → Job
  row_claimed i j =
      if has_id i (chosen env queues limit db)
      then claimed env.now worker_id (interval_literal lease) j
      else j

  pub find_claimed :
      (i : ℕ)
      → find_job i (jobs_claimed env queues limit worker_id lease db)
        ≡ map_row (row_claimed i) (find_job i (jobs_reclaimed env db))
  find_claimed i =
      find-update (λ j. j.id) (λ (j : Job). has_id j.id (chosen env queues limit db))
        (claimed env.now worker_id (interval_literal lease)) (λ j. refl) i (jobs_reclaimed env db)
      ∙ same (find_job i (jobs_reclaimed env db)) (find_key (λ j. j.id) i (jobs_reclaimed env db))
    where
      same :
          (o : Option Job)
          → ((j : Job) → o ≡ some j → j.id ≡ i)
          → map_row
              (applied
                (λ (j : Job). has_id j.id (chosen env queues limit db))
                (claimed env.now worker_id (interval_literal lease)))
              o
            ≡ map_row (row_claimed i) o
      same none h = refl
      same (some j) h = rw (h j refl)
