-- ===== src/Queue/Picking.antt =====
-- What Dequeue of internal/queue/postgres.go hands out: how many jobs, and which.
use forge_queue.Prelude.{
  ℕ, ◌+◌, ◌≤◌, ◌≡◌, refl, ◌⊎◌, true, false, Option, none, some, List, All, String, length, arith,
  sym, ap, subst, ◌∙◌, ℤ, positive_or, length-take_le,
}
use forge_queue.Tables.{Job, Db}
use forge_queue.Tables.Rows.{find_job, is_ready, is_running, is_any, has_id}
use forge_queue.Tables.Find.{applied, map_row, test, Distinct, Distinct-update, All-found}
use forge_queue.Tables.Member.{All-map, length-select_ids}
use forge_queue.Tx.Laws.{transact-ok}
use forge_queue.Tables.Order.{All-select, All-order_by, All-take}
use forge_queue.Tx.{Env, ok}
use forge_queue.Queue.Dequeue.{
  is_expired, reclaimed, is_eligible, precedes, picked, claimed, interval_literal, or_default_queue,
  dequeue, dequeue_body,
}
use forge_queue.Queue.Effects.{jobs_reclaimed, chosen, jobs_claimed, claimed_rows, dequeue_body-ok}
use forge_queue.Queue.Claims.{row_claimed, find_reclaimed, find_claimed, chosen-eligible}
use forge_queue.Queue.WellFormed.{IsWellFormed}

-- A row that is handed out, against the row that stood in the table before.
pub record IsHandedOut (env : Env) (queues : List String) (worker_id : String) (lease : ℤ)
    (old row : Job) : Type 0 where
  pub waited : (is_ready old.status ≡ true) ⊎ (is_expired env.now old ≡ true)
  pub due : old.run_at ≤ env.now
  pub asked : is_any old.queue (or_default_queue queues) ≡ true
  pub unlocked : env.row_locked old.id ≡ false
  pub running : is_running row.status ≡ true
  pub owner : row.locked_by ≡ some worker_id
  pub term : row.locked_until ≡ some (env.now + interval_literal lease)
  pub attempt : row.attempts ≡ old.attempts + 1
  pub id : row.id ≡ old.id

module _ (env : Env) (queues : List String) (limit : ℤ) (worker_id : String) (lease : ℤ)
    (db : Db) where
  claimed_row-IsHandedOut :
      (o : Option Job) (i : ℕ) (row : Job)
      → map_row
          (row_claimed env queues limit worker_id lease db i)
          (map_row (applied (is_expired env.now) (reclaimed env.now)) o)
        ≡ some row
      → has_id i (chosen env queues limit db) ≡ true
      → test
          (is_eligible env (or_default_queue queues))
          (map_row (applied (is_expired env.now) (reclaimed env.now)) o)
        ≡ true
      → (old : Job) × (o ≡ some old) × IsHandedOut env queues worker_id lease old row
  claimed_row-IsHandedOut none i row e c h = absurd (ground arith)
  claimed_row-IsHandedOut (some old) i row e c h = (
    old,
    refl,
    record {
      waited = ground arith;
      due = ground arith;
      asked = ground arith;
      unlocked = ground arith;
      running = ground arith;
      owner = ground arith;
      term = ground arith;
      attempt = ground arith;
      id = ground arith;
    },
  )

  -- A row of `chosen` is a row of the reclaimed table.
  pub chosen_found :
      IsWellFormed db
      → All (λ c. find_job c.id (jobs_reclaimed env db) ≡ some c) (chosen env queues limit db)
  unfolding picked
  chosen_found w =
      let waiting = jobs_reclaimed env db in
      All-take precedes _ (positive_or 1 limit) _ (
        All-order_by precedes _ _ (
          All-map _ _ _ (λ x h. h.0)
            (All-select _ (is_eligible env (or_default_queue queues)) waiting (
              All-found (λ j. j.id) waiting
                (Distinct-update (λ j. j.id) (is_expired env.now) (reclaimed env.now) (λ j. refl)
                  db.jobs w.jobs_keyed)))))

  length-chosen : length (chosen env queues limit db) ≤ positive_or 1 limit
  unfolding picked
  length-chosen = length-take_le (positive_or 1 limit) _

  pub claimed_keyed :
      IsWellFormed db → Distinct (λ j. j.id) (jobs_claimed env queues limit worker_id lease db)
  claimed_keyed w =
      Distinct-update (λ j. j.id) _ (claimed env.now worker_id (interval_literal lease)) (λ j. refl)
        _
        (Distinct-update (λ j. j.id) (is_expired env.now) (reclaimed env.now) (λ j. refl) db.jobs
          w.jobs_keyed)

  abbrev pub Handed : Job → Type 0
  Handed row =
      (old : Job) × (find_job row.id db.jobs ≡ some old)
      × IsHandedOut env queues worker_id lease old row

  rows-Handed : IsWellFormed db → All Handed (claimed_rows env queues limit worker_id lease db)
  rows-Handed w =
      All-map _ _ _
        (λ row h.
          claimed_row-IsHandedOut (find_job row.id db.jobs) row.id row
            (sym (
                find_claimed env queues limit worker_id lease db row.id
                ∙ ap (map_row (row_claimed env queues limit worker_id lease db row.id))
                    (find_reclaimed env db row.id))
              ∙ h.0)
            h.1
            (subst (λ o. test (is_eligible env (or_default_queue queues)) o ≡ true)
              (find_reclaimed env db row.id)
              (chosen-eligible env queues limit db row.id w.jobs_keyed h.1)))
        (All-select _ _ _ (All-found (λ j. j.id) _ (claimed_keyed w)))

  -- On a well-formed database, a Dequeue that succeeds hands out at most `limit` jobs (1 if
  -- `limit` is not positive). Each of them was ready or had an expired lease, was due, is of a
  -- queue asked for and was not locked by another session; each now runs under a lease in the
  -- caller's name, for the time asked for, with one more attempt.
  pub dequeue_hands_out :
      (rows : List Job) (db' : Db)
      → IsWellFormed db
      → dequeue env queues limit worker_id lease db ≡ (ok rows, db')
      → (length rows ≤ positive_or 1 limit) × All Handed rows
  unfolding dequeue
  dequeue_hands_out rows db' w h =
      let body = transact-ok env (dequeue_body env queues limit worker_id lease) db h in
      let e = sym (dequeue_body-ok env queues limit worker_id lease db body).0 in
      (
        subst (λ rs. length rs ≤ positive_or 1 limit) e
            (omega (
              arith,
              length-chosen,
              length-select_ids (chosen env queues limit db) _ (claimed_keyed w),
            )),
        subst (All Handed) e (rows-Handed w),
      )

  -- The rows that Dequeue returns are the rows of the table.
  pub dequeue_found :
      (rows : List Job) (db' : Db)
      → IsWellFormed db
      → dequeue env queues limit worker_id lease db ≡ (ok rows, db')
      → All (λ row. find_job row.id db'.jobs ≡ some row) rows
  unfolding dequeue
  dequeue_found rows db' w h =
      let body = transact-ok env (dequeue_body env queues limit worker_id lease) db h in
      let (e, after) = dequeue_body-ok env queues limit worker_id lease db body in
      rw (after, e)
        (All-map _ _ _ (λ row r. r.0)
          (All-select _ (λ (j : Job). has_id j.id (chosen env queues limit db))
            (jobs_claimed env queues limit worker_id lease db)
            (All-found (λ j. j.id) _ (claimed_keyed w))))
