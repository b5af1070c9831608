-- ===== src/Queue/Preference.antt =====
-- Which of the eligible jobs Dequeue of internal/queue/postgres.go hands out first.
use forge_queue.Prelude.{◌≡◌, true, some, List, String, ◌∙◌, ℤ}
use forge_queue.Tables.{Job, Db}
use forge_queue.Tables.Rows.{find_job, has_id}
use forge_queue.Tables.Find.{has_id-select}
use forge_queue.Tables.Member.{In, In-has_id}
use forge_queue.Tx.{Env}
use forge_queue.Queue.Dequeue.{precedes}
use forge_queue.Queue.Effects.{jobs_reclaimed, chosen, jobs_claimed, claimed_rows}
use forge_queue.Queue.Claims.{find_claimed}
use forge_queue.Queue.WellFormed.{IsWellFormed}
use forge_queue.Queue.Picking.{claimed_keyed}

-- The preference of a job over another: a higher priority, or the same and no later `run_at`.
abbrev pub IsPreferred : Job → Job → Type 0
IsPreferred a b = precedes a b ≡ true

module _ (env : Env) (queues : List String) (limit : ℤ) (worker_id : String) (lease : ℤ)
    (db : Db) where
  pub chosen_handed :
      (left : Job)
      → IsWellFormed db
      → find_job left.id (jobs_reclaimed env db) ≡ some left
      → In left (chosen env queues limit db)
      → has_id left.id (claimed_rows env queues limit worker_id lease db) ≡ true
  chosen_handed left w at m =
      let is_chosen = In-has_id left (chosen env queues limit db) m in
      has_id-select (λ (j : Job). has_id j.id (chosen env queues limit db)) left.id
        (jobs_claimed env queues limit worker_id lease db)
        (claimed_keyed env queues limit worker_id lease db w)
      ∙ rw (find_claimed env queues limit worker_id lease db left.id, at, is_chosen) is_chosen
