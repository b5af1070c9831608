-- ===== src/Queue/WellFormed.antt =====
-- The invariant of the database: the constraints of the schema, and the agreement between `jobs`,
-- `job_runs` and `dead_letter` that the statements of internal/queue/postgres.go are to maintain.
pub mod Rows
pub mod Runs
pub mod Letters
pub mod Settled
pub mod Kept
pub mod Step
pub mod Grown
use forge_queue.Prelude.{
  ℕ, ◌+◌, ◌≤◌, ◌<◌, ◌≡◌, ◌==◌, ◌&&◌, if◌then◌else◌, Bool, true, false, Option, none, some, List, [],
  ◌∷◌, All,
}
use forge_queue.Tables.{Job, Run, DeadLetter, Db}
use forge_queue.Tables.Rows.{is_running, is_dead, find_job}
use forge_queue.Tables.Find.{Distinct, test}
use forge_queue.Queue.Enqueue.{has_key}

abbrev pub flag : Bool → ℕ
flag true = 1
flag false = 0

abbrev pub is_set {ℓ} : {A : Type ℓ} → Option A → Bool
is_set none = false
is_set (some a) = true

-- A job is leased exactly while it runs; the CHECK constraints hold.
abbrev pub IsShaped : Job → Type 0
IsShaped j =
    (is_set j.locked_by ≡ is_running j.status)
    × (is_set j.locked_until ≡ is_running j.status)
    × (j.priority ≤ 32767)
    × (0 < j.max_attempts)

-- Two rows with one tenant and one idempotency key.
abbrev pub clashes : Job → Job → Bool
clashes a b = elim a.idempotency_key [ none ↦ false | some key ↦ has_key a.tenant_id key b ]

-- UNIQUE (tenant_id, idempotency_key).
abbrev pub UniqueKeys : List Job → Type 0
UniqueKeys [] = Unit
UniqueKeys (j ∷ js) = All (λ k. clashes j k ≡ false) js × UniqueKeys js

-- How many runs of a job are open.
unfoldable pub active : ℕ → List Run → ℕ
active i [] = 0
active i (r ∷ rs) = flag ((r.job_id == i) && is_running r.status) + active i rs

-- How many rows of `dead_letter` a job has.
unfoldable pub letters : ℕ → List DeadLetter → ℕ
letters i [] = 0
letters i (d ∷ ds) = flag (d.job_id == i) + letters i ds

pub record IsWellFormed (db : Db) : Type 0 where
  pub jobs_keyed : Distinct (λ j. j.id) db.jobs
  pub runs_keyed : Distinct (λ r. r.id) db.runs
  pub shaped : All IsShaped db.jobs
  pub keys_unique : UniqueKeys db.jobs
  pub runs_match :
      (i : ℕ)
      → active i db.runs ≡ flag (test (λ (j : Job). is_running j.status) (find_job i db.jobs))
  pub letters_match :
      (i : ℕ)
      → letters i db.dead_letter ≡ flag (test (λ (j : Job). is_dead j.status) (find_job i db.jobs))
