-- ===== src/Api/Reads.antt =====
-- internal/api/server.go: listJobs, queueStats, listDLQ and StartStatsTicks, which read. What Atoi
-- returns, whatever its error, is a parameter.
use forge_queue.Prelude.{ℕ, String, Option, none, some, List, [], ℤ, pos}
use forge_queue.Tables.{Job, Db}
use forge_queue.Tx.{Env, Result, ok, err}
use forge_queue.Queue.Params.{or_default}
use forge_queue.Queue.Views.{
  DeadJob, StateCounts, no_counts, depth, state_counts, recent_jobs, list_dlq,
}
use forge_queue.Metrics.{Texts, Series, Snapshot, snapshot}

pub data Listing : Type 0 where
  jobs_listed : List Job → Listing
  dead_listed : List DeadJob → Listing
  stats_shown : Snapshot → Listing
  failed_listing : String → Listing

unfoldable pub list_jobs : (String → ℤ) → Env → String → Db → Listing
unfolding recent_jobs
list_jobs atoi env limit db = elim (recent_jobs env (atoi limit) db) [
  | ok jobs ↦ jobs_listed jobs
  | err e ↦ failed_listing "list jobs failed"
]

unfoldable pub list_dead : (String → ℤ) → Env → String → Db → Listing
unfolding list_dlq
list_dead atoi env limit db = elim (list_dlq env (atoi limit) db) [
  | ok jobs ↦ dead_listed jobs
  | err e ↦ failed_listing "list dlq failed"
]

-- `none` is a panic.
unfoldable pub queue_stats : Texts → Option Series → Env → String → ℕ → Db → Option Listing
unfolding depth snapshot
queue_stats texts series env name now db = elim (depth env (or_default "default" name) db) [
  | err e ↦ some (failed_listing "stats failed")
  | ok n ↦ elim (snapshot texts series now (or_default "default" name) n) [
    | none ↦ none
    | some s ↦ some (stats_shown s)
  ]
]

-- The event `stats.tick`.
pub record StatsTick : Type 0 where
  pub stats : Snapshot
  pub counts : StateCounts
  pub jobs : List Job
  pub dlq : List DeadJob

-- A call whose error is dropped.
abbrev pub value_or : {A : Type 0} → A → Result A → A
value_or zero_value (ok a) = a
value_or zero_value (err e) = zero_value

-- One tick: what is published, if anything; each call of the queue has a surrounding of its own.
unfoldable pub stats_tick : Texts → Option Series → (ℕ → Env) → ℕ → Db → Option StatsTick
unfolding depth snapshot state_counts recent_jobs list_dlq
stats_tick texts series env now db = elim (depth (env 0) "default" db) [
  | err e ↦ none
  | ok n ↦ elim (snapshot texts series now "default" n) [
    | none ↦ none
    | some s ↦ some (record {
      stats = s;
      counts = value_or no_counts (state_counts (env 1) "default" db);
      jobs = value_or [] (recent_jobs (env 2) (pos 50) db);
      dlq = value_or [] (list_dlq (env 3) (pos 100) db);
    })
  ]
]
