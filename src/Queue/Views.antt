-- ===== src/Queue/Views.antt =====
-- internal/queue/postgres.go: GetJob, ListDLQ, RecentJobs, Depth, StateCounts and RunCount, which
-- read and change nothing.
use forge_queue.Prelude.{
  ℕ, zero, suc, ◌==◌, ltb, leb, if◌then◌else◌, String, str_eq, Bool, true, false, ◌&&◌, none, some,
  List, [], ◌∷◌, select, first, take, length, ℤ, pos, negsuc,
}
use forge_queue.Tables.{Job, DeadLetter, Status, ready, running, succeeded, failed, dead, Db}
use forge_queue.Tables.Rows.{is_ready, find, find_job, order_by}
use forge_queue.Tx.{Env, Fate, works, refused, unreported, Result, ok, err, database, no_rows}

-- A query by itself.
abbrev pub query : {A : Type 0} → Fate → Result A → Result A
query works r = r
query refused r = err database
query unreported r = err database

unfoldable pub get_job : Env → ℕ → Db → Result Job
get_job env job_id db =
    query (env.statement 0)
      (elim (first (select (λ j. j.id == job_id) db.jobs)) [ none ↦ err no_rows | some j ↦ ok j ])

-- `if limit <= 0 || limit > most { limit = fallback }`.
abbrev pub page_size : ℕ → ℕ → ℤ → ℕ
page_size fallback most (pos zero) = fallback
page_size fallback most (pos (suc n)) = if ltb most (suc n) then fallback else suc n
page_size fallback most (negsuc n) = fallback

pub record DeadJob : Type 0 where
  pub job : Job
  pub dead_at : ℕ
  pub reason : String

-- FROM dead_letter d JOIN jobs j ON j.id = d.job_id.
unfoldable pub join_jobs : List DeadLetter → List Job → List DeadJob
unfolding find
join_jobs [] jobs = []
join_jobs (d ∷ ds) jobs = elim (find_job d.job_id jobs) [
  | none ↦ join_jobs ds jobs
  | some j ↦ record { job = j; dead_at = d.dead_at; reason = d.reason } ∷ join_jobs ds jobs
]

unfoldable pub list_dlq : Env → ℤ → Db → Result (List DeadJob)
unfolding join_jobs order_by
list_dlq env limit db = query (env.statement 0) (
    ok (
      take (page_size 100 500 limit)
        (order_by (λ a b. leb b.dead_at a.dead_at) (join_jobs db.dead_letter db.jobs))))

unfoldable pub recent_jobs : Env → ℤ → Db → Result (List Job)
unfolding order_by
recent_jobs env limit db =
    query (env.statement 0)
      (ok (take (page_size 50 200 limit) (order_by (λ a b. leb b.updated_at a.updated_at) db.jobs)))

abbrev pub is_waiting : String → Job → Bool
is_waiting queue_name j = str_eq j.queue queue_name && is_ready j.status

unfoldable pub depth : Env → String → Db → Result ℕ
depth env queue_name db =
    query (env.statement 0) (ok (length (select (is_waiting queue_name) db.jobs)))

pub record StateCounts : Type 0 where
  pub ready : ℕ
  pub running : ℕ
  pub succeeded : ℕ
  pub failed : ℕ
  pub dead : ℕ

abbrev pub has_status : Status → Status → Bool
has_status ready ready = true
has_status running running = true
has_status succeeded succeeded = true
has_status failed failed = true
has_status dead dead = true
has_status _ _ = false

-- SELECT status, count(*) … GROUP BY status: one row for each status that occurs.
unfoldable pub count_status : Status → List (Status × ℕ) → List (Status × ℕ)
count_status s [] = (s, 1) ∷ []
count_status s ((t, n) ∷ rows) =
    if has_status s t then (t, suc n) ∷ rows else (t, n) ∷ count_status s rows

unfoldable pub group_by_status : String → List Job → List (Status × ℕ)
unfolding count_status
group_by_status queue_name [] = []
group_by_status queue_name (j ∷ js) =
    let rows = group_by_status queue_name js in
    if str_eq j.queue queue_name then count_status j.status rows else rows

-- The `switch status` of the loop over the rows.
unfoldable pub set_count : StateCounts → Status → ℕ → StateCounts
set_count counts ready n = record counts { ready = n }
set_count counts running n = record counts { running = n }
set_count counts succeeded n = record counts { succeeded = n }
set_count counts failed n = record counts { failed = n }
set_count counts dead n = record counts { dead = n }

unfoldable pub scan_counts : StateCounts → List (Status × ℕ) → StateCounts
unfolding set_count
scan_counts counts [] = counts
scan_counts counts ((s, n) ∷ rows) = scan_counts (set_count counts s n) rows

abbrev pub no_counts : StateCounts
no_counts = record { ready = 0; running = 0; succeeded = 0; failed = 0; dead = 0 }

unfoldable pub state_counts : Env → String → Db → Result StateCounts
unfolding group_by_status scan_counts
state_counts env queue_name db =
    query (env.statement 0) (ok (scan_counts no_counts (group_by_status queue_name db.jobs)))

unfoldable pub run_count : Env → Db → Result ℕ
run_count env db = query (env.statement 0) (ok (length db.runs))
