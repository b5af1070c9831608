-- ===== src/Queue/Settle.antt =====
-- internal/queue/postgres.go: Ack, Nack, ExtendLease, Cancel and RequeueDLQ.
use forge_queue.Prelude.{
  ℕ, ◌+◌, ◌==◌, leb, if◌then◌else◌, String, str_eq, Bool, true, false, ◌&&◌, ◌||◌, Option, none,
  some, List, [], ◌∷◌, select, first, ℤ, pos,
}
use forge_queue.Tables.{Job, Run, DeadLetter, Status, ready, succeeded, failed, dead, Db}
use forge_queue.Tables.Rows.{
  update, is_ready, is_running, is_dead, equals, order_by, update_returning,
}
use forge_queue.Tx.{
  Env, Tx, Result, ok, ◌>>=◌, ◌>>◌, pure, scan_row, or_invalid, exec, transact, autocommit,
}
use forge_queue.Queue.Dequeue.{interval_literal}

-- WHERE id = $1 AND status = 'running' AND ($2 = '' OR locked_by = $2).
abbrev pub is_held : ℕ → String → Job → Bool
is_held job_id worker_id j =
    (j.id == job_id) && is_running j.status && (str_eq worker_id "" || equals j.locked_by worker_id)

-- NULLIF(s, '').
abbrev pub null_if_empty : String → Option String
null_if_empty s = if str_eq s "" then none else some s

-- SELECT id FROM job_runs WHERE job_id = $1 AND status = 'running' ORDER BY started_at DESC LIMIT 1.
unfoldable pub latest_run : ℕ → List Run → Option Run
unfolding order_by
latest_run job_id runs = first (
    order_by (λ a b. leb b.started_at a.started_at)
      (select (λ r. (r.job_id == job_id) && is_running r.status) runs))

abbrev pub finished_run : ℕ → Status → String → Run → Run
finished_run now status error r = record r {
  finished_at = some now;
  status = status;
  error = null_if_empty error;
}

-- finishRunSQL, as it changes the table.
unfoldable pub finished_runs : ℕ → ℕ → Status → String → List Run → List Run
unfolding latest_run update
finished_runs now job_id status error runs = elim (latest_run job_id runs) [
  | none ↦ runs
  | some latest ↦ update (λ r. r.id == latest.id) (finished_run now status error) runs
]

unfoldable pub finish_run : Env → ℕ → Status → String → Tx (Unit {0})
unfolding finished_runs
finish_run env job_id status error db =
    ok (tt, record db { runs = finished_runs env.now job_id status error db.runs })

abbrev pub acked : ℕ → Job → Job
acked now j = record j {
  status = succeeded;
  locked_by = none;
  locked_until = none;
  updated_at = now;
}

unfoldable pub ack_body : Env → ℕ → String → Tx Job
unfolding update_returning finish_run
ack_body env job_id worker_id = do
  job ←
      or_invalid
        (exec (env.statement 0) (update_returning (is_held job_id worker_id) (acked env.now)))
  exec (env.statement 1) (finish_run env job_id succeeded "")
  pure job

unfoldable pub ack : Env → ℕ → String → Db → Result Job × Db
unfolding ack_body
ack env job_id worker_id db = transact env (ack_body env job_id worker_id) db

-- SELECT … WHERE … FOR UPDATE.
unfoldable pub select_for_update : (Job → Bool) → Tx Job
select_for_update p db = scan_row (first (select p db.jobs)) db

abbrev pub buried : ℕ → String → Job → Job
buried now message j = record j {
  status = dead;
  locked_by = none;
  locked_until = none;
  last_error = some message;
  updated_at = now;
}

-- INSERT INTO dead_letter … ON CONFLICT (job_id) DO UPDATE SET dead_at = now(), reason = ….
unfoldable pub put_dead_letter : DeadLetter → List DeadLetter → List DeadLetter
put_dead_letter d [] = d ∷ []
put_dead_letter d (x ∷ xs) = if x.job_id == d.job_id then d ∷ xs else x ∷ put_dead_letter d xs

unfoldable pub insert_dead_letter : Env → ℕ → String → Tx (Unit {0})
unfolding put_dead_letter
insert_dead_letter env job_id message db = ok (
  tt,
  record db {
    dead_letter =
        put_dead_letter (record { job_id = job_id; dead_at = env.now; reason = message })
          db.dead_letter;
  },
)

unfoldable pub bury : Env → ℕ → String → Tx (Job × Bool × ℤ)
unfolding update_returning insert_dead_letter finish_run
bury env job_id message = do
  job ← exec (env.statement 1) (update_returning (λ j. j.id == job_id) (buried env.now message))
  exec (env.statement 2) (insert_dead_letter env job_id message)
  exec (env.statement 3) (finish_run env job_id dead message)
  pure (job, true, pos 0)

abbrev pub retried : ℕ → ℕ → String → Job → Job
retried now delay message j = record j {
  status = ready;
  locked_by = none;
  locked_until = none;
  run_at = now + delay;
  last_error = some message;
  updated_at = now;
}

unfoldable pub retry : Env → ℕ → ℤ → String → Tx (Job × Bool × ℤ)
unfolding update_returning interval_literal finish_run
retry env job_id delay message = do
  job ←
      exec (env.statement 1)
        (update_returning (λ j. j.id == job_id) (retried env.now (interval_literal delay) message))
  exec (env.statement 2) (finish_run env job_id failed message)
  pure (job, false, delay)

-- errorString: a nil error is "".
abbrev pub error_string : Option String → String
error_string none = ""
error_string (some message) = message

-- `backoff` is q.backoff, which applies BackoffDelay to the attempts.
unfoldable pub nack_body : Env → (ℕ → ℤ) → ℕ → String → Option String → Tx (Job × Bool × ℤ)
unfolding select_for_update bury retry
nack_body env backoff job_id worker_id cause = do
  job ← or_invalid (exec (env.statement 0) (select_for_update (is_held job_id worker_id)))
  if leb job.max_attempts job.attempts
      then bury env job_id (error_string cause)
      else retry env job_id (backoff job.attempts) (error_string cause)

unfoldable pub nack : Env → (ℕ → ℤ) → ℕ → String → Option String → Db → Result (Job × Bool × ℤ) × Db
unfolding nack_body
nack env backoff job_id worker_id cause db =
    transact env (nack_body env backoff job_id worker_id cause) db

-- WHERE id = $1 AND status = 'running' AND locked_by = $2.
abbrev pub is_leased_by : ℕ → String → Job → Bool
is_leased_by job_id worker_id j =
    (j.id == job_id) && is_running j.status && equals j.locked_by worker_id

abbrev pub extended : ℕ → ℕ → Job → Job
extended now lease j = record j { locked_until = some (now + lease); updated_at = now }

-- `RowsAffected() == 0` is ErrInvalidTransition, as no returned row is elsewhere.
unfoldable pub extend_body : Env → ℕ → String → ℤ → Tx (Unit {0})
unfolding update_returning interval_literal
extend_body env job_id worker_id lease = do
  or_invalid
      (update_returning (is_leased_by job_id worker_id) (extended env.now (interval_literal lease)))
  pure tt

unfoldable pub extend_lease : Env → ℕ → String → ℤ → Db → Result (Unit {0}) × Db
unfolding extend_body
extend_lease env job_id worker_id lease db =
    autocommit (env.statement 0) (extend_body env job_id worker_id lease) db

abbrev pub is_cancellable : ℕ → Job → Bool
is_cancellable job_id j = (j.id == job_id) && is_ready j.status

abbrev pub cancelled : ℕ → Job → Job
cancelled now j = record j { status = failed; last_error = some "cancelled"; updated_at = now }

unfoldable pub cancel_body : Env → ℕ → Tx Job
unfolding update_returning
cancel_body env job_id = or_invalid (update_returning (is_cancellable job_id) (cancelled env.now))

unfoldable pub cancel : Env → ℕ → Db → Result Job × Db
unfolding cancel_body
cancel env job_id db = autocommit (env.statement 0) (cancel_body env job_id) db

abbrev pub is_buried : ℕ → Job → Bool
is_buried job_id j = (j.id == job_id) && is_dead j.status

abbrev pub requeued : ℕ → Job → Job
requeued now j = record j {
  status = ready;
  attempts = 0;
  locked_by = none;
  locked_until = none;
  run_at = now;
  last_error = none;
  updated_at = now;
}

-- DELETE FROM dead_letter WHERE job_id = $1.
unfoldable pub remove_dead_letter : ℕ → List DeadLetter → List DeadLetter
remove_dead_letter i [] = []
remove_dead_letter i (x ∷ xs) =
    let rest = remove_dead_letter i xs in if x.job_id == i then rest else x ∷ rest

unfoldable pub delete_dead_letter : ℕ → Tx (Unit {0})
unfolding remove_dead_letter
delete_dead_letter job_id db =
    ok (tt, record db { dead_letter = remove_dead_letter job_id db.dead_letter })

unfoldable pub requeue_body : Env → ℕ → Tx Job
unfolding update_returning delete_dead_letter
requeue_body env job_id = do
  job ← or_invalid (exec (env.statement 0) (update_returning (is_buried job_id) (requeued env.now)))
  exec (env.statement 1) (delete_dead_letter job_id)
  pure job

unfoldable pub requeue_dlq : Env → ℕ → Db → Result Job × Db
unfolding requeue_body
requeue_dlq env job_id db = transact env (requeue_body env job_id) db
