-- ===== src/Worker.antt =====
-- internal/worker/pool.go: Pool.normalize, the loop of a slot, execute and the heartbeat. The
-- handlers are a parameter: what one returns for a job is `none` for nil, or an error's text.
pub mod Progress
pub mod Heartbeat
pub mod Failures
pub mod Handlers
pub mod Slots
use forge_queue.Prelude.{
  ℕ, zero, suc, ◌*◌, ◌/◌, ltb, if◌then◌else◌, String, concat, str_eq, Bool, true, false, Option,
  none, some, List, [], ◌∷◌, ℤ, pos, negsuc, positive_or,
}
use forge_queue.Tables.{Job, Status, succeeded, failed, dead, Db}
use forge_queue.Tx.{Env, Result, ok, err}
use forge_queue.Queue.Params.{or_default}
use forge_queue.Queue.Dequeue.{dequeue}
use forge_queue.Queue.Settle.{ack, nack, extend_lease}
use forge_queue.Queue.Backoff.{second}

-- Durations are in nanoseconds.
pub record Pool : Type 0 where
  pub queues : List String
  pub concurrency : ℤ
  pub worker_id : String
  pub lease : ℤ
  pub job_timeout : ℤ
  pub poll_interval : ℤ
  pub shutdown_grace : ℤ

abbrev pub default_queues : List String → List String
default_queues [] = "default" ∷ []
default_queues (q ∷ qs) = q ∷ qs

unfoldable pub normalize : Pool → Pool
normalize p = record {
  queues = default_queues p.queues;
  concurrency = pos (positive_or 4 p.concurrency);
  worker_id = or_default "worker" p.worker_id;
  lease = pos (positive_or (10 * second) p.lease);
  job_timeout = pos (positive_or (30 * second) p.job_timeout);
  poll_interval = pos (positive_or 100000000 p.poll_interval);
  shutdown_grace = pos (positive_or (20 * second) p.shutdown_grace);
}

-- The handlers of the registry, by name.
abbrev pub Registry : Type 0
Registry = String → Option (Job → Option String)

-- fmt.Errorf("unknown handler %q", …) is of `quote`, the text of strconv.Quote.
unfoldable pub handle : Registry → (String → String) → Job → Option String
handle registry quote job = elim (registry job.handler) [
  | some handler ↦ handler job
  | none ↦ some (concat "unknown handler " (quote job.handler))
]

-- What execute publishes and records at its end.
pub data Report : Type 0 where
  job_failed : Job → Bool → ℤ → String → Status → Report
  job_succeeded : Job → Report

abbrev pub nack_status : Bool → Status
nack_status true = dead
nack_status false = failed

-- The end of execute after a handler that failed: an error of Nack is logged alone.
unfoldable pub report_nack : String → Result (Job × Bool × ℤ) → Option Report
report_nack message (err e) = none
report_nack message (ok (job, d, delay)) = some (job_failed job d delay message (nack_status d))

unfoldable pub report_ack : Result Job → Option Report
report_ack (err e) = none
report_ack (ok job) = some (job_succeeded job)

-- execute, from the return of the handler on.
unfoldable pub finish : Env → (ℕ → ℤ) → Pool → Job → Option String → Db → Option Report × Db
unfolding nack ack report_nack report_ack
finish env backoff p job (some message) db =
    let (r, db') = nack env backoff job.id p.worker_id (some message) db in
    (report_nack message r, db')
finish env backoff p job none db =
    let (r, db') = ack env job.id p.worker_id db in (report_ack r, db')

unfoldable pub execute :
    Env → (ℕ → ℤ) → Pool → Registry → (String → String) → Job → Db → Option Report × Db
unfolding handle finish
execute env backoff p registry quote job db =
    finish env backoff p job (handle registry quote job) db

-- The period of the heartbeat.
unfoldable pub heartbeat_interval : ℤ → ℕ
heartbeat_interval (negsuc n) = 5 * second
heartbeat_interval (pos n) =
    let third = n / 3 in
    if ltb 0 third then (if ltb (5 * second) third then 5 * second else third) else 5 * second

-- One tick of the heartbeat, and whether it goes on.
unfoldable pub beat : Env → Pool → Job → Db → Bool × Db
unfolding extend_lease
beat env p job db =
    let (r, db') = extend_lease env job.id p.worker_id p.lease db in
    (elim r [ ok _ ↦ true | err e ↦ false ], db')

-- What a slot of the pool does after a Dequeue: sleep, or run the job.
pub data Turn : Type 0 where
  sleeps : Turn
  runs : Job → Turn

abbrev pub turn : Result (List Job) → Turn
turn (err e) = sleeps
turn (ok []) = sleeps
turn (ok (job ∷ jobs)) = runs job

unfoldable pub poll : Env → Pool → Db → Turn × Db
unfolding dequeue
poll env p db = let (r, db') = dequeue env p.queues (pos 1) p.worker_id p.lease db in (turn r, db')
