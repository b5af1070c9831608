-- ===== src/Api.antt =====
-- internal/api/server.go: submitJob, and the answers of cancelJob, requeueDLQ and getJob. The
-- decoded request is given (`none` is a body that does not decode), and so are uuid.Parse and
-- what Redis does.
pub mod Submissions
pub mod Schedules
pub mod Reads
pub mod Routes
use forge_queue.Prelude.{
  ℕ, ltb, if◌then◌else◌, String, str_eq, Bool, true, false, ◌||◌, Option, none, some, ℤ, pos,
  negsuc, to_int16,
}
use Prim.Native.String.{len}
use forge_queue.Tables.{Job, Db}
use forge_queue.Tx.{Env, Error, invalid_transition, no_rows, database, Result, ok, err}
use forge_queue.Queue.Params.{EnqueueParams, default_tenant_id, or_default}
use forge_queue.Queue.Enqueue.{enqueue}
use forge_queue.Queue.Settle.{cancel, requeue_dlq}
use forge_queue.Queue.Views.{get_job}
use forge_queue.RateLimit.{Limiter, Bucket, Answer, allow}

-- submitJobRequest.
pub record SubmitJobRequest : Type 0 where
  pub tenant_id : String
  pub queue : String
  pub handler : String
  pub payload : String
  pub priority : ℤ
  pub max_attempts : ℤ
  pub idempotency_key : String

pub record Server : Type 0 where
  pub limiter : Option Limiter
  pub parse_uuid : String → Option ℕ

-- How Redis answers during a request.
pub record Redis : Type 0 where
  pub reached : Bool
  pub now : ℕ
  pub clock : ℕ

pub record State : Type 0 where
  pub db : Db
  pub buckets : String → Bucket

-- What a handler writes: a job, or a status and a message.
pub data Response : Type 0 where
  created : Job → Response
  existing : Job → Response
  rejected : ℕ → String → Response
  failed : String → Response

unfoldable pub status_code : Response → ℕ
status_code (created job) = 201
status_code (existing job) = 200
status_code (rejected status message) = status
status_code (failed message) = 500

-- `x < 0 || x > most`.
abbrev pub is_outside : ℕ → ℤ → Bool
is_outside most (pos n) = ltb most n
is_outside most (negsuc n) = true

unfoldable pub is_invalid : SubmitJobRequest → Bool
is_invalid req =
    str_eq req.handler ""
    || (ltb 128 (len req.handler)
        || (ltb 128 (len req.queue)
            || (is_outside 32767 req.priority || is_outside 100 req.max_attempts)))

abbrev pub tenant_of : Server → String → Option ℕ
tenant_of srv s = if str_eq s "" then some default_tenant_id else srv.parse_uuid s

abbrev pub to_params : SubmitJobRequest → ℕ → EnqueueParams
to_params req tenant = record {
  tenant_id = tenant;
  queue = req.queue;
  handler = req.handler;
  payload = or_default "{}" req.payload;
  priority = to_int16 req.priority;
  max_attempts = req.max_attempts;
  run_at = none;
  idempotency_key = req.idempotency_key;
}

unfoldable pub respond : Result (Job × Bool) → Response
respond (err e) = failed "enqueue failed"
respond (ok (job, true)) = created job
respond (ok (job, false)) = existing job

unfoldable pub enqueue_job : Env → EnqueueParams → State → Response × State
unfolding enqueue respond
enqueue_job env params st =
    let (r, db') = enqueue env params st.db in (respond r, record st { db = db' })

abbrev pub put : String → Bucket → (String → Bucket) → String → Bucket
put key b buckets k = if str_eq k key then b else buckets k

-- The limiter is asked for the tenant; an error of Redis lets the request pass.
unfoldable pub submit_for :
    Server → Env → Redis → SubmitJobRequest → Option ℕ → State → Response × State
unfolding allow enqueue_job
submit_for srv env redis req none st = (rejected 400 "invalid tenant_id", st)
submit_for srv env redis req (some tenant) st =
    let key = env.uuid_text tenant in
    let (answer, b) = allow srv.limiter redis.reached redis.now redis.clock (st.buckets key) in
    let st' = record st { buckets = put key b st.buckets } in
    if answer.allowed
    then enqueue_job env (to_params req tenant) st'
    else (rejected 429 "rate limited", st')

unfoldable pub submit_job :
    Server → Env → Redis → Option SubmitJobRequest → State → Response × State
unfolding is_invalid submit_for
submit_job srv env redis none st = (rejected 400 "invalid JSON", st)
submit_job srv env redis (some req) st =
    if is_invalid req
    then (rejected 400 "invalid job parameters", st)
    else submit_for srv env redis req (tenant_of srv req.tenant_id) st

-- The status of cancelJob and requeueDLQ on an error.
abbrev pub transition_status : Error → ℕ
transition_status invalid_transition = 409
transition_status no_rows = 500
transition_status database = 500

abbrev transition_response : String → Result Job → Response
transition_response message (ok job) = existing job
transition_response message (err e) = rejected (transition_status e) message

unfoldable pub cancel_job : Server → Env → String → Db → Response × Db
unfolding cancel
cancel_job srv env id db = elim (srv.parse_uuid id) [
  | none ↦ (rejected 400 "invalid id", db)
  | some i ↦ let (r, db') = cancel env i db in (transition_response "job is not cancellable" r, db')
]

unfoldable pub requeue_job : Server → Env → String → Db → Response × Db
unfolding requeue_dlq
requeue_job srv env id db = elim (srv.parse_uuid id) [
  | none ↦ (rejected 400 "invalid id", db)
  | some i ↦
      let (r, db') = requeue_dlq env i db in (transition_response "job is not requeueable" r, db')
]

unfoldable pub read_job : Server → Env → String → Db → Response
unfolding get_job
read_job srv env id db = elim (srv.parse_uuid id) [
  | none ↦ rejected 400 "invalid id"
  | some i ↦ elim (get_job env i db) [
    | ok job ↦ existing job
    | err e ↦ rejected 404 "job not found"
  ]
]
