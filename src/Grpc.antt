-- ===== src/Grpc.antt =====
-- internal/grpcsvc/server.go: the handlers of the gRPC service, from the fields of a request to
-- the answer. json.Marshal, uuid.Parse and Go's float64 are parameters; metrics, events and the
-- encoding of answers are left out.
pub mod Agreement
use forge_queue.Prelude.{
  ℕ, if◌then◌else◌, String, str_eq, Bool, Option, none, some, List, ℤ, pos, to_int16,
}
use forge_queue.Tables.{Job, Db}
use forge_queue.Tx.{Env, invalid_transition, no_rows, database, Result, ok, err}
use forge_queue.Queue.Params.{EnqueueParams, default_tenant_id, or_default}
use forge_queue.Queue.Enqueue.{enqueue}
use forge_queue.Queue.Settle.{cancel, requeue_dlq}
use forge_queue.Queue.Views.{DeadJob, get_job, list_dlq, depth}

-- What structpb.Struct.AsMap gives; a map is a list of its entries.
mutual
  pub data Value (F : Type 0) : Type 0 where
    null : Value F
    boolean : Bool → Value F
    number : F → Value F
    text : String → Value F
    array : Values F → Value F
    object : Fields F → Value F

  pub data Values (F : Type 0) : Type 0 where
    none_left : Values F
    value : Value F → Values F → Values F

  pub data Fields (F : Type 0) : Type 0 where
    absent : Fields F
    field : String → Value F → Fields F → Fields F

-- json.Marshal, uuid.Parse and int(x) of a float64.
pub record Go (F : Type 0) : Type 0 where
  pub marshal : Value F → Option String
  pub parse_uuid : String → Option ℕ
  pub to_int : F → ℤ

-- codes.Code.
pub data Code : Type 0 where
  invalid_argument not_found failed_precondition internal : Code

-- What a handler returns: the value that toStruct encodes, or a status.
pub data Reply : Type 0 where
  job_reply : Job → Reply
  stats_reply : String → ℕ → Reply
  dead_jobs : List DeadJob → Reply
  status : Code → Option String → Reply  -- `none`: the text of an error

abbrev pub enqueue_reply : Result (Job × Bool) → Reply
enqueue_reply (ok (job, created)) = job_reply job
enqueue_reply (err e) = status internal none

-- The answer of CancelJob and RequeueDLQ.
abbrev pub transition_reply : String → Result Job → Reply
transition_reply message (ok job) = job_reply job
transition_reply message (err invalid_transition) = status failed_precondition (some message)
transition_reply message (err no_rows) = status internal none
transition_reply message (err database) = status internal none

module _ {F : Type 0} where
  unfoldable pub lookup : String → Fields F → Option (Value F)
  lookup key absent = none
  lookup key (field k v fields) = if str_eq k key then some v else lookup key fields

  -- fields[key].(string), "" when it is none.
  abbrev pub as_string : Option (Value F) → String
  as_string (some (text s)) = s
  as_string _ = ""

  unfoldable pub string_field : Fields F → String → String
  unfolding lookup
  string_field fields key = as_string (lookup key fields)

  -- The values of AsMap are never an int.
  abbrev pub as_number : Go F → Option (Value F) → ℤ
  as_number go (some (number x)) = go.to_int x
  as_number go _ = pos 0

  unfoldable pub number_field : Go F → Fields F → String → ℤ
  unfolding lookup
  number_field go fields key = as_number go (lookup key fields)

  -- `none` is a tenant_id that does not parse.
  unfoldable pub tenant_field : Go F → Fields F → Option ℕ
  unfolding string_field
  tenant_field go fields =
      let raw = string_field fields "tenant_id" in
      if str_eq raw "" then some default_tenant_id else go.parse_uuid raw

  -- `none` is a payload that does not encode.
  unfoldable pub payload_field : Go F → Fields F → Option String
  unfolding lookup
  payload_field go fields = elim (lookup "payload" fields) [
    | none ↦ some "{}"
    | some raw ↦ go.marshal raw
  ]

  unfoldable pub submit_params : Go F → Fields F → ℕ → String → EnqueueParams
  unfolding string_field number_field
  submit_params go fields tenant payload = record {
    tenant_id = tenant;
    queue = string_field fields "queue";
    handler = string_field fields "handler";
    payload = payload;
    priority = to_int16 (number_field go fields "priority");
    max_attempts = number_field go fields "max_attempts";
    run_at = none;
    idempotency_key = string_field fields "idempotency_key";
  }

  unfoldable pub submit_payload : Go F → Env → Fields F → ℕ → Option String → Db → Reply × Db
  unfolding submit_params enqueue
  submit_payload go env fields tenant none db =
      (status invalid_argument (some "invalid payload"), db)
  submit_payload go env fields tenant (some payload) db =
      let (r, db') = enqueue env (submit_params go fields tenant payload) db in
      (enqueue_reply r, db')

  unfoldable pub submit_tenant : Go F → Env → Fields F → Option ℕ → Db → Reply × Db
  unfolding payload_field submit_payload
  submit_tenant go env fields none db = (status invalid_argument (some "invalid tenant_id"), db)
  submit_tenant go env fields (some tenant) db =
      submit_payload go env fields tenant (payload_field go fields) db

  unfoldable pub submit_job_rpc : Go F → Env → Fields F → Db → Reply × Db
  unfolding tenant_field submit_tenant
  submit_job_rpc go env fields db = submit_tenant go env fields (tenant_field go fields) db

  -- `id`, or else `job_id`.
  unfoldable pub id_field : Go F → Fields F → Option ℕ
  unfolding string_field
  id_field go fields =
      let raw = or_default (string_field fields "job_id") (string_field fields "id") in
      if str_eq raw "" then none else go.parse_uuid raw

  unfoldable pub get_job_rpc : Go F → Env → Fields F → Db → Reply
  unfolding id_field get_job
  get_job_rpc go env fields db = elim (id_field go fields) [
    | none ↦ status invalid_argument none
    | some id ↦ elim (get_job env id db) [
      | ok job ↦ job_reply job
      | err e ↦ status not_found (some "job not found")
    ]
  ]

  unfoldable pub cancel_job_rpc : Go F → Env → Fields F → Db → Reply × Db
  unfolding id_field cancel
  cancel_job_rpc go env fields db = elim (id_field go fields) [
    | none ↦ (status invalid_argument none, db)
    | some id ↦
        let (r, db') = cancel env id db in (transition_reply "job is not cancellable" r, db')
  ]

  unfoldable pub get_queue_stats_rpc : Env → Fields F → Db → Reply
  unfolding string_field depth
  get_queue_stats_rpc env fields db =
      let queue_name = or_default "default" (string_field fields "queue") in
      elim (depth env queue_name db) [
        | ok n ↦ stats_reply queue_name n
        | err e ↦ status internal none
      ]

  unfoldable pub list_dlq_rpc : Go F → Env → Fields F → Db → Reply
  unfolding number_field list_dlq
  list_dlq_rpc go env fields db = elim (list_dlq env (number_field go fields "limit") db) [
    | ok jobs ↦ dead_jobs jobs
    | err e ↦ status internal none
  ]

  unfoldable pub requeue_dlq_rpc : Go F → Env → Fields F → Db → Reply × Db
  unfolding id_field requeue_dlq
  requeue_dlq_rpc go env fields db = elim (id_field go fields) [
    | none ↦ (status invalid_argument none, db)
    | some id ↦
        let (r, db') = requeue_dlq env id db in (transition_reply "job is not requeueable" r, db')
  ]
