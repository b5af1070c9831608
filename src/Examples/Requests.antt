-- ===== src/Examples/Requests.antt =====
-- The theorems on the HTTP handlers, applied.
use forge_queue.Prelude.{ℕ, none, some, true, ◌≡◌, refl, pos, ℤ}
use forge_queue.Queue.Params.{normalize_enqueue_params}
use forge_queue.Queue.Enqueue.{smallint, attempt_limit}
use forge_queue.RateLimit.Bound.{empty_bucket}
use forge_queue.Api.{SubmitJobRequest, Server, Redis, State, is_invalid, to_params, submit_job}
use forge_queue.Api.Submissions.{IsReported, submit_reports, submit_in_range}
use forge_queue.Grpc.{Go, object, absent, submit_job_rpc}
use forge_queue.Grpc.Agreement.{fields_of, reply_job, response_job, grpc_agrees}
use forge_queue.Examples.{at_time}
use forge_queue.Examples.Calls.{waiting_db, waiting_db-IsWellFormed}

abbrev request : SubmitJobRequest
request = record {
  tenant_id = "";
  queue = "default";
  handler = "echo";
  payload = "{}";
  priority = pos 7;
  max_attempts = pos 3;
  idempotency_key = "order-8";
}

abbrev server : Server
server = record { limiter = some (record { rate = 10; burst = 10 }); parse_uuid = λ s. none }

abbrev redis : Redis
redis = record { reached = true; now = 300; clock = 300 }

abbrev state : State
state = record { db = waiting_db; buckets = λ key. empty_bucket }

submit_reports_example :
    IsReported waiting_db
      (submit_job server (at_time 300) redis (some request) state).0
      (submit_job server (at_time 300) redis (some request) state).1.db
submit_reports_example =
    submit_reports server (at_time 300) redis (some request) state
      waiting_db-IsWellFormed.jobs_keyed

submit_in_range_example :
    (priority : ℕ) × (budget : ℕ) × (smallint
        (normalize_enqueue_params 300 (to_params request 1)).priority
      ≡ some priority)
    × (attempt_limit (normalize_enqueue_params 300 (to_params request 1)).max_attempts
        ≡ some budget)
unfolding is_invalid
submit_in_range_example = submit_in_range request 1 300 refl

-- Numbers of the fields are integers here.
abbrev go : Go ℤ
go = record { marshal = λ v. some "{}"; parse_uuid = λ s. none; to_int = λ z. z }

abbrev unlimited : Server
unlimited = record server { limiter = none }

grpc_agrees_example :
    ((submit_job_rpc go (at_time 300) (fields_of go (λ z. z) request (object absent)) waiting_db).1
      ≡ (submit_job unlimited (at_time 300) redis (some request) state).1.db)
    × (reply_job
          (submit_job_rpc go
            (at_time 300)
            (fields_of go (λ z. z) request (object absent))
            waiting_db).0
        ≡ response_job (submit_job unlimited (at_time 300) redis (some request) state).0)
unfolding is_invalid
grpc_agrees_example =
    grpc_agrees go (λ z. z) unlimited (at_time 300) redis request (object absent) state
      (λ n h. refl) refl refl refl refl
