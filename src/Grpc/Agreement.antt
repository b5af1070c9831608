-- ===== src/Grpc/Agreement.antt =====
-- SubmitJob of internal/grpcsvc/server.go against POST /v1/jobs of internal/api/server.go.
use forge_queue.Prelude.{
  ℕ, ◌≡◌, refl, ◌≤◌, if◌then◌else◌, Bool, true, false, str_eq, Option, none, some, arith, ℤ, pos,
  negsuc, sym, subst,
}
use forge_queue.Tables.{Job, Db}
use forge_queue.Tx.{Env, Result, ok, err}
use forge_queue.Queue.Params.{EnqueueParams, or_default, default_tenant_id}
use forge_queue.Queue.Enqueue.{enqueue}
use forge_queue.Api.{
  SubmitJobRequest, Server, Redis, State, Response, created, existing, rejected, failed, is_invalid,
  is_outside, to_params, respond, enqueue_job, submit_for, submit_job,
}
use forge_queue.RateLimit.{allow}
use forge_queue.Grpc.{
  Value, number, text, Fields, field, absent, Go, Reply, job_reply, lookup, submit_job_rpc,
  submit_tenant, submit_payload, submit_params, enqueue_reply, tenant_field, payload_field,
  string_field,
}

-- The job of an answer.
abbrev pub response_job : Response → Option Job
response_job (created job) = some job
response_job (existing job) = some job
response_job (rejected code message) = none
response_job (failed message) = none

abbrev pub reply_job : Reply → Option Job
reply_job (job_reply job) = some job
reply_job _ = none

module _ {F : Type 0} (go : Go F) (number_of : ℤ → F) where
  -- A request of the HTTP interface as the fields of the other.
  abbrev pub fields_of : SubmitJobRequest → Value F → Fields F
  fields_of req payload = field "tenant_id" (text req.tenant_id) (
      field "queue" (text req.queue) (
        field "handler" (text req.handler) (
          field "payload" payload (
            field "priority" (number (number_of req.priority)) (
              field "max_attempts" (number (number_of req.max_attempts))
                (field "idempotency_key" (text req.idempotency_key) absent))))))

  -- A float64 holds the integers of a request that passes the checks.
  abbrev pub IsExact : Type 0
  IsExact = (n : ℕ) → n ≤ 32767 → go.to_int (number_of (pos n)) ≡ pos n

  exact_number :
      IsExact
      → (most : ℕ) (z : ℤ) → most ≤ 32767
      → is_outside most z ≡ false
      → go.to_int (number_of z) ≡ z
  exact_number exact most (pos n) m h = exact n (ground arith)
  exact_number exact most (negsuc n) m h = absurd (ground arith)

  same_params :
      (req : SubmitJobRequest) (payload : Value F) (tenant : ℕ)
      → IsExact
      → is_invalid req ≡ false
      → submit_params go (fields_of req payload) tenant (or_default "{}" req.payload)
        ≡ to_params req tenant
  unfolding submit_params is_invalid lookup
  same_params req payload tenant exact h =
      let p : go.to_int (number_of req.priority) ≡ req.priority =
        exact_number exact 32767 req.priority (omega arith) (ground arith) in
      let m : go.to_int (number_of req.max_attempts) ≡ req.max_attempts =
        exact_number exact 100 req.max_attempts (omega arith) (ground arith) in
      rw (p, m) refl

  enqueue_agrees :
      (env : Env) (params : EnqueueParams) (st : State) (r : Result (Job × Bool)) (db' : Db)
      → enqueue env params st.db ≡ (r, db')
      → reply_job (enqueue_reply r) ≡ response_job (respond r)
  unfolding respond
  enqueue_agrees env params st (err e) db' h = refl
  enqueue_agrees env params st (ok (job, true)) db' h = refl
  enqueue_agrees env params st (ok (job, false)) db' h = refl

  tenant_agrees :
      (srv : Server) (env : Env) (redis : Redis) (req : SubmitJobRequest) (payload : Value F)
      (st : State)
      → IsExact
      → srv.limiter ≡ none
      → go.marshal payload ≡ some (or_default "{}" req.payload)
      → is_invalid req ≡ false
      → (tenant : Option ℕ)
      → ((submit_tenant go env (fields_of req payload) tenant st.db).1
          ≡ (submit_for srv env redis req tenant st).1.db)
        × (reply_job (submit_tenant go env (fields_of req payload) tenant st.db).0
            ≡ response_job (submit_for srv env redis req tenant st).0)
  unfolding submit_tenant submit_payload payload_field lookup submit_for allow enqueue_job
  tenant_agrees srv env redis req payload st exact unlimited marshals valid none = (refl, refl)
  tenant_agrees srv env redis req payload st exact unlimited marshals valid (some tenant) =
      rw (marshals, unlimited)
        (subst
          (λ p.
            ((enqueue env p st.db).1 ≡ (enqueue env (to_params req tenant) st.db).1)
            × (reply_job (enqueue_reply (enqueue env p st.db).0)
                ≡ response_job (respond (enqueue env (to_params req tenant) st.db).0)))
          (sym (same_params req payload tenant exact valid))
          (
            refl,
            enqueue_agrees env (to_params req tenant) st
                (enqueue env (to_params req tenant) st.db).0
                (enqueue env (to_params req tenant) st.db).1 refl,
          ))

  -- Without a rate limiter, a request that POST /v1/jobs does not refuse for its parameters, sent
  -- to SubmitJob with the same values as fields, makes the same database and is answered with the
  -- same job, or with an error where the other is: if uuid.Parse is the same, json.Marshal gives
  -- the payload's text, or {} for an empty one, and float64 holds the integers up to 32767.
  pub grpc_agrees :
      (srv : Server) (env : Env) (redis : Redis) (req : SubmitJobRequest) (payload : Value F)
      (st : State)
      → IsExact
      → srv.parse_uuid ≡ go.parse_uuid
      → srv.limiter ≡ none
      → go.marshal payload ≡ some (or_default "{}" req.payload)
      → is_invalid req ≡ false
      → ((submit_job_rpc go env (fields_of req payload) st.db).1
          ≡ (submit_job srv env redis (some req) st).1.db)
        × (reply_job (submit_job_rpc go env (fields_of req payload) st.db).0
            ≡ response_job (submit_job srv env redis (some req) st).0)
  unfolding submit_job submit_job_rpc tenant_field string_field lookup
  grpc_agrees srv env redis req payload st exact parse unlimited marshals valid =
      rw (valid, parse)
        (tenant_agrees srv env redis req payload st exact unlimited marshals valid
          (if str_eq req.tenant_id "" then some default_tenant_id else go.parse_uuid req.tenant_id))
