-- ===== src/Api/Submissions.antt =====
-- What the answer to POST /v1/jobs of internal/api/server.go says of the tables.
use forge_queue.Prelude.{
  ℕ, zero, suc, ◌≡◌, refl, if◌then◌else◌, Bool, true, false, Option, none, some, ◌++◌, List, arith,
  ℤ, pos, negsuc, select, ◌∙◌, positive_or, to_int16,
}
use forge_queue.Tables.{Job, Db, Tenant}
use forge_queue.Tables.Rows.{find_job}
use forge_queue.Tables.Find.{Distinct, find-Absent, any-Absent, find-append, All-found}
use forge_queue.Tables.Order.{All-select, All-first}
use forge_queue.Tx.{Env, Result, ok, err}
use forge_queue.Queue.Params.{EnqueueParams, normalize_enqueue_params, default_priority}
use forge_queue.Queue.Enqueue.{smallint, attempt_limit, has_key, enqueue}
use forge_queue.Queue.Inserts.{Inserts, added, found}
use forge_queue.Queue.Keys.{enqueue-ok}
use forge_queue.RateLimit.{allow}
use forge_queue.Api.{
  SubmitJobRequest, Server, Redis, State, Response, created, existing, rejected, failed, is_invalid,
  is_outside, to_params, respond, tenant_of, put, enqueue_job, submit_for, submit_job,
}

-- The tables before and after a request that was answered so: a job was created, or was there and
-- none was added, or nothing was done; a 500 says nothing, since the server may have stored the job.
abbrev pub IsReported : Db → Response → Db → Type 0
IsReported db (created job) db' =
    (find_job job.id db.jobs ≡ none) × (find_job job.id db'.jobs ≡ some job)
IsReported db (existing job) db' = (find_job job.id db.jobs ≡ some job) × (db'.jobs ≡ db.jobs)
IsReported db (rejected status message) db' = db' ≡ db
IsReported db (failed message) db' = Unit

inserted-IsReported :
    (env : Env) (p : EnqueueParams) (tenants : List Tenant) (db : Db) (job : Job) (is_new : Bool)
    (db' : Db)
    → Distinct (λ j. j.id) db.jobs
    → Inserts env p (record db { tenants = db.tenants ++ tenants }) job is_new db'
    → IsReported db (respond (ok (job, is_new))) db'
unfolding respond
inserted-IsReported env p tenants db job is_new db' d (added new c absent known free e) =
    let nowhere =
      find-Absent (λ j. j.id) job.id db.jobs (any-Absent (λ j. j.id) job.id db.jobs absent) in
    rw (c, e) (nowhere, find-append (λ j. j.id) job.id db.jobs job ∙ rw nowhere (ground arith))
inserted-IsReported env p tenants db job is_new db' d (found c named holder e) =
    rw (c, e)
      (
        (All-first _ (select (has_key p.tenant_id p.idempotency_key) db.jobs) job
            (All-select _ (has_key p.tenant_id p.idempotency_key) db.jobs
              (All-found (λ j. j.id) db.jobs d))
            holder).0,
        refl,
      )

result-IsReported :
    (env : Env) (params : EnqueueParams) (db : Db) (r : Result (Job × Bool)) (db' : Db)
    → Distinct (λ j. j.id) db.jobs
    → enqueue env params db ≡ (r, db')
    → IsReported db (respond r) db'
unfolding respond
result-IsReported env params db (err e) db' d h = tt
result-IsReported env params db (ok (job, is_new)) db' d h =
    let (tenants, i) = enqueue-ok env params db h in
    inserted-IsReported env (normalize_enqueue_params env.clock params) tenants db job is_new db' d
      i

if_cases {ℓ κ} :
    {A : Type ℓ} (P : A → Type κ) (b : Bool) (x y : A) → P x → P y → P (if b then x else y)
if_cases P true x y hx hy = hx
if_cases P false x y hx hy = hy

enqueue_job-IsReported :
    (env : Env) (params : EnqueueParams) (st : State)
    → Distinct (λ j. j.id) st.db.jobs
    → IsReported st.db (enqueue_job env params st).0 (enqueue_job env params st).1.db
unfolding enqueue_job
enqueue_job-IsReported env params st d =
    let (r, db') = enqueue env params st.db in result-IsReported env params st.db r db' d refl

submit_for-IsReported :
    (srv : Server) (env : Env) (redis : Redis) (req : SubmitJobRequest) (tenant : Option ℕ)
    (st : State)
    → Distinct (λ j. j.id) st.db.jobs
    → IsReported st.db
        (submit_for srv env redis req tenant st).0
        (submit_for srv env redis req tenant st).1.db
unfolding submit_for
submit_for-IsReported srv env redis req none st d = refl
submit_for-IsReported srv env redis req (some tenant) st d =
    let (answer, b) =
      allow srv.limiter redis.reached redis.now redis.clock (st.buckets (env.uuid_text tenant)) in
    let st' : State = record st { buckets = put (env.uuid_text tenant) b st.buckets } in
    if_cases (λ (x : Response × State). IsReported st.db x.0 x.1.db) answer.allowed
      (enqueue_job env (to_params req tenant) st') (rejected 429 "rate limited", st')
      (enqueue_job-IsReported env (to_params req tenant) st' d) refl

priority_in_range :
    (z : ℤ) → is_outside 32767 z ≡ false → (n : ℕ) × (smallint (default_priority z) ≡ some n)
priority_in_range (pos zero) h = (5, refl)
priority_in_range (pos (suc n)) h = (suc n, ground arith)
priority_in_range (negsuc n) h = absurd (ground arith)

pub int16_in_range : (z : ℤ) → is_outside 32767 z ≡ false → to_int16 z ≡ z
int16_in_range (pos n) h = ground arith
int16_in_range (negsuc n) h = absurd (ground arith)

budget_in_range :
    (z : ℤ) → is_outside 100 z ≡ false → (n : ℕ) × (attempt_limit (pos (positive_or 5 z)) ≡ some n)
budget_in_range (pos zero) h = (5, refl)
budget_in_range (pos (suc n)) h = (suc n, ground arith)
budget_in_range (negsuc n) h = absurd (ground arith)

-- Where job ids are distinct, the answer to POST /v1/jobs is true of the tables: after a 201 the
-- job was not in the table and is now; after a 200 it was there and no row was added; after a 400
-- or a 429 the database is as it was.
pub submit_reports :
    (srv : Server) (env : Env) (redis : Redis) (body : Option SubmitJobRequest) (st : State)
    → Distinct (λ j. j.id) st.db.jobs
    → IsReported st.db (submit_job srv env redis body st).0 (submit_job srv env redis body st).1.db
unfolding submit_job
submit_reports srv env redis none st d = refl
submit_reports srv env redis (some req) st d =
    if_cases (λ (x : Response × State). IsReported st.db x.0 x.1.db) (is_invalid req)
      (rejected 400 "invalid job parameters", st)
      (submit_for srv env redis req (tenant_of srv req.tenant_id) st) refl
      (submit_for-IsReported srv env redis req (tenant_of srv req.tenant_id) st d)

-- A request that is not refused for its parameters is within the ranges of the table: with the
-- defaults filled in, its priority is a smallint that is not negative and its retry budget a
-- positive int.
pub submit_in_range :
    (req : SubmitJobRequest) (tenant now : ℕ)
    → is_invalid req ≡ false
    → (priority : ℕ) × (budget : ℕ) × (smallint
          (normalize_enqueue_params now (to_params req tenant)).priority
        ≡ some priority)
      × (attempt_limit (normalize_enqueue_params now (to_params req tenant)).max_attempts
          ≡ some budget)
unfolding is_invalid normalize_enqueue_params
submit_in_range req tenant now h =
    let inside : is_outside 32767 req.priority ≡ false = ground arith in
    let (priority, p) = priority_in_range req.priority inside in
    let (budget, b) = budget_in_range req.max_attempts (ground arith) in
    (priority, budget, rw (int16_in_range req.priority inside) p, b)
