-- ===== src/Queue/Enqueue.antt =====
-- internal/queue/postgres.go: Queue.Enqueue.
use forge_queue.Prelude.{
  ℕ, zero, suc, ◌==◌, leb, if◌then◌else◌, String, str_eq, Bool, true, false, ◌&&◌, Option, none,
  some, [], ◌∷◌, ◌++◌, any_of, select, first, ℤ, pos, negsuc,
}
use forge_queue.Tables.{Tenant, Job, ready, Db}
use forge_queue.Tables.Rows.{equals}
use forge_queue.Tx.{Env, Tx, Result, ok, err, database, ◌>>=◌, pure, autocommit}
use forge_queue.Queue.Params.{EnqueueParams, normalize_enqueue_params, ensure_tenant}

-- The range of `smallint` and CHECK (priority BETWEEN 0 AND 32767).
abbrev pub smallint : ℤ → Option ℕ
smallint (pos n) = if leb n 32767 then some n else none
smallint (negsuc n) = none

-- The range of `int` and CHECK (max_attempts > 0).
abbrev pub attempt_limit : ℤ → Option ℕ
attempt_limit (pos zero) = none
attempt_limit (pos (suc n)) = if leb (suc n) 2147483647 then some (suc n) else none
attempt_limit (negsuc n) = none

abbrev or_refuse : {A : Type 0} → Option A → Tx A
or_refuse none db = err database
or_refuse (some a) db = ok (a, db)

abbrev time_of : Option ℕ → ℕ
time_of none = 0
time_of (some t) = t

-- The row that the INSERT proposes, its columns converted and its CHECKs passed.
unfoldable pub proposed_row : Env → Option String → EnqueueParams → Tx Job
proposed_row env key p = do
  payload ← or_refuse (env.jsonb p.payload)
  priority ← or_refuse (smallint p.priority)
  max_attempts ← or_refuse (attempt_limit p.max_attempts)
  pure (record {
    id = env.fresh 0;
    tenant_id = p.tenant_id;
    queue = p.queue;
    handler = p.handler;
    payload = payload;
    status = ready;
    priority = priority;
    attempts = 0;
    max_attempts = max_attempts;
    run_at = time_of p.run_at;
    locked_by = none;
    locked_until = none;
    idempotency_key = key;
    last_error = none;
    created_at = env.now;
    updated_at = env.now;
  })

-- INSERT INTO jobs: the primary key is new, and the tenant exists.
unfoldable pub insert_job : Job → Tx (Unit {0})
insert_job job db =
    if any_of (λ (j : Job). j.id == job.id) db.jobs
    then err database
    else if any_of (λ (t : Tenant). t.id == job.tenant_id) db.tenants
    then ok (tt, record db { jobs = db.jobs ++ job ∷ [] })
    else err database

-- The row that UNIQUE (tenant_id, idempotency_key) holds against.
abbrev pub has_key : ℕ → String → Job → Bool
has_key tenant key j = (j.tenant_id == tenant) && equals j.idempotency_key key

unfoldable pub insert_new : Job → Tx (Job × Bool)
unfolding insert_job
insert_new job db = elim (insert_job job db) [ ok (_, db') ↦ ok ((job, true), db') | err e ↦ err e ]

-- ON CONFLICT (tenant_id, idempotency_key) DO UPDATE SET idempotency_key = jobs.idempotency_key:
-- the old row is returned as it is, with `created` false.
unfoldable pub insert_keyed : String → Job → Tx (Job × Bool)
unfolding insert_new
insert_keyed key job db = elim (first (select (has_key job.tenant_id key) db.jobs)) [
  | some old ↦ ok ((old, false), db)
  | none ↦ insert_new job db
]

unfoldable pub insert_statement : Env → EnqueueParams → Tx (Job × Bool)
insert_statement env p =
    if str_eq p.idempotency_key ""
    then (do job ← proposed_row env none p; insert_new job)
    else (do job ← proposed_row env (some p.idempotency_key) p; insert_keyed p.idempotency_key job)

-- `if err := ensureTenant(…); err != nil { return … }`, and the INSERT.
unfoldable pub insert_after :
    Env → EnqueueParams → Result (Unit {0}) → Db → Result (Job × Bool) × Db
insert_after env p (ok _) db = autocommit (env.statement 1) (insert_statement env p) db
insert_after env p (err e) db = (err e, db)

-- The two statements commit one after the other: an error of the second leaves the tenant.
unfoldable pub enqueue : Env → EnqueueParams → Db → Result (Job × Bool) × Db
unfolding normalize_enqueue_params ensure_tenant insert_statement proposed_row insert_keyed
    insert_after
enqueue env params db =
    let p = normalize_enqueue_params env.clock params in
    let (tenant, db') = autocommit (env.statement 0) (ensure_tenant env p.tenant_id) db in
    insert_after env p tenant db'
