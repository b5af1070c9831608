-- ===== src/Queue/Keys.antt =====
-- Enqueue of internal/queue/postgres.go with an idempotency key.
use forge_queue.Prelude.{
  ℕ, ◌≡◌, refl, String, str_eq, eq_iff, Bool, true, false, Option, none, some, List, [], ◌∷◌, ◌++◌,
  select, first, arith, Bool-cases, inl, inr, sym, ◌∙◌, subst, ap, false≢true,
}
use forge_queue.Tables.{Job, Db, Tenant}
use forge_queue.Tables.Rows.{find_job}
use forge_queue.Tables.Find.{Distinct, find-append, find-Absent, any-Absent, All-found}
use forge_queue.Tables.Member.{In, here, there, All-In, find-In}
use forge_queue.Tx.{Env, Result, ok, err, autocommit}
use forge_queue.Tx.Laws.{autocommit-ok, autocommit_cases}
use forge_queue.Queue.Params.{EnqueueParams, normalize_enqueue_params, ensure_tenant}
use forge_queue.Queue.Enqueue.{has_key, insert_statement, insert_after, enqueue}
use forge_queue.Queue.Inserts.{Inserts, added, found, insert_statement-ok}
use forge_queue.Queue.History.{Call, run, enqueues, step, tenant_added}
use forge_queue.Queue.WellFormed.{IsWellFormed, UniqueKeys, clashes}
use forge_queue.Queue.WellFormed.Step.{step-IsWellFormed, run_from-IsWellFormed}
use forge_queue.Queue.Traces.{run-SameJob}
use forge_queue.Tables.Order.{All-select, All-first}

pub keys_clash :
    (tenant : ℕ) (key : String) (x j : Job) (a b : Option String)
    → x.idempotency_key ≡ a
    → j.idempotency_key ≡ b
    → has_key tenant key x ≡ true
    → has_key tenant key j ≡ true
    → clashes x j ≡ true
keys_clash tenant key x j none b ea eb h k = absurd (ground arith)
keys_clash tenant key x j (some a) none ea eb h k = absurd (ground arith)
keys_clash tenant key x j (some a) (some b) ea eb h k =
    ground (arith, eq_iff a key, eq_iff b key, eq_iff b a)

-- In a table with unique keys, the row that holds a key is the first row that is found by it.
pub key_found :
    (tenant : ℕ) (key : String) (js : List Job) (j : Job)
    → UniqueKeys js
    → In j js
    → has_key tenant key j ≡ true
    → first (select (has_key tenant key) js) ≡ some j
key_found tenant key [] j u m k = elim m [ ]
key_found tenant key (x ∷ xs) j u (here e) k =
    rw (ap (has_key tenant key) (sym e) ∙ k) (ap some (sym e))
key_found tenant key (x ∷ xs) j u (there m) k = elim (Bool-cases (has_key tenant key x)) [
  | inl e ↦
      let clash = All-In (λ y. clashes x y ≡ false) j xs u.0 m in
      absurd (
        false≢true
          (sym clash ∙ keys_clash tenant key x j x.idempotency_key j.idempotency_key refl refl e k))
  | inr e ↦ rw e (key_found tenant key xs j u.1 m k)
]

insert_after-ok :
    (env : Env) (p : EnqueueParams) (r : Result (Unit {0})) (db : Db) {job : Job} {created : Bool}
    {db' : Db}
    → insert_after env p r db ≡ (ok (job, created), db')
    → Inserts env p db job created db'
unfolding insert_after
insert_after-ok env p (ok u) db h =
    insert_statement-ok env p db (autocommit-ok (env.statement 1) (insert_statement env p) db h)
insert_after-ok env p (err e) db h = absurd (ground arith)

-- An Enqueue that succeeds has inserted the normalized parameters, its tenant being there.
pub enqueue-ok :
    (env : Env) (params : EnqueueParams) (db : Db) {job : Job} {created : Bool} {db' : Db}
    → enqueue env params db ≡ (ok (job, created), db')
    → (tenants : List Tenant) × Inserts env
        (normalize_enqueue_params env.clock params)
        (record db { tenants = db.tenants ++ tenants })
        job
        created
        db'
unfolding enqueue
enqueue-ok env params db h =
    let p = normalize_enqueue_params env.clock params in
    let (tenant, db1) = autocommit (env.statement 0) (ensure_tenant env p.tenant_id) db in
    let (tenants, e) = tenant_added env p.tenant_id db in
    (tenants, rw e at (insert_after-ok env p tenant db1 h))

-- The row that an Enqueue with a key returns holds the key, and is in the table.
pub keyed_row :
    (env : Env) (p : EnqueueParams) (db : Db) (job : Job) (created : Bool) (db' : Db)
    → Distinct (λ j. j.id) db.jobs
    → str_eq p.idempotency_key "" ≡ false
    → Inserts env p db job created db'
    → (has_key p.tenant_id p.idempotency_key job ≡ true) × (find_job job.id db'.jobs ≡ some job)
keyed_row env p db job created db' d named (added new c absent known free e) = (
  ground (arith, new.tenant, new.key, eq_iff p.idempotency_key p.idempotency_key),
  rw e (
      find-append (λ j. j.id) job.id db.jobs job
      ∙ rw (find-Absent (λ j. j.id) job.id db.jobs (any-Absent (λ j. j.id) job.id db.jobs absent))
          (ground arith)),
)
keyed_row env p db job created db' d named (found c k holder e) =
    let (at, key) =
      All-first _ (select (has_key p.tenant_id p.idempotency_key) db.jobs) job
        (All-select _ (has_key p.tenant_id p.idempotency_key) db.jobs
          (All-found (λ j. j.id) db.jobs d))
        holder in
    (key, rw e at)

holder_kept :
    (env : Env) (p : EnqueueParams) (db : Db) (old job : Job) (created : Bool) (db' : Db)
    → first (select (has_key p.tenant_id p.idempotency_key) db.jobs) ≡ some old
    → str_eq p.idempotency_key "" ≡ false
    → Inserts env p db job created db'
    → (created ≡ false) × (job ≡ old) × (db'.jobs ≡ db.jobs)
holder_kept env p db old job created db' h named (added _ _ _ _ free _) = absurd (ground arith)
holder_kept env p db old job created db' h named (found c _ k e) =
    (c, ground arith, ap (λ (x : Db). x.jobs) e)

-- Whatever becomes of it, an Enqueue with a key that a row holds leaves `jobs` as it is.
pub enqueue_repeats :
    (env : Env) (params : EnqueueParams) (db : Db) (old : Job)
    → let p = normalize_enqueue_params env.clock params in
      str_eq p.idempotency_key "" ≡ false
      → first (select (has_key p.tenant_id p.idempotency_key) db.jobs) ≡ some old
      → (enqueue env params db).1.jobs ≡ db.jobs
unfolding enqueue insert_after
enqueue_repeats env params db old named holder =
    let (tenant, db1) = autocommit (env.statement 0) (ensure_tenant env p.tenant_id) db in
    let (tenants, e) = tenant_added env p.tenant_id db in after tenant db1 tenants e
  where
    p : EnqueueParams
    p = normalize_enqueue_params env.clock params

    after :
        (r : Result (Unit {0})) (db1 : Db) (tenants : List Tenant)
        → db1 ≡ record db { tenants = db.tenants ++ tenants }
        → (insert_after env p r db1).1.jobs ≡ db.jobs
    after (err x) db1 tenants e = ap (λ (d : Db). d.jobs) e
    after (ok u) db1 tenants e =
        autocommit_cases (λ d. d.jobs ≡ db.jobs) (env.statement 1) (insert_statement env p) db1
          (ap (λ (d : Db). d.jobs) e)
          λ (job, created) db' done.
            (holder_kept env p (record db { tenants = db.tenants ++ tenants }) old job created db'
              holder named (rw e at (insert_statement-ok env p db1 done))).2

-- An idempotency key is used once: after an Enqueue with a non-empty key on a well-formed database
-- has succeeded, and whatever calls came in between, an Enqueue with the same tenant and key that
-- succeeds returns the same job as not created and adds no row.
pub enqueue_idempotent :
    (env1 env2 : Env) (params1 params2 : EnqueueParams) (cs : List (Env × Call)) (db db1 db2 : Db)
    (job1 job2 : Job) (created1 created2 : Bool)
    → IsWellFormed db
    → str_eq params1.idempotency_key "" ≡ false
    → params2.idempotency_key ≡ params1.idempotency_key
    → params2.tenant_id ≡ params1.tenant_id
    → enqueue env1 params1 db ≡ (ok (job1, created1), db1)
    → enqueue env2 params2 (run db1 cs) ≡ (ok (job2, created2), db2)
    → (created2 ≡ false) × (job2.id ≡ job1.id) × (db2.jobs ≡ (run db1 cs).jobs)
unfolding step normalize_enqueue_params
enqueue_idempotent env1 env2 params1 params2 cs db db1 db2 job1 job2 created1 created2 w named key
      tenant h1 h2 =
    let w1 : IsWellFormed db1 =
      subst IsWellFormed (ap (λ (x : Result (Job × Bool) × Db). x.1) h1)
        (step-IsWellFormed env1 (enqueues params1) db w) in
    let (tenants1, i1) = enqueue-ok env1 params1 db h1 in
    let (tenants2, i2) = enqueue-ok env2 params2 (run db1 cs) h2 in
    let (holds, at1) =
      keyed_row env1 (normalize_enqueue_params env1.clock params1)
        (record db { tenants = db.tenants ++ tenants1 }) job1 created1 db1 w.jobs_keyed named i1 in
    let (row, at, same) = run-SameJob cs db1 job1.id job1 w1 at1 in
    let p2 = normalize_enqueue_params env2.clock params2 in
    let first_row =
      key_found p2.tenant_id p2.idempotency_key (run db1 cs).jobs row
        (run_from-IsWellFormed cs db1 w1).keys_unique (find-In job1.id (run db1 cs).jobs row at)
        (rw (key, tenant, same.tenant_id, same.idempotency_key) holds) in
    let (c, e, jobs) =
      holder_kept env2 p2 (record (run db1 cs) { tenants = (run db1 cs).tenants ++ tenants2 }) row
        job2 created2 db2 first_row (rw key named) i2 in
    (c, ground (arith, e, same.id), jobs)
