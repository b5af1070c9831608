-- ===== src/Queue/Inserts.antt =====
-- What the second statement of Enqueue, when it succeeds, has made of `jobs`.
use forge_queue.Prelude.{
  ◌≡◌, ◌==◌, ◌<◌, ◌≤◌, ◌⊎◌, inl, inr, String, str_eq, Bool, true, false, none, some, [], ◌∷◌, ◌++◌,
  any_of, select, first, arith, pos, Bool-cases,
}
use forge_queue.Tables.{Tenant, Job, ready, Db}
use forge_queue.Tx.{Env, ok}
use forge_queue.Tx.Laws.{bind-ok}
use forge_queue.Queue.Params.{EnqueueParams}
use forge_queue.Queue.Enqueue.{
  proposed_row, has_key, insert_job, insert_new, insert_keyed, insert_statement,
}
use forge_queue.Queue.Settle.{null_if_empty}

-- The row that Enqueue adds.
pub record IsNewRow (env : Env) (p : EnqueueParams) (job : Job) : Type 0 where
  pub id : job.id ≡ env.fresh 0
  pub tenant : job.tenant_id ≡ p.tenant_id
  pub queue : job.queue ≡ p.queue
  pub handler : job.handler ≡ p.handler
  pub payload : env.jsonb p.payload ≡ some job.payload
  pub status : job.status ≡ ready
  pub priority : p.priority ≡ pos job.priority
  pub priority_range : job.priority ≤ 32767
  pub attempts : job.attempts ≡ 0
  pub max_attempts : p.max_attempts ≡ pos job.max_attempts
  pub budget : 0 < job.max_attempts
  pub locked_by : job.locked_by ≡ none
  pub locked_until : job.locked_until ≡ none
  pub key : job.idempotency_key ≡ null_if_empty p.idempotency_key
  pub last_error : job.last_error ≡ none

pub proposed_row-ok :
    (env : Env) (p : EnqueueParams) (db : Db) {job : Job} {db' : Db}
    → proposed_row env (null_if_empty p.idempotency_key) p db ≡ ok (job, db')
    → IsNewRow env p job × (db' ≡ db)
unfolding proposed_row
proposed_row-ok env p db h = (
  record {
    id = ground arith;
    tenant = ground arith;
    queue = ground arith;
    handler = ground arith;
    payload = ground arith;
    status = ground arith;
    priority = ground arith;
    priority_range = ground arith;
    attempts = ground arith;
    max_attempts = ground arith;
    budget = ground arith;
    locked_by = ground arith;
    locked_until = ground arith;
    key = ground arith;
    last_error = ground arith;
  },
  ground arith,
)

-- Enqueue's second statement adds one row, or finds the row that holds the key.
pub data Inserts (env : Env) (p : EnqueueParams) (db : Db) (job : Job) (created : Bool) (db' : Db)
    : Type 0 where
  added :
      IsNewRow env p job
      → created ≡ true
      → any_of (λ (j : Job). j.id == job.id) db.jobs ≡ false
      → any_of (λ (t : Tenant). t.id == job.tenant_id) db.tenants ≡ true
      → (str_eq p.idempotency_key "" ≡ true)
        ⊎ (first (select (has_key p.tenant_id p.idempotency_key) db.jobs) ≡ none)
      → db' ≡ record db { jobs = db.jobs ++ job ∷ [] }
      → Inserts env p db job created db'
  found :
      created ≡ false
      → str_eq p.idempotency_key "" ≡ false
      → first (select (has_key p.tenant_id p.idempotency_key) db.jobs) ≡ some job
      → db' ≡ db
      → Inserts env p db job created db'

insert_new-ok :
    (job : Job) (db : Db) {row : Job} {created : Bool} {db' : Db}
    → insert_new job db ≡ ok ((row, created), db')
    → (row ≡ job)
      × (created ≡ true)
      × (any_of (λ (j : Job). j.id == job.id) db.jobs ≡ false)
      × (any_of (λ (t : Tenant). t.id == job.tenant_id) db.tenants ≡ true)
      × (db' ≡ record db { jobs = db.jobs ++ job ∷ [] })
unfolding insert_new insert_job
insert_new-ok job db h = ground arith

insert_keyed-ok :
    (key : String) (job : Job) (db : Db) {row : Job} {created : Bool} {db' : Db}
    → insert_keyed key job db ≡ ok ((row, created), db')
    → ((created ≡ false)
        × (first (select (has_key job.tenant_id key) db.jobs) ≡ some row)
        × (db' ≡ db))
      ⊎ ((first (select (has_key job.tenant_id key) db.jobs) ≡ none)
          × (insert_new job db ≡ ok ((row, created), db')))
unfolding insert_keyed insert_new
insert_keyed-ok key job db h = ground arith

module _ (env : Env) (p : EnqueueParams) (db : Db) where
  added_row :
      (row : Job) {job : Job} {created : Bool} {db' : Db}
      → IsNewRow env p row
      → (str_eq p.idempotency_key "" ≡ true)
        ⊎ (first (select (has_key p.tenant_id p.idempotency_key) db.jobs) ≡ none)
      → insert_new row db ≡ ok ((job, created), db')
      → Inserts env p db job created db'
  added_row row new free put =
      let (is_row, yes_created, fresh_id, known, after) = insert_new-ok row db put in
      rw is_row (added new yes_created fresh_id known free after)

  keyed_row :
      (row : Job) {job : Job} {created : Bool} {db' : Db}
      → str_eq p.idempotency_key "" ≡ false
      → IsNewRow env p row
      → insert_keyed p.idempotency_key row db ≡ ok ((job, created), db')
      → Inserts env p db job created db'
  keyed_row row e new put = elim (insert_keyed-ok p.idempotency_key row db put) [
    | inl (old, holder, after) ↦ found old e (rw new.tenant at holder) after
    | inr (free, put') ↦ added_row row new (inr (rw new.tenant at free)) put'
  ]

  pub insert_statement-ok :
      {job : Job} {created : Bool} {db' : Db}
      → insert_statement env p db ≡ ok ((job, created), db')
      → Inserts env p db job created db'
  unfolding insert_statement
  insert_statement-ok h = elim (Bool-cases (str_eq p.idempotency_key "")) [
    | inl e ↦
        let (row, db1, made, put) =
          bind-ok (proposed_row env none p) insert_new db (rw (e, insert_statement) at h) in
        let (new, same) = proposed_row-ok env p db {job = row} {db' = db1} (rw e made) in
        added_row row new (inl e) (rw same at put)
    | inr e ↦
        let (row, db1, made, put) =
          bind-ok (proposed_row env (some p.idempotency_key) p) (insert_keyed p.idempotency_key) db
            (rw (e, insert_statement) at h) in
        let (new, same) = proposed_row-ok env p db {job = row} {db' = db1} (rw e made) in
        keyed_row row e new (rw same at put)
  ]
