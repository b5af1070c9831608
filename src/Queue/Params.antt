-- ===== src/Queue/Params.antt =====
-- internal/queue/postgres.go: EnqueueParams, normalizeEnqueueParams, ensureTenant.
use forge_queue.Prelude.{
  ℕ, zero, suc, ◌==◌, if◌then◌else◌, String, str_eq, Option, none, some, [], ◌∷◌, ◌++◌, any_of, ℤ,
  pos, negsuc, positive_or,
}
use forge_queue.Tables.{Tenant}
use forge_queue.Tx.{Env, Tx, ok, err, database}

-- 00000000-0000-0000-0000-000000000001, which is also config.DefaultTenantID.
abbrev pub default_tenant_id : ℕ
default_tenant_id = 1

pub record EnqueueParams : Type 0 where
  pub tenant_id : ℕ
  pub queue : String
  pub handler : String
  pub payload : String
  pub priority : ℤ
  pub max_attempts : ℤ
  pub run_at : Option ℕ  -- `none` is the zero time
  pub idempotency_key : String

abbrev pub or_default : String → String → String
or_default fallback s = if str_eq s "" then fallback else s

abbrev pub default_priority : ℤ → ℤ
default_priority (pos zero) = pos 5
default_priority (pos (suc n)) = pos (suc n)
default_priority (negsuc n) = negsuc n

abbrev or_now : ℕ → Option ℕ → Option ℕ
or_now now none = some now
or_now now (some t) = some t

unfoldable pub normalize_enqueue_params : ℕ → EnqueueParams → EnqueueParams
normalize_enqueue_params now p = record {
  tenant_id = if p.tenant_id == 0 then default_tenant_id else p.tenant_id;
  queue = or_default "default" p.queue;
  handler = p.handler;
  payload = or_default "{}" p.payload;
  priority = default_priority p.priority;
  max_attempts = pos (positive_or 5 p.max_attempts);
  run_at = or_now now p.run_at;
  idempotency_key = p.idempotency_key;
}

-- INSERT INTO tenants … ON CONFLICT (id) DO NOTHING, with `name text UNIQUE`.
unfoldable pub insert_tenant : ℕ → String → Tx (Unit {0})
insert_tenant id name db =
    if any_of (λ (t : Tenant). t.id == id) db.tenants
    then ok (tt, db)
    else if any_of (λ (t : Tenant). str_eq t.name name) db.tenants
    then err database
    else ok (tt, record db { tenants = db.tenants ++ record { id = id; name = name } ∷ [] })

unfoldable pub ensure_tenant : Env → ℕ → Tx (Unit {0})
unfolding insert_tenant
ensure_tenant env id =
    insert_tenant id (if id == default_tenant_id then "default" else env.uuid_text id)
