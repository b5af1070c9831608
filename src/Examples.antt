-- ===== src/Examples.antt =====
-- Concrete databases and calls, on which the theorems are applied.
mod Calls
mod Claims
mod Workers
mod Others
mod Requests
mod Machine
mod Settings
mod Measures
mod Commands
mod Upkeep
mod Slots
use forge_queue.Prelude.{
  ℕ, ◌+◌, ◌*◌, String, Bool, true, false, Option, none, some, List, [], ◌∷◌, ◌++◌, ◌≡◌, refl, ℤ,
  pos,
}
use forge_queue.Tables.{Job, Db, Tenant, running, ready, dead, succeeded, Status}
use forge_queue.Tx.{Env, Fate, works, Result, ok, err}
use forge_queue.Queue.Params.{EnqueueParams}
use forge_queue.Queue.WellFormed.{IsWellFormed}
use forge_queue.Queue.WellFormed.Step.{empty_db}

-- A server that answers, at a time.
abbrev pub at_time : ℕ → Env
at_time t = record {
  now = t;
  clock = t;
  fresh = λ k. t + k;
  uuid_text = λ id. "tenant";
  jsonb = λ s. some s;
  begin = works;
  statement = λ k. works;
  commit = works;
  row_locked = λ i. false;
}

abbrev pub params : EnqueueParams
params = record {
  tenant_id = 0;
  queue = "";
  handler = "echo";
  payload = "";
  priority = pos 0;
  max_attempts = pos 2;
  run_at = none;
  idempotency_key = "order-7";
}

abbrev pub tenants : List Tenant
tenants = record { id = 1; name = "default" } ∷ []

-- The job that an Enqueue of `params` at time 100 makes.
abbrev pub waiting_job : Job
waiting_job = record {
  id = 100;
  tenant_id = 1;
  queue = "default";
  handler = "echo";
  payload = "{}";
  status = ready;
  priority = 5;
  attempts = 0;
  max_attempts = 2;
  run_at = 100;
  locked_by = none;
  locked_until = none;
  idempotency_key = some "order-7";
  last_error = none;
  created_at = 100;
  updated_at = 100;
}

-- The same job while worker w1 has it under a lease of 30 seconds from time 200 on.
abbrev pub leased_job : Job
leased_job = record waiting_job {
  status = running;
  attempts = 1;
  locked_by = some "w1";
  locked_until = some 30000200;
  updated_at = 200;
}

abbrev pub lease : ℤ
lease = pos 30000000000
