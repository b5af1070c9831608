-- ===== src/Tables.antt =====
-- The database: migrations/0001_init.up.sql, and the Go structs of
-- internal/queue/postgres.go that its rows are scanned into. A `uuid` is its 128-bit number,
-- a timestamp is a number of microseconds, a nullable column is an `Option`.
pub mod Rows
pub mod Find
pub mod Order
pub mod Member
use forge_queue.Prelude.{ℕ, String, Bool, Option, List}

pub data Status : Type 0 where
  ready running succeeded failed dead : Status

-- A row of `jobs`, and the struct `Job`.
pub record Job : Type 0 where
  pub id : ℕ
  pub tenant_id : ℕ
  pub queue : String
  pub handler : String
  pub payload : String
  pub status : Status
  pub priority : ℕ
  pub attempts : ℕ
  pub max_attempts : ℕ
  pub run_at : ℕ
  pub locked_by : Option String
  pub locked_until : Option ℕ
  pub idempotency_key : Option String
  pub last_error : Option String
  pub created_at : ℕ
  pub updated_at : ℕ

-- A row of `job_runs`: one attempt of a job.
pub record Run : Type 0 where
  pub id : ℕ
  pub job_id : ℕ
  pub attempt : ℕ
  pub started_at : ℕ
  pub finished_at : Option ℕ
  pub status : Status
  pub error : Option String

-- A row of `dead_letter`.
pub record DeadLetter : Type 0 where
  pub job_id : ℕ
  pub dead_at : ℕ
  pub reason : String

-- A row of `tenants`; the name is never read again.
pub record Tenant : Type 0 where
  pub id : ℕ
  pub name : String

-- A row of `schedules`.
pub record ScheduleRow : Type 0 where
  pub id : ℕ
  pub tenant_id : ℕ
  pub name : Option String
  pub cron_expr : String
  pub payload : Option String
  pub queue : Option String
  pub handler : String
  pub enabled : Bool
  pub last_run_at : Option ℕ
  pub next_run_at : Option ℕ

pub record Db : Type 0 where
  pub tenants : List Tenant
  pub jobs : List Job
  pub runs : List Run
  pub schedules : List ScheduleRow
  pub dead_letter : List DeadLetter
