-- ===== src/Scheduler.antt =====
-- internal/scheduler/scheduler.go: Tick, fire and initializeNextRuns, on the table `schedules`. The
-- cron parser and the RFC 3339 text of a time are parameters.
pub mod Once
pub mod Store
pub mod Creation
pub mod Ticks
use forge_queue.Prelude.{
  ℕ, suc, ◌==◌, leb, if◌then◌else◌, String, concat, Bool, true, false, ◌&&◌, Option, none, some,
  List, [], ◌∷◌, select, pos,
}
use forge_queue.Tables.{Job, ScheduleRow, Db}
use forge_queue.Tables.Rows.{update, order_by}
use forge_queue.Tx.{
  Env, Fate, works, refused, unreported, Tx, Result, ok, err, database, autocommit,
}
use forge_queue.Queue.Params.{EnqueueParams}
use forge_queue.Queue.Enqueue.{enqueue}

-- Next: the first time after another at which an expression fires; `none` is a parse error.
pub record Cron : Type 0 where
  pub next : String → ℕ → Option ℕ
  pub rfc3339 : ℕ → String

-- The struct that Tick scans a row into.
pub record Schedule : Type 0 where
  pub id : ℕ
  pub tenant_id : ℕ
  pub cron_expr : String
  pub payload : String
  pub queue : String
  pub handler : String
  pub next_run_at : ℕ

-- COALESCE.
abbrev pub coalesce : Option String → String → String
coalesce none fallback = fallback
coalesce (some s) fallback = s

abbrev pub to_schedule : ScheduleRow → ℕ → Schedule
to_schedule row at = record {
  id = row.id;
  tenant_id = row.tenant_id;
  cron_expr = row.cron_expr;
  payload = coalesce row.payload "{}";
  queue = coalesce row.queue "default";
  handler = row.handler;
  next_run_at = at;
}

-- WHERE enabled = true AND next_run_at <= $1.
unfoldable pub due_rows : ℕ → List ScheduleRow → List Schedule
due_rows now [] = []
due_rows now (row ∷ rows) =
    let rest = due_rows now rows in
    elim row.next_run_at [
      | none ↦ rest
      | some at ↦ if row.enabled && leb at now then to_schedule row at ∷ rest else rest
    ]

-- IdempotencyKey.
abbrev pub idempotency_key : Cron → Env → Schedule → String
idempotency_key cron env s =
    concat "schedule:" (concat (env.uuid_text s.id) (concat ":" (cron.rfc3339 s.next_run_at)))

-- What one occurrence of a schedule enqueues.
abbrev pub occurrence : Cron → Env → Schedule → EnqueueParams
occurrence cron env s = record {
  tenant_id = s.tenant_id;
  queue = s.queue;
  handler = s.handler;
  payload = s.payload;
  priority = pos 0;
  max_attempts = pos 0;
  run_at = none;
  idempotency_key = idempotency_key cron env s;
}

-- UPDATE schedules SET last_run_at = $2, next_run_at = $3 WHERE id = $1.
abbrev pub advanced : ℕ → ℕ → ScheduleRow → ScheduleRow
advanced at next row = record row { last_run_at = some at; next_run_at = some next }

unfoldable pub advance : Schedule → ℕ → Tx (Unit {0})
unfolding update
advance s next db = ok (
  tt,
  record db {
    schedules = update (λ row. row.id == s.id) (advanced s.next_run_at next) db.schedules;
  },
)

unfoldable pub fire_next : Env → Schedule → ℕ → Result (Job × Bool) → Db → Result (Unit {0}) × Db
unfolding advance
fire_next env s next (err e) db = (err e, db)
fire_next env s next (ok x) db = autocommit (env.statement 2) (advance s next) db

unfoldable pub fire : Cron → Env → Schedule → Db → Result (Unit {0}) × Db
unfolding enqueue fire_next
fire cron env s db = elim (cron.next s.cron_expr s.next_run_at) [
  | none ↦ (err database, db)
  | some next ↦ let (r, db') = enqueue env (occurrence cron env s) db in fire_next env s next r db'
]

-- UPDATE schedules SET next_run_at = $2 WHERE id = $1.
unfoldable pub set_next : ℕ → ℕ → Tx (Unit {0})
unfolding update
set_next id next db = ok (
  tt,
  record db {
    schedules =
        update (λ row. row.id == id) (λ row. record row { next_run_at = some next }) db.schedules;
  },
)

abbrev pub is_uninitialized : ScheduleRow → Bool
is_uninitialized row = elim row.next_run_at [ none ↦ row.enabled | some at ↦ false ]

-- One Tick: the time it is given, the answer of pg_try_advisory_lock, the fates of its statements,
-- and a surrounding for each schedule that it fires. `cut` is the row before which the reading of
-- the rows fails.
pub record Round : Type 0 where
  pub now : ℕ
  pub lock : Result Bool
  pub list_missing : Fate
  pub initialize : ℕ → Fate
  pub list_due : Fate
  pub env : ℕ → Env
  pub cut : Option ℕ

-- The loop of initializeNextRuns: the first error ends it.
unfoldable pub initialize_rows : Cron → Round → ℕ → List ScheduleRow → Db → Result (Unit {0}) × Db
unfolding set_next
initialize_rows cron round k [] db = (ok tt, db)
initialize_rows cron round k (row ∷ rows) db = elim (cron.next row.cron_expr round.now) [
  | none ↦ (err database, db)
  | some next ↦
      let (r, db') = autocommit (round.initialize k) (set_next row.id next) db in
      elim r [ err e ↦ (err e, db') | ok _ ↦ initialize_rows cron round (suc k) rows db' ]
]

unfoldable pub initialize_next_runs : Cron → Round → Db → Result (Unit {0}) × Db
unfolding initialize_rows
initialize_next_runs cron round db = elim round.list_missing [
  | works ↦ initialize_rows cron round 0 (select is_uninitialized db.schedules) db
  | refused ↦ (err database, db)
  | unreported ↦ (err database, db)
]

abbrev pub is_cut : Option ℕ → ℕ → Bool
is_cut none k = false
is_cut (some n) k = leb n k

-- `for rows.Next()`: an error of fire is logged and the loop goes on.
unfoldable pub fire_all : Cron → Round → ℕ → List Schedule → Db → Result (Unit {0}) × Db
unfolding fire
fire_all cron round k [] db = (ok tt, db)
fire_all cron round k (s ∷ ss) db =
    if is_cut round.cut k
    then (err database, db)
    else (let (_, db') = fire cron (round.env k) s db in fire_all cron round (suc k) ss db')

abbrev pub by_next_run : Schedule → Schedule → Bool
by_next_run a b = leb a.next_run_at b.next_run_at

unfoldable pub fire_due : Cron → Round → Db → Result (Unit {0}) × Db
unfolding due_rows order_by fire_all
fire_due cron round db = elim round.list_due [
  | works ↦ fire_all cron round 0 (order_by by_next_run (due_rows round.now db.schedules)) db
  | refused ↦ (err database, db)
  | unreported ↦ (err database, db)
]

-- Tick; another scheduler's lock is no error.
unfoldable pub tick : Cron → Round → Db → Result (Unit {0}) × Db
unfolding initialize_next_runs fire_due
tick cron round db = elim round.lock [
  | err e ↦ (err e, db)
  | ok false ↦ (ok tt, db)
  | ok true ↦
      let (r, db') = initialize_next_runs cron round db in
      elim r [ err e ↦ (err e, db') | ok _ ↦ fire_due cron round db' ]
]
