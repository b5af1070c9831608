-- ===== src/Scheduler/Creation.antt =====
-- internal/scheduler/store.go: Create and List. json.Valid, the cron parser and the collation of
-- the server are parameters.
pub mod Due
use forge_queue.Prelude.{
  ℕ, ◌≡◌, refl, ◌==◌, ltb, leb, if◌then◌else◌, String, str_eq, Bool, true, false, ◌||◌, ◌&&◌,
  Option, none, some, List, [], ◌∷◌, ◌++◌, any_of, arith, Bool-cases, inl, inr, ◌∙◌,
}
use forge_queue.Tables.{Tenant, ScheduleRow, Db}
use forge_queue.Tables.Rows.{order_by}
use forge_queue.Tx.{Env, works, refused, unreported, Tx, Result, ok, err, database, autocommit}
use forge_queue.Tx.Laws.{autocommit_cases}
use forge_queue.Config.{trim_space}
use forge_queue.Queue.Params.{insert_tenant, or_default}
use forge_queue.Scheduler.{Cron, Schedule, coalesce, to_schedule, due_rows}
use forge_queue.Scheduler.Store.{Outcome, scanned, failure, scan_schedule}

pub record CreateParams : Type 0 where
  pub tenant_id : ℕ
  pub name : String
  pub cron_expr : String
  pub payload : String
  pub queue : String
  pub handler : String

-- The first assignments of Create.
unfoldable pub normalize_params : CreateParams → CreateParams
unfolding trim_space
normalize_params p = record {
  tenant_id = p.tenant_id;
  name = trim_space p.name;
  cron_expr = trim_space p.cron_expr;
  payload = or_default "{}" p.payload;
  queue = or_default "default" (trim_space p.queue);
  handler = trim_space p.handler;
}

abbrev pub is_incomplete : CreateParams → Bool
is_incomplete p = str_eq p.name "" || (str_eq p.cron_expr "" || str_eq p.handler "")

abbrev pub new_row : Env → CreateParams → String → ℕ → ScheduleRow
new_row env p payload next = record {
  id = env.fresh 0;
  tenant_id = p.tenant_id;
  name = some p.name;
  cron_expr = p.cron_expr;
  payload = some payload;
  queue = some p.queue;
  handler = p.handler;
  enabled = true;
  last_run_at = none;
  next_run_at = some next;
}

-- INSERT INTO schedules: the primary key is new, and jsonb takes the payload.
unfoldable pub insert_schedule : Env → CreateParams → ℕ → Tx ScheduleRow
insert_schedule env p next db = elim (env.jsonb p.payload) [
  | none ↦ err database
  | some payload ↦
      if any_of (λ (r : ScheduleRow). r.id == env.fresh 0) db.schedules
      then err database
      else ok (
        new_row env p payload next,
        record db { schedules = db.schedules ++ new_row env p payload next ∷ [] },
      )
]

abbrev pub outcome : Result ScheduleRow → Outcome
outcome (ok row) = scan_schedule (some row)
outcome (err e) = failure

-- The second statement of Create, when the first has not failed.
unfoldable pub insert_after_tenant : Env → CreateParams → ℕ → Result (Unit {0}) → Db → Outcome × Db
unfolding insert_schedule scan_schedule
insert_after_tenant env p next (err e) db = (failure, db)
insert_after_tenant env p next (ok _) db =
    let (r, db') = autocommit (env.statement 1) (insert_schedule env p next) db in (outcome r, db')

unfoldable pub insert_both : Env → CreateParams → ℕ → Db → Outcome × Db
unfolding insert_tenant insert_after_tenant
insert_both env p next db =
    let (tenant, db') =
      autocommit (env.statement 0) (insert_tenant p.tenant_id (env.uuid_text p.tenant_id)) db in
    insert_after_tenant env p next tenant db'

unfoldable pub create : Cron → (String → Bool) → Env → CreateParams → Db → Outcome × Db
unfolding normalize_params insert_both
create cron is_json env params db =
    let p = normalize_params params in
    if is_incomplete p
    then (failure, db)
    else if is_json p.payload
    then elim (cron.next p.cron_expr env.clock) [
      | none ↦ (failure, db)
      | some next ↦ insert_both env p next db
    ]
    else (failure, db)

-- The loop over the rows: a NULL does not scan into a time.Time.
unfoldable pub scan_schedules : List ScheduleRow → Option (List ScheduleRow)
unfolding scan_schedule
scan_schedules [] = some []
scan_schedules (row ∷ rows) =
    let rest = scan_schedules rows in
    elim (scan_schedule (some row)) [
      | scanned row ↦ elim rest [ none ↦ none | some out ↦ some (row ∷ out) ]
      | _ ↦ none
    ]

-- ORDER BY name, id by the server's collation, in which a NULL comes last.
abbrev pub by_name : (String → String → Bool) → ScheduleRow → ScheduleRow → Bool
by_name collates a b = elim a.name [
  | none ↦ elim b.name [ none ↦ leb a.id b.id | some n ↦ false ]
  | some m ↦ elim b.name [
    | none ↦ true
    | some n ↦ if str_eq m n then leb a.id b.id else collates m n
  ]
]

abbrev or_failure : {A : Type 0} → Option A → Result A
or_failure none = err database
or_failure (some a) = ok a

unfoldable pub list : (String → String → Bool) → Env → Db → Result (List ScheduleRow)
unfolding order_by scan_schedules
list collates env db = elim (env.statement 0) [
  | works ↦ or_failure (scan_schedules (order_by (by_name collates) db.schedules))
  | refused ↦ err database
  | unreported ↦ err database
]
