-- ===== src/Api/Schedules.antt =====
-- internal/api/server.go: the handlers of schedules, from the decoded request to the answer.
use forge_queue.Prelude.{String, Bool, true, false, ℕ, Option, none, some, List}
use forge_queue.Tables.{ScheduleRow, Db}
use forge_queue.Tx.{Env, ok, err}
use forge_queue.Scheduler.{Cron}
use forge_queue.Scheduler.Store.{Outcome, scanned, done, set_enabled, delete}
use forge_queue.Scheduler.Creation.{CreateParams, create, list}
use forge_queue.Api.{Server, tenant_of}

pub record CreateScheduleRequest : Type 0 where
  pub tenant_id : String
  pub name : String
  pub cron_expr : String
  pub payload : String
  pub queue : String
  pub handler : String

-- What a handler writes: a schedule, all of them, nothing, or a status with the text of an error.
pub data Answer : Type 0 where
  schedule_created : ScheduleRow → Answer
  schedule_found : ScheduleRow → Answer
  schedules_listed : List ScheduleRow → Answer
  no_content : Answer
  refused : ℕ → Answer

unfoldable pub list_schedules : (String → String → Bool) → Env → Db → Answer
unfolding list
list_schedules collates env db = elim (list collates env db) [
  | ok rows ↦ schedules_listed rows
  | err e ↦ refused 500
]

abbrev pub to_create_params : CreateScheduleRequest → ℕ → CreateParams
to_create_params req tenant = record {
  tenant_id = tenant;
  name = req.name;
  cron_expr = req.cron_expr;
  payload = req.payload;
  queue = req.queue;
  handler = req.handler;
}

abbrev pub creation_answer : Outcome → Answer
creation_answer (scanned row) = schedule_created row
creation_answer _ = refused 400

-- `none` is a body that does not decode.
unfoldable pub create_schedule :
    Server → Cron → (String → Bool) → Env → Option CreateScheduleRequest → Db → Answer × Db
unfolding create
create_schedule srv cron is_json env none db = (refused 400, db)
create_schedule srv cron is_json env (some req) db = elim (tenant_of srv req.tenant_id) [
  | none ↦ (refused 400, db)
  | some tenant ↦
      let (r, db') = create cron is_json env (to_create_params req tenant) db in
      (creation_answer r, db')
]

abbrev pub found_answer : Outcome → Answer
found_answer (scanned row) = schedule_found row
found_answer _ = refused 404

unfoldable pub set_schedule_enabled : Server → Env → String → Bool → Db → Answer × Db
unfolding set_enabled
set_schedule_enabled srv env id enabled db = elim (srv.parse_uuid id) [
  | none ↦ (refused 400, db)
  | some i ↦ let (r, db') = set_enabled env i enabled db in (found_answer r, db')
]

abbrev pub pause_schedule : Server → Env → String → Db → Answer × Db
pause_schedule srv env id db = set_schedule_enabled srv env id false db

abbrev pub resume_schedule : Server → Env → String → Db → Answer × Db
resume_schedule srv env id db = set_schedule_enabled srv env id true db

abbrev pub deletion_answer : Outcome → Answer
deletion_answer done = no_content
deletion_answer _ = refused 404

unfoldable pub delete_schedule : Server → Env → String → Db → Answer × Db
unfolding delete
delete_schedule srv env id db = elim (srv.parse_uuid id) [
  | none ↦ (refused 400, db)
  | some i ↦ let (r, db') = delete env i db in (deletion_answer r, db')
]
