-- ===== src/Examples/Commands.antt =====
-- The theorems on the command line and on new schedules, applied.
use forge_queue.Prelude.{ℕ, ◌≡◌, refl, none, some, true, List, [], ◌∷◌, leb, String, ◌+◌}
use forge_queue.Tables.{ScheduleRow, Db}
use forge_queue.Scheduler.{Cron, due_rows, Round, tick}
use forge_queue.Scheduler.Store.{scanned}
use forge_queue.Scheduler.Creation.{CreateParams, create}
use forge_queue.Scheduler.Creation.Due.{is_listed, created_due}
use forge_queue.Cli.{Http, main}
use forge_queue.Cli.Routed.{IsServed, intended, cli_routed}
use forge_queue.Examples.{at_time}
use forge_queue.Examples.Calls.{waiting_db, waiting_db-IsWellFormed}
use forge_queue.Tables.Rows.{find}
use forge_queue.Tx.{ok, works}
use forge_queue.Queue.WellFormed.{IsWellFormed}
use forge_queue.Scheduler.Once.{unscheduled}
use forge_queue.Scheduler.Ticks.{tick_spares}

abbrev http : Http
http = record { segments = λ s. s ∷ []; marshal = λ body. some "{}" }

abbrev words : List String
words = "schedule" ∷ "pause" ∷ "17" ∷ []

cli_routed_example : IsServed (main http words) (intended words)
cli_routed_example = cli_routed http words (λ _ _. (refl, refl))

abbrev every_minute : Cron
every_minute = record { next = λ expr t. some (t + 60); rfc3339 = λ t. "then" }

abbrev nightly : CreateParams
nightly = record {
  tenant_id = 1;
  name = " nightly ";
  cron_expr = "* * * * *";
  payload = "";
  queue = "";
  handler = "echo";
}

abbrev nightly_row : ScheduleRow
nightly_row = record {
  id = 300;
  tenant_id = 1;
  name = some "nightly";
  cron_expr = "* * * * *";
  payload = some "{}";
  queue = some "default";
  handler = "echo";
  enabled = true;
  last_run_at = none;
  next_run_at = some 360;
}

abbrev scheduled_db : Db
scheduled_db = record waiting_db { schedules = nightly_row ∷ [] }

creates_nightly :
    create every_minute (λ s. true) (at_time 300) nightly waiting_db
    ≡ (scanned nightly_row, scheduled_db)
unfolding create
creates_nightly = refl

created_due_example :
    (next : ℕ) × (some (300 + 60) ≡ some next)
    × ((now : ℕ) → is_listed 300 (due_rows now (nightly_row ∷ [])) ≡ leb next now)
created_due_example =
    created_due every_minute (λ s. true) (at_time 300) nightly waiting_db nightly_row scheduled_db
      creates_nightly

-- A Tick before the time of the nightly schedule.
abbrev early_round : Round
early_round = record {
  now = 200;
  lock = ok true;
  list_missing = works;
  initialize = λ k. works;
  list_due = works;
  env = λ k. at_time 200;
  cut = none;
}

tick_spares_example :
    IsWellFormed (tick every_minute early_round scheduled_db).1
    × (find (λ (r : ScheduleRow). r.id) 300 (tick every_minute early_round scheduled_db).1.schedules
        ≡ some nightly_row)
unfolding find
tick_spares_example =
    tick_spares every_minute early_round 300 360 nightly_row scheduled_db
      (unscheduled waiting_db scheduled_db (nightly_row ∷ [], refl) waiting_db-IsWellFormed)
      (tt, tt) refl refl refl
