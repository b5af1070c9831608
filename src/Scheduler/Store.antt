-- ===== src/Scheduler/Store.antt =====
-- internal/scheduler/store.go: SetEnabled, Delete and the scan of a row.
use forge_queue.Prelude.{
  ℕ, ◌==◌, ◌≡◌, refl, if◌then◌else◌, Bool, false, Option, none, some, List, [], ◌∷◌, any_of, arith,
}
use forge_queue.Tables.{ScheduleRow, Db}
use forge_queue.Tables.Rows.{update, find}
use forge_queue.Tables.Find.{map_row}
use forge_queue.Tx.{Env, works, refused, unreported}
use forge_queue.Scheduler.{Schedule, due_rows}

-- What a call of the store returns: a row, nil, ErrScheduleNotFound, or another error.
pub data Outcome : Type 0 where
  scanned : ScheduleRow → Outcome
  done schedule_not_found failure : Outcome

-- scanSchedule: no row is ErrScheduleNotFound, and a NULL does not scan into a time.Time.
unfoldable pub scan_schedule : Option ScheduleRow → Outcome
scan_schedule none = schedule_not_found
scan_schedule (some row) = elim row.next_run_at [ none ↦ failure | some at ↦ scanned row ]

abbrev pub switched : Bool → ScheduleRow → ScheduleRow
switched enabled row = record row { enabled = enabled }

-- UPDATE schedules SET enabled = $2 WHERE id = $1 RETURNING.
unfoldable pub set_enabled : Env → ℕ → Bool → Db → Outcome × Db
unfolding update find scan_schedule
set_enabled env id enabled db =
    let row = map_row (switched enabled) (find (λ (r : ScheduleRow). r.id) id db.schedules) in
    let db' = record db {
      schedules = update (λ row. row.id == id) (switched enabled) db.schedules;
    } in
    elim (env.statement 0) [
      | works ↦ (scan_schedule row, db')
      | refused ↦ (failure, db)
      | unreported ↦ (failure, db')
    ]

unfoldable pub remove_schedule : ℕ → List ScheduleRow → List ScheduleRow
remove_schedule id [] = []
remove_schedule id (row ∷ rows) =
    let rest = remove_schedule id rows in if row.id == id then rest else row ∷ rest

-- DELETE FROM schedules WHERE id = $1, with RowsAffected.
unfoldable pub delete : Env → ℕ → Db → Outcome × Db
unfolding remove_schedule
delete env id db =
    let db' = record db { schedules = remove_schedule id db.schedules } in
    elim (env.statement 0) [
      | works ↦ (
        if any_of (λ (r : ScheduleRow). r.id == id) db.schedules then done else schedule_not_found,
        db',
      )
      | refused ↦ (failure, db)
      | unreported ↦ (failure, db')
    ]

none_due_paused :
    (id now : ℕ) (rows : List ScheduleRow)
    → any_of
        (λ (s : Schedule). s.id == id)
        (due_rows now (update (λ row. row.id == id) (switched false) rows))
      ≡ false
unfolding due_rows update
none_due_paused id now [] = refl
none_due_paused id now (row ∷ rows) = ground (arith, none_due_paused id now rows)

none_due_removed :
    (id now : ℕ) (rows : List ScheduleRow)
    → any_of (λ (s : Schedule). s.id == id) (due_rows now (remove_schedule id rows)) ≡ false
unfolding due_rows remove_schedule
none_due_removed id now [] = refl
none_due_removed id now (row ∷ rows) = ground (arith, none_due_removed id now rows)

-- If the server answers, then after SetEnabled with false, and after Delete, a Tick at any time
-- finds no schedule with that id due.
pub paused_not_due :
    (env : Env) (id now : ℕ) (db : Db)
    → env.statement 0 ≡ works
    → (any_of
          (λ (s : Schedule). s.id == id)
          (due_rows now (set_enabled env id false db).1.schedules)
        ≡ false)
      × (any_of (λ (s : Schedule). s.id == id) (due_rows now (delete env id db).1.schedules)
          ≡ false)
unfolding set_enabled delete
paused_not_due env id now db live =
    rw (live, set_enabled, delete)
      (none_due_paused id now db.schedules, none_due_removed id now db.schedules)
