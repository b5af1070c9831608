-- ===== src/Scheduler/Creation/Due.antt =====
-- A schedule that Create of internal/scheduler/store.go has made, and the Ticks that come.
use forge_queue.Prelude.{
  ℕ, ◌≡◌, refl, ◌==◌, leb, if◌then◌else◌, String, Bool, true, false, Option, none, some, List, [],
  ◌∷◌, ◌++◌, any_of, arith, ◌∙◌, subst, ap,
}
use forge_queue.Tables.{ScheduleRow, Db}
use forge_queue.Tx.{Env, Result, ok, err, autocommit}
use forge_queue.Tx.Laws.{autocommit_cases, autocommit-ok}
use forge_queue.Queue.Params.{insert_tenant}
use forge_queue.Scheduler.{Cron, Schedule, due_rows}
use forge_queue.Scheduler.Store.{Outcome, scanned, failure, scan_schedule}
use forge_queue.Scheduler.Creation.{
  CreateParams, normalize_params, is_incomplete, new_row, insert_schedule, outcome, insert_both,
  insert_after_tenant, create,
}

abbrev pub is_listed : ℕ → List Schedule → Bool
is_listed id ss = any_of (λ s. s.id == id) ss

module _ (id now : ℕ) where
  none_due-absent :
      (rows : List ScheduleRow)
      → any_of (λ (r : ScheduleRow). r.id == id) rows ≡ false
      → is_listed id (due_rows now rows) ≡ false
  unfolding due_rows
  none_due-absent [] h = refl
  none_due-absent (row ∷ rows) h = ground (arith, none_due-absent rows (ground arith))

  due-append :
      (rows : List ScheduleRow) (row : ScheduleRow) (next : ℕ)
      → any_of (λ (r : ScheduleRow). r.id == id) rows ≡ false
      → row.id ≡ id
      → row.enabled ≡ true
      → row.next_run_at ≡ some next
      → is_listed id (due_rows now (rows ++ row ∷ [])) ≡ leb next now
  unfolding due_rows
  due-append [] row next h same on at = rw (at, on) (ground arith)
  due-append (first ∷ rows) row next h same on at =
      ground (arith, due-append rows row next (ground arith) same on at)

insert_tenant-kept :
    (id : ℕ) (name : String) (db after : Db) {u : Unit {0}}
    → insert_tenant id name db ≡ ok (u, after)
    → after.schedules ≡ db.schedules
unfolding insert_tenant
insert_tenant-kept id name db after h = ground arith

tenant-kept :
    (env : Env) (id : ℕ) (name : String) (db : Db)
    → (autocommit (env.statement 0) (insert_tenant id name) db).1.schedules ≡ db.schedules
tenant-kept env id name db =
    autocommit_cases (λ (after : Db). after.schedules ≡ db.schedules) (env.statement 0)
      (insert_tenant id name) db refl λ u after h. insert_tenant-kept id name db after h

insert_schedule-ok :
    (env : Env) (p : CreateParams) (next : ℕ) (db : Db) {row : ScheduleRow} {db' : Db}
    → insert_schedule env p next db ≡ ok (row, db')
    → (payload : String) × (row ≡ new_row env p payload next)
      × (any_of (λ (r : ScheduleRow). r.id == row.id) db.schedules ≡ false)
      × (db'.schedules ≡ db.schedules ++ row ∷ [])
unfolding insert_schedule
insert_schedule-ok env p next db {row} {db'} h = by_payload (env.jsonb p.payload) refl
  where
    by_payload :
        (o : Option String)
        → env.jsonb p.payload ≡ o
        → (payload : String) × (row ≡ new_row env p payload next)
          × (any_of (λ (r : ScheduleRow). r.id == row.id) db.schedules ≡ false)
          × (db'.schedules ≡ db.schedules ++ row ∷ [])
    by_payload none e = absurd (ground arith)
    by_payload (some payload) e =
        let made : row ≡ new_row env p payload next = ground arith in
        let grown : db'.schedules ≡ db.schedules ++ new_row env p payload next ∷ [] =
          ground arith in
        (payload, made, rw made (ground arith), rw made grown)

outcome-scanned :
    (r : Result ScheduleRow) (row : ScheduleRow) → outcome r ≡ scanned row → r ≡ ok row
unfolding scan_schedule
outcome-scanned (err e) row h = absurd (ground arith)
outcome-scanned (ok x) row h = ap ok (by_time x.next_run_at refl)
  where
    by_time : (o : Option ℕ) → x.next_run_at ≡ o → x ≡ row
    by_time none e = absurd (ground arith)
    by_time (some at) e = ground arith

insert_after_tenant-ok :
    (env : Env) (p : CreateParams) (next : ℕ) (r : Result (Unit {0})) (db : Db) (row : ScheduleRow)
    (db' : Db)
    → insert_after_tenant env p next r db ≡ (scanned row, db')
    → insert_schedule env p next db ≡ ok (row, db')
unfolding insert_after_tenant
insert_after_tenant-ok env p next (err e) db row db' h = absurd (ground arith)
insert_after_tenant-ok env p next (ok _) db row db' h =
    let done =
      outcome-scanned (autocommit (env.statement 1) (insert_schedule env p next) db).0 row
        (ap (λ x. x.0) h) in
    autocommit-ok (env.statement 1) (insert_schedule env p next) db (pair done (ap (λ x. x.1) h))
  where
    pair : {x : Result ScheduleRow × Db} → x.0 ≡ ok row → x.1 ≡ db' → x ≡ (ok row, db')
    pair e f = λ k. (e k, f k)

create-ok :
    (cron : Cron) (is_json : String → Bool) (env : Env) (params : CreateParams) (db : Db)
    (row : ScheduleRow) (db' : Db)
    → create cron is_json env params db ≡ (scanned row, db')
    → (next : ℕ) × (cron.next (normalize_params params).cron_expr env.clock ≡ some next)
      × (insert_both env (normalize_params params) next db ≡ (scanned row, db'))
unfolding create
create-ok cron is_json env params db row db' h =
    by_checks (is_incomplete p) (is_json p.payload) (cron.next p.cron_expr env.clock) refl h
  where
    p : CreateParams
    p = normalize_params params

    by_checks :
        (incomplete json : Bool) (o : Option ℕ)
        → cron.next p.cron_expr env.clock ≡ o
        → ◌≡◌ {A = Outcome × Db}
            (if incomplete
              then (failure, db)
              else if json
              then elim o [ none ↦ (failure, db) | some next ↦ insert_both env p next db ]
              else (failure, db))
            (scanned row, db')
        → (next : ℕ) × (cron.next p.cron_expr env.clock ≡ some next)
          × (insert_both env p next db ≡ (scanned row, db'))
    by_checks true json o e h = absurd (ground arith)
    by_checks false false o e h = absurd (ground arith)
    by_checks false true none e h = absurd (ground arith)
    by_checks false true (some next) e h = (next, e, h)

-- After a Create that returned a row, the next time after Create's clock at which the row's
-- expression fires is there, and a Tick finds a schedule with the row's id due from that time on
-- and not before, as the schedules then stand.
pub created_due :
    (cron : Cron) (is_json : String → Bool) (env : Env) (params : CreateParams) (db : Db)
    (row : ScheduleRow) (db' : Db)
    → create cron is_json env params db ≡ (scanned row, db')
    → (next : ℕ) × (cron.next row.cron_expr env.clock ≡ some next)
      × ((now : ℕ) → is_listed row.id (due_rows now db'.schedules) ≡ leb next now)
unfolding insert_both
created_due cron is_json env params db row db' h =
    let (next, fires, both) = create-ok cron is_json env params db row db' h in
    let p = normalize_params params in
    let tenant =
      autocommit (env.statement 0) (insert_tenant p.tenant_id (env.uuid_text p.tenant_id)) db in
    let same = tenant-kept env p.tenant_id (env.uuid_text p.tenant_id) db in
    let (payload, made, free, grown) =
      insert_schedule-ok env p next tenant.1
        (insert_after_tenant-ok env p next tenant.0 tenant.1 row db' both) in
    (
      next,
      rw made fires,
      λ now.
          ap (λ rows. is_listed row.id (due_rows now rows))
            (grown ∙ ap (λ rows. rows ++ row ∷ []) same)
          ∙ due-append row.id now db.schedules row next
              (subst (λ rows. any_of (λ (r : ScheduleRow). r.id == row.id) rows ≡ false) same free)
              refl (rw made refl) (rw made refl),
    )
