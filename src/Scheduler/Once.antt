-- ===== src/Scheduler/Once.antt =====
-- What fire of internal/scheduler/scheduler.go does to the tables, also when it is repeated.
use forge_queue.Prelude.{
  ℕ, ◌≡◌, refl, ◌==◌, String, str_eq, concat, Bool, true, false, Option, none, some, List, ◌++◌,
  select, first, arith, sym, ap, ◌∙◌, subst, Bool-cases, inl, inr, eq_iff,
}
use Prim.Native.String.{count}
use text.Mathlib.TextLemmas.{length-append}
use forge_queue.Tables.{Job, Db, ScheduleRow, Tenant}
use forge_queue.Tables.Rows.{find_job, update, find}
use forge_queue.Tables.Find.{find-update, find_key}
use forge_queue.Tx.{Env, Result, ok, err}
use forge_queue.Tx.Laws.{autocommit_cases, autocommit-ok}
use forge_queue.Queue.Params.{EnqueueParams, normalize_enqueue_params}
use forge_queue.Queue.Enqueue.{has_key, enqueue}
use forge_queue.Queue.History.{Call, enqueues, run, step, enqueue_cases}
use forge_queue.Queue.Inserts.{Inserts, added, found}
use forge_queue.Queue.Lifecycle.{SameJob, step-AllEvolve}
use forge_queue.Queue.Traces.{run-SameJob, SameJob-refl, SameJob-trans}
use forge_queue.Queue.WellFormed.{IsWellFormed}
use forge_queue.Queue.WellFormed.Step.{step-IsWellFormed, run_from-IsWellFormed}
use forge_queue.Queue.Holders.{holders, holders_one}
use forge_queue.Queue.Keys.{enqueue-ok, keyed_row, key_found, enqueue_repeats}
use forge_queue.Tables.Member.{find-In}
use forge_queue.Scheduler.{
  Cron, Schedule, idempotency_key, occurrence, advanced, advance, fire_next, fire,
}

key_named : (s : String) → str_eq (concat "schedule:" s) "" ≡ false
key_named s = elim (Bool-cases (str_eq (concat "schedule:" s) "")) [
  | inr e ↦ e
  | inl e ↦
      let same : count (concat "schedule:" s) ≡ count "" =
        ap count ((eq_iff (concat "schedule:" s) "").0 e) in
      absurd (omega (arith, same, length-append "schedule:" s))
]

-- The tables but for `schedules` are as they are.
abbrev pub SameTables : Db → Db → Type 0
SameTables db db' = (schedules : List ScheduleRow) × (db' ≡ record db { schedules = schedules })

pub unscheduled : (db db' : Db) → SameTables db db' → IsWellFormed db → IsWellFormed db'
unscheduled db db' (schedules, e) w = subst IsWellFormed (sym e) (record {
  jobs_keyed = w.jobs_keyed;
  runs_keyed = w.runs_keyed;
  shaped = w.shaped;
  keys_unique = w.keys_unique;
  runs_match = w.runs_match;
  letters_match = w.letters_match;
})

result_db :
    {u v : Unit {0}} {db db' : Db}
    → ◌≡◌ {A = Result (Unit {0} × Db)} (ok (u, db)) (ok (v, db'))
    → db' ≡ db
result_db h = ground arith

fire_next-SameTables :
    (env : Env) (s : Schedule) (next : ℕ) (r : Result (Job × Bool)) (db : Db)
    → SameTables db (fire_next env s next r db).1
unfolding fire_next advance
fire_next-SameTables env s next (err e) db = (db.schedules, refl)
fire_next-SameTables env s next (ok x) db =
    autocommit_cases (SameTables db) (env.statement 2) (advance s next) db (db.schedules, refl)
      (λ u db' h. (_, result_db h))

-- Two tables that agree but for the schedules, and what the first has in one row.
abbrev HasRow : Job → Db → Type 0
HasRow job db = (row : Job) × (find_job job.id db.jobs ≡ some row) × SameJob job row

SameTables-HasRow : (job : Job) (db db' : Db) → SameTables db db' → HasRow job db → HasRow job db'
SameTables-HasRow job db db' (schedules, e) h = rw e h

module _ (cron : Cron) (env : Env) (s : Schedule) (db : Db) where
  -- A firing is an Enqueue, and an update of `schedules` after it; or nothing.
  fire_cases {ℓ} :
      (P : Db → Type ℓ)
      → P db
      → ((db' : Db) → SameTables (enqueue env (occurrence cron env s) db).1 db' → P db')
      → P (fire cron env s db).1
  unfolding fire
  fire_cases P skipped fired = by_next (cron.next s.cron_expr s.next_run_at) refl
    where
      by_next : (o : Option ℕ) → cron.next s.cron_expr s.next_run_at ≡ o → P (fire cron env s db).1
      by_next none e = rw (e, fire) skipped
      by_next (some next) e =
          let (r, db1) = enqueue env (occurrence cron env s) db in
          rw (e, fire)
            (fired (fire_next env s next r db1).1 (fire_next-SameTables env s next r db1))

  pub fire-IsWellFormed : IsWellFormed db → IsWellFormed (fire cron env s db).1
  unfolding step
  fire-IsWellFormed w = fire_cases IsWellFormed w (λ db' same.
      unscheduled (enqueue env (occurrence cron env s) db).1 db' same
        (step-IsWellFormed env (enqueues (occurrence cron env s)) db w))

  fire-HasRow : (job : Job) → IsWellFormed db → HasRow job db → HasRow job (fire cron env s db).1
  unfolding step
  fire-HasRow job w (row, at, kept) =
      fire_cases (HasRow job) (row, at, kept)
        (λ db' same.
          let (row', at', v) =
            step-AllEvolve env (enqueues (occurrence cron env s)) db w.jobs_keyed job.id row at in
          SameTables-HasRow job (enqueue env (occurrence cron env s) db).1 db' same
            (row', at', SameJob-trans job row row' kept v.same))

  fired-HasRow :
      (next : ℕ) (job : Job) (created : Bool)
      → IsWellFormed db
      → cron.next s.cron_expr s.next_run_at ≡ some next
      → (enqueue env (occurrence cron env s) db).0 ≡ ok (job, created)
      → (has_key
            (normalize_enqueue_params env.clock (occurrence cron env s)).tenant_id
            (idempotency_key cron env s)
            job
          ≡ true)
        × HasRow job (fire cron env s db).1
  unfolding fire normalize_enqueue_params
  fired-HasRow next job created w e h =
      let (r, db1) = enqueue env (occurrence cron env s) db in
      let (tenants, i) =
        enqueue-ok env (occurrence cron env s) db {db' = db1}
          (ap (λ (x : Result (Job × Bool)). (x, db1)) h) in
      let (holds, at) =
        keyed_row env (normalize_enqueue_params env.clock (occurrence cron env s))
          (record db { tenants = db.tenants ++ tenants }) job created db1 w.jobs_keyed (key_named _)
          i in
      (
        holds,
        rw (e, fire)
            (SameTables-HasRow job db1 (fire_next env s next r db1).1
              (fire_next-SameTables env s next r db1) (job, at, SameJob-refl job)),
      )

  -- A firing whose key is taken.
  fire_repeats :
      (old : Job)
      → let p = normalize_enqueue_params env.clock (occurrence cron env s) in
        first (select (has_key p.tenant_id p.idempotency_key) db.jobs) ≡ some old
        → (fire cron env s db).1.jobs ≡ db.jobs
  unfolding normalize_enqueue_params
  fire_repeats old holder =
      fire_cases (λ (after : Db). after.jobs ≡ db.jobs) refl
        (λ db' same.
          ap (λ (x : Db). x.jobs) same.1
          ∙ enqueue_repeats env (occurrence cron env s) db old (key_named _) holder)

-- On a well-formed database, if the expression of a schedule has a next time, the Enqueue of a
-- firing has succeeded, and a UUID has one text: after any calls of the queue, firing the same
-- occurrence again, as happens where the schedule was not advanced, leaves the jobs as they are,
-- whatever fails in it, and exactly one job has the key made of the schedule's id and the time of
-- the occurrence.
pub occurrence_once :
    (cron : Cron) (env1 env2 : Env) (s : Schedule) (next : ℕ) (cs : List (Env × Call)) (db : Db)
    (job : Job) (created : Bool)
    → IsWellFormed db
    → cron.next s.cron_expr s.next_run_at ≡ some next
    → env2.uuid_text s.id ≡ env1.uuid_text s.id
    → (enqueue env1 (occurrence cron env1 s) db).0 ≡ ok (job, created)
    → let db2 = run (fire cron env1 s db).1 cs in
      let after = (fire cron env2 s db2).1 in
      (after.jobs ≡ db2.jobs)
      × (holders job.tenant_id
            (concat "schedule:"
              (concat (env1.uuid_text s.id) (concat ":" (cron.rfc3339 s.next_run_at))))
            after.jobs
          ≡ 1)
unfolding normalize_enqueue_params
occurrence_once cron env1 env2 s next cs db job created w e text h =
    let db1 = (fire cron env1 s db).1 in
    let w1 = fire-IsWellFormed cron env1 s db w in
    let w2 = run_from-IsWellFormed cs db1 w1 in
    let p = normalize_enqueue_params env1.clock (occurrence cron env1 s) in
    let p2 = normalize_enqueue_params env2.clock (occurrence cron env2 s) in
    let (holds, (row1, at1, same1)) = fired-HasRow cron env1 s db next job created w e h in
    let (row, at, same2) = run-SameJob cs db1 job.id row1 w1 at1 in
    let same = SameJob-trans job row1 row same1 same2 in
    let held : has_key p.tenant_id p.idempotency_key row ≡ true =
      rw (same.tenant_id, same.idempotency_key) holds in
    let held2 : has_key p2.tenant_id p2.idempotency_key row ≡ true = rw text held in
    let tenant : row.tenant_id ≡ p.tenant_id = ground (arith, held) in
    let js = (run db1 cs).jobs in
    let unchanged : (fire cron env2 s (run db1 cs)).1.jobs ≡ js =
      fire_repeats cron env2 s (run db1 cs) row (
        key_found p2.tenant_id p2.idempotency_key js row w2.keys_unique (find-In job.id js row at)
          held2) in
    let one : holders p.tenant_id p.idempotency_key js ≡ 1 =
      holders_one p.tenant_id p.idempotency_key js row w2.keys_unique (rw same.id at) held in
    let owner : job.tenant_id ≡ p.tenant_id = sym same.tenant_id ∙ tenant in
    (
      unchanged,
      subst (λ t. holders t p.idempotency_key (fire cron env2 s (run db1 cs)).1.jobs ≡ 1)
          (sym owner)
          (subst (λ rows. holders p.tenant_id p.idempotency_key rows ≡ 1) (sym unchanged) one),
    )

enqueue_schedules :
    (env : Env) (params : EnqueueParams) (db : Db)
    → (enqueue env params db).1.schedules ≡ db.schedules
enqueue_schedules env params db =
    enqueue_cases (λ after. after.schedules ≡ db.schedules) env db (λ tenants. refl) inserts params
  where
    inserts :
        (tenants : List Tenant) (p : EnqueueParams) (job : Job) (created : Bool) (after : Db)
        → Inserts env p (record db { tenants = db.tenants ++ tenants }) job created after
        → after.schedules ≡ db.schedules
    inserts tenants p job created after (added _ _ _ _ _ e) = ap (λ (x : Db). x.schedules) e
    inserts tenants p job created after (found _ _ _ e) = ap (λ (x : Db). x.schedules) e

fire_next-ok :
    (env : Env) (s : Schedule) (next : ℕ) (r : Result (Job × Bool)) (db db' : Db)
    → fire_next env s next r db ≡ (ok tt, db')
    → db'.schedules ≡ update (λ row. row.id == s.id) (advanced s.next_run_at next) db.schedules
unfolding fire_next advance
fire_next-ok env s next (err e) db db' h = absurd (ground arith)
fire_next-ok env s next (ok x) db db' h =
    advanced_schedules (autocommit-ok (env.statement 2) (advance s next) db h)
  where
    advanced_schedules :
        advance s next db ≡ ok (tt, db')
        → db'.schedules ≡ update (λ row. row.id == s.id) (advanced s.next_run_at next) db.schedules
    advanced_schedules e = sym (ap (λ (x : Db). x.schedules) (sym (result_db e)))

-- A firing that succeeds, of a schedule that is in the table, has advanced its row: last_run_at is
-- the occurrence, next_run_at the next time after it at which the expression fires, and the other
-- columns are as they were.
pub fire_advances :
    (cron : Cron) (env : Env) (s : Schedule) (row : ScheduleRow) (db db' : Db)
    → fire cron env s db ≡ (ok tt, db')
    → find (λ r. r.id) s.id db.schedules ≡ some row
    → (next : ℕ) × (cron.next s.cron_expr s.next_run_at ≡ some next)
      × (find (λ r. r.id) s.id db'.schedules
          ≡ some (record row { last_run_at = some s.next_run_at; next_run_at = some next }))
unfolding fire
fire_advances cron env s row db db' h at = by_next (cron.next s.cron_expr s.next_run_at) refl
  where
    by_next :
        (o : Option ℕ)
        → cron.next s.cron_expr s.next_run_at ≡ o
        → (next : ℕ) × (cron.next s.cron_expr s.next_run_at ≡ some next)
          × (find (λ r. r.id) s.id db'.schedules ≡ some (advanced s.next_run_at next row))
    by_next none e = let bad = rw (e, fire) at h in absurd (ground arith)
    by_next (some next) e =
        let (r, db1) = enqueue env (occurrence cron env s) db in
        let key = find_key (λ r. r.id) s.id db.schedules row at in
        (
          next,
          e,
          rw
              (
                fire_next-ok env s next r db1 db' (rw (e, fire) at h),
                enqueue_schedules env (occurrence cron env s) db,
              )
              (find-update (λ r. r.id) (λ r. r.id == s.id) (advanced s.next_run_at next) (λ r. refl)
                  s.id db.schedules
                ∙ rw at (ground (arith, key))),
        )
