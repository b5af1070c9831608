-- ===== src/Scheduler/Ticks.antt =====
-- What Tick of internal/scheduler/scheduler.go leaves as it is.
use forge_queue.Prelude.{
  ℕ, suc, ◌≡◌, refl, ◌==◌, leb, if◌then◌else◌, Bool, true, false, ◌&&◌, Option, none, some, List,
  [], ◌∷◌, ◌++◌, All, select, arith, ◌∙◌, ap, sym, subst, Bool-cases, inl, inr,
}
use forge_queue.Tables.{Job, Db, ScheduleRow, Tenant}
use forge_queue.Tables.Rows.{update, find, order_by}
use forge_queue.Tables.Find.{find-update, find_key, Distinct, Distinct-update, All-found}
use forge_queue.Tables.Order.{All-select, All-order_by}
use forge_queue.Tables.Member.{All-map}
use forge_queue.Tx.{Env, Fate, works, refused, unreported, Result, ok, err, autocommit}
use forge_queue.Tx.Laws.{autocommit_cases}
use forge_queue.Queue.Params.{EnqueueParams}
use forge_queue.Queue.Enqueue.{enqueue}
use forge_queue.Queue.History.{enqueues, enqueue_cases, step}
use forge_queue.Queue.Inserts.{Inserts, added, found}
use forge_queue.Queue.WellFormed.{IsWellFormed}
use forge_queue.Queue.WellFormed.Step.{step-IsWellFormed}
use forge_queue.Scheduler.{
  Cron, Schedule, Round, to_schedule, due_rows, by_next_run, occurrence, advanced, advance,
  fire_next, fire, fire_all, fire_due, is_uninitialized, set_next, initialize_rows,
  initialize_next_runs, is_cut, tick,
}
use forge_queue.Scheduler.Once.{unscheduled}

enqueue_schedules :
    (env : Env) (params : EnqueueParams) (db : Db)
    → (enqueue env params db).1.schedules ≡ db.schedules
enqueue_schedules env params db =
    enqueue_cases (λ (after : Db). after.schedules ≡ db.schedules) env db (λ tenants. refl) grown
      params
  where
    grown :
        (tenants : List Tenant) (p : EnqueueParams) (job : Job) (created : Bool) (db' : Db)
        → Inserts env p (record db { tenants = db.tenants ++ tenants }) job created db'
        → db'.schedules ≡ db.schedules
    grown tenants p job created db' (added _ _ _ _ _ e) = ap (λ (x : Db). x.schedules) e
    grown tenants p job created db' (found _ _ _ e) = ap (λ (x : Db). x.schedules) e

-- A call, and what comes after it where it does not fail.
after_result :
    (P : Db → Type 0) (x : Result (Unit {0}) × Db) (f : Db → Result (Unit {0}) × Db)
    → P x.1
    → ((db : Db) → P db → P (f db).1)
    → P (elim x.0 as (λ _. Result (Unit {0}) × Db) [ err e ↦ (err e, x.1) | ok _ ↦ f x.1 ]).1
after_result P (err e, db) f h rest = h
after_result P (ok u, db) f h rest = rest db h

-- Tables that are well formed and hold a row of `schedules`.
record IsSpared (i : ℕ) (row : ScheduleRow) (db : Db) : Type 0 where
  pub sound : IsWellFormed db
  pub keyed : Distinct (λ (r : ScheduleRow). r.id) db.schedules
  pub kept : find (λ (r : ScheduleRow). r.id) i db.schedules ≡ some row

-- A row that is not for this Tick.
module _ (cron : Cron) (round : Round) (i : ℕ) (row : ScheduleRow) (at : ℕ)
    (planned : row.next_run_at ≡ some at) (early : (row.enabled && leb at round.now) ≡ false) where
  -- An update of another row.
  update-IsSpared :
      (id : ℕ) (f : ScheduleRow → ScheduleRow) (db : Db)
      → ((r : ScheduleRow) → (f r).id ≡ r.id)
      → (id == i) ≡ false
      → IsSpared i row db
      → IsSpared i row (record db { schedules = update (λ r. r.id == id) f db.schedules })
  update-IsSpared id f db same other s = record {
    sound = unscheduled db _ (_, refl) s.sound;
    keyed = Distinct-update (λ r. r.id) (λ r. r.id == id) f same db.schedules s.keyed;
    kept =
        find-update (λ r. r.id) (λ r. r.id == id) f same i db.schedules
        ∙ rw s.kept (rw (miss (find_key (λ r. r.id) i db.schedules row s.kept)) refl);
  }
    where
      miss : row.id ≡ i → (row.id == id) ≡ false
      miss e = ground (arith, other)

  set_next-IsSpared :
      (fate : Fate) (id next : ℕ) (db : Db)
      → (id == i) ≡ false
      → IsSpared i row db
      → IsSpared i row (autocommit fate (set_next id next) db).1
  unfolding set_next
  set_next-IsSpared fate id next db other s =
      autocommit_cases (IsSpared i row) fate (set_next id next) db s λ u db' h.
        subst (IsSpared i row) (stored h)
          (update-IsSpared id (λ r. record r { next_run_at = some next }) db (λ r. refl) other s)
    where
      stored :
          {a b : Db} {u v : Unit {0}}
          → ◌≡◌ {A = Result (Unit {0} × Db)} (ok (u, a)) (ok (v, b))
          → a ≡ b
      stored h = ground arith

  abbrev Others : List ScheduleRow → Type 0
  Others rows = All (λ (r : ScheduleRow). (r.id == i) ≡ false) rows

  initialize_rows-IsSpared :
      (k : ℕ) (rows : List ScheduleRow) (db : Db)
      → Others rows
      → IsSpared i row db
      → IsSpared i row (initialize_rows cron round k rows db).1
  unfolding initialize_rows
  initialize_rows-IsSpared k [] db o s = s
  initialize_rows-IsSpared k (r ∷ rows) db (first, o) s =
      by_next (cron.next r.cron_expr round.now) refl
        (λ db' s'. initialize_rows-IsSpared (suc k) rows db' o s')
    where
      by_next :
          (next : Option ℕ)
          → cron.next r.cron_expr round.now ≡ next
          → ((db' : Db)
              → IsSpared i row db'
              → IsSpared i row (initialize_rows cron round (suc k) rows db').1)
          → IsSpared i row (initialize_rows cron round k (r ∷ rows) db).1
      by_next none e rest = rw (e, initialize_rows) s
      by_next (some next) e rest =
          rw (e, initialize_rows)
            (after_result (IsSpared i row) (autocommit (round.initialize k) (set_next r.id next) db)
              (initialize_rows cron round (suc k) rows)
              (set_next-IsSpared (round.initialize k) r.id next db first s) rest)

  -- A row with the id is the row.
  the_row :
      (db : Db)
      → IsSpared i row db
      → (r : ScheduleRow) → find (λ (x : ScheduleRow). x.id) r.id db.schedules ≡ some r
      → (r.id == i) ≡ true
      → r ≡ row
  the_row db s r here same =
      let id : r.id ≡ i = ground arith in
      some_eq (
        sym (subst (λ n. find (λ (x : ScheduleRow). x.id) n db.schedules ≡ some r) id here)
        ∙ s.kept)
    where
      some_eq : {a b : ScheduleRow} → some a ≡ some b → a ≡ b
      some_eq e = ground (arith, e)

  uninitialized-Others :
      (db : Db) → IsSpared i row db → Others (select is_uninitialized db.schedules)
  uninitialized-Others db s =
      All-map
        (λ r.
          (find (λ (x : ScheduleRow). x.id) r.id db.schedules ≡ some r)
          × (is_uninitialized r ≡ true))
        (λ r. (r.id == i) ≡ false) (select is_uninitialized db.schedules) other
        (All-select _ is_uninitialized db.schedules
          (All-found (λ (x : ScheduleRow). x.id) db.schedules s.keyed))
    where
      other :
          (r : ScheduleRow)
          → (find (λ (x : ScheduleRow). x.id) r.id db.schedules ≡ some r)
            × (is_uninitialized r ≡ true)
          → (r.id == i) ≡ false
      other r (here, missing) = elim (Bool-cases (r.id == i)) [
        | inr e ↦ e
        | inl e ↦ let same = the_row db s r here e in absurd (ground (arith, same, planned))
      ]

  OtherSchedules : List Schedule → Type 0
  OtherSchedules ss = All (λ (s : Schedule). (s.id == i) ≡ false) ss

  due-OtherSchedules :
      (db : Db) (rows : List ScheduleRow)
      → IsSpared i row db
      → All (λ (r : ScheduleRow). find (λ (x : ScheduleRow). x.id) r.id db.schedules ≡ some r) rows
      → OtherSchedules (due_rows round.now rows)
  unfolding due_rows OtherSchedules
  due-OtherSchedules db [] s f = tt
  due-OtherSchedules db (r ∷ rows) s (here, f) =
      by_time r.next_run_at refl (due-OtherSchedules db rows s f)
    where
      by_time :
          (o : Option ℕ)
          → r.next_run_at ≡ o
          → OtherSchedules (due_rows round.now rows)
          → OtherSchedules (elim o [
            | none ↦ due_rows round.now rows
            | some t ↦
                if r.enabled && leb t round.now
                then to_schedule r t ∷ due_rows round.now rows
                else due_rows round.now rows
          ])
      by_time none e rest = rest
      by_time (some t) e rest = elim (Bool-cases (r.enabled && leb t round.now)) [
        | inr h ↦ rw h rest
        | inl h ↦ rw h (
          elim (Bool-cases (r.id == i)) [
            | inr other ↦ other
            | inl same ↦
                let eq = the_row db s r here same in absurd (ground (arith, eq, planned, early))
          ],
          rest,
        )
      ]

  enqueue-IsSpared :
      (env : Env) (params : EnqueueParams) (db : Db)
      → IsSpared i row db
      → IsSpared i row (enqueue env params db).1
  unfolding step
  enqueue-IsSpared env params db s =
      let same = sym (enqueue_schedules env params db) in
      record {
        sound = step-IsWellFormed env (enqueues params) db s.sound;
        keyed = subst (Distinct (λ (r : ScheduleRow). r.id)) same s.keyed;
        kept = subst (λ rows. find (λ (r : ScheduleRow). r.id) i rows ≡ some row) same s.kept;
      }

  advance-IsSpared :
      (fate : Fate) (x : Schedule) (next : ℕ) (db : Db)
      → (x.id == i) ≡ false
      → IsSpared i row db
      → IsSpared i row (autocommit fate (advance x next) db).1
  unfolding advance
  advance-IsSpared fate x next db other s =
      autocommit_cases (IsSpared i row) fate (advance x next) db s λ u db' h.
        subst (IsSpared i row) (stored h)
          (update-IsSpared x.id (advanced x.next_run_at next) db (λ r. refl) other s)
    where
      stored :
          {a b : Db} {u v : Unit {0}}
          → ◌≡◌ {A = Result (Unit {0} × Db)} (ok (u, a)) (ok (v, b))
          → a ≡ b
      stored h = ground arith

  fire_next-IsSpared :
      (env : Env) (x : Schedule) (next : ℕ) (r : Result (Job × Bool)) (db : Db)
      → (x.id == i) ≡ false
      → IsSpared i row db
      → IsSpared i row (fire_next env x next r db).1
  unfolding fire_next
  fire_next-IsSpared env x next (err e) db other s = s
  fire_next-IsSpared env x next (ok y) db other s =
      advance-IsSpared (env.statement 2) x next db other s

  fire-IsSpared :
      (env : Env) (x : Schedule) (db : Db)
      → (x.id == i) ≡ false
      → IsSpared i row db
      → IsSpared i row (fire cron env x db).1
  unfolding fire
  fire-IsSpared env x db other s = by_next (cron.next x.cron_expr x.next_run_at) refl
    where
      by_next :
          (o : Option ℕ)
          → cron.next x.cron_expr x.next_run_at ≡ o
          → IsSpared i row (fire cron env x db).1
      by_next none e = rw (e, fire) s
      by_next (some next) e =
          let (r, db1) = enqueue env (occurrence cron env x) db in
          rw (e, fire)
            (fire_next-IsSpared env x next r db1 other
              (enqueue-IsSpared env (occurrence cron env x) db s))

  fire_all-IsSpared :
      (k : ℕ) (ss : List Schedule) (db : Db)
      → OtherSchedules ss
      → IsSpared i row db
      → IsSpared i row (fire_all cron round k ss db).1
  unfolding fire_all OtherSchedules
  fire_all-IsSpared k [] db o s = s
  fire_all-IsSpared k (x ∷ ss) db (first, o) s = elim (Bool-cases (is_cut round.cut k)) [
    | inl e ↦ rw (e, fire_all) s
    | inr e ↦
        rw (e, fire_all)
          (fire_all-IsSpared (suc k) ss (fire cron (round.env k) x db).1 o
            (fire-IsSpared (round.env k) x db first s))
  ]

  fire_due-IsSpared : (db : Db) → IsSpared i row db → IsSpared i row (fire_due cron round db).1
  unfolding fire_due OtherSchedules
  fire_due-IsSpared db s = by_fate round.list_due refl
    where
      by_fate : (f : Fate) → round.list_due ≡ f → IsSpared i row (fire_due cron round db).1
      by_fate refused e = rw (e, fire_due) s
      by_fate unreported e = rw (e, fire_due) s
      by_fate works e =
          rw (e, fire_due)
            (fire_all-IsSpared 0 (order_by by_next_run (due_rows round.now db.schedules)) db
              (All-order_by by_next_run (λ (x : Schedule). (x.id == i) ≡ false)
                (due_rows round.now db.schedules)
                (due-OtherSchedules db db.schedules s
                  (All-found (λ (x : ScheduleRow). x.id) db.schedules s.keyed)))
              s)

  initialize-IsSpared :
      (db : Db) → IsSpared i row db → IsSpared i row (initialize_next_runs cron round db).1
  unfolding initialize_next_runs
  initialize-IsSpared db s = by_fate round.list_missing refl
    where
      by_fate :
          (f : Fate)
          → round.list_missing ≡ f
          → IsSpared i row (initialize_next_runs cron round db).1
      by_fate refused e = rw (e, initialize_next_runs) s
      by_fate unreported e = rw (e, initialize_next_runs) s
      by_fate works e =
          rw (e, initialize_next_runs)
            (initialize_rows-IsSpared 0 (select is_uninitialized db.schedules) db
              (uninitialized-Others db s) s)

  tick-IsSpared : (db : Db) → IsSpared i row db → IsSpared i row (tick cron round db).1
  unfolding tick
  tick-IsSpared db s = by_lock round.lock refl
    where
      by_lock : (r : Result Bool) → round.lock ≡ r → IsSpared i row (tick cron round db).1
      by_lock (err e) h = rw (h, tick) s
      by_lock (ok false) h = rw (h, tick) s
      by_lock (ok true) h =
          rw (h, tick)
            (after_result (IsSpared i row) (initialize_next_runs cron round db)
              (fire_due cron round) (initialize-IsSpared db s) fire_due-IsSpared)

-- Where the database is well formed and schedule ids are distinct, a schedule that has a next
-- time, and is disabled or not due at the round's time, has the same row after Tick, whatever
-- statements of it fail and wherever it is cut, and the database is well formed after it.
pub tick_spares :
    (cron : Cron) (round : Round) (i at : ℕ) (row : ScheduleRow) (db : Db)
    → IsWellFormed db
    → Distinct (λ (r : ScheduleRow). r.id) db.schedules
    → find (λ (r : ScheduleRow). r.id) i db.schedules ≡ some row
    → row.next_run_at ≡ some at
    → (row.enabled && leb at round.now) ≡ false
    → IsWellFormed (tick cron round db).1
      × (find (λ (r : ScheduleRow). r.id) i (tick cron round db).1.schedules ≡ some row)
tick_spares cron round i at row db w keyed here planned early =
    let s =
      tick-IsSpared cron round i row at planned early db
        (record { sound = w; keyed = keyed; kept = here }) in
    (s.sound, s.kept)
