-- ===== src/Worker/Slots/Completion.antt =====
-- What becomes of a job that a slot runs, among the slots of a pool of internal/worker/pool.go.
use forge_queue.Prelude.{
  ℕ, zero, suc, ◌≡◌, refl, String, eq_iff, true, none, some, List, [], ◌∷◌, select, first, arith,
  ap, ◌∙◌, ℤ,
}
use forge_queue.Tables.{Job, Db}
use forge_queue.Tables.Rows.{find_job}
use forge_queue.Tables.Find.{first-select, find_key}
use forge_queue.Tx.{Env, Result}
use forge_queue.Tx.Laws.{IsWorking}
use forge_queue.Queue.Settle.{is_held, acked, ack}
use forge_queue.Queue.WellFormed.{IsWellFormed}
use forge_queue.Queue.Outcomes.{ack_completes}
use forge_queue.Worker.{
  Pool, normalize, Registry, handle, finish, execute, report_ack, job_succeeded,
}
use forge_queue.Worker.Progress.{ack_works}
use forge_queue.Worker.Slots.{
  Slot, idle, busy, slot_at, put, start, Running, Move, settles, settle_at, move, run_moves,
}
use forge_queue.Worker.Slots.Kept.{IsHolding, All-slot_at}
use forge_queue.Worker.Slots.Exclusive.{AllTimely, run-IsSound, start-IsSound}

-- The row that a slot holds can be acknowledged.
holding-held :
    (worker_id : String) (db : Db) (job : Job)
    → IsWellFormed db
    → IsHolding worker_id db (busy job)
    → (row : Job) × (find_job job.id db.jobs ≡ some row)
      × (first (select (is_held job.id worker_id) db.jobs) ≡ some row)
holding-held worker_id db job w (row, until, here, l) =
    let is_ours : is_held job.id worker_id row ≡ true = ground (
      arith,
      l.busy,
      l.owner,
      eq_iff worker_id worker_id,
      find_key (λ j. j.id) job.id db.jobs row here,
    ) in
    (
      row,
      here,
      first-select (λ j. j.id) (is_held job.id worker_id) job.id (λ x q. ground arith) db.jobs
            w.jobs_keyed
          ∙ rw (here, is_ours) refl,
    )

slot_put :
    (k : ℕ) (s t : Slot) (ss : List Slot) → slot_at k ss ≡ some s → slot_at k (put k t ss) ≡ some t
slot_put k s t [] e = absurd (ground arith)
slot_put zero s t (x ∷ ss) e = refl
slot_put (suc k) s t (x ∷ ss) e = slot_put k s t ss e

module _ (p : Pool) (registry : Registry) (quote : String → String) (backoff : ℕ → ℤ)
    (env : Env) where
  execute_completes :
      (job row : Job) (db : Db)
      → IsWellFormed db
      → first (select (is_held job.id p.worker_id) db.jobs) ≡ some row
      → handle registry quote job ≡ none
      → IsWorking env
      → ((execute env backoff p registry quote job db).0 ≡ some (job_succeeded (acked env.now row)))
        × (find_job job.id (execute env backoff p registry quote job db).1.jobs
            ≡ some (acked env.now row))
  unfolding execute finish report_ack
  execute_completes job row db w held handled live =
      let acks = ack_works env db job.id row p.worker_id live held in
      let after = (ack env job.id p.worker_id db).1 in
      let (old, at, _, e, at') =
        ack_completes env db after job.id p.worker_id (acked env.now row) w.jobs_keyed
          (ap (λ (x : Result Job). (x, after)) acks) in
      rw handled (ap report_ack acks, at')

  settled :
      (k : ℕ) (job : Job) (r : Running)
      → slot_at k r.slots ≡ some (busy job)
      → move p registry quote backoff (settles k env) r ≡ record r {
        slots = put k idle r.slots;
        db = (execute env backoff p registry quote job r.db).1;
      }
  unfolding move settle_at
  settled k job r e = rw e refl

-- In a pool with any number of slots, from a well-formed database and after moves where polls and
-- calls of others come while no lease of a running job of the pool is expired and others do not
-- use the pool's name: if a slot runs a job for which its handler returns no error, and the server
-- answers the Ack, then the slot's execute reports success, the row that the job had in the table
-- is succeeded after it, and the slot is free.
pub slot_completes :
    (p : Pool) (registry : Registry) (quote : String → String) (backoff : ℕ → ℤ) (ms : List Move)
    (db : Db) (k : ℕ) (env : Env) (job : Job)
    → IsWellFormed db
    → AllTimely (normalize p) registry quote backoff ms (start p db)
    → slot_at k (run_moves (normalize p) registry quote backoff ms (start p db)).slots
      ≡ some (busy job)
    → handle registry quote job ≡ none
    → IsWorking env
    → let r = run_moves (normalize p) registry quote backoff ms (start p db) in
      let r' = move (normalize p) registry quote backoff (settles k env) r in
      (row : Job) × (find_job job.id r.db.jobs ≡ some row)
      × ((execute env backoff (normalize p) registry quote job r.db).0
          ≡ some (job_succeeded (acked env.now row)))
      × (find_job job.id r'.db.jobs ≡ some (acked env.now row))
      × (slot_at k r'.slots ≡ some idle)
slot_completes p registry quote backoff ms db k env job w t at handled live =
    let q = normalize p in
    let r = run_moves q registry quote backoff ms (start p db) in
    let s = run-IsSound q registry quote backoff ms (start p db) t (start-IsSound p db w) in
    let (row, here, held) =
      holding-held q.worker_id r.db job s.sound
        (All-slot_at (IsHolding q.worker_id r.db) k r.slots (busy job) at s.holds) in
    let (reports, there) =
      execute_completes q registry quote backoff env job row r.db s.sound held handled live in
    let e = settled q registry quote backoff env k job r at in
    (
      row,
      here,
      reports,
      ap (λ (x : Running). find_job job.id x.db.jobs) e ∙ there,
      ap (λ (x : Running). slot_at k x.slots) e ∙ slot_put k (busy job) idle r.slots at,
    )
