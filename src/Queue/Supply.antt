-- ===== src/Queue/Supply.antt =====
-- When Dequeue of internal/queue/postgres.go succeeds, and when it hands out a job.
use forge_queue.Prelude.{
  ℕ, zero, suc, ◌+◌, ◌≤◌, ◌≡◌, refl, ◌==◌, Bool, true, false, some, List, [], ◌∷◌, ◌++◌, any_of,
  take, select, String, ℤ, pos, negsuc, positive_or, arith, ap, ◌∙◌, false≢true,
}
use forge_queue.Tables.{Job, Run, Db}
use forge_queue.Tables.Rows.{update, find_job, has_id, order_by}
use forge_queue.Tables.Member.{In, here, In-select, In-order_by, find-In, All-In}
use forge_queue.Tx.{Env, ok}
use forge_queue.Tx.Laws.{IsWorking}
use forge_queue.Queue.Dequeue.{
  is_expired, reclaimed, is_eligible, precedes, picked, closed_run, started_run, insert_run,
  start_runs, or_default_queue, dequeue_body, dequeue,
}
use forge_queue.Queue.Effects.{jobs_reclaimed, runs_closed, chosen, jobs_claimed, claimed_rows}
use forge_queue.Queue.Claims.{find_reclaimed}
use forge_queue.Queue.WellFormed.{IsWellFormed}
use forge_queue.Queue.Picking.{chosen_found}
use forge_queue.Queue.Preference.{chosen_handed}

-- The ids that uuid.New will give are new, and are not given twice.
pub record IsFresh (env : Env) (k : ℕ) (runs : List Run) : Type 0 where
  pub once : (i j : ℕ) → env.fresh i ≡ env.fresh j → i ≡ j
  pub unused : (i : ℕ) → k ≤ i → any_of (λ (r : Run). r.id == env.fresh i) runs ≡ false

any_of-append_one :
    (id : ℕ) (runs : List Run) (run : Run)
    → any_of (λ (r : Run). r.id == id) runs ≡ false
    → (run.id == id) ≡ false
    → any_of (λ (r : Run). r.id == id) (runs ++ run ∷ []) ≡ false
any_of-append_one id [] run h e = ground arith
any_of-append_one id (x ∷ xs) run h e = ground (arith, any_of-append_one id xs run)

any_of-update_id :
    (p : Run → Bool) (now id : ℕ) (runs : List Run)
    → any_of (λ (r : Run). r.id == id) (update p (closed_run now) runs)
      ≡ any_of (λ (r : Run). r.id == id) runs
unfolding update
any_of-update_id p now id [] = refl
any_of-update_id p now id (x ∷ xs) = ground (arith, any_of-update_id p now id xs)

IsFresh-started :
    (env : Env) (k : ℕ) (runs : List Run) (job : Job)
    → IsFresh env k runs
    → IsFresh env (suc k) (runs ++ started_run env k job ∷ [])
IsFresh-started env k runs job f = record {
  once = f.once;
  unused = λ i h.
      any_of-append_one (env.fresh i) runs (started_run env k job) (f.unused i (omega (arith, h)))
        (ground (arith, f.once k i, h));
}

start_runs-works :
    (env : Env) (k : ℕ) (jobs : List Job) (db : Db)
    → IsWorking env
    → IsFresh env k db.runs
    → (db' : Db) × (start_runs env k jobs db ≡ ok (tt, db'))
unfolding start_runs insert_run
start_runs-works env k [] db live f = (db, refl)
start_runs-works env k (job ∷ jobs) db live f =
    let (db', e) =
      start_runs-works env (suc k) jobs (record db { runs = db.runs ++ started_run env k job ∷ [] })
        live (IsFresh-started env k db.runs job f) in
    (db', ground (arith, live.statement (3 + k), f.unused k (omega arith), e))

take_some :
    (limit : ℤ) (xs : List Job) (a : Job)
    → In a xs
    → (c : Job) × In c (take (positive_or 1 limit) xs)
take_some limit [] a m = elim m [ ]
take_some (pos zero) (x ∷ xs) a m = (x, here refl)
take_some (pos (suc n)) (x ∷ xs) a m = (x, here refl)
take_some (negsuc n) (x ∷ xs) a m = (x, here refl)

has_id_some :
    (i : ℕ) (js : List Job)
    → has_id i js ≡ true
    → (row : Job) × (rest : List Job) × (js ≡ row ∷ rest)
unfolding has_id
has_id_some i [] h = absurd (false≢true h)
has_id_some i (j ∷ js) h = (j, js, refl)

module _ (env : Env) (queues : List String) (limit : ℤ) (worker_id : String) (lease : ℤ)
    (db : Db) where
  dequeue-works :
      IsWorking env
      → IsFresh env 0 db.runs
      → (dequeue env queues limit worker_id lease db).0
        ≡ ok (claimed_rows env queues limit worker_id lease db)
  unfolding dequeue dequeue_body
  dequeue-works live f =
      let (db', e) =
        start_runs-works env 0 (claimed_rows env queues limit worker_id lease db)
          (record db {
            jobs = jobs_claimed env queues limit worker_id lease db;
            runs = runs_closed env db;
          })
          live
          (record {
            once = f.once;
            unused = λ i h. any_of-update_id _ env.now (env.fresh i) db.runs ∙ f.unused i h;
          }) in
      ground
        (arith, live.begin, live.statement 0, live.statement 1, live.statement 2, live.commit, e)

  -- An eligible row makes the choice not empty.
  picks_some :
      (j : Job)
      → find_job j.id (jobs_reclaimed env db) ≡ some j
      → is_eligible env (or_default_queue queues) j ≡ true
      → (c : Job) × In c (chosen env queues limit db)
  unfolding picked
  picks_some j at e =
      let waiting = select (is_eligible env (or_default_queue queues)) (jobs_reclaimed env db) in
      take_some limit (order_by precedes waiting) j (
        In-order_by precedes j waiting (
          In-select (is_eligible env (or_default_queue queues)) j (jobs_reclaimed env db) e
            (find-In j.id (jobs_reclaimed env db) j at)))

  claimed_some :
      (j : Job)
      → IsWellFormed db
      → find_job j.id (jobs_reclaimed env db) ≡ some j
      → is_eligible env (or_default_queue queues) j ≡ true
      → (row : Job) × (rest : List Job) × (claimed_rows env queues limit worker_id lease db
          ≡ row ∷ rest)
  claimed_some j w at e =
      let (c, m) = picks_some j at e in
      let found =
        All-In (λ c. find_job c.id (jobs_reclaimed env db) ≡ some c) c (chosen env queues limit db)
          (chosen_found env queues limit worker_id lease db w) m in
      has_id_some c.id (claimed_rows env queues limit worker_id lease db)
        (chosen_handed env queues limit worker_id lease db c w found m)

  -- On a well-formed database, if the server answers, uuid.New gives ids for `job_runs` that are
  -- new and not given twice, and some ready job is eligible, then Dequeue succeeds and hands out
  -- at least one job.
  pub dequeue_supplies :
      (j : Job)
      → IsWellFormed db
      → IsWorking env
      → IsFresh env 0 db.runs
      → find_job j.id db.jobs ≡ some j
      → is_eligible env (or_default_queue queues) j ≡ true
      → (row : Job) × (rest : List Job) × ((dequeue env queues limit worker_id lease db).0
          ≡ ok (row ∷ rest))
  dequeue_supplies j w live f at e =
      let waiting : find_job j.id (jobs_reclaimed env db) ≡ some j =
        find_reclaimed env db j.id ∙ rw at (ground arith) in
      let (row, rest, same) = claimed_some j w waiting e in
      (row, rest, dequeue-works live f ∙ ap ok same)

  -- On a well-formed database, if the server answers, uuid.New gives ids for `job_runs` that are
  -- new and not given twice, and some job with an expired lease would be eligible once it is ready
  -- again, whatever its attempts, then Dequeue succeeds and hands out at least one job.
  pub dequeue_recovers :
      (j : Job)
      → IsWellFormed db
      → IsWorking env
      → IsFresh env 0 db.runs
      → find_job j.id db.jobs ≡ some j
      → is_expired env.now j ≡ true
      → is_eligible env (or_default_queue queues) (reclaimed env.now j) ≡ true
      → (row : Job) × (rest : List Job) × ((dequeue env queues limit worker_id lease db).0
          ≡ ok (row ∷ rest))
  dequeue_recovers j w live f at late e =
      let waiting : find_job j.id (jobs_reclaimed env db) ≡ some (reclaimed env.now j) =
        find_reclaimed env db j.id ∙ rw (at, late) refl in
      let (row, rest, same) = claimed_some (reclaimed env.now j) w waiting e in
      (row, rest, dequeue-works live f ∙ ap ok same)
