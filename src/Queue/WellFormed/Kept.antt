-- ===== src/Queue/WellFormed/Kept.antt =====
-- The calls that settle, extend, cancel or revive one job, and the invariant of the database.
use forge_queue.Prelude.{
  ℕ, ◌≡◌, refl, ◌==◌, inl, inr, if◌then◌else◌, Bool, true, Option, none, some, List, String, select,
  first, arith, Bool-cases, sym, ap, subst, ◌∙◌,
}
use forge_queue.Tables.{Job, DeadLetter, Db, succeeded, failed, dead}
use forge_queue.Tables.Rows.{update, find_job, is_running, is_dead}
use forge_queue.Tables.Find.{applied, map_row, test, find-update, find_key}
use forge_queue.Tx.{Env}
use forge_queue.Queue.Settle.{
  is_held, acked, finished_runs, buried, put_dead_letter, retried, is_leased_by, extended,
  is_cancellable, cancelled, is_buried, requeued, remove_dead_letter,
}
use forge_queue.Queue.Lifecycle.{held_row}
use forge_queue.Queue.WellFormed.{flag, letters, IsWellFormed}
use forge_queue.Queue.WellFormed.Settled.{
  RowsOk, rows_of, IsColumnUpdate, RowsOk-update, test-update, not_dead, settled-IsWellFormed,
}
use forge_queue.Queue.WellFormed.Letters.{letters-put, letters-remove}

-- An ended attempt: Ack, and both ways of Nack.
module _ (env : Env) (db : Db) (w : IsWellFormed db) (k : ℕ) (worker_id : String) (old : Job)
    (h : first (select (is_held k worker_id) db.jobs) ≡ some old) where
  held : (find_job k db.jobs ≡ some old) × (is_held k worker_id old ≡ true)
  held = held_row (is_held k worker_id) k (λ j p. ground arith) db.jobs old w.jobs_keyed h

  busy : is_running old.status ≡ true
  busy = ground (arith, held.1)

  named : (old.id == k) ≡ true
  named = ground (arith, held.1)

  no_letter : (i : ℕ) → letters i db.dead_letter ≡ (if k == i then 0 else letters i db.dead_letter)
  no_letter i = elim (Bool-cases (k == i)) [
    | inl e ↦
        let same : k ≡ i = ground arith in
        rw e (subst (λ n. letters n db.dead_letter ≡ 0) same (not_dead db w k old held.0 busy))
    | inr e ↦ rw e
  ]

  pub acknowledged-IsWellFormed : IsWellFormed (record db {
    jobs = update (is_held k worker_id) (acked env.now) db.jobs;
    runs = finished_runs env.now k succeeded "" db.runs;
  })
  acknowledged-IsWellFormed =
      settled-IsWellFormed db w k old held.0 busy (is_held k worker_id) (acked env.now) succeeded ""
        env.now db.dead_letter
        (record {
          id = λ j. refl;
          tenant = λ j. refl;
          key = λ j. refl;
          shape = λ j p s. ground arith;
        })
        (λ j p. ground arith) held.1 refl refl no_letter

  pub died-IsWellFormed :
      (message : String)
      → IsWellFormed (record db {
        jobs = update (λ j. j.id == k) (buried env.now message) db.jobs;
        runs = finished_runs env.now k dead message db.runs;
        dead_letter =
            put_dead_letter
              (record { job_id = k; dead_at = env.now; reason = message })
              db.dead_letter;
      })
  died-IsWellFormed message =
      settled-IsWellFormed db w k old held.0 busy (λ j. j.id == k) (buried env.now message) dead
        message env.now _
        (record {
          id = λ j. refl;
          tenant = λ j. refl;
          key = λ j. refl;
          shape = λ j p s. ground arith;
        })
        (λ j p. ground arith) named refl refl
        (λ i. letters-put i _ db.dead_letter (not_dead db w k old held.0 busy))

  pub requeued_later-IsWellFormed :
      (delay : ℕ) (message : String)
      → IsWellFormed (record db {
        jobs = update (λ j. j.id == k) (retried env.now delay message) db.jobs;
        runs = finished_runs env.now k failed message db.runs;
      })
  requeued_later-IsWellFormed delay message =
      settled-IsWellFormed db w k old held.0 busy (λ j. j.id == k) (retried env.now delay message)
        failed message env.now db.dead_letter
        (record {
          id = λ j. refl;
          tenant = λ j. refl;
          key = λ j. refl;
          shape = λ j p s. ground arith;
        })
        (λ j p. ground arith) named refl refl no_letter

-- A change of `jobs` and `dead_letter` in which no job starts or stops running.
unrun-IsWellFormed :
    (db : Db) (w : IsWellFormed db) (p : Job → Bool) (f : Job → Job) (ds : List DeadLetter)
    → IsColumnUpdate p f
    → ((j : Job) → p j ≡ true → is_running (f j).status ≡ is_running j.status)
    → ((i : ℕ)
        → letters i ds
          ≡ flag (test (λ (j : Job). is_dead j.status) (find_job i (update p f db.jobs))))
    → IsWellFormed (record db { jobs = update p f db.jobs; dead_letter = ds })
unrun-IsWellFormed db w p f ds u running_same same = record {
  jobs_keyed = rows.0;
  runs_keyed = w.runs_keyed;
  shaped = rows.1;
  keys_unique = rows.2;
  runs_match = λ i.
      w.runs_match i
      ∙ ap flag (sym (test-update (λ j. is_running j.status) p f i db.jobs u.id running_same));
  letters_match = same;
}
  where
    rows : RowsOk (update p f db.jobs)
    rows = RowsOk-update db.jobs u (rows_of w)

module _ (env : Env) (db : Db) (w : IsWellFormed db) where
  pub leased-IsWellFormed :
      (k : ℕ) (worker_id : String) (lease : ℕ)
      → IsWellFormed
          (record db { jobs = update (is_leased_by k worker_id) (extended env.now lease) db.jobs })
  leased-IsWellFormed k worker_id lease =
      unrun-IsWellFormed db w (is_leased_by k worker_id) (extended env.now lease) db.dead_letter
        (record {
          id = λ j. refl;
          tenant = λ j. refl;
          key = λ j. refl;
          shape = λ j p s. ground arith;
        })
        (λ j p. refl)
        (λ i.
          w.letters_match i
          ∙ ap flag (
              sym (
                test-update (λ j. is_dead j.status) _ (extended env.now lease) i db.jobs (λ j. refl)
                  (λ j p. refl))))

  pub withdrawn-IsWellFormed :
      (k : ℕ)
      → IsWellFormed (record db { jobs = update (is_cancellable k) (cancelled env.now) db.jobs })
  withdrawn-IsWellFormed k =
      unrun-IsWellFormed db w (is_cancellable k) (cancelled env.now) db.dead_letter
        (record {
          id = λ j. refl;
          tenant = λ j. refl;
          key = λ j. refl;
          shape = λ j p s. ground arith;
        })
        (λ j p. ground arith)
        (λ i.
          w.letters_match i
          ∙ ap flag (
              sym (
                test-update (λ j. is_dead j.status) _ (cancelled env.now) i db.jobs (λ j. refl)
                  (λ j p. ground arith))))

  revived_row :
      (k i : ℕ) (o : Option Job)
      → ((j : Job) → o ≡ some j → j.id ≡ i)
      → flag (
          test
            (λ (j : Job). is_dead j.status)
            (map_row (applied (is_buried k) (requeued env.now)) o))
        ≡ (if k == i then 0 else flag (test (λ (j : Job). is_dead j.status) o))
  revived_row k i none at = ground arith
  revived_row k i (some j) at = ground (arith, at j refl)

  pub revived-IsWellFormed :
      (k : ℕ)
      → IsWellFormed (record db {
        jobs = update (is_buried k) (requeued env.now) db.jobs;
        dead_letter = remove_dead_letter k db.dead_letter;
      })
  revived-IsWellFormed k =
      unrun-IsWellFormed db w (is_buried k) (requeued env.now) _
        (record {
          id = λ j. refl;
          tenant = λ j. refl;
          key = λ j. refl;
          shape = λ j p s. ground arith;
        })
        (λ j p. ground arith)
        (λ i.
          letters-remove i k db.dead_letter
          ∙ ap (λ n. if k == i then 0 else n) (w.letters_match i)
          ∙ sym (revived_row k i (find_job i db.jobs) (find_key (λ j. j.id) i db.jobs))
          ∙ ap (λ o. flag (test (λ (j : Job). is_dead j.status) o))
              (sym
                (find-update (λ j. j.id) (is_buried k) (requeued env.now) (λ j. refl) i db.jobs)))
