-- ===== src/Queue/WellFormed/Settled.antt =====
-- Updates of `jobs` that keep its own invariant, and the rows that they replace.
use forge_queue.Prelude.{
  ℕ, ◌+◌, ◌≡◌, refl, ◌==◌, inl, inr, if◌then◌else◌, Bool, true, false, Option, none, some, List,
  All, String, arith, Bool-cases, ap, subst, ◌∙◌,
}
use forge_queue.Tables.{Job, Run, Status, DeadLetter, Db}
use forge_queue.Tables.Rows.{update, find_job, is_running, is_dead}
use forge_queue.Tables.Find.{
  applied, map_row, test, Distinct, Distinct-update, find-update, find_key,
}
use forge_queue.Queue.Settle.{finished_runs}
use forge_queue.Queue.WellFormed.{flag, IsShaped, UniqueKeys, active, letters, IsWellFormed}
use forge_queue.Queue.WellFormed.Rows.{All-update, UniqueKeys-update}
use forge_queue.Queue.WellFormed.Runs.{active-finished, finished_runs-Distinct}

-- The part of the invariant that speaks of `jobs` alone.
abbrev pub RowsOk : List Job → Type 0
RowsOk js = Distinct (λ j. j.id) js × All IsShaped js × UniqueKeys js

abbrev pub rows_of : {db : Db} → IsWellFormed db → RowsOk db.jobs
rows_of w = (w.jobs_keyed, w.shaped, w.keys_unique)

-- An update of columns that are no keys.
pub record IsColumnUpdate (p : Job → Bool) (f : Job → Job) : Type 0 where
  pub id : (j : Job) → (f j).id ≡ j.id
  pub tenant : (j : Job) → (f j).tenant_id ≡ j.tenant_id
  pub key : (j : Job) → (f j).idempotency_key ≡ j.idempotency_key
  pub shape : (j : Job) → p j ≡ true → IsShaped j → IsShaped (f j)

pub RowsOk-update :
    {p : Job → Bool} {f : Job → Job} (js : List Job)
    → IsColumnUpdate p f
    → RowsOk js
    → RowsOk (update p f js)
RowsOk-update {p} {f} js u (d, s, k) = (
  Distinct-update (λ j. j.id) p f u.id js d,
  All-update IsShaped p f u.shape js s,
  UniqueKeys-update p f u.tenant u.key js k,
)

-- A test on rows that an update does not change.
pub test-update :
    (t p : Job → Bool) (f : Job → Job) (i : ℕ) (js : List Job)
    → ((j : Job) → (f j).id ≡ j.id)
    → ((j : Job) → p j ≡ true → t (f j) ≡ t j)
    → test t (find_job i (update p f js)) ≡ test t (find_job i js)
test-update t p f i js id same =
    ap (test t) (find-update (λ j. j.id) p f id i js) ∙ on_row (find_job i js)
  where
    on_row : (o : Option Job) → test t (map_row (applied p f) o) ≡ test t o
    on_row none = refl
    on_row (some j) = elim (Bool-cases (p j)) [ inl e ↦ rw e (same j e) | inr e ↦ rw e ]

unmoved :
    (p : Job → Bool) (f : Job → Job) (k i : ℕ) (o : Option Job)
    → (k == i) ≡ false
    → ((j : Job) → p j ≡ true → j.id ≡ k)
    → ((j : Job) → o ≡ some j → j.id ≡ i)
    → map_row (applied p f) o ≡ o
unmoved p f k i none e only at = refl
unmoved p f k i (some j) e only at = ground (arith, only j, at j refl)

-- An update by primary key replaces one row.
pub replaced :
    (p : Job → Bool) (f : Job → Job) (k i : ℕ) (js : List Job) (old : Job)
    → ((j : Job) → (f j).id ≡ j.id)
    → ((j : Job) → p j ≡ true → j.id ≡ k)
    → find_job k js ≡ some old
    → p old ≡ true
    → find_job i (update p f js) ≡ (if k == i then some (f old) else find_job i js)
replaced p f k i js old id only here hit = elim (Bool-cases (k == i)) [
  | inl e ↦
      let same : k ≡ i = ground arith in
      let row = subst (λ n. find_job n js ≡ some old) same here in
      rw e (find-update (λ j. j.id) p f id i js ∙ rw row (rw hit refl))
  | inr e ↦ rw e (
      find-update (λ j. j.id) p f id i js
      ∙ unmoved p f k i (find_job i js) e only (find_key (λ j. j.id) i js))
]

-- A worker's job leaves the running state, and its open run ends with it.
module _ (db : Db) (w : IsWellFormed db) (k : ℕ) (old : Job) (here : find_job k db.jobs ≡ some old)
    (busy : is_running old.status ≡ true) where
  one_open : active k db.runs ≡ 1
  one_open = w.runs_match k ∙ rw here (rw busy refl)

  pub not_dead : letters k db.dead_letter ≡ 0
  not_dead = w.letters_match k ∙ rw here (ground arith)

  settled_runs :
      (new : Job) (js : List Job) (rs : List Run) (i : ℕ)
      → is_running new.status ≡ false
      → find_job i js ≡ (if k == i then some new else find_job i db.jobs)
      → active i rs + flag (k == i) ≡ active i db.runs
      → active i rs ≡ flag (test (λ (j : Job). is_running j.status) (find_job i js))
  settled_runs new js rs i idle after less = elim (Bool-cases (k == i)) [
    | inl e ↦
        let same : k ≡ i = ground arith in
        ground (arith, after, subst (λ n. active n db.runs ≡ 1) same one_open)
    | inr e ↦ ground (arith, after, w.runs_match i)
  ]

  pub settled-IsWellFormed :
      (p : Job → Bool) (f : Job → Job) (status : Status) (error : String) (now : ℕ)
      (ds : List DeadLetter)
      → IsColumnUpdate p f
      → ((j : Job) → p j ≡ true → j.id ≡ k)
      → p old ≡ true
      → is_running (f old).status ≡ false
      → is_running status ≡ false
      → ((i : ℕ)
          → letters i ds
            ≡ (if k == i then flag (is_dead (f old).status) else letters i db.dead_letter))
      → IsWellFormed (record db {
        jobs = update p f db.jobs;
        runs = finished_runs now k status error db.runs;
        dead_letter = ds;
      })
  settled-IsWellFormed p f status error now ds u only hit idle stopped same = record {
    jobs_keyed = rows.0;
    runs_keyed = finished_runs-Distinct now status stopped error k db.runs w.runs_keyed;
    shaped = rows.1;
    keys_unique = rows.2;
    runs_match = λ i.
        settled_runs (f old) (update p f db.jobs) (finished_runs now k status error db.runs) i idle
          (after i) (active-finished now status stopped error i k db.runs w.runs_keyed one_open);
    letters_match = λ i. ground (arith, same i, after i, w.letters_match i);
  }
    where
      rows : RowsOk (update p f db.jobs)
      rows = RowsOk-update db.jobs u (rows_of w)

      after :
          (i : ℕ)
          → find_job i (update p f db.jobs) ≡ (if k == i then some (f old) else find_job i db.jobs)
      after i = replaced p f k i db.jobs old u.id only here hit
