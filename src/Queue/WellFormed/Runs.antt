-- ===== src/Queue/WellFormed/Runs.antt =====
-- Open rows of `job_runs`: what closing, starting and finishing runs does to their number.
use forge_queue.Prelude.{
  ℕ, suc, ◌+◌, ◌≡◌, refl, ◌==◌, ◌&&◌, inl, inr, if◌then◌else◌, Bool, true, false, none, some, List,
  [], ◌∷◌, ◌++◌, String, select, arith, Bool-cases, Option-cases, ap, subst,
}
use forge_queue.Tables.{Job, Run, Status}
use forge_queue.Tables.Rows.{update, find, is_running, has_id}
use forge_queue.Tables.Find.{
  Absent, Distinct, Distinct-update, All-found, update-Absent, has_id-Absent,
}
use forge_queue.Tables.Order.{All-select, All-order_by, All-first, order_by-none}
use forge_queue.Tx.{Env}
use forge_queue.Queue.Dequeue.{closed_run}
use forge_queue.Queue.Settle.{finished_run, latest_run, finished_runs}
use forge_queue.Queue.Effects.{started_runs}
use forge_queue.Queue.WellFormed.{flag, active}

pub active-append : (i : ℕ) (rs ss : List Run) → active i (rs ++ ss) ≡ active i rs + active i ss
unfolding active
active-append i [] ss = omega arith
active-append i (r ∷ rs) ss = omega (arith, active-append i rs ss)

-- Closing the open runs of the jobs that a test selects.
pub active-closed :
    (now : ℕ) (expired : ℕ → Bool) (i : ℕ) (rs : List Run)
    → active i (update (λ r. is_running r.status && expired r.job_id) (closed_run now) rs)
      ≡ (if expired i then 0 else active i rs)
unfolding active update
active-closed now expired i [] = ground arith
active-closed now expired i (r ∷ rs) = ground (arith, active-closed now expired i rs)

pub active-started :
    (env : Env) (k i : ℕ) (js : List Job)
    → Distinct (λ j. j.id) js
    → active i (started_runs env k js) ≡ flag (has_id i js)
unfolding active started_runs has_id
active-started env k i [] d = refl
active-started env k i (j ∷ js) d =
    ground (arith, active-started env (suc k) i js d.1, has_id-Absent i js)

abbrev is_open : ℕ → Run → Bool
is_open i r = (r.job_id == i) && is_running r.status

active_none : (i : ℕ) (rs : List Run) → select (is_open i) rs ≡ [] → active i rs ≡ 0
unfolding active
active_none i [] h = refl
active_none i (r ∷ rs) h = ground (arith, active_none i rs)

module _ (now : ℕ) (status : Status) (stopped : is_running status ≡ false) (error : String) where
  active-update :
      (k : ℕ) (r : Run) (rs : List Run)
      → Distinct (λ x. x.id) rs
      → find (λ x. x.id) r.id rs ≡ some r
      → is_running r.status ≡ true
      → active k (update (λ x. x.id == r.id) (finished_run now status error) rs)
          + flag (r.job_id == k)
        ≡ active k rs
  unfolding active update find
  active-update k r [] d h busy = ground arith
  active-update k r (x ∷ xs) d h busy = elim (Bool-cases (x.id == r.id)) [
    | inl e ↦
        let same : x ≡ r = ground arith in
        let absent = subst (λ i. Absent (λ y. y.id) i xs) (ap (λ (y : Run). y.id) same) d.0 in
        ground (arith, update-Absent (λ y. y.id) (finished_run now status error) r.id xs absent)
    | inr e ↦ ground (arith, active-update k r xs d.1)
  ]

  latest_run-found :
      (i : ℕ) (rs : List Run) (r : Run)
      → Distinct (λ x. x.id) rs
      → latest_run i rs ≡ some r
      → (find (λ x. x.id) r.id rs ≡ some r) × (is_open i r ≡ true)
  unfolding latest_run
  latest_run-found i rs r d h =
      All-first (λ x. (find (λ x. x.id) x.id rs ≡ some x) × (is_open i x ≡ true)) _ r
        (All-order_by _ _ _ (All-select _ (is_open i) rs (All-found (λ x. x.id) rs d))) h

  latest_run-none : (i : ℕ) (rs : List Run) → latest_run i rs ≡ none → active i rs ≡ 0
  unfolding latest_run
  latest_run-none i rs h = active_none i rs (order_by-none _ (select (is_open i) rs) h)

  -- Finishing the run of a job that has one open run.
  pub active-finished :
      (k i : ℕ) (rs : List Run)
      → Distinct (λ x. x.id) rs
      → active i rs ≡ 1
      → active k (finished_runs now i status error rs) + flag (i == k) ≡ active k rs
  unfolding finished_runs
  active-finished k i rs d one = elim (Option-cases (latest_run i rs)) [
    | inl e ↦ absurd (omega (arith, latest_run-none i rs e))
    | inr (r, e) ↦
        let (here, busy) = latest_run-found i rs r d e in
        let same : r.job_id ≡ i = ground arith in
        rw (e, finished_runs)
          (subst
            (λ n.
              active k (update (λ x. x.id == r.id) (finished_run now status error) rs)
                + flag (n == k)
              ≡ active k rs)
            same (active-update k r rs d here (ground arith)))
  ]

  pub finished_runs-Distinct :
      (i : ℕ) (rs : List Run)
      → Distinct (λ x. x.id) rs
      → Distinct (λ x. x.id) (finished_runs now i status error rs)
  unfolding finished_runs
  finished_runs-Distinct i rs d = elim (Option-cases (latest_run i rs)) [
    | inl e ↦ rw (e, finished_runs) d
    | inr (r, e) ↦
        rw (e, finished_runs)
          (Distinct-update (λ x. x.id) (λ x. x.id == r.id) (finished_run now status error)
            (λ x. refl) rs d)
  ]
