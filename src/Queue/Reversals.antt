-- ===== src/Queue/Reversals.antt =====
-- Cancel and RequeueDLQ of internal/queue/postgres.go, exactly.
use forge_queue.Prelude.{
  ℕ, ◌≡◌, refl, ◌==◌, ◌&&◌, All, [], ◌∷◌, if◌then◌else◌, Bool, true, not, Option, none, some, List,
  select, first, arith, ◌∙◌, Bool-cases, inl, inr, ap, sym, subst,
}
use forge_queue.Tables.{Job, Db, DeadLetter, ready, failed}
use forge_queue.Tables.Rows.{find_job, update, update_returning, is_ready, is_dead}
use forge_queue.Tables.Member.{All-map}
use forge_queue.Tables.Find.{All-found, Distinct, first-select, find_key, keep_if}
use forge_queue.Tx.{Env, Result, ok, err, invalid_transition}
use forge_queue.Tx.Laws.{IsWorking}
use forge_queue.Queue.Settle.{
  is_cancellable, cancelled, cancel, cancel_body, is_buried, requeued, requeue_dlq, requeue_body,
  remove_dead_letter, delete_dead_letter,
}

-- The rows that a cancelled and a requeued job should have.
abbrev withdrawn_row : ℕ → Job → Job
withdrawn_row now j = record j { status = failed; last_error = some "cancelled"; updated_at = now }

abbrev renewed_row : ℕ → Job → Job
renewed_row now j = record j {
  status = ready;
  attempts = 0;
  locked_by = none;
  locked_until = none;
  run_at = now;
  last_error = none;
  updated_at = now;
}

-- What Cancel does where the server answers: a ready job is cancelled, and all else is refused.
abbrev pub cancel_outcome : Env → ℕ → Db → Result Job × Db
cancel_outcome env i db = elim (find_job i db.jobs) [
  | none ↦ (err invalid_transition, db)
  | some j ↦
      if is_ready j.status
      then (
        ok (withdrawn_row env.now j),
        record db { jobs = update (λ x. (x.id == i)) (withdrawn_row env.now) db.jobs },
      )
      else (err invalid_transition, db)
]

-- And RequeueDLQ: a dead job is ready anew, with no dead letter of it left.
abbrev pub requeue_outcome : Env → ℕ → Db → Result Job × Db
requeue_outcome env i db = elim (find_job i db.jobs) [
  | none ↦ (err invalid_transition, db)
  | some j ↦
      if is_dead j.status
      then (
        ok (renewed_row env.now j),
        record db {
          jobs = update (λ x. (x.id == i)) (renewed_row env.now) db.jobs;
          dead_letter = select (λ d. not (d.job_id == i)) db.dead_letter;
        },
      )
      else (err invalid_transition, db)
]

removed_letters :
    (i : ℕ) (ds : List DeadLetter) → remove_dead_letter i ds ≡ select (λ d. not (d.job_id == i)) ds
unfolding remove_dead_letter
removed_letters i [] = refl
removed_letters i (d ∷ ds) = ground (arith, removed_letters i ds)

update_same :
    (p q : Job → Bool) (f : Job → Job) (js : List Job)
    → All (λ j. p j ≡ q j) js
    → update p f js ≡ update q f js
unfolding update
update_same p q f [] h = refl
update_same p q f (j ∷ js) (h, hs) = ground (arith, h, update_same p q f js hs)

-- Where ids are distinct, and the row `i` passes a test, a query by id and test is one by id.
by_id :
    (t : Job → Bool) (f : Job → Job) (i : ℕ) (js : List Job) (j : Job)
    → Distinct (λ (j : Job). j.id) js
    → find_job i js ≡ some j
    → t j ≡ true
    → update (λ x. (x.id == i) && t x) f js ≡ update (λ x. x.id == i) f js
by_id t f i js j d at h = update_same _ _ f js (
    All-map (λ x. find_job x.id js ≡ some x) (λ x. ((x.id == i) && t x) ≡ (x.id == i)) js agree
      (All-found (λ x. x.id) js d))
  where
    agree : (x : Job) → find_job x.id js ≡ some x → ((x.id == i) && t x) ≡ (x.id == i)
    agree x here = elim (Bool-cases (x.id == i)) [
      | inr e ↦ rw e refl
      | inl e ↦
          let same_id : x.id ≡ i = ground arith in
          let same : x ≡ j =
            some_eq (sym (subst (λ k. find_job k js ≡ some x) same_id here) ∙ at) in
          rw e (ap t same ∙ h)
    ]
      where
        some_eq : {a b : Job} → some a ≡ some b → a ≡ b
        some_eq e = ground (arith, e)

module _ (env : Env) (i : ℕ) (db : Db) (d : Distinct (λ (j : Job). j.id) db.jobs)
    (live : IsWorking env) where
  cancellable_row :
      first (select (is_cancellable i) db.jobs) ≡ keep_if (is_cancellable i) (find_job i db.jobs)
  cancellable_row = first-select (λ j. j.id) (is_cancellable i) i (λ x h. ground arith) db.jobs d

  cancel_by_row :
      (o : Option Job)
      → find_job i db.jobs ≡ o
      → cancel env i db ≡ (elim o [
        | none ↦ (err invalid_transition, db)
        | some j ↦
            if is_ready j.status
            then (
              ok (cancelled env.now j),
              record db { jobs = update (λ x. x.id == i) (cancelled env.now) db.jobs },
            )
            else (err invalid_transition, db)
      ])
  unfolding cancel cancel_body update_returning
  cancel_by_row none e =
      let row = cancellable_row ∙ ap (keep_if (is_cancellable i)) e in
      ground (arith, row, live.statement 0)
  cancel_by_row (some j) e =
      let row = cancellable_row ∙ ap (keep_if (is_cancellable i)) e in
      elim (Bool-cases (is_ready j.status)) [
        | inr h ↦ ground (arith, row, live.statement 0, find_key (λ x. x.id) i db.jobs j e)
        | inl h ↦
            let same = by_id (λ x. is_ready x.status) (cancelled env.now) i db.jobs j d e h in
            ground (arith, same, row, live.statement 0, find_key (λ x. x.id) i db.jobs j e)
      ]

  buried_row : first (select (is_buried i) db.jobs) ≡ keep_if (is_buried i) (find_job i db.jobs)
  buried_row = first-select (λ j. j.id) (is_buried i) i (λ x h. ground arith) db.jobs d

  requeue_by_row :
      (o : Option Job)
      → find_job i db.jobs ≡ o
      → requeue_dlq env i db ≡ (elim o [
        | none ↦ (err invalid_transition, db)
        | some j ↦
            if is_dead j.status
            then (
              ok (requeued env.now j),
              record db {
                jobs = update (λ x. x.id == i) (requeued env.now) db.jobs;
                dead_letter = select (λ x. not (x.job_id == i)) db.dead_letter;
              },
            )
            else (err invalid_transition, db)
      ])
  unfolding requeue_dlq requeue_body update_returning delete_dead_letter
  requeue_by_row none e =
      let row = buried_row ∙ ap (keep_if (is_buried i)) e in
      ground (arith, row, live.statement 0, live.begin, live.commit)
  requeue_by_row (some j) e =
      let row = buried_row ∙ ap (keep_if (is_buried i)) e in
      elim (Bool-cases (is_dead j.status)) [
        | inr h ↦ ground (
          arith,
          row,
          live.begin,
          live.commit,
          live.statement 0,
          find_key (λ x. x.id) i db.jobs j e,
        )
        | inl h ↦
            let same = by_id (λ x. is_dead x.status) (requeued env.now) i db.jobs j d e h in
            ground (
              arith,
              removed_letters i db.dead_letter,
              same,
              row,
              live.begin,
              live.commit,
              live.statement 0,
              live.statement 1,
              find_key (λ x. x.id) i db.jobs j e,
            )
      ]

  -- Where job ids are distinct and the server answers, Cancel makes the job with the id failed,
  -- with the error 'cancelled', if it is ready; RequeueDLQ makes it ready from now on, with no
  -- attempts, lease or error and with its dead letters removed, if it is dead; and each refuses
  -- all else with ErrInvalidTransition and changes nothing.
  pub reversals_exact :
      (cancel env i db ≡ cancel_outcome env i db)
      × (requeue_dlq env i db ≡ requeue_outcome env i db)
  reversals_exact =
      (cancel_by_row (find_job i db.jobs) refl, requeue_by_row (find_job i db.jobs) refl)
