-- ===== src/Worker/Slots/Moves.antt =====
-- Slots of internal/worker/pool.go: polls, heartbeats and calls of others, while leases last.
use forge_queue.Prelude.{
  ℕ, ◌≤◌, ◌≡◌, refl, ◌==◌, String, Bool, true, false, some, List, ◌∷◌, All, arith, ap, ◌∙◌, subst,
  Bool-cases, inl, inr, pos, ◌+◌,
}
use forge_queue.Tables.{Job, Db}
use forge_queue.Tables.Rows.{find_job, update}
use forge_queue.Tables.Find.{find-update}
use forge_queue.Tables.Member.{All-map}
use forge_queue.Tx.{Env, Result}
use forge_queue.Tx.Laws.{autocommit_cases}
use forge_queue.Queue.Dequeue.{interval_literal, dequeue}
use forge_queue.Queue.Settle.{is_leased_by, extended, extend_lease, extend_body}
use forge_queue.Queue.Effects.{extend_body-ok}
use forge_queue.Queue.History.{Call, dequeues, extends, step}
use forge_queue.Queue.Leases.{IsForeign, step-Kept}
use forge_queue.Queue.Picking.{dequeue_hands_out}
use forge_queue.Queue.WellFormed.{IsWellFormed}
use forge_queue.Queue.WellFormed.Step.{step-IsWellFormed}
use forge_queue.Worker.{Pool, beat, Turn, sleeps, runs, poll}
use forge_queue.Worker.Progress.{turn_runs, polled}
use forge_queue.Worker.Slots.{
  Slot, idle, busy, stopped, Running, put, Move, polls, others, after_turn, poll_at, beat_at,
}
use forge_queue.Worker.Slots.Kept.{
  is_same_job, IsApart, IsHolding, in_time, All-put, All-both, IsApart-put, IsKept,
}

abbrev AllInTime : ℕ → Running → Type 0
AllInTime now r = All (λ s. in_time now r.db s ≡ true) r.slots

-- Polls and calls of others come before a lease of the pool ends, and the others do not use its
-- name.
abbrev pub IsTimely : String → Move → Running → Type 0
IsTimely worker_id (polls k env) r = AllInTime env.now r
IsTimely worker_id (others env c) r = AllInTime env.now r × IsForeign worker_id c
IsTimely worker_id _ r = Unit

pub record IsSound (worker_id : String) (r : Running) : Type 0 where
  pub sound : IsWellFormed r.db
  pub holds : All (IsHolding worker_id r.db) r.slots
  pub apart : IsApart r.slots

module _ (p : Pool) where
  -- A call that is not made in the name of the pool.
  pub foreign-IsHolding :
      (env : Env) (c : Call) (db : Db) (s : Slot)
      → IsWellFormed db
      → IsForeign p.worker_id c
      → in_time env.now db s ≡ true
      → IsHolding p.worker_id db s
      → IsHolding p.worker_id (step env c db) s
  foreign-IsHolding env c db idle w f t h = tt
  foreign-IsHolding env c db stopped w f t h = tt
  foreign-IsHolding env c db (busy job) w f t (row, until, here, l) =
      let early : env.now ≤ until = ground (arith, here, l.busy, l.term, t) in
      (row, until, step-Kept env db w p.worker_id until job.id row l here c early f, l)

  pub kept-IsHolding :
      (job : Job) (db db' : Db)
      → IsKept job.id db db'
      → IsHolding p.worker_id db (busy job)
      → IsHolding p.worker_id db' (busy job)
  kept-IsHolding job db db' k (row, until, here, l) = (row, until, k ∙ here, l)

  -- A job that Dequeue hands out is not run by another slot.
  handed-differs :
      (env : Env) (db : Db) (job : Job) (s : Slot)
      → IsWellFormed db
      → (poll env p db).0 ≡ runs job
      → in_time env.now db s ≡ true
      → IsHolding p.worker_id db s
      → is_same_job s (busy job) ≡ false
  unfolding poll
  handed-differs env db job idle w e t h = refl
  handed-differs env db job stopped w e t h = refl
  handed-differs env db job (busy job') w e t (row, until, here, l) =
      let (r, db') = dequeue env p.queues (pos 1) p.worker_id p.lease db in
      let (rest, e') = turn_runs r job e in
      let (old, at, handed) =
        (dequeue_hands_out env p.queues (pos 1) p.worker_id p.lease db (job ∷ rest) db' w
          (ap (λ (x : Result (List Job)). (x, db')) e')).1.0 in
      elim (Bool-cases (job'.id == job.id)) [
        | inr other ↦ other
        | inl same ↦
            let at' : find_job job'.id db.jobs ≡ some old =
              subst (λ n. find_job n db.jobs ≡ some old) (ground (arith, same)) at in
            absurd (ground (arith, at', here, handed.waited, l.busy, t))
      ]

  pub poll-IsSound :
      (k : ℕ) (env : Env) (r : Running)
      → AllInTime env.now r
      → IsSound p.worker_id r
      → IsSound p.worker_id (poll_at p k env idle r)
  unfolding poll step poll_at
  poll-IsSound k env r t s = by_turn (poll env p r.db).0 refl
    where
      c : Call
      c = dequeues p.queues (pos 1) p.worker_id p.lease

      db' : Db
      db' = (poll env p r.db).1

      kept : All (IsHolding p.worker_id db') r.slots
      kept =
          All-both (λ x. in_time env.now r.db x ≡ true) (IsHolding p.worker_id r.db)
            (IsHolding p.worker_id db') r.slots
            (λ x tx h. foreign-IsHolding env c r.db x s.sound tt tx h) t s.holds

      by_turn :
          (u : Turn)
          → (poll env p r.db).0 ≡ u
          → IsSound p.worker_id
              (record r { slots = put k (after_turn (poll env p r.db).0) r.slots; db = db' })
      by_turn sleeps e = rw e (record {
        sound = step-IsWellFormed env c r.db s.sound;
        holds = All-put (IsHolding p.worker_id db') k idle r.slots tt kept;
        apart = IsApart-put k idle r.slots (All-map _ _ r.slots (λ x _. no_job x) s.holds) s.apart;
      })
        where
          no_job : (x : Slot) → is_same_job x idle ≡ false
          no_job x = ground arith
      by_turn (runs job) e =
          let (_, l, here) = polled env p r.db job s.sound e in
          rw e (record {
            sound = step-IsWellFormed env c r.db s.sound;
            holds =
                All-put (IsHolding p.worker_id db') k (busy job) r.slots
                  (job, env.now + interval_literal p.lease, here, l) kept;
            apart =
                IsApart-put k (busy job) r.slots
                  (All-both (λ x. in_time env.now r.db x ≡ true) (IsHolding p.worker_id r.db)
                    (λ x. is_same_job x (busy job) ≡ false) r.slots
                    (λ x tx h. handed-differs env r.db job x s.sound e tx h) t s.holds)
                  s.apart;
          })

  beaten-IsHolding :
      (env : Env) (job : Job) (db : Db) (s : Slot)
      → IsHolding p.worker_id db s
      → IsHolding p.worker_id (extend_lease env job.id p.worker_id p.lease db).1 s
  unfolding extend_lease
  beaten-IsHolding env job db idle h = tt
  beaten-IsHolding env job db stopped h = tt
  beaten-IsHolding env job db (busy job') (row, until, here, l) =
      autocommit_cases (λ db'. IsHolding p.worker_id db' (busy job')) (env.statement 0)
        (extend_body env job.id p.worker_id p.lease) db (row, until, here, l)
        λ u db' h.
          renewed db'
            (ap (λ (x : Db). x.jobs) (extend_body-ok env job.id p.worker_id p.lease db h).2)
    where
      longer : Job → Job
      longer = extended env.now (interval_literal p.lease)

      chosen_row : Job → Bool
      chosen_row = is_leased_by job.id p.worker_id

      renewed :
          (db' : Db)
          → db'.jobs ≡ update chosen_row longer db.jobs
          → IsHolding p.worker_id db' (busy job')
      renewed db' e =
          let at =
            ap (find_job job'.id) e
            ∙ find-update (λ j. j.id) chosen_row longer (λ j. refl) job'.id db.jobs in
          elim (Bool-cases (chosen_row row)) [
            | inl hit ↦ (
              longer row,
              env.now + interval_literal p.lease,
              at ∙ rw here (rw hit refl),
              record { busy = l.busy; owner = l.owner; term = refl },
            )
            | inr miss ↦ (row, until, at ∙ rw here (rw miss refl), l)
          ]

  pub beat-IsSound :
      (env : Env) (job : Job) (r : Running)
      → IsSound p.worker_id r
      → IsSound p.worker_id (beat_at p env (busy job) r)
  unfolding beat step beat_at
  beat-IsSound env job r s = record {
    sound = step-IsWellFormed env (extends job.id p.worker_id p.lease) r.db s.sound;
    holds = All-map _ _ r.slots (λ x h. beaten-IsHolding env job r.db x h) s.holds;
    apart = s.apart;
  }

  pub free-IsSound :
      (k : ℕ) (s : Slot) (r : Running)
      → IsHolding p.worker_id r.db s
      → ((x : Slot) → is_same_job x s ≡ false)
      → IsSound p.worker_id r
      → IsSound p.worker_id (record r { slots = put k s r.slots })
  free-IsSound k s r h f i = record {
    sound = i.sound;
    holds = All-put (IsHolding p.worker_id r.db) k s r.slots h i.holds;
    apart = IsApart-put k s r.slots (All-map _ _ r.slots (λ x _. f x) i.holds) i.apart;
  }
