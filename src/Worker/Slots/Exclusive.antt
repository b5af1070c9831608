-- ===== src/Worker/Slots/Exclusive.antt =====
-- Slots of internal/worker/pool.go, and the jobs that they run at the same time.
use forge_queue.Prelude.{
  ℕ, zero, suc, ◌≡◌, refl, String, Bool, true, false, Option, none, some, List, [], ◌∷◌, All, arith,
  ℤ, pos, negsuc,
}
use forge_queue.Tables.{Job, Db}
use forge_queue.Tables.Member.{All-map}
use forge_queue.Tx.{Env}
use forge_queue.Queue.History.{acks, nacks, step}
use forge_queue.Queue.WellFormed.{IsWellFormed}
use forge_queue.Queue.WellFormed.Step.{step-IsWellFormed}
use forge_queue.Worker.{Pool, normalize, Registry, handle, finish, execute}
use forge_queue.Worker.Slots.{
  Slot, idle, busy, stopped, Running, slot_at, idle_slots, start, Move, polls, settles, beats,
  stops, others, cancels, poll_at, settle_at, beat_at, stop_at, at_slot, move, run_moves,
}
use forge_queue.Worker.Slots.Kept.{
  is_same_job, IsApart, IsHolding, in_time, All-both, All-settled, IsApart-put, execute-IsKept,
}
use forge_queue.Worker.Slots.Moves.{
  IsTimely, IsSound, foreign-IsHolding, kept-IsHolding, poll-IsSound, beat-IsSound, free-IsSound,
}

module _ (p : Pool) (registry : Registry) (quote : String → String) (backoff : ℕ → ℤ) where
  execute-IsWellFormed :
      (env : Env) (job : Job) (db : Db)
      → IsWellFormed db
      → IsWellFormed (execute env backoff p registry quote job db).1
  unfolding execute finish step
  execute-IsWellFormed env job db w = by_handler (handle registry quote job)
    where
      by_handler : (o : Option String) → IsWellFormed (finish env backoff p job o db).1
      by_handler none = step-IsWellFormed env (acks job.id p.worker_id) db w
      by_handler (some message) =
          step-IsWellFormed env (nacks backoff job.id p.worker_id (some message)) db w

  settle-IsSound :
      (k : ℕ) (env : Env) (job : Job) (r : Running)
      → slot_at k r.slots ≡ some (busy job)
      → IsSound p.worker_id r
      → IsSound p.worker_id (settle_at p registry quote backoff k env (busy job) r)
  unfolding settle_at
  settle-IsSound k env job r at s = record {
    sound = execute-IsWellFormed env job r.db s.sound;
    holds =
        All-settled (IsHolding p.worker_id r.db) (IsHolding p.worker_id db') k r.slots job at
          s.apart kept tt s.holds;
    apart = IsApart-put k idle r.slots (All-map _ _ r.slots (λ x _. no_job x) s.holds) s.apart;
  }
    where
      db' : Db
      db' = (execute env backoff p registry quote job r.db).1

      no_job : (x : Slot) → is_same_job x idle ≡ false
      no_job x = ground arith

      kept :
          (x : Slot)
          → is_same_job x (busy job) ≡ false
          → IsHolding p.worker_id r.db x
          → IsHolding p.worker_id db' x
      kept idle e h = tt
      kept stopped e h = tt
      kept (busy job') e h =
          kept-IsHolding p job' r.db db'
            (execute-IsKept env p job'.id job (ground (arith, e)) r.db registry quote backoff) h

  move-IsSound :
      (m : Move) (r : Running)
      → IsTimely p.worker_id m r
      → IsSound p.worker_id r
      → IsSound p.worker_id (move p registry quote backoff m r)
  unfolding move step poll_at settle_at beat_at
  move-IsSound (polls k env) r t s = by_slot (slot_at k r.slots)
    where
      by_slot : (o : Option Slot) → IsSound p.worker_id (at_slot o (poll_at p k env) r)
      by_slot none = s
      by_slot (some idle) = poll-IsSound p k env r t s
      by_slot (some stopped) = s
      by_slot (some (busy job)) = s
  move-IsSound (settles k env) r t s = by_slot (slot_at k r.slots) refl
    where
      by_slot :
          (o : Option Slot)
          → slot_at k r.slots ≡ o
          → IsSound p.worker_id (at_slot o (settle_at p registry quote backoff k env) r)
      by_slot none e = s
      by_slot (some idle) e = s
      by_slot (some stopped) e = s
      by_slot (some (busy job)) e = settle-IsSound k env job r e s
  move-IsSound (beats k env) r t s = by_slot (slot_at k r.slots)
    where
      by_slot : (o : Option Slot) → IsSound p.worker_id (at_slot o (beat_at p env) r)
      by_slot none = s
      by_slot (some idle) = s
      by_slot (some stopped) = s
      by_slot (some (busy job)) = beat-IsSound p env job r s
  move-IsSound (stops k) r t s = by_slot r.cancelled (slot_at k r.slots)
    where
      no_job : (x : Slot) → is_same_job x stopped ≡ false
      no_job x = ground arith

      by_slot : (b : Bool) (o : Option Slot) → IsSound p.worker_id (at_slot o (stop_at k b) r)
      by_slot b none = s
      by_slot true (some idle) = free-IsSound p k stopped r tt no_job s
      by_slot false (some idle) = s
      by_slot true (some stopped) = s
      by_slot false (some stopped) = s
      by_slot true (some (busy job)) = s
      by_slot false (some (busy job)) = s
  move-IsSound (others env c) r t s = record {
    sound = step-IsWellFormed env c r.db s.sound;
    holds =
        All-both (λ x. in_time env.now r.db x ≡ true) (IsHolding p.worker_id r.db)
          (IsHolding p.worker_id (step env c r.db)) r.slots
          (λ x tx h. foreign-IsHolding p env c r.db x s.sound t.1 tx h) t.0 s.holds;
    apart = s.apart;
  }
  move-IsSound cancels r t s = record { sound = s.sound; holds = s.holds; apart = s.apart }

  -- Moves that are all timely, each where it is made.
  unfoldable pub AllTimely : List Move → Running → Type 0
  unfolding move
  AllTimely [] r = Unit
  AllTimely (m ∷ ms) r = IsTimely p.worker_id m r × AllTimely ms (move p registry quote backoff m r)

  pub run-IsSound :
      (ms : List Move) (r : Running)
      → AllTimely ms r
      → IsSound p.worker_id r
      → IsSound p.worker_id (run_moves p registry quote backoff ms r)
  unfolding run_moves AllTimely
  run-IsSound [] r t s = s
  run-IsSound (m ∷ ms) r t s =
      run-IsSound ms (move p registry quote backoff m r) t.1 (move-IsSound m r t.0 s)

  idle-IsSound :
      (n : ℕ) (db : Db) → All (IsHolding p.worker_id db) (idle_slots n) × IsApart (idle_slots n)
  idle-IsSound zero db = (tt, tt)
  idle-IsSound (suc n) db = let (h, a) = idle-IsSound n db in ((tt, h), (no_jobs n, a))
    where
      no_jobs : (m : ℕ) → All (λ t. is_same_job idle t ≡ false) (idle_slots m)
      no_jobs zero = tt
      no_jobs (suc m) = (refl, no_jobs m)

-- The pool that Run has started.
pub start-IsSound :
    (p : Pool) (db : Db) → IsWellFormed db → IsSound (normalize p).worker_id (start p db)
unfolding start
start-IsSound p db w = fresh (normalize p).concurrency
  where
    fresh :
        (c : ℤ)
        → IsSound (normalize p).worker_id (record {
          slots = elim c [ pos n ↦ idle_slots n | negsuc n ↦ [] ];
          cancelled = false;
          db = db;
        })
    fresh (pos n) =
        let (h, a) = idle-IsSound (normalize p) (λ name. none) (λ s. s) (λ n. pos 0) n db in
        record { sound = w; holds = h; apart = a }
    fresh (negsuc n) = record { sound = w; holds = tt; apart = tt }

-- From a well-formed database, the slots of a pool that Run has started never run a job twice at
-- the same time, although they share the worker's name: after any moves of the slots, of their
-- heartbeats and of others, where polls and calls of others come while no lease of a running job
-- of the pool is expired, and others do not use the pool's name, the jobs that slots run are
-- different ones, each stands in the table as running under a lease of the pool, and the database
-- is well formed.
pub slots_exclusive :
    (p : Pool) (registry : Registry) (quote : String → String) (backoff : ℕ → ℤ) (ms : List Move)
    (db : Db)
    → IsWellFormed db
    → AllTimely (normalize p) registry quote backoff ms (start p db)
    → let r = run_moves (normalize p) registry quote backoff ms (start p db) in
      IsApart r.slots × All (IsHolding (normalize p).worker_id r.db) r.slots × IsWellFormed r.db
slots_exclusive p registry quote backoff ms db w t =
    let s =
      run-IsSound (normalize p) registry quote backoff ms (start p db) t (start-IsSound p db w) in
    (s.apart, s.holds, s.sound)
