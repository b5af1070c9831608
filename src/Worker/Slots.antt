-- ===== src/Worker/Slots.antt =====
-- internal/worker/pool.go: Pool.Run, its slots with their loops, and the moves of their goroutines.
-- The run times of handlers, the sleeps and the grace of a shutdown are not modelled: a move comes
-- when it comes. A heartbeat that has ended may beat again here, which the code does not do; a beat
-- that is still under way when its job ends is not modelled.
pub mod Kept
pub mod Moves
pub mod Exclusive
pub mod Completion
use forge_queue.Prelude.{
  ℕ, zero, suc, String, Bool, true, false, Option, none, some, List, [], ◌∷◌, ℤ, pos, negsuc,
}
use forge_queue.Tables.{Job, Db}
use forge_queue.Tx.{Env}
use forge_queue.Queue.History.{Call, step}
use forge_queue.Worker.{Pool, normalize, Registry, execute, beat, sleeps, runs, Turn, poll}

-- Where the goroutine of a slot is: before a poll, in execute, or at its end.
pub data Slot : Type 0 where
  idle : Slot
  busy : Job → Slot
  stopped : Slot

-- A running pool, with the database that it shares with others.
pub record Running : Type 0 where
  pub slots : List Slot
  pub cancelled : Bool
  pub db : Db

abbrev pub slot_at : ℕ → List Slot → Option Slot
slot_at k [] = none
slot_at zero (s ∷ ss) = some s
slot_at (suc k) (s ∷ ss) = slot_at k ss

abbrev pub put : ℕ → Slot → List Slot → List Slot
put k t [] = []
put zero t (s ∷ ss) = t ∷ ss
put (suc k) t (s ∷ ss) = s ∷ put k t ss

abbrev pub idle_slots : ℕ → List Slot
idle_slots zero = []
idle_slots (suc n) = idle ∷ idle_slots n

-- Run, up to its wait for the context.
unfoldable pub start : Pool → Db → Running
unfolding normalize
start p db = record {
  slots = elim (normalize p).concurrency [ pos n ↦ idle_slots n | negsuc n ↦ [] ];
  cancelled = false;
  db = db;
}

-- What happens next: a slot polls, ends the execution of its job, beats for it, or returns; or
-- somebody else calls the queue, or the context is cancelled.
pub data Move : Type 0 where
  polls : ℕ → Env → Move
  settles : ℕ → Env → Move
  beats : ℕ → Env → Move
  stops : ℕ → Move
  others : Env → Call → Move
  cancels : Move

abbrev pub after_turn : Turn → Slot
after_turn sleeps = idle
after_turn (runs job) = busy job

-- The parts of a move, by where the slot is.
unfoldable pub poll_at : Pool → ℕ → Env → Slot → Running → Running
unfolding poll
poll_at p k env idle r =
    let (t, db) = poll env p r.db in record r { slots = put k (after_turn t) r.slots; db = db }
poll_at p k env _ r = r

unfoldable pub beat_at : Pool → Env → Slot → Running → Running
unfolding beat
beat_at p env (busy job) r = record r { db = (beat env p job r.db).1 }
beat_at p env _ r = r

-- The check of the context at the head of the loop.
abbrev pub stop_at : ℕ → Bool → Slot → Running → Running
stop_at k true idle r = record r { slots = put k stopped r.slots }
stop_at k _ _ r = r

abbrev pub at_slot : Option Slot → (Slot → Running → Running) → Running → Running
at_slot none f r = r
at_slot (some s) f r = f s r

module _ (p : Pool) (registry : Registry) (quote : String → String) (backoff : ℕ → ℤ) where
  unfoldable pub settle_at : ℕ → Env → Slot → Running → Running
  unfolding execute
  settle_at k env (busy job) r = record r {
    slots = put k idle r.slots;
    db = (execute env backoff p registry quote job r.db).1;
  }
  settle_at k env _ r = r

  -- A move that the slot is not ready for does nothing.
  unfoldable pub move : Move → Running → Running
  unfolding poll_at settle_at beat_at step
  move (polls k env) r = at_slot (slot_at k r.slots) (poll_at p k env) r
  move (settles k env) r = at_slot (slot_at k r.slots) (settle_at k env) r
  move (beats k env) r = at_slot (slot_at k r.slots) (beat_at p env) r
  move (stops k) r = at_slot (slot_at k r.slots) (stop_at k r.cancelled) r
  move (others env c) r = record r { db = step env c r.db }
  move cancels r = record r { cancelled = true }

  unfoldable pub run_moves : List Move → Running → Running
  unfolding move
  run_moves [] r = r
  run_moves (m ∷ ms) r = run_moves ms (move m r)
