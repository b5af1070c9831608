-- ===== src/Examples/Slots.antt =====
-- The theorems on the slots of a pool, applied.
use forge_queue.Prelude.{◌≡◌, refl, none, some, List, [], ◌∷◌, pos, All}
use forge_queue.Tables.{Job}
use forge_queue.Tables.Rows.{find}
use forge_queue.Queue.History.{dequeues}
use forge_queue.Queue.WellFormed.{IsWellFormed}
use forge_queue.Worker.{handle, execute, job_succeeded, Pool, Registry, normalize}
use forge_queue.Worker.Slots.{
  idle, slot_at, settles, move, poll_at, Running, Move, polls, beats, stops, others, cancels, start,
  run_moves,
}
use forge_queue.Worker.Slots.Kept.{IsApart, IsHolding}
use forge_queue.Worker.Slots.Exclusive.{AllTimely, slots_exclusive}
use forge_queue.Worker.Slots.Completion.{slot_completes}
use forge_queue.Queue.Settle.{acked}
use forge_queue.Tables.Rows.{find_job}
use forge_queue.Examples.{at_time, lease, leased_job}
use forge_queue.Examples.Calls.{waiting_db, waiting_db-IsWellFormed}

abbrev two_slots : Pool
two_slots = record {
  queues = [];
  concurrency = pos 2;
  worker_id = "w1";
  lease = lease;
  job_timeout = pos 0;
  poll_interval = pos 0;
  shutdown_grace = pos 0;
}

abbrev silent : Registry
silent name = some (λ job. none)

-- Two slots poll for one job; the pool is cancelled while it runs.
abbrev moves : List Move
moves =
    polls 0 (at_time 200)
    ∷ polls 1 (at_time 210)
    ∷ beats 0 (at_time 220)
    ∷ others (at_time 230) (dequeues [] (pos 5) "w2" lease)
    ∷ cancels
    ∷ stops 1
    ∷ []

abbrev ended : Running
ended =
    run_moves (normalize two_slots) silent (λ s. s) (λ n. pos 0) moves (start two_slots waiting_db)

abbrev on_time :
    AllTimely (normalize two_slots) silent (λ s. s) (λ n. pos 0) moves (start two_slots waiting_db)
unfolding AllTimely find start
on_time =
    ((refl, (refl, tt)), ((refl, (refl, tt)), (tt, (((refl, (refl, tt)), tt), (tt, (tt, tt))))))

slots_exclusive_example :
    IsApart ended.slots
    × All (IsHolding (normalize two_slots).worker_id ended.db) ended.slots
    × IsWellFormed ended.db
unfolding run_moves start
slots_exclusive_example =
    slots_exclusive two_slots silent (λ s. s) (λ n. pos 0) moves waiting_db waiting_db-IsWellFormed
      on_time

slot_completes_example :
    (row : Job) × (find_job 100 ended.db.jobs ≡ some row)
    × ((execute
          (at_time 500)
          (λ n. pos 0)
          (normalize two_slots)
          silent
          (λ s. s)
          leased_job
          ended.db).0
        ≡ some (job_succeeded (acked 500 row)))
    × (find_job 100
          (move
            (normalize two_slots)
            silent
            (λ s. s)
            (λ n. pos 0)
            (settles 0 (at_time 500))
            ended).db.jobs
        ≡ some (acked 500 row))
    × (slot_at 0
          (move
            (normalize two_slots)
            silent
            (λ s. s)
            (λ n. pos 0)
            (settles 0 (at_time 500))
            ended).slots
        ≡ some idle)
unfolding run_moves start handle poll_at
slot_completes_example =
    slot_completes two_slots silent (λ s. s) (λ n. pos 0) moves waiting_db 0 (at_time 500)
      leased_job waiting_db-IsWellFormed on_time refl refl
      (record { begin = refl; statement = λ k. refl; commit = refl })
