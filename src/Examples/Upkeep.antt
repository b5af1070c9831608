-- ===== src/Examples/Upkeep.antt =====
-- The theorems on heartbeats, counts, lookups and reversals, applied.
use forge_queue.Prelude.{◌≡◌, refl, some, true, List, [], ◌∷◌, pos, arith}
use forge_queue.Tables.{Job, ready, running, succeeded, failed, dead}
use forge_queue.Tables.Rows.{find_job, find}
use forge_queue.Tx.{Env, ok}
use forge_queue.Queue.Enqueue.{enqueue}
use forge_queue.Queue.Settle.{cancel, requeue_dlq}
use forge_queue.Queue.Views.{get_job, state_counts, depth}
use forge_queue.Queue.History.{Call, dequeues, acks, extends, run}
use forge_queue.Queue.Counts.{count_in_state, state_counts_exact}
use forge_queue.Queue.Lookups.{IsMadeFrom, enqueue_get}
use forge_queue.Queue.Reversals.{cancel_outcome, requeue_outcome, reversals_exact}
use forge_queue.Queue.Leases.{IsLeased}
use forge_queue.Queue.WellFormed.Step.{empty_db, run-IsWellFormed}
use forge_queue.Worker.{Pool}
use forge_queue.Worker.Heartbeat.{rests, passes, beats, Attended-IsLeased}
use forge_queue.Examples.{at_time, params, waiting_job, leased_job, lease}
use forge_queue.Examples.Calls.{
  waiting_db, leased_db, waiting_db-IsWellFormed, leased_db-IsWellFormed,
}

abbrev beating : Pool
beating = record {
  queues = "default" ∷ [];
  concurrency = pos 1;
  worker_id = "w1";
  lease = lease;
  job_timeout = pos 30000000000;
  poll_interval = pos 100000000;
  shutdown_grace = pos 20000000000;
}

-- The lease of w1 would end at 30000200; a beat at 20000000 puts that off, and w2 comes after it.
abbrev attended_calls : List (Env × Call)
attended_calls =
    (at_time 10000000, dequeues [] (pos 5) "w2" lease)
    ∷ (at_time 20000000, extends 100 "w1" lease)
    ∷ (at_time 40000000, acks 100 "w2")
    ∷ []

Attended-IsLeased_example :
    (j' : Job) × (find_job 100 (run leased_db attended_calls).jobs ≡ some j')
    × IsLeased "w1" 50000000 j'
    × (j'.attempts ≡ 1)
unfolding find forge_queue.Queue.Dequeue.interval_literal
Attended-IsLeased_example =
    Attended-IsLeased beating 100 30000200 50000000 attended_calls leased_db leased_job
      leased_db-IsWellFormed (record { busy = refl; owner = refl; term = refl }) refl
      (passes (omega arith) tt (beats refl (passes (omega arith) (refl, refl) rests)))

state_counts_exact_example :
    (state_counts (at_time 300) "default" leased_db
      ≡ ok (record {
        ready = count_in_state "default" leased_db ready;
        running = count_in_state "default" leased_db running;
        succeeded = count_in_state "default" leased_db succeeded;
        failed = count_in_state "default" leased_db failed;
        dead = count_in_state "default" leased_db dead;
      }))
    × (depth (at_time 300) "default" leased_db ≡ ok (count_in_state "default" leased_db ready))
state_counts_exact_example = state_counts_exact (at_time 300) "default" leased_db refl

makes_waiting : enqueue (at_time 100) params empty_db ≡ (ok (waiting_job, true), waiting_db)
unfolding enqueue
makes_waiting = refl

enqueue_get_example :
    (row : Job) × (get_job
        (at_time 500)
        100
        (run waiting_db ((at_time 200, dequeues [] (pos 1) "w1" lease) ∷ []))
      ≡ ok row)
    × IsMadeFrom (at_time 100) params row
unfolding run
enqueue_get_example =
    enqueue_get (at_time 100) (at_time 500) params
      ((at_time 200, dequeues [] (pos 1) "w1" lease) ∷ []) empty_db waiting_job waiting_db
      (run-IsWellFormed []) makes_waiting refl

reversals_exact_example :
    (cancel (at_time 300) 100 waiting_db ≡ cancel_outcome (at_time 300) 100 waiting_db)
    × (requeue_dlq (at_time 300) 100 waiting_db ≡ requeue_outcome (at_time 300) 100 waiting_db)
reversals_exact_example =
    reversals_exact (at_time 300) 100 waiting_db waiting_db-IsWellFormed.jobs_keyed
      (record { begin = refl; statement = λ k. refl; commit = refl })
