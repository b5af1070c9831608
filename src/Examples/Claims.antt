-- ===== src/Examples/Claims.antt =====
-- The theorems on histories, leases and claims, applied.
use forge_queue.Prelude.{
  if◌then◌else◌, none, some, true, false, List, [], ◌∷◌, ◌≡◌, refl, pos, arith, All, length, leb,
  ◌≤◌,
}
use forge_queue.Tables.{Job, Db, running}
use forge_queue.Tables.Rows.{find_job, find}
use forge_queue.Tx.{Env, ok, err, invalid_transition}
use forge_queue.Queue.Enqueue.{enqueue}
use forge_queue.Queue.Dequeue.{dequeue}
use forge_queue.Queue.Settle.{ack, nack, extend_lease, acked, is_held}
use forge_queue.Queue.History.{Call, enqueues, dequeues, acks, cancels, run, step}
use forge_queue.Queue.Lifecycle.{AllEvolve, SameJob, step-AllEvolve}
use forge_queue.Queue.WellFormed.{IsWellFormed}
use forge_queue.Queue.WellFormed.Step.{empty_db, run-IsWellFormed}
use forge_queue.Queue.Traces.{run-SameJob, run_terminal}
use forge_queue.Queue.Leases.{lease_exclusive}
use forge_queue.Queue.Keys.{enqueue_idempotent}
use forge_queue.Queue.Picking.{Handed, dequeue_hands_out}
use forge_queue.Queue.Supply.{dequeue_supplies, dequeue_recovers}
use forge_queue.Queue.Nacks.{nacked, IsNacked}
use forge_queue.Queue.Outcomes.{stale_worker_refused, nack_settles}
use forge_queue.Examples.{at_time, params, waiting_job, leased_job, lease}
use forge_queue.Examples.Calls.{
  dequeued, waiting_db, leased_db, waiting_db-IsWellFormed, leased_db-IsWellFormed,
}

run-IsWellFormed_example : IsWellFormed (run empty_db dequeued)
run-IsWellFormed_example = run-IsWellFormed dequeued

-- Calls of worker w2, and of a client, in the 30 seconds of the lease of w1.
abbrev intrusions : List (Env × Call)
intrusions =
    (at_time 300, dequeues [] (pos 5) "w2" lease)
    ∷ (at_time 400, acks 100 "w2")
    ∷ (at_time 500, cancels 100)
    ∷ []

lease_exclusive_example : find_job 100 (run leased_db intrusions).jobs ≡ some leased_job
unfolding find
lease_exclusive_example =
    lease_exclusive intrusions leased_db "w1" 30000200 100 leased_job leased_db-IsWellFormed
      (record { busy = refl; owner = refl; term = refl }) refl
      (omega arith, tt, (omega arith, (refl, refl), (omega arith, tt, tt)))

step-AllEvolve_example :
    AllEvolve leased_db.jobs (step (at_time 300) (acks 100 "w1") leased_db).jobs
step-AllEvolve_example =
    step-AllEvolve (at_time 300) (acks 100 "w1") leased_db leased_db-IsWellFormed.jobs_keyed

run-SameJob_example :
    (j' : Job) × (find_job 100 (run leased_db intrusions).jobs ≡ some j') × SameJob leased_job j'
unfolding find
run-SameJob_example = run-SameJob intrusions leased_db 100 leased_job leased_db-IsWellFormed refl

abbrev done_job : Job
done_job = acked 300 leased_job

abbrev finished : List (Env × Call)
finished =
    (at_time 100, enqueues params)
    ∷ (at_time 200, dequeues [] (pos 1) "w1" lease)
    ∷ (at_time 300, acks 100 "w1")
    ∷ []

run_terminal_example : find_job 100 (run (run empty_db finished) intrusions).jobs ≡ some done_job
unfolding run find
run_terminal_example =
    run_terminal intrusions (run empty_db finished) 100 done_job (run-IsWellFormed finished) refl
      refl

enqueue_idempotent_example :
    (false ≡ false) × (leased_job.id ≡ waiting_job.id) × (leased_db.jobs ≡ leased_db.jobs)
unfolding enqueue run
enqueue_idempotent_example =
    enqueue_idempotent (at_time 100) (at_time 300) params (record params { payload = "other" })
      ((at_time 200, dequeues [] (pos 1) "w1" lease) ∷ []) empty_db waiting_db leased_db waiting_job
      leased_job true false (run-IsWellFormed []) refl refl refl refl refl

dequeue_hands_out_example :
    (length (leased_job ∷ []) ≤ 1)
    × All (Handed (at_time 200) [] (pos 1) "w1" lease waiting_db) (leased_job ∷ [])
unfolding dequeue
dequeue_hands_out_example =
    dequeue_hands_out (at_time 200) [] (pos 1) "w1" lease waiting_db (leased_job ∷ []) leased_db
      waiting_db-IsWellFormed refl

stale_worker_refused_example :
    (ack (at_time 300) 100 "w2" leased_db ≡ (err invalid_transition, leased_db))
    × (nack (at_time 300) (λ n. pos 0) 100 "w2" none leased_db
        ≡ (err invalid_transition, leased_db))
    × (extend_lease (at_time 300) 100 "w2" lease leased_db ≡ (err invalid_transition, leased_db))
unfolding find
stale_worker_refused_example =
    stale_worker_refused (at_time 300) leased_db 100 "w2" leased_db-IsWellFormed.jobs_keyed refl
      refl (λ n. pos 0) none lease refl refl

abbrev failed_job : Job
failed_job = nacked (at_time 300) (λ n. pos 2000000000) (some "boom") leased_job

abbrev failed_db : Db
failed_db = (nack (at_time 300) (λ n. pos 2000000000) 100 "w1" (some "boom") leased_db).1

nack_settles_example :
    (old : Job) × (find_job 100 leased_db.jobs ≡ some old)
    × (is_held 100 "w1" old ≡ true)
    × (false ≡ leb old.max_attempts old.attempts)
    × (pos 2000000000 ≡ (if false then pos 0 else pos 2000000000))
    × IsNacked 300 (pos 2000000000) (some "boom") old failed_job
    × (find_job 100 failed_db.jobs ≡ some failed_job)
unfolding nack
nack_settles_example =
    nack_settles (at_time 300) (λ n. pos 2000000000) (some "boom") leased_db failed_db 100 "w1"
      failed_job false (pos 2000000000) leased_db-IsWellFormed.jobs_keyed refl

-- Two jobs wait, and Dequeue is asked for one.
abbrev two_jobs : List (Env × Call)
two_jobs =
    (at_time 100, enqueues params)
    ∷ (at_time 150, enqueues (record params { priority = pos 9; idempotency_key = "order-8" }))
    ∷ []

abbrev urgent_job : Job
urgent_job = record waiting_job {
  id = 150;
  priority = 9;
  run_at = 150;
  idempotency_key = some "order-8";
  created_at = 150;
  updated_at = 150;
}

abbrev two_db : Db
two_db = record waiting_db { jobs = waiting_job ∷ urgent_job ∷ [] }

abbrev urgent_row : Job
urgent_row = record urgent_job {
  status = running;
  attempts = 1;
  locked_by = some "w1";
  locked_until = some 30000200;
  updated_at = 200;
}

dequeue_supplies_example :
    (row : Job) × (rest : List Job) × ((dequeue (at_time 200) [] (pos 1) "w1" lease waiting_db).0
      ≡ ok (row ∷ rest))
unfolding find
dequeue_supplies_example =
    dequeue_supplies (at_time 200) [] (pos 1) "w1" lease waiting_db waiting_job
      waiting_db-IsWellFormed (record { begin = refl; statement = λ k. refl; commit = refl })
      (record { once = λ i j e. omega (arith, e); unused = λ i h. refl }) refl refl

dequeue_recovers_example :
    (row : Job) × (rest : List Job) × ((dequeue
        (at_time 40000000)
        []
        (pos 1)
        "w2"
        lease
        leased_db).0
      ≡ ok (row ∷ rest))
unfolding find
dequeue_recovers_example =
    dequeue_recovers (at_time 40000000) [] (pos 1) "w2" lease leased_db leased_job
      leased_db-IsWellFormed (record { begin = refl; statement = λ k. refl; commit = refl })
      (record { once = λ i j e. omega (arith, e); unused = λ i h. ground arith }) refl refl refl
