-- ===== src/Examples/Machine.antt =====
-- The theorems on the abstract machine of a job, applied.
use forge_queue.Prelude.{ℕ, ◌≤◌, ◌≡◌, refl, some, List, [], ◌∷◌, pos, ℤ}
use forge_queue.Tx.{Env}
use forge_queue.Queue.History.{Call, dequeues, nacks, run}
use forge_queue.Queue.Spec.{Runs, waiting, Phase, View, abstract}
use forge_queue.Queue.Spec.Refines.{run_refines}
use forge_queue.Queue.Spec.Retries.{failures, failures_left, retries_bounded}
use forge_queue.Tables.Rows.{find}
use forge_queue.Examples.{at_time, lease}
use forge_queue.Examples.Calls.{waiting_db, waiting_db-IsWellFormed}

abbrev no_wait : ℕ → ℤ
no_wait attempts = pos 1000

-- Two failures: after the first the job waits again, after the second it is dead.
abbrev twice_failed : List (Env × Call)
twice_failed =
    (at_time 200, dequeues [] (pos 1) "w1" lease)
    ∷ (at_time 300, nacks no_wait 100 "w1" (some "broken"))
    ∷ (at_time 400, dequeues [] (pos 1) "w2" lease)
    ∷ (at_time 500, nacks no_wait 100 "w2" (some "broken"))
    ∷ []

abbrev before : View
before = record { phase = waiting; attempts = 0; budget = 2 }

ends_buried :
    abstract (run waiting_db twice_failed) 100
    ≡ some (record { phase = Phase.buried; attempts = 2; budget = 2 })
unfolding run find
ends_buried = refl

run_refines_example :
    Runs 100 (abstract waiting_db 100) twice_failed (abstract (run waiting_db twice_failed) 100)
run_refines_example = run_refines 100 twice_failed waiting_db waiting_db-IsWellFormed

fails_twice : failures 100 waiting_db twice_failed ≡ 2
unfolding failures forge_queue.Queue.Settle.nack forge_queue.Queue.History.step
fails_twice = refl

retries_bounded_example : failures 100 waiting_db twice_failed ≤ failures_left before
unfolding find
retries_bounded_example =
    retries_bounded 100 twice_failed waiting_db before waiting_db-IsWellFormed
      (refl, (refl, (refl, (refl, tt)))) refl
