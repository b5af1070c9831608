-- ===== src/Queue/Nacks.antt =====
-- What Nack of internal/queue/postgres.go makes of the row of a job, column by column.
use forge_queue.Prelude.{
  ℕ, zero, suc, ◌+◌, ◌*◌, ◌≤◌, ◌≡◌, refl, ap, leb, if◌then◌else◌, String, Bool, true, false, Option,
  none, some, arith, ℤ, pos, negsuc, Bool-cases, inl, inr,
}
use forge_queue.Tables.{Job, ready, dead}
use forge_queue.Tx.{Env}
use forge_queue.Queue.Dequeue.{interval_literal}
use forge_queue.Queue.Settle.{buried, retried, error_string}
use forge_queue.Queue.Lifecycle.{SameJob}

-- The row as the code computes it, by whether the attempts have used up the budget.
abbrev pub nacked : Env → (ℕ → ℤ) → Option String → Job → Job
nacked env backoff cause old =
    if leb old.max_attempts old.attempts
    then buried env.now (error_string cause) old
    else retried env.now (interval_literal (backoff old.attempts)) (error_string cause) old

-- `at` microseconds are `now` and a wait of so many nanoseconds, to the nearest microsecond; a wait
-- that is not positive counts as one second.
abbrev pub IsDelayed : ℕ → ℤ → ℕ → Type 0
IsDelayed now (pos (suc n)) at =
    (1000 * at ≤ 1000 * now + suc n + 500) × (1000 * now + suc n ≤ 1000 * at + 500)
IsDelayed now _ at = at ≡ now + 1000000

abbrev pub IsEnded : ℕ → ℤ → Job → Job → Bool → Type 0
IsEnded now wait old row true = (row.status ≡ dead) × (row.run_at ≡ old.run_at)
IsEnded now wait old row false = (row.status ≡ ready) × IsDelayed now wait row.run_at

-- The row after a Nack: the job, its attempts and the error are kept, the lease is gone, and it is
-- dead if its attempts have reached its budget, and otherwise ready after the wait.
pub record IsNacked (now : ℕ) (wait : ℤ) (cause : Option String) (old row : Job) : Type 0 where
  pub same : SameJob old row
  pub attempts : row.attempts ≡ old.attempts
  pub locked_by : row.locked_by ≡ none
  pub locked_until : row.locked_until ≡ none
  pub last_error : row.last_error ≡ some (elim cause [ none ↦ "" | some message ↦ message ])
  pub updated_at : row.updated_at ≡ now
  pub ended : IsEnded now wait old row (leb old.max_attempts old.attempts)

interval-IsDelayed : (now : ℕ) (wait : ℤ) → IsDelayed now wait (now + interval_literal wait)
unfolding interval_literal
interval-IsDelayed now (pos zero) = omega arith
interval-IsDelayed now (pos (suc n)) = (ground arith, ground arith)
interval-IsDelayed now (negsuc n) = omega arith

error_text :
    (cause : Option String)
    → error_string cause ≡ (elim cause [ none ↦ "" | some message ↦ message ])
error_text cause = ground arith

pub nacked-IsNacked :
    (env : Env) (backoff : ℕ → ℤ) (cause : Option String) (old : Job)
    → IsNacked env.now (backoff old.attempts) cause old (nacked env backoff cause old)
nacked-IsNacked env backoff cause old = elim (Bool-cases (leb old.max_attempts old.attempts)) [
  | inl spent ↦ rw spent (record {
    same = ground arith;
    attempts = refl;
    locked_by = refl;
    locked_until = refl;
    last_error = ap some (error_text cause);
    updated_at = refl;
    ended = rw spent (refl, refl);
  })
  | inr left ↦ rw left (record {
    same = ground arith;
    attempts = refl;
    locked_by = refl;
    locked_until = refl;
    last_error = ap some (error_text cause);
    updated_at = refl;
    ended = rw left (refl, interval-IsDelayed env.now (backoff old.attempts));
  })
]
