-- ===== src/Queue/Spec.antt =====
-- An abstract machine for one job of internal/queue/postgres.go: it waits, or is leased until a
-- time, or has ended. The machine knows no tables, no rows and no other jobs.
pub mod Refines
pub mod Retries
use forge_queue.Prelude.{
  ℕ, ◌+◌, ◌≤◌, ◌<◌, ◌≡◌, ◌||◌, String, str_eq, Bool, true, Option, none, some, List, [], ◌∷◌, ℤ,
}
use forge_queue.Tables.{Job, Status, ready, running, succeeded, failed, dead, Db}
use forge_queue.Tables.Rows.{find_job}
use forge_queue.Tables.Find.{map_row}
use forge_queue.Tx.{Env}
use forge_queue.Queue.Params.{EnqueueParams}
use forge_queue.Queue.Dequeue.{interval_literal}
use forge_queue.Queue.History.{Call, enqueues, dequeues, acks, nacks, extends, cancels, requeues}

pub data Phase : Type 0 where
  waiting done withdrawn buried : Phase
  leased : String → ℕ → Phase

pub record View : Type 0 where
  pub phase : Phase
  pub attempts : ℕ
  pub budget : ℕ

abbrev pub may_settle : String → String → Bool
may_settle worker_id holder = str_eq worker_id "" || str_eq holder worker_id

-- What a call can do to the job `i`.
pub data Moves (env : Env) (i : ℕ) (v : View) : Call → View → Type 0 where
  idles : {c : Call} → Moves env i v c v
  claims :
      {queues : List String} {limit : ℤ} {worker_id : String} {lease : ℤ}
      → v.phase ≡ waiting
      → Moves env i v (dequeues queues limit worker_id lease) (record v {
        phase = leased worker_id (env.now + interval_literal lease);
        attempts = v.attempts + 1;
      })
  expires :
      {queues : List String} {limit : ℤ} {worker_id : String} {lease : ℤ} (holder : String)
      (until : ℕ)
      → v.phase ≡ leased holder until
      → until < env.now
      → Moves env i v (dequeues queues limit worker_id lease) (record v { phase = waiting })
  takes_over :
      {queues : List String} {limit : ℤ} {worker_id : String} {lease : ℤ} (holder : String)
      (until : ℕ)
      → v.phase ≡ leased holder until
      → until < env.now
      → Moves env i v (dequeues queues limit worker_id lease) (record v {
        phase = leased worker_id (env.now + interval_literal lease);
        attempts = v.attempts + 1;
      })
  completes :
      {worker_id : String} (holder : String) (until : ℕ)
      → v.phase ≡ leased holder until
      → may_settle worker_id holder ≡ true
      → Moves env i v (acks i worker_id) (record v { phase = done })
  retries :
      {backoff : ℕ → ℤ} {worker_id : String} {cause : Option String} (holder : String) (until : ℕ)
      → v.phase ≡ leased holder until
      → may_settle worker_id holder ≡ true
      → v.attempts < v.budget
      → Moves env i v (nacks backoff i worker_id cause) (record v { phase = waiting })
  dies :
      {backoff : ℕ → ℤ} {worker_id : String} {cause : Option String} (holder : String) (until : ℕ)
      → v.phase ≡ leased holder until
      → may_settle worker_id holder ≡ true
      → v.budget ≤ v.attempts
      → Moves env i v (nacks backoff i worker_id cause) (record v { phase = buried })
  renews :
      {worker_id : String} {lease : ℤ} (until : ℕ)
      → v.phase ≡ leased worker_id until
      → Moves env i v
          (extends i worker_id lease)
          (record v { phase = leased worker_id (env.now + interval_literal lease) })
  withdraws : v.phase ≡ waiting → Moves env i v (cancels i) (record v { phase = withdrawn })
  revives :
      v.phase ≡ buried → Moves env i v (requeues i) (record v { phase = waiting; attempts = 0 })

-- The same with a job that may not be there yet: only Enqueue brings it.
pub data Goes (env : Env) (i : ℕ) : Option View → Call → Option View → Type 0 where
  stays_away : {c : Call} → Goes env i none c none
  comes :
      {params : EnqueueParams} {v : View}
      → v.phase ≡ waiting
      → v.attempts ≡ 0
      → 0 < v.budget
      → Goes env i none (enqueues params) (some v)
  goes : {c : Call} {v v' : View} → Moves env i v c v' → Goes env i (some v) c (some v')

-- The runs of the machine over a history of calls.
pub data Runs (i : ℕ) : Option View → List (Env × Call) → Option View → Type 0 where
  halts : {o : Option View} → Runs i o [] o
  takes :
      {env : Env} {c : Call} {cs : List (Env × Call)} {o o' o'' : Option View}
      → Goes env i o c o'
      → Runs i o' cs o''
      → Runs i o ((env, c) ∷ cs) o''

abbrev pub holder_of : Option String → String
holder_of none = ""
holder_of (some holder) = holder

abbrev pub until_of : Option ℕ → ℕ
until_of none = 0
until_of (some until) = until

abbrev pub phase_of : Status → Option String → Option ℕ → Phase
phase_of ready by until = waiting
phase_of running by until = leased (holder_of by) (until_of until)
phase_of succeeded by until = done
phase_of failed by until = withdrawn
phase_of dead by until = buried

-- What the machine sees of a row, and of the tables.
abbrev pub view : Job → View
view j = record {
  phase = phase_of j.status j.locked_by j.locked_until;
  attempts = j.attempts;
  budget = j.max_attempts;
}

abbrev pub abstract : Db → ℕ → Option View
abstract db i = map_row view (find_job i db.jobs)
