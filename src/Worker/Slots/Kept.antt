-- ===== src/Worker/Slots/Kept.antt =====
-- Slots of internal/worker/pool.go and the rows of their jobs: which calls leave a row as it is.
use forge_queue.Prelude.{
  ℕ, zero, suc, ◌≡◌, refl, ◌==◌, leb, String, Bool, true, false, not, Option, none, some, List, [],
  ◌∷◌, All, arith, ap, ◌∙◌, subst, ℤ,
}
use forge_queue.Tables.{Job, Db}
use forge_queue.Tables.Rows.{find_job, update}
use forge_queue.Tables.Find.{find-update, find_key}
use forge_queue.Tables.Member.{All-map}
use forge_queue.Tx.{Env}
use forge_queue.Tx.Laws.{transact_cases}
use forge_queue.Queue.Dequeue.{is_expired}
use forge_queue.Queue.Settle.{is_held, acked, ack, ack_body, nack, nack_body, error_string}
use forge_queue.Queue.Effects.{ack_body-ok, nack_body-ok, nack_jobs}
use forge_queue.Queue.Leases.{IsLeased}
use forge_queue.Worker.{Pool, Registry, handle, finish, execute}
use forge_queue.Worker.Slots.{Slot, idle, busy, slot_at, put}

abbrev pub is_same_job : Slot → Slot → Bool
is_same_job (busy job) (busy job') = job.id == job'.id
is_same_job _ _ = false

-- Slots that do not run a job twice.
abbrev pub IsApart : List Slot → Type 0
IsApart [] = Unit
IsApart (s ∷ ss) = All (λ t. is_same_job s t ≡ false) ss × IsApart ss

-- The job of a slot stands in the table as running, under a lease in the worker's name.
abbrev pub IsHolding : String → Db → Slot → Type 0
IsHolding worker_id db (busy job) =
    (row : Job) × (until : ℕ) × (find_job job.id db.jobs ≡ some row) × IsLeased worker_id until row
IsHolding worker_id db _ = Unit

-- The lease of a slot's job is not expired.
abbrev pub in_time : ℕ → Db → Slot → Bool
in_time now db (busy job) = elim (find_job job.id db.jobs) [
  | none ↦ true
  | some row ↦ not (is_expired now row)
]
in_time now db _ = true

pub All-put :
    (P : Slot → Type 0) (k : ℕ) (t : Slot) (ss : List Slot) → P t → All P ss → All P (put k t ss)
All-put P k t [] p a = tt
All-put P zero t (s ∷ ss) p a = (p, a.1)
All-put P (suc k) t (s ∷ ss) p a = (a.0, All-put P k t ss p a.1)

pub All-both :
    (P Q R : Slot → Type 0) (ss : List Slot)
    → ((s : Slot) → P s → Q s → R s)
    → All P ss
    → All Q ss
    → All R ss
All-both P Q R [] f p q = tt
All-both P Q R (s ∷ ss) f p q = (f s p.0 q.0, All-both P Q R ss f p.1 q.1)

pub is_same_job_sym : (s t : Slot) → is_same_job s t ≡ false → is_same_job t s ≡ false
is_same_job_sym s t h = ground arith

pub IsApart-put :
    (k : ℕ) (t : Slot) (ss : List Slot)
    → All (λ s. is_same_job s t ≡ false) ss
    → IsApart ss
    → IsApart (put k t ss)
IsApart-put k t [] h a = tt
IsApart-put zero t (s ∷ ss) h a = (All-map _ _ ss (λ x e. is_same_job_sym x t e) h.1, a.1)
IsApart-put (suc k) t (s ∷ ss) h a =
    (All-put (λ x. is_same_job s x ≡ false) k t ss h.0 a.0, IsApart-put k t ss h.1 a.1)

-- A slot that is read is a slot of the list.
pub All-slot_at :
    (P : Slot → Type 0) (k : ℕ) (ss : List Slot) (s : Slot) → slot_at k ss ≡ some s → All P ss → P s
All-slot_at P k [] s e a = absurd (ground arith)
All-slot_at P zero (t ∷ ss) s e a = let same : t ≡ s = ground arith in subst P same a.0
All-slot_at P (suc k) (t ∷ ss) s e a = All-slot_at P k ss s e a.1

-- Tables in which a row of another job is kept.
abbrev pub IsKept : ℕ → Db → Db → Type 0
IsKept i db db' = find_job i db'.jobs ≡ find_job i db.jobs

pub IsKept-update :
    (p : Job → Bool) (f : Job → Job) (i : ℕ) (db db' : Db)
    → ((j : Job) → (f j).id ≡ j.id)
    → ((j : Job) → j.id ≡ i → p j ≡ false)
    → db'.jobs ≡ update p f db.jobs
    → IsKept i db db'
IsKept-update p f i db db' same miss e = rw e (by_row (find_job i db.jobs) refl)
  where
    by_row :
        (o : Option Job)
        → find_job i db.jobs ≡ o
        → find_job i (update p f db.jobs) ≡ find_job i db.jobs
    by_row none h = find-update (λ j. j.id) p f same i db.jobs ∙ rw h refl
    by_row (some j) h =
        find-update (λ j. j.id) p f same i db.jobs
        ∙ rw h (rw (miss j (find_key (λ j. j.id) i db.jobs j h)) refl)

module _ (env : Env) (p : Pool) (i : ℕ) (job : Job) (other : (job.id == i) ≡ false) (db : Db) where
  ack-IsKept : IsKept i db (ack env job.id p.worker_id db).1
  unfolding ack
  ack-IsKept =
      transact_cases (IsKept i db) env (ack_body env job.id p.worker_id) db refl λ row db' h.
        let (_, _, _, e) = ack_body-ok env job.id p.worker_id db h in
        IsKept-update (is_held job.id p.worker_id) (acked env.now) i db db' (λ j. refl)
          (λ j k. ground (arith, other)) (ap (λ (x : Db). x.jobs) e)

  nack-IsKept :
      (backoff : ℕ → ℤ) (cause : Option String)
      → IsKept i db (nack env backoff job.id p.worker_id cause db).1
  unfolding nack
  nack-IsKept backoff cause =
      transact_cases (IsKept i db) env (nack_body env backoff job.id p.worker_id cause) db refl
        λ x db' h.
          let (old, _, ends) = nack_body-ok env backoff job.id p.worker_id cause db h in
          let (g, id, e) =
            nack_jobs env job.id (backoff old.attempts) (error_string cause) db
              (leb old.max_attempts old.attempts) ends in
          IsKept-update (λ j. j.id == job.id) g i db db' id (λ j k. ground (arith, other)) e

  pub execute-IsKept :
      (registry : Registry) (quote : String → String) (backoff : ℕ → ℤ)
      → IsKept i db (execute env backoff p registry quote job db).1
  unfolding execute finish
  execute-IsKept registry quote backoff = by_handler (handle registry quote job)
    where
      by_handler : (o : Option String) → IsKept i db (finish env backoff p job o db).1
      by_handler none = ack-IsKept
      by_handler (some message) = nack-IsKept backoff (some message)

-- The other slots, when a slot ends its job.
pub All-settled :
    (P Q : Slot → Type 0) (k : ℕ) (ss : List Slot) (job : Job)
    → slot_at k ss ≡ some (busy job)
    → IsApart ss
    → ((s : Slot) → is_same_job s (busy job) ≡ false → P s → Q s)
    → Q idle
    → All P ss
    → All Q (put k idle ss)
All-settled P Q k [] job e a f q h = tt
All-settled P Q zero (s ∷ ss) job e a f q h =
    let same : s ≡ busy job = ground arith in
    (
      q,
      All-both (λ t. is_same_job s t ≡ false) P Q ss
          (λ t other held.
            f t (is_same_job_sym (busy job) t (subst (λ x. is_same_job x t ≡ false) same other))
              held)
          a.0 h.1,
    )
All-settled P Q (suc k) (s ∷ ss) job e a f q h = (
  f s (All-slot_at (λ t. is_same_job s t ≡ false) k ss (busy job) e a.0) h.0,
  All-settled P Q k ss job e a.1 f q h.1,
)
