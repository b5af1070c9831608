-- ===== src/Queue/WellFormed/Rows.antt =====
-- The invariant of `jobs` alone: keys, shapes and idempotency keys.
use forge_queue.Prelude.{
  ◌≡◌, refl, ◌⊎◌, inl, inr, Bool, true, false, Option, none, some, List, [], ◌∷◌, ◌++◌, All, String,
  str_eq, eq_iff, select, first, arith, Bool-cases, ◌∙◌,
}
use forge_queue.Tables.{Job}
use forge_queue.Tables.Rows.{update}
use forge_queue.Tables.Find.{applied}
use forge_queue.Tx.{Env}
use forge_queue.Queue.Params.{EnqueueParams}
use forge_queue.Queue.Enqueue.{has_key}
use forge_queue.Queue.Inserts.{IsNewRow}
use forge_queue.Queue.WellFormed.{clashes, UniqueKeys}

pub All-update {ℓ κ} :
    {A : Type ℓ} (P : A → Type κ) (p : A → Bool) (f : A → A)
    → ((x : A) → p x ≡ true → P x → P (f x))
    → (xs : List A) → All P xs
    → All P (update p f xs)
unfolding update
All-update P p f step [] h = tt
All-update P p f step (x ∷ xs) h = (
  elim (Bool-cases (p x)) [ inl e ↦ rw e (step x e h.0) | inr e ↦ rw e h.0 ],
  All-update P p f step xs h.1,
)

pub All-append {ℓ κ} :
    {A : Type ℓ} (P : A → Type κ) (xs : List A) (y : A) → All P xs → P y → All P (xs ++ y ∷ [])
All-append P [] y h hy = (hy, tt)
All-append P (x ∷ xs) y h hy = (h.0, All-append P xs y h.1 hy)

-- An update that leaves tenants and keys alone.
module _ (p : Job → Bool) (f : Job → Job) (tenant : (j : Job) → (f j).tenant_id ≡ j.tenant_id)
    (key : (j : Job) → (f j).idempotency_key ≡ j.idempotency_key) where
  clashes_kept : (a b : Job) → clashes (f a) b ≡ clashes a b
  clashes_kept a b = rw (tenant a, key a)

  kept_clashes : (a b : Job) → clashes a (f b) ≡ clashes a b
  kept_clashes a b = rw (tenant b, key b)

  clashes-applied : (a b : Job) → clashes (applied p f a) b ≡ clashes a b
  clashes-applied a b = elim (Bool-cases (p a)) [ inl e ↦ rw e (clashes_kept a b) | inr e ↦ rw e ]

  clear-update :
      (a : Job) (js : List Job)
      → All (λ k. clashes a k ≡ false) js
      → All (λ k. clashes (applied p f a) k ≡ false) (update p f js)
  unfolding update
  clear-update a [] h = tt
  clear-update a (j ∷ js) h = (
    elim (Bool-cases (p j)) [
      | inl e ↦ rw e (clashes-applied a (f j) ∙ kept_clashes a j ∙ h.0)
      | inr e ↦ rw e (clashes-applied a j ∙ h.0)
    ],
    clear-update a js h.1,
  )

  pub UniqueKeys-update : (js : List Job) → UniqueKeys js → UniqueKeys (update p f js)
  unfolding update
  UniqueKeys-update [] u = tt
  UniqueKeys-update (j ∷ js) u = (clear-update j js u.0, UniqueKeys-update js u.1)

select-none :
    (p : Job → Bool) (js : List Job) → first (select p js) ≡ none → All (λ j. p j ≡ false) js
select-none p [] h = tt
select-none p (j ∷ js) h = elim (Bool-cases (p j)) [
  | inl e ↦ let bad : some j ≡ none = (rw e at h) in ground arith
  | inr e ↦ (e, select-none p js (rw e at h))
]

clashes_sym :
    (a job : Job) (key : String) (o : Option String)
    → a.idempotency_key ≡ o
    → job.idempotency_key ≡ some key
    → has_key job.tenant_id key a ≡ false
    → clashes a job ≡ false
clashes_sym a job key none ea ej h = ground arith
clashes_sym a job key (some k) ea ej h = ground (arith, eq_iff k key, eq_iff key k)

clashes-none : (a job : Job) → job.idempotency_key ≡ none → clashes a job ≡ false
clashes-none a job e = ground arith

module _ (job : Job) where
  clear_keyed :
      (key : String) (js : List Job)
      → job.idempotency_key ≡ some key
      → All (λ j. has_key job.tenant_id key j ≡ false) js
      → All (λ a. clashes a job ≡ false) js
  clear_keyed key [] e h = tt
  clear_keyed key (j ∷ js) e h =
      (clashes_sym j job key j.idempotency_key refl e h.0, clear_keyed key js e h.1)

  clear_plain : (js : List Job) → job.idempotency_key ≡ none → All (λ a. clashes a job ≡ false) js
  clear_plain [] e = tt
  clear_plain (j ∷ js) e = (clashes-none j job e, clear_plain js e)

  UniqueKeys-snoc :
      (js : List Job)
      → All (λ a. clashes a job ≡ false) js
      → UniqueKeys js
      → UniqueKeys (js ++ job ∷ [])
  UniqueKeys-snoc [] h u = (tt, tt)
  UniqueKeys-snoc (j ∷ js) h u =
      (All-append (λ k. clashes j k ≡ false) js job u.0 h.0, UniqueKeys-snoc js h.1 u.1)

-- The new row of an Enqueue that found no holder of its key.
pub UniqueKeys-append :
    (env : Env) (p : EnqueueParams) (js : List Job) (job : Job)
    → IsNewRow env p job
    → (str_eq p.idempotency_key "" ≡ true)
      ⊎ (first (select (has_key p.tenant_id p.idempotency_key) js) ≡ none)
    → UniqueKeys js
    → UniqueKeys (js ++ job ∷ [])
UniqueKeys-append env p js job new free u =
    UniqueKeys-snoc job js (clear (Bool-cases (str_eq p.idempotency_key ""))) u
  where
    clear :
        (str_eq p.idempotency_key "" ≡ true) ⊎ (str_eq p.idempotency_key "" ≡ false)
        → All (λ a. clashes a job ≡ false) js
    clear (inl e) = clear_plain job js (new.key ∙ rw e)
    clear (inr e) =
        clear_keyed job p.idempotency_key js (new.key ∙ rw e)
          (rw new.tenant (select-none (has_key p.tenant_id p.idempotency_key) js (ground arith)))
