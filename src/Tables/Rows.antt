-- ===== src/Tables/Rows.antt =====
-- The parts of SQL that the statements of internal/queue and internal/scheduler are made of:
-- UPDATE … WHERE … RETURNING on a table, IN and = ANY, comparisons with NULL, ORDER BY.
use forge_queue.Prelude.{
  ℕ, ◌==◌, ltb, if◌then◌else◌, String, str_eq, Bool, true, false, Option, none, some, List, [], ◌∷◌,
  any_of, select, first,
}
use forge_queue.Tables.{Job, Status, ready, running, dead}
use forge_queue.Tx.{Tx, ok, err, no_rows}

-- UPDATE t SET … WHERE p.
unfoldable pub update {ℓ} : {A : Type ℓ} → (A → Bool) → (A → A) → List A → List A
update p f [] = []
update p f (x ∷ xs) = (if p x then f x else x) ∷ update p f xs

abbrev pub is_ready : Status → Bool
is_ready ready = true
is_ready _ = false

abbrev pub is_running : Status → Bool
is_running running = true
is_running _ = false

abbrev pub is_dead : Status → Bool
is_dead dead = true
is_dead _ = false

-- A comparison with NULL is not true.
abbrev pub equals : Option String → String → Bool
equals none s = false
equals (some t) s = str_eq t s

abbrev pub is_before : Option ℕ → ℕ → Bool
is_before none now = false
is_before (some t) now = ltb t now

-- `id IN (SELECT id FROM jobs …)`.
unfoldable pub has_id : ℕ → List Job → Bool
has_id i [] = false
has_id i (j ∷ js) = if j.id == i then true else has_id i js

-- `queue = ANY($1)`.
abbrev pub is_any : String → List String → Bool
is_any s = any_of (λ t. str_eq s t)

-- The row with a given key; `find_job` goes by the primary key of `jobs`.
unfoldable pub find {ℓ} : {A : Type ℓ} → (A → ℕ) → ℕ → List A → Option A
find key i [] = none
find key i (x ∷ xs) = if key x == i then some x else find key i xs

abbrev pub find_job : ℕ → List Job → Option Job
find_job = find (λ j. j.id)

-- UPDATE jobs SET … WHERE p RETURNING …, read by QueryRow.
unfoldable pub update_returning : (Job → Bool) → (Job → Job) → Tx Job
unfolding update
update_returning p f db = elim (first (select p db.jobs)) [
  | none ↦ err no_rows
  | some j ↦ ok (f j, record db { jobs = update p f db.jobs })
]

-- ORDER BY, as insertion into a sorted list; ties keep the order of the table.
unfoldable pub insert_by {ℓ} : {A : Type ℓ} → (A → A → Bool) → A → List A → List A
insert_by le a [] = a ∷ []
insert_by le a (b ∷ bs) = if le a b then a ∷ b ∷ bs else b ∷ insert_by le a bs

unfoldable pub order_by {ℓ} : {A : Type ℓ} → (A → A → Bool) → List A → List A
unfolding insert_by
order_by le [] = []
order_by le (x ∷ xs) = insert_by le x (order_by le xs)
