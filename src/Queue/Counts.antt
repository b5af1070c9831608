-- ===== src/Queue/Counts.antt =====
-- StateCounts of internal/queue/postgres.go, whose loop sets one field for each row of a GROUP BY.
use forge_queue.Prelude.{
  ℕ, suc, ◌+◌, ◌≡◌, refl, if◌then◌else◌, String, str_eq, Bool, true, false, ◌&&◌, ◌||◌, List, [],
  ◌∷◌, select, length, arith, ◌∙◌, sym, ap, subst, Bool-cases, inl, inr,
}
use forge_queue.Tables.{Job, Status, ready, running, succeeded, failed, dead, Db}
use forge_queue.Tx.{Env, works, ok}
use forge_queue.Queue.Views.{
  StateCounts, has_status, count_status, group_by_status, set_count, scan_counts, no_counts,
  state_counts, depth, is_waiting,
}

abbrev pub is_in_state : String → Status → Job → Bool
is_in_state queue_name s j = str_eq j.queue queue_name && has_status s j.status

abbrev pub count_in_state : String → Db → Status → ℕ
count_in_state queue_name db s = length (select (is_in_state queue_name s) db.jobs)

abbrev field : Status → StateCounts → ℕ
field ready counts = counts.ready
field running counts = counts.running
field succeeded counts = counts.succeeded
field failed counts = counts.failed
field dead counts = counts.dead

-- A status and its count among the rows; 0 where it has none.
abbrev occurs : Status → List (Status × ℕ) → Bool
occurs s [] = false
occurs s ((t, n) ∷ rows) = has_status s t || occurs s rows

abbrev tally : Status → List (Status × ℕ) → ℕ
tally s [] = 0
tally s ((t, n) ∷ rows) = if has_status s t then n else tally s rows

abbrev IsUnique : List (Status × ℕ) → Type 0
IsUnique [] = Unit
IsUnique ((t, n) ∷ rows) = (occurs t rows ≡ false) × IsUnique rows

has_status-eq : (s t : Status) → has_status s t ≡ true → s ≡ t
has_status-eq ready t h = ground arith
has_status-eq running t h = ground arith
has_status-eq succeeded t h = ground arith
has_status-eq failed t h = ground arith
has_status-eq dead t h = ground arith

field-set_count :
    (s t : Status) (n : ℕ) (counts : StateCounts)
    → field s (set_count counts t n) ≡ (if has_status s t then n else field s counts)
unfolding set_count
field-set_count s ready n counts = ground arith
field-set_count s running n counts = ground arith
field-set_count s succeeded n counts = ground arith
field-set_count s failed n counts = ground arith
field-set_count s dead n counts = ground arith

field-scan_counts :
    (s : Status) (rows : List (Status × ℕ)) (counts : StateCounts)
    → IsUnique rows
    → field s (scan_counts counts rows) ≡ (if occurs s rows then tally s rows else field s counts)
unfolding scan_counts
field-scan_counts s [] counts u = refl
field-scan_counts s ((t, n) ∷ rows) counts (alone, u) =
    field-scan_counts s rows (set_count counts t n) u ∙ by_status (has_status s t) refl
  where
    by_status :
        (b : Bool)
        → has_status s t ≡ b
        → (if occurs s rows then tally s rows else field s (set_count counts t n))
          ≡ (if b || occurs s rows then (if b then n else tally s rows) else field s counts)
    by_status true e =
        let absent : occurs s rows ≡ false =
          subst (λ x. occurs x rows ≡ false) (sym (has_status-eq s t e)) alone in
        rw (absent, field-set_count s t n counts, e) refl
    by_status false e = rw (field-set_count s t n counts, e) refl

has_status_comm : (s t : Status) → has_status s t ≡ has_status t s
has_status_comm ready t = ground arith
has_status_comm running t = ground arith
has_status_comm succeeded t = ground arith
has_status_comm failed t = ground arith
has_status_comm dead t = ground arith

occurs-count_status :
    (t s : Status) (rows : List (Status × ℕ))
    → occurs t (count_status s rows) ≡ (has_status t s || occurs t rows)
unfolding count_status
occurs-count_status t s [] = refl
occurs-count_status t s ((r, n) ∷ rows) = elim (Bool-cases (has_status s r)) [
  | inl e ↦ rw e (
      subst
        (λ x.
          (has_status t x || occurs t rows) ≡ (has_status t s || (has_status t x || occurs t rows)))
        (has_status-eq s r e) (ground arith))
  | inr e ↦ rw e (ground (arith, occurs-count_status t s rows))
]

count_status-IsUnique :
    (s : Status) (rows : List (Status × ℕ)) → IsUnique rows → IsUnique (count_status s rows)
unfolding count_status
count_status-IsUnique s [] u = (refl, tt)
count_status-IsUnique s ((t, n) ∷ rows) (alone, u) = elim (Bool-cases (has_status s t)) [
  | inl e ↦ rw e (alone, u)
  | inr e ↦ rw e (
    occurs-count_status t s rows ∙ ground (arith, alone, has_status_comm s t),
    count_status-IsUnique s rows u,
  )
]

tally-count_status :
    (t s : Status) (rows : List (Status × ℕ))
    → tally t (count_status s rows) ≡ (if has_status t s then 1 else 0) + tally t rows
unfolding count_status
tally-count_status t s [] = ground arith
tally-count_status t s ((r, n) ∷ rows) = elim (Bool-cases (has_status s r)) [
  | inl e ↦ rw e (
      subst
        (λ x.
          (if has_status t x then suc n else tally t rows)
          ≡ (if has_status t s then 1 else 0) + (if has_status t x then n else tally t rows))
        (has_status-eq s r e) (ground arith))
  | inr e ↦ rw e (apart (has_status t r) refl e (tally-count_status t s rows))
]
  where
    apart :
        (b : Bool)
        → has_status t r ≡ b
        → has_status s r ≡ false
        → tally t (count_status s rows) ≡ (if has_status t s then 1 else 0) + tally t rows
        → (if b then n else tally t (count_status s rows))
          ≡ (if has_status t s then 1 else 0) + (if b then n else tally t rows)
    apart true f e rest =
        let other : has_status t s ≡ false =
          subst (λ x. has_status x s ≡ false) (sym (has_status-eq t r f))
            (has_status_comm r s ∙ e) in
        rw other (ground arith)
    apart false f e rest = rest

group_by_status-IsUnique :
    (queue_name : String) (js : List Job) → IsUnique (group_by_status queue_name js)
unfolding group_by_status
group_by_status-IsUnique queue_name [] = tt
group_by_status-IsUnique queue_name (j ∷ js) = elim (Bool-cases (str_eq j.queue queue_name)) [
  | inl e ↦ rw e (
      count_status-IsUnique j.status (group_by_status queue_name js)
        (group_by_status-IsUnique queue_name js))
  | inr e ↦ rw e (group_by_status-IsUnique queue_name js)
]

tally-group_by_status :
    (queue_name : String) (s : Status) (js : List Job)
    → tally s (group_by_status queue_name js) ≡ length (select (is_in_state queue_name s) js)
unfolding group_by_status
tally-group_by_status queue_name s [] = refl
tally-group_by_status queue_name s (j ∷ js) = elim (Bool-cases (str_eq j.queue queue_name)) [
  | inl e ↦ rw e (
      tally-count_status s j.status (group_by_status queue_name js)
      ∙ ground (arith, tally-group_by_status queue_name s js))
  | inr e ↦ rw e (tally-group_by_status queue_name s js)
]

missing_tally :
    (s : Status) (rows : List (Status × ℕ))
    → (if occurs s rows then tally s rows else field s no_counts) ≡ tally s rows
missing_tally s [] = no_count s
  where
    no_count : (s : Status) → field s no_counts ≡ 0
    no_count ready = refl
    no_count running = refl
    no_count succeeded = refl
    no_count failed = refl
    no_count dead = refl
missing_tally s ((t, n) ∷ rows) = ground (arith, missing_tally s rows)

-- If the server answers, each field of StateCounts is the number of jobs of the queue in that
-- state, 0 for a state that has none, and Depth is the number of its ready jobs.
pub state_counts_exact :
    (env : Env) (queue_name : String) (db : Db)
    → env.statement 0 ≡ works
    → let count = count_in_state queue_name db in
      (state_counts env queue_name db
        ≡ ok (record {
          ready = count ready;
          running = count running;
          succeeded = count succeeded;
          failed = count failed;
          dead = count dead;
        }))
      × (depth env queue_name db ≡ ok (count ready))
unfolding state_counts depth
state_counts_exact env queue_name db live = rw live (
  ap ok (λ k. record {
    ready = counts ready k;
    running = counts running k;
    succeeded = counts succeeded k;
    failed = counts failed k;
    dead = counts dead k;
  }),
  ap ok (waiting_counts db.jobs),
)
  where
    rows : List (Status × ℕ)
    rows = group_by_status queue_name db.jobs

    counts : (s : Status) → field s (scan_counts no_counts rows) ≡ count_in_state queue_name db s
    counts s =
        field-scan_counts s rows no_counts (group_by_status-IsUnique queue_name db.jobs)
        ∙ missing_tally s rows
        ∙ tally-group_by_status queue_name s db.jobs

    waiting_counts :
        (js : List Job)
        → length (select (is_waiting queue_name) js)
          ≡ length (select (is_in_state queue_name ready) js)
    waiting_counts [] = refl
    waiting_counts (j ∷ js) = ground (arith, waiting_counts js)
