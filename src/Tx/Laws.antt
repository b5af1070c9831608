-- ===== src/Tx/Laws.antt =====
-- Case analysis of transactions and single statements by their outcome.
use forge_queue.Prelude.{ℕ, ◌≡◌, refl, arith, ◌⊎◌, inl, inr, ◌∙◌}
use forge_queue.Tables.{Db}
use forge_queue.Tx.{
  Error, Result, ok, err, Fate, works, refused, unreported, Env, Tx, ◌>>=◌, exec, settle, transact,
  autocommit, lost, lost,
}

-- The server answers every statement of a call.
pub record IsWorking (env : Env) : Type 0 where
  pub begin : env.begin ≡ works
  pub statement : (k : ℕ) → env.statement k ≡ works
  pub commit : env.commit ≡ works

pub Result-cases :
    {A : Type 0} (r : Result A) → ((a : A) × (r ≡ ok a)) ⊎ ((e : Error) × (r ≡ err e))
Result-cases (ok a) = inl (a, refl)
Result-cases (err e) = inr (e, refl)

pub exec-ok :
    {A : Type 0} (fate : Fate) (m : Tx A) (db : Db) {x : A × Db}
    → exec fate m db ≡ ok x
    → m db ≡ ok x
exec-ok works m db h = h
exec-ok refused m db h = ground arith
exec-ok unreported m db h = ground arith

settle_cases {ℓ} :
    {A : Type 0} (P : Db → Type ℓ) (fate : Fate) (a : A) (db db' : Db)
    → P db
    → P db'
    → P (settle fate a db db').1
settle_cases P works a db db' h h' = h'
settle_cases P refused a db db' h h' = h
settle_cases P unreported a db db' h h' = h'

-- What holds before a transaction and after its body holds after the transaction.
pub transact_cases {ℓ} :
    {A : Type 0} (P : Db → Type ℓ) (env : Env) (m : Tx A) (db : Db)
    → P db
    → ((a : A) (db' : Db) → m db ≡ ok (a, db') → P db')
    → P (transact env m db).1
transact_cases P env m db before after = elim (Result-cases (exec env.begin m db)) [
  | inl ((a, db'), e) ↦
      rw (e, transact)
        (settle_cases P env.commit a db db' before (after a db' (exec-ok env.begin m db e)))
  | inr (_, e) ↦ rw (e, transact) before
]

pub autocommit_cases {ℓ} :
    {A : Type 0} (P : Db → Type ℓ) (fate : Fate) (m : Tx A) (db : Db)
    → P db
    → ((a : A) (db' : Db) → m db ≡ ok (a, db') → P db')
    → P (autocommit fate m db).1
autocommit_cases P fate m db before after = elim (Result-cases (m db)) [
  | inl ((a, db'), e) ↦ rw (e, autocommit) (settle_cases P fate a db db' before (after a db' e))
  | inr (_, e) ↦ rw (e, autocommit) before
]

-- The success of a block is the success of each of its parts.
pub bind-ok :
    {A B : Type 0} (m : Tx A) (f : A → Tx B) (db : Db) {x : B × Db}
    → (m >>= f) db ≡ ok x
    → (a : A) × (db' : Db) × (m db ≡ ok (a, db')) × (f a db' ≡ ok x)
bind-ok m f db h = elim (Result-cases (m db)) [
  | inl ((a, db'), e) ↦ (a, db', e, rw (e, ◌>>=◌) at h)
  | inr (_, e) ↦ let bad = rw (e, ◌>>=◌) at h in ground arith
]

settled :
    {A : Type 0} (fate : Fate) (b : A) (db db1 : Db) {a : A} {db' : Db}
    → settle fate b db db1 ≡ (ok a, db')
    → ◌≡◌ {A = Result (A × Db)} (ok (b, db1)) (ok (a, db'))
settled works b db db1 h = ground arith
settled refused b db db1 h = absurd (ground arith)
settled unreported b db db1 h = absurd (ground arith)

-- A transaction that reports success has done its body.
pub transact-ok :
    {A : Type 0} (env : Env) (m : Tx A) (db : Db) {a : A} {db' : Db}
    → transact env m db ≡ (ok a, db')
    → m db ≡ ok (a, db')
transact-ok env m db h = elim (Result-cases (exec env.begin m db)) [
  | inl ((b, db1), e) ↦
      let h' = rw (e, transact) at h in exec-ok env.begin m db (e ∙ settled env.commit b db db1 h')
  | inr (_, e) ↦ let bad = rw (e, transact) at h in absurd (ground arith)
]

-- A single statement that reports success has been done.
pub autocommit-ok :
    {A : Type 0} (fate : Fate) (m : Tx A) (db : Db) {a : A} {db' : Db}
    → autocommit fate m db ≡ (ok a, db')
    → m db ≡ ok (a, db')
autocommit-ok fate m db h = elim (Result-cases (m db)) [
  | inl ((b, db1), e) ↦ let h' = rw (e, autocommit) at h in e ∙ settled fate b db db1 h'
  | inr (x, e) ↦ let bad = rw (e, autocommit) at h in absurd (lost_not-ok fate x bad)
]
  where
    lost_not-ok :
        {A : Type 0} (fate : Fate) (x : Error) {a : A} {db db' : Db}
        → ◌≡◌ {A = Result A × Db} (lost fate x, db) (ok a, db')
        → ⊥
    lost_not-ok works x h = ground arith
    lost_not-ok refused x h = ground arith
    lost_not-ok unreported x h = ground arith
