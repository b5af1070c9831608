-- ===== src/Tx.antt =====
-- How the Go code meets PostgreSQL through pgx: statements that may fail, `BEGIN … COMMIT` with
-- `defer rollback`, and single statements that commit by themselves. What is outside the
-- repository (the server's clock, uuid.New, the connection, row locks of other sessions, the
-- input function of `jsonb`) is a field of `Env`.
pub mod Laws
use forge_queue.Prelude.{ℕ, ◌≡◌, ◌≢◌, arith, String, Bool, Option, none, some}
use forge_queue.Tables.{Db}

-- ErrInvalidTransition, pgx.ErrNoRows, and every other error.
pub data Error : Type 0 where
  invalid_transition no_rows database : Error

pub data Result {ℓ} (A : Type ℓ) : Type ℓ where
  ok : A → Result A
  err : Error → Result A

-- What becomes of a round trip to the server. `unreported`: the server did its part, and the
-- connection was lost before the client heard of it.
pub data Fate : Type 0 where
  works refused unreported : Fate

pub record Env : Type 0 where
  pub now : ℕ  -- now() of the transaction
  pub clock : ℕ  -- time.Now() of the process
  pub fresh : ℕ → ℕ  -- the results of uuid.New()
  pub uuid_text : ℕ → String  -- uuid.UUID.String
  pub jsonb : String → Option String  -- what a jsonb column makes of a text
  pub begin : Fate
  pub statement : ℕ → Fate
  pub commit : Fate
  pub row_locked : ℕ → Bool  -- jobs that other sessions hold locked

-- The code inside a transaction.
abbrev pub Tx : Type 0 → Type 0
Tx A = Db → Result (A × Db)

infixl 5 ◌>>=◌ ◌>>◌
abbrev pub ◌>>=◌ : {A B : Type 0} → Tx A → (A → Tx B) → Tx B
◌>>=◌ m f db = elim (m db) [ ok (a, db') ↦ f a db' | err e ↦ err e ]

abbrev pub ◌>>◌ : {A B : Type 0} → Tx A → Tx B → Tx B
◌>>◌ m k db = elim (m db) [ ok (a, db') ↦ k db' | err e ↦ err e ]

abbrev pub pure : {A : Type 0} → A → Tx A
pure a db = ok (a, db)

abbrev pub raise : {A : Type 0} → Error → Tx A
raise e db = err e

-- `row.Scan` of a QueryRow: no row is pgx.ErrNoRows.
abbrev pub scan_row : {A : Type 0} → Option A → Tx A
scan_row none db = err no_rows
scan_row (some a) db = ok (a, db)

-- `if errors.Is(err, pgx.ErrNoRows) { return ErrInvalidTransition }`.
abbrev pub or_invalid : {A : Type 0} → Tx A → Tx A
or_invalid m db = elim (m db) [
  | ok x ↦ ok x
  | err no_rows ↦ err invalid_transition
  | err invalid_transition ↦ err invalid_transition
  | err database ↦ err database
]

-- One statement inside a transaction.
abbrev pub exec : {A : Type 0} → Fate → Tx A → Tx A
exec works m db = m db
exec refused m db = err database
exec unreported m db = err database

-- The end of a transaction, or of a statement that commits by itself.
abbrev pub settle : {A : Type 0} → Fate → A → Db → Db → Result A × Db
settle works a db db' = (ok a, db')
settle refused a db db' = (err database, db)
settle unreported a db db' = (err database, db')

-- `BeginTx`, the body, `Commit`; on an error the deferred rollback restores the tables.
abbrev pub transact : {A : Type 0} → Env → Tx A → Db → Result A × Db
transact env m db = elim (exec env.begin m db) [
  | ok (a, db') ↦ settle env.commit a db db'
  | err e ↦ (err e, db)
]

abbrev pub lost : {A : Type 0} → Fate → Error → Result A
lost works e = err e
lost refused e = err database
lost unreported e = err database

-- A statement outside any transaction.
abbrev pub autocommit : {A : Type 0} → Fate → Tx A → Db → Result A × Db
autocommit fate m db = elim (m db) [
  | ok (a, db') ↦ settle fate a db db'
  | err e ↦ (lost fate e, db)
]
