-- ===== src/Queue/Holders.antt =====
-- How many rows of `jobs` hold an idempotency key.
use forge_queue.Prelude.{
  ℕ, ◌≤◌, ◌≡◌, refl, String, true, false, some, List, [], ◌∷◌, select, length, arith, sym, ◌∙◌,
  Bool-cases, inl, inr, All, false≢true,
}
use forge_queue.Tables.{Job}
use forge_queue.Tables.Rows.{find_job}
use forge_queue.Tables.Member.{find-In}
use forge_queue.Queue.Enqueue.{has_key}
use forge_queue.Queue.WellFormed.{UniqueKeys, clashes}
use forge_queue.Queue.Keys.{key_found, keys_clash}

-- How many jobs hold a key.
abbrev pub holders : ℕ → String → List Job → ℕ
holders tenant key js = length (select (has_key tenant key) js)

alone :
    (tenant : ℕ) (key : String) (x : Job) (xs : List Job)
    → has_key tenant key x ≡ true
    → All (λ y. clashes x y ≡ false) xs
    → holders tenant key xs ≡ 0
alone tenant key x [] h c = refl
alone tenant key x (y ∷ ys) h c = elim (Bool-cases (has_key tenant key y)) [
  | inl e ↦ absurd (
      false≢true
        (sym c.0 ∙ keys_clash tenant key x y x.idempotency_key y.idempotency_key refl refl h e))
  | inr e ↦ rw e (alone tenant key x ys h c.1)
]

holders_le : (tenant : ℕ) (key : String) (js : List Job) → UniqueKeys js → holders tenant key js ≤ 1
holders_le tenant key [] u = omega arith
holders_le tenant key (x ∷ xs) u = elim (Bool-cases (has_key tenant key x)) [
  | inl e ↦ rw e (omega (arith, alone tenant key x xs e u.0))
  | inr e ↦ rw e (holders_le tenant key xs u.1)
]

pub holders_one :
    (tenant : ℕ) (key : String) (js : List Job) (j : Job)
    → UniqueKeys js
    → find_job j.id js ≡ some j
    → has_key tenant key j ≡ true
    → holders tenant key js ≡ 1
holders_one tenant key js j u at h =
    let one = key_found tenant key js j u (find-In j.id js j at) h in
    ground (arith, holders_le tenant key js u)
