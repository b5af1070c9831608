-- ===== src/Tables/Member.antt =====
-- Rows as members of a table: sorting, selection and LIMIT by rows, and by the keys asked for.
use forge_queue.Prelude.{
  ℕ, zero, suc, ◌+◌, ◌≤◌, ◌≡◌, ◌==◌, ◌⊎◌, inl, inr, Bool, true, some, List, [], ◌∷◌, All, take,
  length, select, arith, Bool-cases, subst, sym, ap, ◌∙◌, false≢true,
}
use forge_queue.Tables.{Job}
use forge_queue.Tables.Rows.{has_id, find, find_job, insert_by, order_by}
use forge_queue.Tables.Find.{Absent, Distinct, select-Absent}
use forge_queue.Tables.Order.{IsSorted}

pub data In {ℓ} {A : Type ℓ} (a : A) : List A → Type ℓ where
  here : {x : A} {xs : List A} → a ≡ x → In a (x ∷ xs)
  there : {x : A} {xs : List A} → In a xs → In a (x ∷ xs)

module _ {ℓ} {A : Type ℓ} where
  pub All-In {κ} : (P : A → Type κ) (a : A) (xs : List A) → All P xs → In a xs → P a
  All-In P a [] h m = elim m [ ]
  All-In P a (x ∷ xs) h (here e) = subst P (sym e) h.0
  All-In P a (x ∷ xs) h (there m) = All-In P a xs h.1 m

  pub All-map {κ μ} :
      (P : A → Type κ) (Q : A → Type μ) (xs : List A) → ((x : A) → P x → Q x) → All P xs → All Q xs
  All-map P Q [] f h = tt
  All-map P Q (x ∷ xs) f h = (f x h.0, All-map P Q xs f h.1)

  pub In-select : (p : A → Bool) (a : A) (xs : List A) → p a ≡ true → In a xs → In a (select p xs)
  In-select p a [] h m = elim m [ ]
  In-select p a (x ∷ xs) h (here e) = rw (ap p (sym e) ∙ h) (here e)
  In-select p a (x ∷ xs) h (there m) = elim (Bool-cases (p x)) [
    | inl e ↦ rw e (there (In-select p a xs h m))
    | inr e ↦ rw e (In-select p a xs h m)
  ]

  In-insert_by :
      (le : A → A → Bool) (a x : A) (xs : List A) → In a (x ∷ xs) → In a (insert_by le x xs)
  unfolding insert_by
  In-insert_by le a x [] m = m
  In-insert_by le a x (y ∷ ys) (here s) = elim (Bool-cases (le x y)) [
    | inl e ↦ rw e (here s)
    | inr e ↦ rw e (there (In-insert_by le a x ys (here s)))
  ]
  In-insert_by le a x (y ∷ ys) (there (here s)) = elim (Bool-cases (le x y)) [
    | inl e ↦ rw e (there (here s))
    | inr e ↦ rw e (here s)
  ]
  In-insert_by le a x (y ∷ ys) (there (there n)) = elim (Bool-cases (le x y)) [
    | inl e ↦ rw e (there (there n))
    | inr e ↦ rw e (there (In-insert_by le a x ys (there n)))
  ]

  pub In-order_by : (le : A → A → Bool) (a : A) (xs : List A) → In a xs → In a (order_by le xs)
  unfolding order_by
  In-order_by le a [] m = elim m [ ]
  In-order_by le a (x ∷ xs) (here e) = In-insert_by le a x (order_by le xs) (here e)
  In-order_by le a (x ∷ xs) (there m) =
      In-insert_by le a x (order_by le xs) (there (In-order_by le a xs m))

  -- LIMIT takes a row, or only rows that come before it.
  pub taken_or_after :
      (le : A → A → Bool) (n : ℕ) (a : A) (xs : List A)
      → IsSorted le xs
      → In a xs
      → In a (take n xs) ⊎ All (λ x. le x a ≡ true) (take n xs)
  taken_or_after le zero a xs s m = inr tt
  taken_or_after le (suc n) a [] s m = elim m [ ]
  taken_or_after le (suc n) a (x ∷ xs) s (here e) = inl (here e)
  taken_or_after le (suc n) a (x ∷ xs) s (there m) = elim (taken_or_after le n a xs s.1 m) [
    | inl h ↦ inl (there h)
    | inr h ↦ inr (All-In (λ y. le x y ≡ true) a xs s.0 m, h)
  ]

pub In-has_id : (j : Job) (js : List Job) → In j js → has_id j.id js ≡ true
unfolding has_id
In-has_id j [] m = elim m [ ]
In-has_id j (x ∷ xs) (here e) = ground arith
In-has_id j (x ∷ xs) (there m) = ground (arith, In-has_id j xs m)

pub has_id-row {κ} :
    (P : Job → Type κ) (i : ℕ) (js : List Job)
    → All P js
    → has_id i js ≡ true
    → (j : Job) × (j.id ≡ i) × P j
unfolding has_id
has_id-row P i [] h e = absurd (false≢true e)
has_id-row P i (j ∷ js) h e = elim (Bool-cases (j.id == i)) [
  | inl same ↦ (j, ground arith, h.0)
  | inr other ↦ has_id-row P i js h.1 (rw other at e)
]

pub find-In : (i : ℕ) (js : List Job) (j : Job) → find_job i js ≡ some j → In j js
unfolding find
find-In i [] j e = absurd (ground arith)
find-In i (x ∷ xs) j e = elim (Bool-cases (x.id == i)) [
  | inl same ↦ here (ground arith)
  | inr other ↦ there (find-In i xs j (rw other at e))
]

-- Under a primary key, at most as many rows are found as keys are asked for.
one_row :
    (i : ℕ) (js : List Job) → Distinct (λ j. j.id) js → length (select (λ j. i == j.id) js) ≤ 1
one_row i [] d = omega arith
one_row i (j ∷ js) d = elim (Bool-cases (i == j.id)) [
  | inl e ↦
      let same : j.id ≡ i = ground arith in
      rw
        (
          e,
          select-Absent (λ x. x.id) (λ x. i == x.id) i (λ x p. ground arith) js
              (subst (λ n. Absent (λ x. x.id) n js) same d.0),
        )
        (omega arith)
  | inr e ↦ rw e (one_row i js d.1)
]

split_rows :
    (c : Job) (cs js : List Job)
    → length (select (λ (j : Job). has_id j.id (c ∷ cs)) js)
      ≤ length (select (λ (j : Job). c.id == j.id) js)
        + length (select (λ (j : Job). has_id j.id cs) js)
unfolding has_id
split_rows c cs [] = omega arith
split_rows c cs (j ∷ js) = ground (arith, split_rows c cs js)

no_rows_asked : (js : List Job) → length (select (λ (j : Job). has_id j.id []) js) ≤ 0
unfolding has_id
no_rows_asked [] = omega arith
no_rows_asked (j ∷ js) = no_rows_asked js

pub length-select_ids :
    (cs js : List Job)
    → Distinct (λ j. j.id) js
    → length (select (λ (j : Job). has_id j.id cs) js) ≤ length cs
length-select_ids [] js d = no_rows_asked js
length-select_ids (c ∷ cs) js d =
    omega (arith, split_rows c cs js, one_row c.id js d, length-select_ids cs js d)
