-- ===== src/Tables/Find.antt =====
-- Laws of the table operations: a table with a primary key is known by its rows' keys.
use forge_queue.Prelude.{
  ℕ, ◌≡◌, refl, ◌≢◌, ◌==◌, if◌then◌else◌, Bool, true, false, Option, none, some, List, [], ◌∷◌,
  ◌++◌, any_of, select, first, arith, All, Bool-cases, inl, inr,
}
use forge_queue.Tables.{Job}
use forge_queue.Tables.Rows.{update, has_id, find}

-- What UPDATE makes of one row.
abbrev pub applied {ℓ} : {A : Type ℓ} → (A → Bool) → (A → A) → A → A
applied p f x = if p x then f x else x

abbrev pub map_row {ℓ κ} : {A : Type ℓ} {B : Type κ} → (A → B) → Option A → Option B
map_row f none = none
map_row f (some x) = some (f x)

abbrev pub keep_if {ℓ} : {A : Type ℓ} → (A → Bool) → Option A → Option A
keep_if p none = none
keep_if p (some x) = if p x then some x else none

abbrev pub test {ℓ} : {A : Type ℓ} → (A → Bool) → Option A → Bool
test p none = false
test p (some x) = p x

module _ {ℓ} {A : Type ℓ} (key : A → ℕ) where
  abbrev pub Absent : ℕ → List A → Type 0
  Absent i [] = Unit
  Absent i (x ∷ xs) = (key x ≢ i) × Absent i xs

  -- PRIMARY KEY.
  abbrev pub Distinct : List A → Type 0
  Distinct [] = Unit
  Distinct (x ∷ xs) = Absent (key x) xs × Distinct xs

  pub find-Absent : (i : ℕ) (xs : List A) → Absent i xs → find key i xs ≡ none
  unfolding find
  find-Absent i [] h = refl
  find-Absent i (x ∷ xs) h = ground (arith, find-Absent i xs h.1)

  pub find_key : (i : ℕ) (xs : List A) (x : A) → find key i xs ≡ some x → key x ≡ i
  unfolding find
  find_key i [] x h = ground arith
  find_key i (y ∷ ys) x h = ground (arith, find_key i ys x)

  module _ (p : A → Bool) (f : A → A) (keeps : (x : A) → key (f x) ≡ key x) where
    pub find-update :
        (i : ℕ) (xs : List A) → find key i (update p f xs) ≡ map_row (applied p f) (find key i xs)
    unfolding find update
    find-update i [] = refl
    find-update i (x ∷ xs) = ground (arith, keeps x, find-update i xs)

    pub Absent-update : (i : ℕ) (xs : List A) → Absent i xs → Absent i (update p f xs)
    unfolding update
    Absent-update i [] h = tt
    Absent-update i (x ∷ xs) h = (ground (arith, keeps x, h.0), Absent-update i xs h.1)

    pub Distinct-update : (xs : List A) → Distinct xs → Distinct (update p f xs)
    unfolding update
    Distinct-update [] h = tt
    Distinct-update (x ∷ xs) h =
        (ground (arith, keeps x, Absent-update (key x) xs h.0), Distinct-update xs h.1)

  module _ (p : A → Bool) (i : ℕ) where
    pub select-Absent :
        ((x : A) → p x ≡ true → key x ≡ i) → (xs : List A) → Absent i xs → select p xs ≡ []
    select-Absent only [] h = refl
    select-Absent only (x ∷ xs) h = ground (arith, only x, h.0, select-Absent only xs h.1)

    -- A query by primary key has at most one row.
    pub first-select :
        ((x : A) → p x ≡ true → key x ≡ i)
        → (xs : List A) → Distinct xs
        → first (select p xs) ≡ keep_if p (find key i xs)
    unfolding find
    first-select only [] h = refl
    first-select only (x ∷ xs) h =
        ground (arith, only x, first-select only xs h.1, select-Absent only xs, find-Absent i xs)

  pub any-Absent : (i : ℕ) (xs : List A) → any_of (λ x. key x == i) xs ≡ false → Absent i xs
  any-Absent i [] h = tt
  any-Absent i (x ∷ xs) h = (ground arith, any-Absent i xs (ground arith))

  Absent-append : (i : ℕ) (xs : List A) (y : A) → Absent i xs → key y ≢ i → Absent i (xs ++ y ∷ [])
  Absent-append i [] y h n = (n, tt)
  Absent-append i (x ∷ xs) y h n = (h.0, Absent-append i xs y h.1 n)

  pub Distinct-append :
      (xs : List A) (y : A) → Distinct xs → Absent (key y) xs → Distinct (xs ++ y ∷ [])
  Distinct-append [] y h n = (tt, tt)
  Distinct-append (x ∷ xs) y h n =
      (Absent-append (key x) xs y h.0 (λ e. n.0 (ground arith)), Distinct-append xs y h.1 n.1)

  pub find-append :
      (i : ℕ) (xs : List A) (y : A)
      → find key i (xs ++ y ∷ [])
        ≡ (elim (find key i xs) [ some x ↦ some x | none ↦ if key y == i then some y else none ])
  unfolding find
  find-append i [] y = ground arith
  find-append i (x ∷ xs) y = ground (arith, find-append i xs y)

pub has_id-Absent : (i : ℕ) (js : List Job) → Absent (λ j. j.id) i js → has_id i js ≡ false
unfolding has_id
has_id-Absent i [] h = refl
has_id-Absent i (j ∷ js) h = ground (arith, has_id-Absent i js h.1)

pub Absent-select :
    (p : Job → Bool) (i : ℕ) (js : List Job)
    → Absent (λ j. j.id) i js
    → Absent (λ j. j.id) i (select p js)
Absent-select p i [] h = tt
Absent-select p i (j ∷ js) h = ground (arith, h.0, Absent-select p i js h.1)

pub has_id-select :
    (p : Job → Bool) (i : ℕ) (js : List Job)
    → Distinct (λ j. j.id) js
    → has_id i (select p js) ≡ test p (find (λ j. j.id) i js)
unfolding has_id find
has_id-select p i [] h = refl
has_id-select p i (j ∷ js) h =
    ground
      (arith, has_id-select p i js h.1, has_id-Absent i (select p js), Absent-select p i js, h.0)

pub Distinct-select :
    (p : Job → Bool) (js : List Job) → Distinct (λ j. j.id) js → Distinct (λ j. j.id) (select p js)
Distinct-select p [] d = tt
Distinct-select p (j ∷ js) d = elim (Bool-cases (p j)) [
  | inl e ↦ rw e (Absent-select p j.id js d.0, Distinct-select p js d.1)
  | inr e ↦ rw e (Distinct-select p js d.1)
]

module _ {ℓ} {A : Type ℓ} (key : A → ℕ) where
  found_behind :
      (x : A) (xs ys : List A)
      → Absent key (key x) ys
      → All (λ y. find key (key y) xs ≡ some y) ys
      → All (λ y. find key (key y) (x ∷ xs) ≡ some y) ys
  unfolding find
  found_behind x xs [] a h = tt
  found_behind x xs (y ∷ ys) a h = (ground arith, found_behind x xs ys a.1 h.1)

  -- Under a primary key each row is the one that is found.
  pub All-found : (xs : List A) → Distinct key xs → All (λ x. find key (key x) xs ≡ some x) xs
  unfolding find
  All-found [] d = tt
  All-found (x ∷ xs) d = (ground arith, found_behind x xs xs d.0 (All-found xs d.1))

  pub update-Absent :
      (f : A → A) (i : ℕ) (xs : List A) → Absent key i xs → update (λ x. key x == i) f xs ≡ xs
  unfolding update
  update-Absent f i [] h = refl
  update-Absent f i (x ∷ xs) h = ground (arith, h.0, update-Absent f i xs h.1)
