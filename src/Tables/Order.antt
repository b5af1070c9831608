-- ===== src/Tables/Order.antt =====
-- ORDER BY keeps the rows and sorts them; LIMIT takes the first.
use forge_queue.Prelude.{
  ℕ, zero, suc, ◌≡◌, refl, inl, inr, Bool, true, false, none, some, List, [], ◌∷◌, All, take, drop,
  first, select, arith, Bool-cases, subst, sym, ◌∙◌,
}
use forge_queue.Tables.{Job}
use forge_queue.Tables.Rows.{has_id, insert_by, order_by}

pub has_id-take : (n i : ℕ) (js : List Job) → has_id i (take n js) ≡ true → has_id i js ≡ true
unfolding has_id
has_id-take zero i js h = ground arith
has_id-take (suc n) i [] h = ground arith
has_id-take (suc n) i (j ∷ js) h = ground (arith, has_id-take n i js)

has_id-insert_by :
    (le : Job → Job → Bool) (i : ℕ) (a : Job) (js : List Job)
    → has_id i (insert_by le a js) ≡ has_id i (a ∷ js)
unfolding has_id insert_by
has_id-insert_by le i a [] = refl
has_id-insert_by le i a (b ∷ bs) = ground (arith, has_id-insert_by le i a bs)

pub has_id-order_by :
    (le : Job → Job → Bool) (i : ℕ) (js : List Job) → has_id i (order_by le js) ≡ has_id i js
unfolding has_id order_by
has_id-order_by le i [] = refl
has_id-order_by le i (j ∷ js) =
    ground (arith, has_id-insert_by le i j (order_by le js), has_id-order_by le i js)

module _ {ℓ} {A : Type ℓ} (le : A → A → Bool) where
  -- Each row comes before all that follow it.
  abbrev pub IsSorted : List A → Type 0
  IsSorted [] = Unit
  IsSorted (x ∷ xs) = All (λ y. le x y ≡ true) xs × IsSorted xs

  module _ {κ} (P : A → Type κ) where
    pub All-insert_by : (a : A) (xs : List A) → P a → All P xs → All P (insert_by le a xs)
    unfolding insert_by
    All-insert_by a [] h hs = (h, tt)
    All-insert_by a (x ∷ xs) h hs = elim (Bool-cases (le a x)) [
      | inl e ↦ rw e (h, hs)
      | inr e ↦ rw e (hs.0, All-insert_by a xs h hs.1)
    ]

    pub All-order_by : (xs : List A) → All P xs → All P (order_by le xs)
    unfolding order_by
    All-order_by [] hs = tt
    All-order_by (x ∷ xs) hs = All-insert_by x (order_by le xs) hs.0 (All-order_by xs hs.1)

    pub All-take : (n : ℕ) (xs : List A) → All P xs → All P (take n xs)
    All-take zero xs hs = tt
    All-take (suc n) [] hs = tt
    All-take (suc n) (x ∷ xs) hs = (hs.0, All-take n xs hs.1)

    pub All-drop : (n : ℕ) (xs : List A) → All P xs → All P (drop n xs)
    All-drop zero xs hs = hs
    All-drop (suc n) [] hs = tt
    All-drop (suc n) (x ∷ xs) hs = All-drop n xs hs.1

  module _ (total : (a b : A) → le a b ≡ false → le b a ≡ true)
      (trans : (a b c : A) → le a b ≡ true → le b c ≡ true → le a c ≡ true) where
    All-after :
        (a b : A) (xs : List A)
        → le a b ≡ true
        → All (λ y. le b y ≡ true) xs
        → All (λ y. le a y ≡ true) xs
    All-after a b [] h hs = tt
    All-after a b (x ∷ xs) h hs = (trans a b x h hs.0, All-after a b xs h hs.1)

    insert_by-IsSorted : (a : A) (xs : List A) → IsSorted xs → IsSorted (insert_by le a xs)
    unfolding insert_by
    insert_by-IsSorted a [] s = (tt, tt)
    insert_by-IsSorted a (x ∷ xs) s = elim (Bool-cases (le a x)) [
      | inl e ↦ rw e ((e, All-after a x xs e s.0), s)
      | inr e ↦
          rw e
            (All-insert_by (λ y. le x y ≡ true) a xs (total a x e) s.0, insert_by-IsSorted a xs s.1)
    ]

    pub order_by-IsSorted : (xs : List A) → IsSorted (order_by le xs)
    unfolding order_by
    order_by-IsSorted [] = tt
    order_by-IsSorted (x ∷ xs) = insert_by-IsSorted x (order_by le xs) (order_by-IsSorted xs)

  -- Whatever LIMIT takes precedes whatever it leaves.
  pub take-before-drop :
      (n : ℕ) (xs : List A)
      → IsSorted xs
      → All (λ x. All (λ y. le x y ≡ true) (drop n xs)) (take n xs)
  take-before-drop zero xs s = tt
  take-before-drop (suc n) [] s = tt
  take-before-drop (suc n) (x ∷ xs) s =
      (All-drop (λ y. le x y ≡ true) n xs s.0, take-before-drop n xs s.1)

module _ {ℓ κ} {A : Type ℓ} (P : A → Type κ) where
  pub All-select :
      (p : A → Bool) (xs : List A) → All P xs → All (λ x. P x × (p x ≡ true)) (select p xs)
  All-select p [] h = tt
  All-select p (x ∷ xs) h = elim (Bool-cases (p x)) [
    | inl e ↦ rw e ((h.0, e), All-select p xs h.1)
    | inr e ↦ rw e (All-select p xs h.1)
  ]

  pub All-first : (xs : List A) (x : A) → All P xs → first xs ≡ some x → P x
  All-first [] x h e = absurd (ground arith)
  All-first (y ∷ ys) x h e = let same : y ≡ x = cc in subst P same h.0

insert_by-ne-nil {ℓ} :
    {A : Type ℓ} (le : A → A → Bool) (x : A) (xs : List A)
    → (y : A) × (first (insert_by le x xs) ≡ some y)
unfolding insert_by
insert_by-ne-nil le x [] = (x, refl)
insert_by-ne-nil le x (y ∷ ys) = elim (Bool-cases (le x y)) [
  | inl e ↦ (x, rw e)
  | inr e ↦ (y, rw e)
]

-- A sorted table is empty only if the table is.
pub order_by-none {ℓ} :
    {A : Type ℓ} (le : A → A → Bool) (xs : List A) → first (order_by le xs) ≡ none → xs ≡ []
unfolding order_by
order_by-none le [] e = refl
order_by-none le (x ∷ xs) e =
    let (y, f) = insert_by-ne-nil le x (order_by le xs) in
    let bad : some y ≡ none = sym f ∙ e in ground arith
