-- ===== src/Metrics/Percentiles.antt =====
-- percentile of internal/metrics/metrics.go, on the sorted samples that Snapshot gives it.
use forge_queue.Prelude.{
  ℕ, zero, suc, ◌+◌, ◌-◌, ◌*◌, ◌≤◌, ◌<◌, ◌≡◌, ◌⊎◌, inl, inr, refl, leb, String, Bool, true, false,
  Option, none, some, List, [], ◌∷◌, length, take, select, All, arith, ◌∙◌, sym, ap, subst,
}
use forge_queue.Tables.Rows.{insert_by, order_by}
use forge_queue.Tables.Order.{IsSorted, order_by-IsSorted}
use forge_queue.Metrics.{
  Float64, nan, number, zero_float, float_le, Texts, Series, Snapshot, snapshot, Quantile, median,
  ninety_fifth, ninety_ninth, hundredths, percentile, rank, get_elem?, sorted_latencies, parse_all,
}

-- How many samples are at most, and at least, a value.
abbrev pub at_most : Float64 → List Float64 → ℕ
at_most v xs = length (select (λ x. float_le x v) xs)

abbrev pub at_least : Float64 → List Float64 → ℕ
at_least v xs = length (select (λ x. float_le v x) xs)

length-insert_by :
    (x : Float64) (xs : List Float64) → length (insert_by float_le x xs) ≡ suc (length xs)
unfolding insert_by
length-insert_by x [] = refl
length-insert_by x (y ∷ ys) = ground (arith, length-insert_by x ys)

pub length-order_by : (xs : List Float64) → length (order_by float_le xs) ≡ length xs
unfolding order_by
length-order_by [] = refl
length-order_by (x ∷ xs) = length-insert_by x (order_by float_le xs) ∙ ap suc (length-order_by xs)

module _ (p : Float64 → Bool) where
  selected-insert_by :
      (x : Float64) (xs : List Float64)
      → length (select p (insert_by float_le x xs)) ≡ length (select p (x ∷ xs))
  unfolding insert_by
  selected-insert_by x [] = refl
  selected-insert_by x (y ∷ ys) = ground (arith, selected-insert_by x ys)

  selected-order_by :
      (xs : List Float64) → length (select p (order_by float_le xs)) ≡ length (select p xs)
  unfolding order_by
  selected-order_by [] = refl
  selected-order_by (x ∷ xs) =
      selected-insert_by x (order_by float_le xs) ∙ ground (arith, selected-order_by xs)

sorted : (xs : List Float64) → IsSorted float_le (order_by float_le xs)
sorted xs = order_by-IsSorted float_le (λ a b h. ground arith) (λ a b c h k. ground arith) xs

-- In a sorted list, the element at `i` has `i + 1` elements up to it and the rest from it on.
length-at_least :
    (v : Float64) (xs : List Float64)
    → All (λ y. float_le v y ≡ true) xs
    → at_least v xs ≡ length xs
length-at_least v [] h = refl
length-at_least v (x ∷ xs) (h, hs) = rw h (ap suc (length-at_least v xs hs))

nth_ranks :
    (xs : List Float64) (i : ℕ)
    → IsSorted float_le xs
    → i < length xs
    → (v : Float64) × (get_elem? xs i ≡ some v)
      × (i + 1 ≤ at_most v xs)
      × (length xs ≤ at_least v xs + i)
      × ((b : Float64) → All (λ y. float_le b y ≡ true) xs → float_le b v ≡ true)
nth_ranks [] i s h = absurd (omega arith)
nth_ranks (x ∷ xs) zero s h =
    (x, refl, ground arith, ground (arith, length-at_least x xs s.0), λ b (g, gs). g)
nth_ranks (x ∷ xs) (suc i) (first, s) h =
    let (v, e, below, above, bound) = nth_ranks xs i s (omega arith) in
    let least : float_le x v ≡ true = bound x first in
    (v, e, ground arith, ground arith, λ b (g, gs). bound b gs)

rank_inside : (n : ℕ) (q : Quantile) → 0 < n → rank n q < n
rank_inside n median h = omega arith
rank_inside n ninety_fifth h = omega arith
rank_inside n ninety_ninth h = omega arith

percentile_sorted :
    (xs : List Float64) (q : Quantile)
    → 0 < length xs
    → percentile xs q ≡ get_elem? xs (rank (length xs) q)
percentile_sorted [] q h = absurd (omega arith)
percentile_sorted (x ∷ xs) q h = refl

-- Of the samples, more than `p` hundredths of one less than their number are at most the value, and
-- no more than that are below it.
abbrev pub IsPercentile : List Float64 → ℕ → Float64 → Type 0
IsPercentile xs p v =
    ((length xs - 1) * p < 100 * at_most v xs)
    × (100 * length xs ≤ 100 * at_least v xs + (length xs - 1) * p)

percentile_rank :
    (xs : List Float64) (q : Quantile)
    → 0 < length xs
    → (v : Float64) × (percentile (order_by float_le xs) q ≡ some v)
      × IsPercentile xs (hundredths q) v
percentile_rank xs q filled =
    let same = length-order_by xs in
    let (v, e, below, above, _) =
      nth_ranks (order_by float_le xs) (rank (length xs) q) (sorted xs)
        (subst (λ n. rank (length xs) q < n) (sym same) (rank_inside (length xs) q filled)) in
    let under : rank (length xs) q + 1 ≤ at_most v xs =
      subst (λ n. rank (length xs) q + 1 ≤ n) (selected-order_by (λ x. float_le x v) xs) below in
    let over : length xs ≤ at_least v xs + rank (length xs) q =
      subst (λ n. length xs ≤ n + rank (length xs) q) (selected-order_by (λ x. float_le v x) xs)
        (subst (λ n. n ≤ at_least v (order_by float_le xs) + rank (length xs) q) same above) in
    (
      v,
      percentile_sorted (order_by float_le xs) q (subst (λ n. 0 < n) (sym same) filled)
          ∙ ap (λ n. get_elem? (order_by float_le xs) (rank n q)) same
          ∙ e,
      (omega (arith, under), omega (arith, over)),
    )

-- Of samples that are not empty, NaN among them or not, sorted as sort.Float64s does, percentile
-- returns a value for 0.50, for 0.95 and for 0.99 without a panic; with n samples, more than (n -
-- 1) p of them are at most that value and no more than (n - 1) p of them are below it.
pub percentile_ranks :
    (xs : List Float64)
    → 0 < length xs
    → let values = order_by float_le xs in
      (p50 p95 p99 : Float64) × (percentile values median ≡ some p50)
      × (percentile values ninety_fifth ≡ some p95)
      × (percentile values ninety_ninth ≡ some p99)
      × IsPercentile xs 50 p50
      × IsPercentile xs 95 p95
      × IsPercentile xs 99 p99
percentile_ranks xs filled =
    let (p50, e, a) = percentile_rank xs median filled in
    let (p95, f, b) = percentile_rank xs ninety_fifth filled in
    let (p99, g, c) = percentile_rank xs ninety_ninth filled in (p50, p95, p99, e, f, g, a, b, c)

-- The value at a later place is no less.
nth_ordered :
    (xs : List Float64) (i j : ℕ)
    → IsSorted float_le xs
    → i ≤ j
    → j < length xs
    → (v w : Float64) × (get_elem? xs i ≡ some v)
      × (get_elem? xs j ≡ some w)
      × (float_le v w ≡ true)
nth_ordered [] i j s h k = absurd (omega arith)
nth_ordered (x ∷ xs) zero zero s h k = (x, x, refl, refl, ground arith)
nth_ordered (x ∷ xs) zero (suc j) (first, s) h k =
    let (w, e, _, _, bound) = nth_ranks xs j s (omega arith) in (x, w, refl, e, bound x first)
nth_ordered (x ∷ xs) (suc i) zero s h k = absurd (omega arith)
nth_ordered (x ∷ xs) (suc i) (suc j) (first, s) h k =
    nth_ordered xs i j s (omega arith) (omega arith)

percentile_ordered :
    (xs : List Float64) (q r : Quantile)
    → IsSorted float_le xs
    → ((n : ℕ) → rank n q ≤ rank n r)
    → (v w : Float64) × (percentile xs q ≡ some v)
      × (percentile xs r ≡ some w)
      × (float_le v w ≡ true)
percentile_ordered [] q r s h = (zero_float, zero_float, refl, refl, ground arith)
percentile_ordered (x ∷ xs) q r s h =
    let n = suc (length xs) in
    nth_ordered (x ∷ xs) (rank n q) (rank n r) s (h n) (rank_inside n r (omega arith))

some_eq : {x y : Float64} → some x ≡ some y → x ≡ y
some_eq e = ground (arith, e)

-- The three that Snapshot takes.
pub three_percentiles :
    (texts : Texts) (queue : String) (s : Series)
    → let values = sorted_latencies texts queue s in
      (p50 p95 p99 : Float64) × (percentile values median ≡ some p50)
      × (percentile values ninety_fifth ≡ some p95)
      × (percentile values ninety_ninth ≡ some p99)
      × (float_le p50 p95 ≡ true)
      × (float_le p95 p99 ≡ true)
unfolding sorted_latencies
three_percentiles texts queue s =
    let values = sorted_latencies texts queue s in
    let in_order = sorted (parse_all texts (take 2000 (s.latencies queue))) in
    let (p50, p95, e, f, h) =
      percentile_ordered values median ninety_fifth in_order (λ n. omega arith) in
    let (again, p99, f', g, k) =
      percentile_ordered values ninety_fifth ninety_ninth in_order (λ n. omega arith) in
    let same : again ≡ p95 = some_eq (sym f' ∙ f) in
    (p50, p95, p99, e, f, g, h, subst (λ x. float_le x p99 ≡ true) same k)

-- The <= of Go, by which NaN is not even at most itself.
abbrev pub at_most_float : Float64 → Float64 → Bool
at_most_float (number m) (number n) = leb m n
at_most_float _ _ = false

abbrev pub IsOrdered : Snapshot → Type 0
IsOrdered s =
    (s.p50_enqueue_latency ≡ nan)
    ⊎ ((at_most_float s.p50_enqueue_latency s.p95_enqueue_latency ≡ true)
        × (at_most_float s.p95_enqueue_latency s.p99_enqueue_latency ≡ true))

ordered_floats :
    (x y z : Float64)
    → float_le x y ≡ true
    → float_le y z ≡ true
    → (x ≡ nan) ⊎ ((at_most_float x y ≡ true) × (at_most_float y z ≡ true))
ordered_floats nan y z h k = inl refl
ordered_floats (number l) nan z h k = absurd (ground arith)
ordered_floats (number l) (number m) nan h k = absurd (ground arith)
ordered_floats (number l) (number m) (number n) h k = inr (ground arith, ground arith)

-- Whatever the keys hold, Snapshot returns without a panic, and its percentiles are in order: P50
-- is at most P95 and P95 at most P99, by the comparison of float64s, unless P50 is NaN, as it can
-- be where a key holds NaN.
pub snapshot-IsOrdered :
    (texts : Texts) (series : Option Series) (now : ℕ) (queue : String) (depth : ℕ)
    → (s : Snapshot) × (snapshot texts series now queue depth ≡ some s) × IsOrdered s
unfolding snapshot
snapshot-IsOrdered texts none now queue depth = (_, refl, inr (ground arith, ground arith))
snapshot-IsOrdered texts (some s) now queue depth =
    let (p50, p95, p99, e, f, g, h, k) = three_percentiles texts queue s in
    rw (e, f, g) (_, refl, ordered_floats p50 p95 p99 h k)
