-- ===== src/Metrics.antt =====
-- internal/metrics/metrics.go: RecordEnqueue, RecordComplete and Snapshot on the keys of Redis, and
-- percentile. A latency is a number of microseconds where it is recorded, and a float64 where it is
-- read; the texts of these in Redis are given by a parameter. The counters for Prometheus are left
-- out.
pub mod Percentiles
pub mod Throughput
use forge_queue.Prelude.{
  ℕ, zero, suc, ◌+◌, ◌-◌, ◌*◌, ◌/◌, ◌==◌, ltb, leb, if◌then◌else◌, String, str_eq, Bool, true,
  false, ◌&&◌, Option, none, some, List, [], ◌∷◌, take, length,
}
use forge_queue.Tables.Rows.{order_by}

-- A float64 is NaN, or known by how many float64s are less: -Inf is `number 0`. Both zeros are
-- `zero_float`.
pub data Float64 : Type 0 where
  nan : Float64
  number : ℕ → Float64

abbrev pub zero_float : Float64
zero_float = number 9218868437227405312

-- The order of sort.Float64s, in which NaN comes first.
abbrev pub place : Float64 → ℕ
place nan = 0
place (number n) = suc n

abbrev pub float_le : Float64 → Float64 → Bool
float_le x y = leb (place x) (place y)

-- Redis writes a float64 of milliseconds as its shortest text; ParseFloat reads what a text may
-- hold, NaN included, and `none` is its error.
pub record Texts : Type 0 where
  pub write : ℕ → String
  pub parse : String → Option Float64

-- A counter, and the second at which its key expires; a key that was never written has expired.
pub record Counter : Type 0 where
  pub count : ℕ
  pub expires : ℕ

-- The keys forge:latency:<queue>, forge:enqueued:<queue>, forge:completed:<queue>:<status> and
-- forge:throughput:<queue>:<second>.
pub record Series : Type 0 where
  pub latencies : String → List String
  pub enqueued : String → ℕ
  pub completed : String → String → ℕ
  pub throughput : String → ℕ → Counter

pub record Snapshot : Type 0 where
  pub queue : String
  pub depth : ℕ
  pub completed_last_minute : ℕ  -- 60 times ThroughputPerSec
  pub total_processed : ℕ
  pub p50_enqueue_latency : Float64
  pub p95_enqueue_latency : Float64
  pub p99_enqueue_latency : Float64
  pub sampled_at : ℕ

abbrev pub at_key : {A : Type 0} → String → (A → A) → (String → A) → String → A
at_key key f values k = if str_eq key k then f (values k) else values k

-- LPUSH, LTRIM 0 1999 and INCR.
unfoldable pub record_enqueue : Texts → String → ℕ → Series → Series
record_enqueue texts queue latency s = record s {
  latencies = at_key queue (λ l. take 2000 (texts.write latency ∷ l)) s.latencies;
  enqueued = at_key queue (λ n. n + 1) s.enqueued;
}

-- INCR of a key that may have expired, and EXPIRE of 5 minutes.
abbrev pub counted : ℕ → Counter → Counter
counted now c = record { count = if ltb now c.expires then c.count + 1 else 1; expires = now + 300 }

unfoldable pub record_complete : ℕ → String → String → Series → Series
record_complete now queue status s = record s {
  completed = at_key queue (at_key status (λ n. n + 1)) s.completed;
  throughput =
      at_key queue (λ at second. if now == second then counted now (at second) else at second)
        s.throughput;
}

-- GET of a key that may have expired; what is missing counts as 0.
abbrev pub read_counter : ℕ → Counter → ℕ
read_counter now c = if ltb now c.expires then c.count else 0

-- The loop over the `n` seconds up to `now`, the oldest of which is `now - (n - 1)`.
unfoldable pub sum_seconds : ℕ → (ℕ → Counter) → ℕ → ℕ
sum_seconds now at zero = 0
sum_seconds now at (suc n) = sum_seconds now at n + read_counter now (at (now - n))

unfoldable pub parse_all : Texts → List String → List Float64
parse_all texts [] = []
parse_all texts (raw ∷ rest) =
    let values = parse_all texts rest in
    elim (texts.parse raw) [ none ↦ values | some value ↦ value ∷ values ]

abbrev pub get_elem? {ℓ} : {A : Type ℓ} → List A → ℕ → Option A
get_elem? [] i = none
get_elem? (x ∷ xs) zero = some x
get_elem? (x ∷ xs) (suc i) = get_elem? xs i

-- The p of the calls of percentile: 0.50, 0.95 and 0.99.
pub data Quantile : Type 0 where
  median ninety_fifth ninety_ninth : Quantile

abbrev pub hundredths : Quantile → ℕ
hundredths median = 50
hundredths ninety_fifth = 95
hundredths ninety_ninth = 99

-- int(float64(n-1) * p): for these p, and the 2000 samples at most that there are, the product of
-- the float64s has the whole part of the exact one.
abbrev pub rank : ℕ → Quantile → ℕ
rank n q = (n - 1) * hundredths q / 100

-- `none` is a panic.
abbrev pub percentile : List Float64 → Quantile → Option Float64
percentile [] q = some zero_float
percentile (x ∷ xs) q = get_elem? (x ∷ xs) (rank (length (x ∷ xs)) q)

abbrev pub empty_snapshot : String → ℕ → ℕ → Snapshot
empty_snapshot queue depth now = record {
  queue = queue;
  depth = depth;
  completed_last_minute = 0;
  total_processed = 0;
  p50_enqueue_latency = zero_float;
  p95_enqueue_latency = zero_float;
  p99_enqueue_latency = zero_float;
  sampled_at = now;
}

unfoldable pub sorted_latencies : Texts → String → Series → List Float64
unfolding parse_all order_by
sorted_latencies texts queue s = order_by float_le (parse_all texts (take 2000 (s.latencies queue)))

infixl 55 ◌>>=◌
abbrev ◌>>=◌ : {A B : Type 0} → Option A → (A → Option B) → Option B
none >>= f = none
some a >>= f = f a

-- Snapshot; a recorder without Redis has no series.
unfoldable pub snapshot : Texts → Option Series → ℕ → String → ℕ → Option Snapshot
unfolding sorted_latencies sum_seconds
snapshot texts none now queue depth = some (empty_snapshot queue depth now)
snapshot texts (some s) now queue depth = do
  let values = sorted_latencies texts queue s
  p50 ← percentile values median
  p95 ← percentile values ninety_fifth
  p99 ← percentile values ninety_ninth
  some (record {
    queue = queue;
    depth = depth;
    completed_last_minute = sum_seconds now (s.throughput queue) 60;
    total_processed =
        s.completed queue "succeeded" + s.completed queue "dead" + s.completed queue "failed";
    p50_enqueue_latency = p50;
    p95_enqueue_latency = p95;
    p99_enqueue_latency = p99;
    sampled_at = now;
  })
