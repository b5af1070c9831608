-- ===== src/Examples/Measures.antt =====
-- The theorems on the metrics, applied.
use forge_queue.Prelude.{◌+◌, ◌≡◌, refl, some, List, [], ◌∷◌, arith, length, select}
use forge_queue.Tables.Rows.{order_by}
use forge_queue.Metrics.{
  Float64, nan, number, float_le, Texts, Snapshot, snapshot, median, ninety_fifth, ninety_ninth,
  percentile, record_enqueue,
}
use forge_queue.Metrics.Percentiles.{IsPercentile, percentile_ranks, IsOrdered, snapshot-IsOrdered}
use forge_queue.Metrics.Throughput.{Completion, recorded, is_recent, has_ended_as, snapshot_counts}

-- One of them is NaN.
abbrev samples : List Float64
samples = number 900 ∷ nan ∷ number 500 ∷ number 300 ∷ []

percentile_ranks_example :
    (p50 p95 p99 : Float64) × (percentile (order_by float_le samples) median ≡ some p50)
    × (percentile (order_by float_le samples) ninety_fifth ≡ some p95)
    × (percentile (order_by float_le samples) ninety_ninth ≡ some p99)
    × IsPercentile samples 50 p50
    × IsPercentile samples 95 p95
    × IsPercentile samples 99 p99
percentile_ranks_example = percentile_ranks samples (omega arith)

abbrev texts : Texts
texts = record { write = λ n. "1"; parse = λ s. some (number 1) }

abbrev completions : List Completion
completions =
    record { second = 1000; queue = "mail"; status = "succeeded" }
    ∷ record { second = 990; queue = "default"; status = "succeeded" }
    ∷ record { second = 930; queue = "mail"; status = "dead" }
    ∷ []

snapshot_counts_example :
    (s : Snapshot) × (snapshot texts (some (recorded completions)) 1001 "mail" 4 ≡ some s)
    × (s.completed_last_minute ≡ length (select (is_recent 1001 "mail" 60) completions))
    × (s.total_processed
        ≡ length (select (has_ended_as "mail" "succeeded") completions)
          + length (select (has_ended_as "mail" "dead") completions)
          + length (select (has_ended_as "mail" "failed") completions))
snapshot_counts_example = snapshot_counts texts completions 1001 "mail" 4 (omega arith)

one_recent : length (select (is_recent 1001 "mail" 60) completions) ≡ 1
one_recent = refl

snapshot-IsOrdered_example :
    (s : Snapshot) × (snapshot texts
        (some (record_enqueue texts "mail" 700 (recorded completions)))
        1001
        "mail"
        4
      ≡ some s)
    × IsOrdered s
snapshot-IsOrdered_example =
    snapshot-IsOrdered texts (some (record_enqueue texts "mail" 700 (recorded completions))) 1001
      "mail" 4
