-- ===== src/Metrics/Throughput.antt =====
-- The counters of internal/metrics/metrics.go: what Snapshot reads of what was recorded.
use forge_queue.Prelude.{
  ℕ, zero, suc, ◌+◌, ◌-◌, ◌≤◌, ◌<◌, ◌≡◌, refl, ◌==◌, leb, ltb, String, str_eq, Bool, ◌&&◌, some,
  List, [], ◌∷◌, length, select, arith, sym, Bool-cases, inl, inr,
}
use forge_queue.Metrics.Percentiles.{three_percentiles}
use forge_queue.Metrics.{
  Texts, Snapshot, snapshot, Series, record_complete, read_counter, sum_seconds,
}

-- A RecordComplete: when, of which queue and as what.
pub record Completion : Type 0 where
  pub second : ℕ
  pub queue : String
  pub status : String

abbrev pub no_series : Series
no_series = record {
  latencies = λ queue. [];
  enqueued = λ queue. 0;
  completed = λ queue status. 0;
  throughput = λ queue second. record { count = 0; expires = 0 };
}

-- What a list of calls has recorded, the last call first.
unfoldable pub recorded : List Completion → Series
unfolding record_complete
recorded [] = no_series
recorded (c ∷ cs) = record_complete c.second c.queue c.status (recorded cs)

-- A completion in the `n` seconds up to `now`.
abbrev pub is_recent : ℕ → String → ℕ → Completion → Bool
is_recent now queue n c = str_eq c.queue queue && ltb now (c.second + n) && leb c.second now

abbrev in_second : String → ℕ → Completion → Bool
in_second queue t c = str_eq c.queue queue && (c.second == t)

abbrev pub has_ended_as : String → String → Completion → Bool
has_ended_as queue status c = str_eq c.queue queue && str_eq c.status status

completed_counts :
    (cs : List Completion) (queue status : String)
    → (recorded cs).completed queue status ≡ length (select (has_ended_as queue status) cs)
unfolding recorded
completed_counts [] queue status = refl
completed_counts (c ∷ cs) queue status = elim (Bool-cases (str_eq c.queue queue)) [
  | inl e ↦ rw e (ground (arith, completed_counts cs queue status))
  | inr e ↦ rw e (completed_counts cs queue status)
]

-- While the key of a second lives, it counts the completions of that second.
counter_counts :
    (cs : List Completion) (queue : String) (t now : ℕ)
    → t ≤ now
    → now < t + 300
    → read_counter now ((recorded cs).throughput queue t) ≡ length (select (in_second queue t) cs)
unfolding recorded
counter_counts [] queue t now h k = ground arith
counter_counts (c ∷ cs) queue t now h k = elim (Bool-cases (str_eq c.queue queue)) [
  | inr e ↦ rw e (counter_counts cs queue t now h k)
  | inl e ↦ rw e (elim (Bool-cases (c.second == t)) [
    | inr f ↦ rw f (counter_counts cs queue t now h k)
    | inl f ↦ rw f (ground (arith, counter_counts cs queue t t (omega arith) (omega arith)))
  ])
]

window-suc :
    (cs : List Completion) (queue : String) (now n : ℕ)
    → n ≤ now
    → length (select (is_recent now queue (suc n)) cs)
      ≡ length (select (is_recent now queue n) cs) + length (select (in_second queue (now - n)) cs)
window-suc [] queue now n h = refl
window-suc (c ∷ cs) queue now n h = ground (arith, window-suc cs queue now n h)

empty_window :
    (cs : List Completion) (queue : String) (now : ℕ)
    → length (select (is_recent now queue 0) cs) ≡ 0
empty_window [] queue now = refl
empty_window (c ∷ cs) queue now = ground (arith, empty_window cs queue now)

sum_seconds-counts :
    (cs : List Completion) (queue : String) (now n : ℕ)
    → n ≤ 60
    → n ≤ now + 1
    → sum_seconds now ((recorded cs).throughput queue) n
      ≡ length (select (is_recent now queue n) cs)
unfolding sum_seconds
sum_seconds-counts cs queue now zero h k = sym (empty_window cs queue now)
sum_seconds-counts cs queue now (suc n) h k = ground (
  arith,
  sum_seconds-counts cs queue now n (omega arith) (omega arith),
  counter_counts cs queue (now - n) now (omega arith) (omega arith),
  window-suc cs queue now n (omega arith),
)

-- From the second 59 on, after any list of RecordComplete calls on empty keys, Snapshot returns
-- with the completions of its queue in the 60 seconds up to now counted exactly, keys expired or
-- not, and as the total those that ended as succeeded, dead or failed.
pub snapshot_counts :
    (texts : Texts) (cs : List Completion) (now : ℕ) (queue : String) (depth : ℕ)
    → 59 ≤ now
    → (s : Snapshot) × (snapshot texts (some (recorded cs)) now queue depth ≡ some s)
      × (s.completed_last_minute ≡ length (select (is_recent now queue 60) cs))
      × (s.total_processed
          ≡ length (select (has_ended_as queue "succeeded") cs)
            + length (select (has_ended_as queue "dead") cs)
            + length (select (has_ended_as queue "failed") cs))
unfolding snapshot
snapshot_counts texts cs now queue depth h =
    let (p50, p95, p99, e, f, g, _, _) = three_percentiles texts queue (recorded cs) in
    rw (e, f, g)
      (
        _,
        refl,
        sum_seconds-counts cs queue now 60 (omega arith) (omega (arith, h)),
        rw
            (
              sym (completed_counts cs queue "succeeded"),
              sym (completed_counts cs queue "dead"),
              sym (completed_counts cs queue "failed"),
            )
            refl,
      )
