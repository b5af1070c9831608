-- ===== src/RateLimit/Bound.antt =====
-- How many calls the token bucket of internal/ratelimit/ratelimit.go allows.
use forge_queue.Prelude.{
  ℕ, suc, ◌+◌, ◌-◌, ◌*◌, ◌≤◌, ◌<◌, ◌≡◌, refl, ◌⊎◌, inl, inr, if◌then◌else◌, ltb, min, false, none,
  some, List, [], ◌∷◌, arith, Bool-cases, ℤ, pos, negsuc,
}
use native.Mathlib.Nat.{mul-le-mul_right}
use forge_queue.RateLimit.{
  Limiter, Bucket, set, refilled, bucket_script, is_admitted, answer, allow, admitted,
}

abbrev pub empty_bucket : Bucket
empty_bucket = record { tokens = none; ts = none }

abbrev used : ℕ → ℕ → Bucket
used s v = record { tokens = set s v; ts = set s s }

-- A bucket that was never used, or was last used at a time up to `t`.
abbrev pub IsBucket : ℕ → Bucket → Type 0
IsBucket t b = (b ≡ empty_bucket) ⊎ ((s : ℕ) × (v : ℕ) × (s ≤ t) × (b ≡ used s v))

-- Calls at times that do not go back, the first no earlier than `t`.
abbrev pub IsFrom : ℕ → List ℕ → Type 0
IsFrom t [] = Unit
IsFrom t (u ∷ us) = (t ≤ u) × IsFrom u us

-- The time of the last call.
abbrev pub last_from : ℕ → List ℕ → ℕ
last_from t [] = t
last_from t (u ∷ us) = last_from u us

times_split : (r a b c : ℕ) → a ≤ b → b ≤ c → (c - a) * r ≡ (b - a) * r + (c - b) * r
times_split r a b c h k = let e : c - a ≡ (b - a) + (c - b) = omega arith in rw e (omega arith)

last_from_le : (t : ℕ) (us : List ℕ) → IsFrom t us → t ≤ last_from t us
last_from_le t [] h = omega arith
last_from_le t (u ∷ us) h = omega (arith, h.0, last_from_le u us h.1)

module _ (l : Limiter) where
  refilled_empty : (t : ℕ) → refilled l t t empty_bucket ≡ 1000 * l.burst
  unfolding refilled
  refilled_empty t = let e : t - t ≡ 0 = omega arith in rw e (ground arith)

  refilled_live :
      (s v t : ℕ)
      → t < s + 60000
      → refilled l t t (used s v) ≡ min (1000 * l.burst) (v + (t - s) * l.rate)
  unfolding refilled
  refilled_live s v t h = ground arith

  refilled_expired : (s v t : ℕ) → s + 60000 ≤ t → refilled l t t (used s v) ≡ 1000 * l.burst
  unfolding refilled
  refilled_expired s v t h =
      let e : t - t ≡ 0 = omega arith in
      let late : ltb t (s + 60000) ≡ false = ground arith in rw (late, e) (ground arith)

  refilled_le : (t : ℕ) (b : Bucket) → refilled l t t b ≤ 1000 * l.burst
  unfolding refilled
  refilled_le t b = ground arith

  -- Time refills a bucket at most at the rate, and so does the end of its keys.
  refilled_growth :
      (t u : ℕ) (b : Bucket)
      → l.burst ≤ 60 * l.rate
      → t ≤ u
      → IsBucket t b
      → refilled l u u b ≤ refilled l t t b + (u - t) * l.rate
  refilled_growth t u b small h (inl e) =
      rw (e, refilled_empty t) (omega (arith, refilled_le u empty_bucket))
  refilled_growth t u b small h (inr (s, v, past, e)) =
      rw e (elim (Bool-cases (ltb t (s + 60000))) [
        | inr late ↦
            rw (refilled_expired s v t (ground arith)) (omega (arith, refilled_le u (used s v)))
        | inl soon ↦ elim (Bool-cases (ltb u (s + 60000))) [
          | inl live ↦
              rw (refilled_live s v t (ground arith), refilled_live s v u (ground arith))
                (ground (arith, times_split l.rate s t u past h))
          | inr late ↦
              let long : 60000 * l.rate ≤ (u - s) * l.rate =
                mul-le-mul_right l.rate (ground arith) in
              rw (refilled_live s v t (ground arith), refilled_expired s v u (ground arith))
                (ground (arith, times_split l.rate s t u past h))
        ]
      ])

  refilled-used : (t v : ℕ) → refilled l t t (used t v) ≤ v
  unfolding refilled
  refilled-used t v =
      let e : t - t ≡ 0 = omega arith in rw (refilled_live t v t (omega arith), e) (ground arith)

  script_used :
      (t : ℕ) (b : Bucket)
      → (v : ℕ) × ((bucket_script l t t b).1 ≡ used t v)
        × (v + 1000 * (if is_admitted (bucket_script l t t b).0 then 1 else 0) ≡ refilled l t t b)
  unfolding bucket_script
  script_used t b = elim (Bool-cases (ltb (refilled l t t b) 1000)) [
    | inl e ↦ (refilled l t t b, ground arith, ground arith)
    | inr e ↦ (refilled l t t b - 1000, ground arith, ground arith)
  ]

  admitted_one :
      (t : ℕ) (b : Bucket) (ts : List ℕ)
      → admitted l b (t ∷ ts)
        ≡ (if is_admitted (bucket_script l t t b).0 then 1 else 0)
          + admitted l (bucket_script l t t b).1 ts
  unfolding admitted allow
  admitted_one t b ts =
      by_result (bucket_script l t t b).0 (admitted l (bucket_script l t t b).1 ts)
    where
      by_result :
          (r : ℤ) (n : ℕ)
          → (if (answer (some r)).allowed then suc n else n) ≡ (if is_admitted r then 1 else 0) + n
      by_result (pos n) k = omega arith
      by_result (negsuc n) k = omega arith

  admitted_from :
      (t : ℕ) (b : Bucket) (ts : List ℕ)
      → l.burst ≤ 60 * l.rate
      → IsBucket t b
      → IsFrom t ts
      → 1000 * admitted l b ts ≤ refilled l t t b + (last_from t ts - t) * l.rate
  unfolding admitted
  admitted_from t b [] small w h = omega arith
  admitted_from t b (u ∷ us) small w h =
      let (v, after, spent) = script_used u b in
      let rest =
        admitted_from u (bucket_script l u u b).1 us small (inr (u, v, omega arith, after)) h.1 in
      let low : refilled l u u (used u v) ≤ v = refilled-used u v in
      ground (
        arith,
        admitted_one u b us,
        refilled_growth t u b small h.0 w,
        times_split l.rate t u (last_from u us) h.0 (last_from_le u us h.1),
        rw after at rest,
      )

-- Over calls of one tenant at times that do not go back, starting with an empty bucket and with
-- one clock for client and server, the limiter allows at most its burst and what the rate gives
-- from the first call to the last, if the burst is no more than the rate gives in the 60 seconds
-- for which the keys live.
pub admitted_le :
    (l : Limiter) (t : ℕ) (ts : List ℕ)
    → l.burst ≤ 60 * l.rate
    → IsFrom t ts
    → 1000 * admitted l empty_bucket (t ∷ ts) ≤ 1000 * l.burst + (last_from t ts - t) * l.rate
admitted_le l t ts small h = omega (
  arith,
  admitted_from l t empty_bucket (t ∷ ts) small (inl refl) (omega arith, h),
  refilled_le l t empty_bucket,
)
