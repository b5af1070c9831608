-- ===== src/RateLimit.antt =====
-- internal/ratelimit/ratelimit.go: Limiter and the script of its token bucket. A tenant's bucket is
-- its two Redis keys, each with the time at which `EX 60` ends it. Tokens are counted in
-- thousandths, so that `elapsed * rate` is a whole number: elapsed is in milliseconds.
pub mod Bound
use forge_queue.Prelude.{
  ℕ, zero, suc, ◌+◌, ◌-◌, ◌*◌, ◌/◌, ltb, min, if◌then◌else◌, Bool, true, false, Option, none, some,
  List, [], ◌∷◌, ℤ, pos, negsuc, positive_or,
}

pub record Limiter : Type 0 where
  pub rate : ℕ
  pub burst : ℕ

-- New: no limiter without a rate or without a client.
unfoldable pub new : Bool → ℤ → ℤ → Option Limiter
new false rate burst = none
new true (pos zero) burst = none
new true (negsuc n) burst = none
new true (pos (suc n)) burst = some (record { rate = suc n; burst = positive_or (suc n) burst })

-- A Redis key with an expiry.
pub record Entry : Type 0 where
  pub value : ℕ
  pub expires : ℕ

pub record Bucket : Type 0 where
  pub tokens : Option Entry
  pub ts : Option Entry

-- GET at the server's time, `or` a default.
abbrev pub get_or : ℕ → ℕ → Option Entry → ℕ
get_or clock fallback none = fallback
get_or clock fallback (some e) = if ltb clock e.expires then e.value else fallback

-- SET key value EX 60.
abbrev pub set : ℕ → ℕ → Option Entry
set clock value = some (record { value = value; expires = clock + 60000 })

-- math.min(burst, tokens + elapsed * rate).
unfoldable pub refilled : Limiter → ℕ → ℕ → Bucket → ℕ
refilled l now clock b =
    min (1000 * l.burst)
      (get_or clock (1000 * l.burst) b.tokens + (now - get_or clock now b.ts) * l.rate)

-- bucketScript: `now` is the client's time and `clock` the server's; Redis makes an integer of the
-- number returned.
unfoldable pub bucket_script : Limiter → ℕ → ℕ → Bucket → ℤ × Bucket
unfolding refilled
bucket_script l now clock b =
    let tokens = refilled l now clock b in
    if ltb tokens 1000
    then (negsuc 0, record { tokens = set clock tokens; ts = set clock now })
    else (
      pos ((tokens - 1000) / 1000),
      record { tokens = set clock (tokens - 1000); ts = set clock now },
    )

abbrev pub is_admitted : ℤ → Bool
is_admitted (pos n) = true
is_admitted (negsuc n) = false

-- The answer of Allow: whether to go on, how long to wait, in nanoseconds, and whether there was
-- an error.
pub record Answer : Type 0 where
  pub allowed : Bool
  pub wait : ℕ
  pub failed : Bool

-- What a run of the script gives the client; `none` is an error of Redis.
abbrev pub answer : Option ℤ → Answer
answer none = record { allowed = true; wait = 0; failed = true }
answer (some (pos n)) = record { allowed = true; wait = 0; failed = false }
answer (some (negsuc n)) = record { allowed = false; wait = 1000000000; failed = false }

-- Allow; Redis is reached, or not.
unfoldable pub allow : Option Limiter → Bool → ℕ → ℕ → Bucket → Answer × Bucket
unfolding bucket_script
allow none reached now clock b = (record { allowed = true; wait = 0; failed = false }, b)
allow (some l) false now clock b = (answer none, b)
allow (some l) true now clock b =
    let (result, b') = bucket_script l now clock b in (answer (some result), b')

-- How many of the calls made at these times are allowed, the server's clock and the client's being
-- the same.
unfoldable pub admitted : Limiter → Bucket → List ℕ → ℕ
unfolding allow
admitted l b [] = 0
admitted l b (t ∷ ts) =
    let (a, b') = allow (some l) true t t b in
    let rest = admitted l b' ts in if a.allowed then suc rest else rest
