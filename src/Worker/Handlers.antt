-- ===== src/Worker/Handlers.antt =====
-- internal/worker/registry.go: the handlers of DefaultRegistry. What encoding/json makes of a
-- payload, time.ParseDuration, the context and the table of the tests are parameters.
use forge_queue.Prelude.{
  ℕ, zero, suc, ◌*◌, if◌then◌else◌, String, str_eq, Bool, Option, none, some, ℤ, pos, negsuc,
  to_int64,
}
use forge_queue.Tables.{Job}
use forge_queue.Queue.Params.{or_default}
use forge_queue.Worker.{Registry}

-- The struct of `sleep` and `chaos`, as Unmarshal leaves it, and whether it returned nil.
pub record SleepPayload : Type 0 where
  pub duration : String
  pub ms : ℤ
  pub decoded : Bool

pub record Runtime : Type 0 where
  pub unmarshal_sleep : String → SleepPayload
  pub unmarshal_message : String → String
  pub parse_duration : String → Option ℤ
  pub done : Bool  -- ctx.Done() at the start
  pub ends_before : ℤ → Bool  -- ctx.Done() is taken before a timer of that many nanoseconds
  pub cause : String  -- ctx.Err()
  pub has_db : Bool
  pub insert_result : Job → Option String  -- the error of the INSERT of `chaos`

abbrev pub millisecond : ℕ
millisecond = 1000000

-- `if ms > 0 { duration = time.Duration(ms) * time.Millisecond }`, which wraps around.
abbrev from_ms : ℤ → ℤ → ℤ
from_ms fallback (pos zero) = fallback
from_ms fallback (pos (suc n)) = to_int64 (suc n * millisecond)
from_ms fallback (negsuc n) = fallback

abbrev parsed_or : ℤ → Option ℤ → ℤ
parsed_or fallback none = fallback
parsed_or fallback (some d) = d

-- The duration that a payload asks for.
abbrev pub asked_duration : Runtime → ℤ → SleepPayload → ℤ
asked_duration rt fallback payload =
    from_ms
      (if str_eq payload.duration ""
        then fallback
        else parsed_or fallback (rt.parse_duration payload.duration))
      payload.ms

-- The select on the context and a timer.
abbrev pub wait : Runtime → ℤ → Option String
wait rt duration = if rt.ends_before duration then some rt.cause else none

abbrev pub echo_handler : Runtime → Job → Option String
echo_handler rt job = if rt.done then some rt.cause else none

unfoldable pub sleep_handler : Runtime → Job → Option String
sleep_handler rt job =
    let payload = rt.unmarshal_sleep job.payload in
    wait rt (
      if payload.decoded
      then asked_duration rt (pos (100 * millisecond)) payload
      else pos (100 * millisecond))

unfoldable pub fail_handler : Runtime → Job → Option String
fail_handler rt job = some (or_default "intentional failure" (rt.unmarshal_message job.payload))

unfoldable pub chaos_handler : Runtime → Job → Option String
chaos_handler rt job =
    if rt.has_db
    then elim (rt.insert_result job) [
      | some e ↦ some e
      | none ↦ wait rt (asked_duration rt (pos (8 * millisecond)) (rt.unmarshal_sleep job.payload))
    ]
    else some "chaos handler requires database"

unfoldable pub default_registry : Runtime → Registry
unfolding sleep_handler fail_handler chaos_handler
default_registry rt name =
    if str_eq name "echo"
    then some (echo_handler rt)
    else if str_eq name "sleep"
    then some (sleep_handler rt)
    else if str_eq name "fail"
    then some (fail_handler rt)
    else if str_eq name "chaos"
    then some (chaos_handler rt)
    else none
