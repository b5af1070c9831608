-- ===== src/Events/Bus.antt =====
-- internal/api/events.go: RedisEvents, which carries events to the Hub of each API process, and the
-- loop of ServeSSE. json.Marshal and json.Unmarshal are parameters.
pub mod Delivery
use forge_queue.Prelude.{
  String, concat, if◌then◌else◌, Bool, true, false, Option, none, some, List, [], ◌∷◌, ◌++◌,
}
use forge_queue.Events.{Hub, publish}

pub record Codec (Event : Type 0) : Type 0 where
  pub marshal : Event → Option String
  pub unmarshal : String → Option Event

-- A RedisEvents: `none` for what is nil.
pub record RedisEvents (Event : Type 0) : Type 0 where
  pub has_redis : Bool
  pub hub : Option (Hub Event)

-- What is left of a Publish: whether there was no error, the messages sent through Redis, and the hub;
-- `none` is a panic.
abbrev pub Published : Type 0 → Type 0
Published Event = Option (Bool × List String × Option (Hub Event))

-- What wakes the loop of ServeSSE.
pub data Wake (Event : Type 0) : Type 0 where
  gone beat closed : Wake Event
  arrives : Event → Wake Event

module _ {Event : Type 0} where
  -- Without Redis: the hub of the process, if it has one.
  unfoldable pub publish_local : List String → Event → Option (Hub Event) → Published Event
  unfolding publish
  publish_local sent event none = some (true, sent, none)
  publish_local sent event (some h) = elim (publish event h) [
    | none ↦ none
    | some h' ↦ some (true, sent, some h')
  ]

  -- RedisEvents.Publish of a receiver that is not nil; Redis takes the message if it is reached.
  unfoldable pub publish_event :
      Codec Event → Bool → Event → RedisEvents Event → List String → Published Event
  unfolding publish_local
  publish_event codec reached event r sent =
      if r.has_redis
      then elim (codec.marshal event) [
        | none ↦ some (false, sent, r.hub)
        | some payload ↦ some (reached, if reached then sent ++ payload ∷ [] else sent, r.hub)
      ]
      else publish_local sent event r.hub

  -- One message in the loop of Run; what does not decode is passed over.
  unfoldable pub relay : Codec Event → String → Hub Event → Option (Hub Event)
  unfolding publish
  relay codec payload h = elim (codec.unmarshal payload) [
    | none ↦ some h
    | some event ↦ publish event h
  ]

  -- Run, for the messages that come until it ends.
  unfoldable pub run_events : Codec Event → List String → Hub Event → Option (Hub Event)
  unfolding relay
  run_events codec [] h = some h
  run_events codec (payload ∷ sent) h = elim (relay codec payload h) [
    | none ↦ none
    | some h' ↦ run_events codec sent h'
  ]

  -- What ServeSSE writes.
  unfoldable pub serve : Codec Event → List (Wake Event) → List String
  serve codec [] = []
  serve codec (gone ∷ wakes) = []
  serve codec (closed ∷ wakes) = []
  serve codec (beat ∷ wakes) = ": ping\n\n" ∷ serve codec wakes
  serve codec (arrives e ∷ wakes) =
      let rest = serve codec wakes in
      elim (codec.marshal e) [
        | none ↦ rest
        | some payload ↦ concat "data: " (concat payload "\n\n") ∷ rest
      ]
