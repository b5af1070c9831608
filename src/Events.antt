-- ===== src/Events.antt =====
-- internal/api/events.go: Hub. A channel is its buffer and two flags: whether it stands in
-- `h.clients`, and whether it is closed. The events themselves are a parameter.
pub mod Safety
pub mod Bus
use forge_queue.Prelude.{
  ℕ, zero, suc, ltb, if◌then◌else◌, Bool, true, false, not, ◌&&◌, Option, none, some, List, [], ◌∷◌,
  ◌++◌, length,
}

pub record Channel {ℓ} (Event : Type ℓ) : Type ℓ where
  pub buffer : List Event
  pub listed : Bool
  pub closed : Bool

-- The channels made so far, in order of their making.
abbrev pub Hub {ℓ} : Type ℓ → Type ℓ
Hub Event = List (Channel Event)

module _ {ℓ} {Event : Type ℓ} where
  abbrev pub new_hub : Hub Event
  new_hub = []

  -- The part of Subscribe that runs before it returns: a channel of 64 places.
  abbrev pub subscribe : Hub Event → Hub Event
  subscribe h = h ++ record { buffer = []; listed = true; closed = false } ∷ []

  -- `select { case ch <- event: default: }`; a send on a closed channel panics.
  unfoldable pub send : Event → Channel Event → Option (Channel Event)
  send event ch =
      if ch.closed
      then none
      else if ltb (length ch.buffer) 64
      then some (record ch { buffer = ch.buffer ++ event ∷ [] })
      else some ch

  abbrev pub send_listed : Event → Channel Event → Option (Channel Event)
  send_listed event ch = if ch.listed then send event ch else some ch

  -- Hub.Publish under the mutex; `none` is a panic.
  unfoldable pub publish : Event → Hub Event → Option (Hub Event)
  unfolding send
  publish event [] = some []
  publish event (ch ∷ h) = elim (send_listed event ch) [
    | none ↦ none
    | some ch' ↦ elim (publish event h) [ none ↦ none | some h' ↦ some (ch' ∷ h') ]
  ]

  abbrev pub delisted : Channel Event → Channel Event
  delisted ch = record ch { listed = false }

  abbrev pub shut : Channel Event → Channel Event
  shut ch = record ch { closed = true }

  -- One channel of the hub changes.
  unfoldable pub change : ℕ → (Channel Event → Channel Event) → Hub Event → Hub Event
  change i f [] = []
  change zero f (ch ∷ h) = f ch ∷ h
  change (suc i) f (ch ∷ h) = ch ∷ change i f h

  abbrev pub is_at : ℕ → (Channel Event → Bool) → Hub Event → Bool
  is_at i p [] = false
  is_at zero p (ch ∷ h) = p ch
  is_at (suc i) p (ch ∷ h) = is_at i p h

  -- `event, ok := <-events` of the subscriber.
  abbrev pub received : Channel Event → Channel Event
  received ch = elim ch.buffer [ [] ↦ ch | e ∷ es ↦ record ch { buffer = es } ]
