-- ===== src/Events/Bus/Delivery.antt =====
-- Events of internal/api/events.go on their way from publishers, through Redis, to a subscriber.
use forge_queue.Prelude.{
  ℕ, zero, suc, ◌+◌, ◌≤◌, ◌<◌, ◌≡◌, refl, ltb, String, true, false, Option, none, some, List, [],
  ◌∷◌, ◌++◌, map, length, length-append, All, arith, ◌∙◌, ap, sym, subst,
}
use mathlib.Core.List.{append_assoc, append-nil}
use forge_queue.Events.{Channel, Hub, publish, send, send_listed}
use forge_queue.Events.Safety.{
  Reachable, IsSound, publish-IsSound, send_listed-IsSound, Reachable-IsSound,
}
use forge_queue.Events.Bus.{Codec, RedisEvents, Published, publish_event, relay, run_events}

module _ {Event : Type 0} where
  abbrev pub channel_at : ℕ → Hub Event → Option (Channel Event)
  channel_at i [] = none
  channel_at zero (ch ∷ h) = some ch
  channel_at (suc i) (ch ∷ h) = channel_at i h

  abbrev pub with_events : Channel Event → List Event → Channel Event
  with_events ch es = record ch { buffer = ch.buffer ++ es }

  -- Publishers, one after another, through a Redis that is reached: what its channel then holds.
  unfoldable pub publish_all :
      Codec Event → RedisEvents Event → List Event → List String → Published Event
  unfolding publish_event
  publish_all codec r [] sent = some (true, sent, r.hub)
  publish_all codec r (e ∷ es) sent = elim (publish_event codec true e r sent) [
    | none ↦ none
    | some (done, sent', hub) ↦ publish_all codec (record r { hub = hub }) es sent'
  ]

  send_room :
      (event : Event) (ch : Channel Event)
      → IsSound ch
      → ch.listed ≡ true
      → length ch.buffer < 64
      → send_listed event ch ≡ some (with_events ch (event ∷ []))
  unfolding send
  send_room event ch s on room =
      let unclosed : ch.closed ≡ false = ground (arith, s.0, on) in
      let short : ltb (length ch.buffer) 64 ≡ true = ground (arith, room) in
      rw on (rw (unclosed, short) refl)

  -- A listed channel with room takes an event that is published.
  publish-at :
      (event : Event) (h : Hub Event) (i : ℕ) (ch : Channel Event)
      → All IsSound h
      → channel_at i h ≡ some ch
      → ch.listed ≡ true
      → length ch.buffer < 64
      → (h' : Hub Event) × (publish event h ≡ some h')
        × (channel_at i h' ≡ some (with_events ch (event ∷ [])))
        × All IsSound h'
  unfolding publish
  publish-at event [] i ch s at on room = absurd (ground arith)
  publish-at event (x ∷ h) zero ch s at on room =
      let same : x ≡ ch = ground (arith, at) in
      let sent : send_listed event x ≡ some (with_events ch (event ∷ [])) =
        subst (λ c. send_listed event c ≡ some (with_events ch (event ∷ []))) (sym same)
          (send_room event ch (subst IsSound same s.0) on room) in
      let (ch', took, good) = send_listed-IsSound event x s.0 in
      let new : ch' ≡ with_events ch (event ∷ []) = ground (arith, sent, took) in
      let (h', rest, all) = publish-IsSound event h s.1 in
      (ch' ∷ h', rw (took, rest, publish) refl, ap some new, (good, all))
  publish-at event (x ∷ h) (suc i) ch s at on room =
      let (ch', took, good) = send_listed-IsSound event x s.0 in
      let (h', rest, there, all) = publish-at event h i ch s.1 at on room in
      (ch' ∷ h', rw (took, rest, publish) refl, there, (good, all))

  module _ (codec : Codec Event) (text : Event → String) (decoded : Event → Event)
      (written : (e : Event) → codec.marshal e ≡ some (text e))
      (read : (e : Event) → codec.unmarshal (text e) ≡ some (decoded e)) where
    abbrev texts : List Event → List String
    texts [] = []
    texts (e ∷ es) = text e ∷ texts es

    sent_all :
        (hub : Option (Hub Event)) (es : List Event) (sent : List String)
        → publish_all codec (record { has_redis = true; hub = hub }) es sent
          ≡ some (true, sent ++ texts es, hub)
    unfolding publish_all publish_event
    sent_all hub [] sent = ap (λ l. some (true, l, hub)) (sym (append-nil sent))
    sent_all hub (e ∷ es) sent =
        rw (written e, publish_all, publish_event)
          (sent_all hub es (sent ++ text e ∷ [])
            ∙ ap (λ l. some (true, l, hub)) (append_assoc sent (text e ∷ []) (texts es)))

    run_texts :
        (es : List Event) (h : Hub Event) (i : ℕ) (ch : Channel Event)
        → All IsSound h
        → channel_at i h ≡ some ch
        → ch.listed ≡ true
        → length ch.buffer + length es ≤ 64
        → (h' : Hub Event) × (run_events codec (texts es) h ≡ some h')
          × (channel_at i h' ≡ some (with_events ch (map decoded es)))
    unfolding run_events relay
    run_texts [] h i ch s at on room =
        (h, refl, at ∙ ap (λ b. some (record ch { buffer = b })) (sym (append-nil ch.buffer)))
    run_texts (e ∷ es) h i ch s at on room =
        let (h1, published, there, s1) =
          publish-at (decoded e) h i ch s at on (omega (arith, room)) in
        let (h', ran, last) =
          run_texts es h1 i (with_events ch (decoded e ∷ [])) s1 there on
            (omega (arith, room, length-append ch.buffer (decoded e ∷ []))) in
        (
          h',
          rw (read e, published, run_events, relay) ran,
          last
              ∙ ap (λ b. some (record ch { buffer = b }))
                  (append_assoc ch.buffer (decoded e ∷ []) (map decoded es)),
        )

    -- If every event can be marshalled, what a marshalled event unmarshals to is a function of the
    -- event (it need not be the event: a payload that is a struct comes back as a map), and Redis
    -- takes every message, then events published one after another leave the publisher's hub as it
    -- was, and an API process that runs them all through Run, with no other event or goroutine of
    -- its hub in between, has what they unmarshal to, in order and without a panic, behind what
    -- was in the buffer of each listed channel that has room for them.
    pub events_delivered :
        (es : List Event) (publisher : Option (Hub Event)) (h : Hub Event) (i : ℕ)
        (ch : Channel Event)
        → Reachable h
        → channel_at i h ≡ some ch
        → ch.listed ≡ true
        → length ch.buffer + length es ≤ 64
        → (sent : List String) × (h' : Hub Event) × (publish_all codec
              (record { has_redis = true; hub = publisher })
              es
              []
            ≡ some (true, sent, publisher))
          × (run_events codec sent h ≡ some h')
          × (channel_at i h' ≡ some (with_events ch (map decoded es)))
    events_delivered es publisher h i ch r at on room =
        let (h', ran, last) = run_texts es h i ch (Reachable-IsSound r) at on room in
        (texts es, h', sent_all publisher es [], ran, last)
