-- ===== src/Events/Safety.antt =====
-- The interleavings of the goroutines that use a Hub of internal/api/events.go: publishers, the
-- subscribers, and one goroutine per subscription that waits for its end.
use forge_queue.Prelude.{
  ℕ, zero, suc, ◌≤◌, ◌≡◌, refl, ltb, Bool, true, false, not, ◌&&◌, some, [], ◌∷◌, ◌++◌, length,
  length-append, All, arith, Bool-cases, inl, inr, subst,
}
use forge_queue.Tables.Member.{All-map}
use forge_queue.Events.{
  Channel, Hub, new_hub, subscribe, send, send_listed, publish, delisted, shut, change, is_at,
  received,
}

module _ {ℓ} {Event : Type ℓ} where
  -- One step of one goroutine. `ends` is the locked deletion after `<-ctx.Done()`, and `closes` the
  -- `close(ch)` that follows it in the same goroutine.
  pub data Step : Hub Event → Hub Event → Type ℓ where
    subscribes : {h : Hub Event} → Step h (subscribe h)
    publishes : {h h' : Hub Event} (event : Event) → publish event h ≡ some h' → Step h h'
    ends :
        {h : Hub Event} (i : ℕ) → is_at i (λ ch. ch.listed) h ≡ true → Step h (change i delisted h)
    closes :
        {h : Hub Event} (i : ℕ)
        → is_at i (λ ch. not ch.listed && not ch.closed) h ≡ true
        → Step h (change i shut h)
    receives : {h : Hub Event} (i : ℕ) → Step h (change i received h)

  pub data Reachable : Hub Event → Type ℓ where
    starts : Reachable new_hub
    goes : {h h' : Hub Event} → Reachable h → Step h h' → Reachable h'

  -- A channel in `h.clients` is open, and no buffer holds more than 64 events.
  abbrev pub IsSound : Channel Event → Type 0
  IsSound ch = ((ch.listed && ch.closed) ≡ false) × (length ch.buffer ≤ 64)

  All-change :
      (i : ℕ) (f : Channel Event → Channel Event) (p : Channel Event → Bool) (h : Hub Event)
      → ((ch : Channel Event) → p ch ≡ true → IsSound ch → IsSound (f ch))
      → is_at i p h ≡ true
      → All IsSound h
      → All IsSound (change i f h)
  unfolding change
  All-change i f p [] keeps at s = tt
  All-change zero f p (ch ∷ h) keeps at s = (keeps ch at s.0, s.1)
  All-change (suc i) f p (ch ∷ h) keeps at s = (s.0, All-change i f p h keeps at s.1)

  All-change_free :
      (i : ℕ) (f : Channel Event → Channel Event) (h : Hub Event)
      → ((ch : Channel Event) → IsSound ch → IsSound (f ch))
      → All IsSound h
      → All IsSound (change i f h)
  unfolding change
  All-change_free i f [] keeps s = tt
  All-change_free zero f (ch ∷ h) keeps s = (keeps ch s.0, s.1)
  All-change_free (suc i) f (ch ∷ h) keeps s = (s.0, All-change_free i f h keeps s.1)

  pub send_listed-IsSound :
      (event : Event) (ch : Channel Event)
      → IsSound ch
      → (ch' : Channel Event) × (send_listed event ch ≡ some ch') × IsSound ch'
  unfolding send
  send_listed-IsSound event ch s = elim (Bool-cases ch.listed) [
    | inr out ↦ rw out (ch, ground arith, s)
    | inl in_clients ↦
        let unclosed : ch.closed ≡ false = ground arith in
        rw (in_clients, unclosed)
          (elim (Bool-cases (ltb (length ch.buffer) 64)) [
            | inl room ↦ rw room (
              record ch { buffer = ch.buffer ++ event ∷ [] },
              ground arith,
              (ground arith, ground (arith, length-append ch.buffer (event ∷ []))),
            )
            | inr full ↦ rw full (ch, ground arith, s)
          ])
  ]

  pub publish-IsSound :
      (event : Event) (h : Hub Event)
      → All IsSound h
      → (h' : Hub Event) × (publish event h ≡ some h') × All IsSound h'
  unfolding publish
  publish-IsSound event [] s = ([], refl, tt)
  publish-IsSound event (ch ∷ h) s =
      let (ch', sent, good) = send_listed-IsSound event ch s.0 in
      let (h', rest, all) = publish-IsSound event h s.1 in
      (ch' ∷ h', ground (arith, sent, rest), (good, all))

  All-subscribe : (h : Hub Event) → All IsSound h → All IsSound (subscribe h)
  All-subscribe [] s = ((refl, omega arith), tt)
  All-subscribe (ch ∷ h) s = (s.0, All-subscribe h s.1)

  length-received : (ch : Channel Event) → length (received ch).buffer ≤ length ch.buffer
  length-received ch = ground arith

  received_flags :
      (ch : Channel Event) → ((received ch).listed ≡ ch.listed) × ((received ch).closed ≡ ch.closed)
  received_flags ch = ground arith

  Step-IsSound : {h h' : Hub Event} → Step h h' → All IsSound h → All IsSound h'
  Step-IsSound {h = h} subscribes s = All-subscribe h s
  Step-IsSound {h = h} {h' = h'} (publishes event e) s =
      let (h2, e2, good) = publish-IsSound event h s in
      let same : h2 ≡ h' = ground (arith, e2, e) in subst (All IsSound) same good
  Step-IsSound {h = h} (ends i at) s = All-change_free i delisted h (λ ch c. (refl, c.1)) s
  Step-IsSound {h = h} (closes i at) s =
      All-change i shut (λ ch. not ch.listed && not ch.closed) h (λ ch p c. (ground arith, c.1)) at
        s
  Step-IsSound {h = h} (receives i) s =
      All-change_free i received h
        (λ ch c. (ground (arith, received_flags ch), omega (arith, length-received ch, c.1))) s

  pub Reachable-IsSound : {h : Hub Event} → Reachable h → All IsSound h
  Reachable-IsSound starts = tt
  Reachable-IsSound (goes r s) = Step-IsSound s (Reachable-IsSound r)

  -- Whatever publishers, subscribers and the goroutines that end subscriptions have done so far,
  -- Publish does not panic by a send on a closed channel, and leaves no buffer with more than 64
  -- events.
  pub publish_safe :
      {h : Hub Event} (event : Event)
      → Reachable h
      → (h' : Hub Event) × (publish event h ≡ some h') × All (λ ch. length ch.buffer ≤ 64) h'
  publish_safe {h = h} event r =
      let (h', e, s) = publish-IsSound event h (Reachable-IsSound r) in
      (h', e, All-map _ _ h' (λ ch c. c.1) s)
