-- ===== src/Examples/Others.antt =====
-- The theorems on the retry delay, the token bucket and the event hub, applied.
use forge_queue.Prelude.{
  ℕ, ◌+◌, ◌-◌, ◌*◌, refl, String, Bool, List, true, false, ◌≤◌, ◌<◌, none, some, [], ◌∷◌, ◌≡◌, pos,
  negsuc, arith, min, All, length,
}
use forge_queue.Queue.Backoff.{Float, cap_delay, backoff_delay}
use forge_queue.Queue.Delays.{backoff_delay_bounds}
use forge_queue.RateLimit.{Limiter, admitted}
use forge_queue.RateLimit.Bound.{empty_bucket, admitted_le}
use forge_queue.Events.{Hub, new_hub, subscribe, publish}
use forge_queue.Events.Bus.{Codec, run_events}
use forge_queue.Events.Bus.Delivery.{channel_at, with_events, publish_all, events_delivered}
use forge_queue.Events.Safety.{starts, goes, subscribes, publish_safe}

-- What amd64 makes of a number out of range.
abbrev amd64 : Float
amd64 = record { out_of_range = λ x. negsuc 9223372036854775807 }

backoff_delay_bounds_example :
    (n : ℕ) × (backoff_delay amd64 (pos 1000000000) (pos 3) (some (λ b. 250)) ≡ pos n)
    × (min 8000000000 cap_delay ≤ n)
    × (n < 9000000000)
    × (n ≤ cap_delay)
backoff_delay_bounds_example =
    backoff_delay_bounds amd64 (pos 1000000000) (pos 3) (λ b. 250) (omega arith) (omega arith)

abbrev limiter : Limiter
limiter = record { rate = 2; burst = 3 }

admitted_le_example :
    1000 * admitted limiter empty_bucket (5000 ∷ 5100 ∷ 5200 ∷ 5300 ∷ 90000 ∷ [])
    ≤ 1000 * 3 + (90000 - 5000) * 2
admitted_le_example =
    admitted_le limiter 5000 (5100 ∷ 5200 ∷ 5300 ∷ 90000 ∷ []) (omega arith)
      (omega arith, (omega arith, (omega arith, (omega arith, tt))))

abbrev hub : Hub ℕ
hub = subscribe new_hub

publish_safe_example :
    (h' : Hub ℕ) × (publish 42 hub ≡ some h') × All (λ ch. length ch.buffer ≤ 64) h'
publish_safe_example = publish_safe 42 (goes starts subscribes)

-- An event's type, and whether its payload still is a struct: what is decoded is a map.
abbrev Announcement : Type 0
Announcement = String × Bool

abbrev any_codec : Codec Announcement
any_codec = record { marshal = λ e. some e.0; unmarshal = λ s. some (s, false) }

abbrev one_subscriber : Hub Announcement
one_subscriber = subscribe new_hub

abbrev announcements : List Announcement
announcements = ("job.started", true) ∷ ("stats.tick", false) ∷ []

events_delivered_example :
    (sent : List String) × (h' : Hub Announcement) × (publish_all any_codec
        (record { has_redis = true; hub = none })
        announcements
        []
      ≡ some (true, sent, none))
    × (run_events any_codec sent one_subscriber ≡ some h')
    × (channel_at 0 h'
        ≡ some (
            with_events
              (record { buffer = []; listed = true; closed = false })
              (("job.started", false) ∷ ("stats.tick", false) ∷ [])))
events_delivered_example =
    events_delivered any_codec (λ e. e.0) (λ e. (e.0, false)) (λ e. refl) (λ e. refl) announcements
      none one_subscriber 0 (record { buffer = []; listed = true; closed = false })
      (goes starts subscribes) refl refl (omega arith)
