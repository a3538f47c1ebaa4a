-- ===== src/Aggregator/Touch.antt =====
-- internal/aggregator/aggregator.go: what add does to the buffer of an event.
use docker_monitor.Aggregator.{max_buffered_events, touch}
use docker_monitor.Aggregator.Evict.{GroupBuffer}
use docker_monitor.Model.{LogEvent, Time}
use docker_monitor.Prelude.{
  Bool, List, [], any, ap, arith, if◌then◌else◌, length, length-append, ltb, refl, suc, true, zero,
  ℕ, ◌++◌, ◌+◌, ◌<◌, ◌==◌, ◌||◌, ◌∷◌, ◌≡◌,
}
use docker_monitor.Prelude.Int.{below, negsuc, pos, ℤ}

pub max_buffered_events_pos : (flush_size : ℤ) → 0 < max_buffered_events flush_size
unfolding max_buffered_events
max_buffered_events_pos (negsuc n) = omega arith
max_buffered_events_pos (pos zero) = omega arith
max_buffered_events_pos (pos (suc n)) = ground arith

-- A group may always grow to the size at which it is flushed.
pub below-max_buffered_events :
    (flush_size : ℤ) (n : ℕ) → below n flush_size ≡ true → n < max_buffered_events flush_size
unfolding max_buffered_events
below-max_buffered_events (negsuc m) n h = cc
below-max_buffered_events (pos zero) n h = ground arith
below-max_buffered_events (pos (suc m)) n h = ground arith

-- The flag of the buffer says whether it holds an alert.
abbrev pub IsFlagged : GroupBuffer → Type 0
IsFlagged b = b.has_alert ≡ any (λ (e : LogEvent). e.alert_matched) b.events

any-concat :
    (p : LogEvent → Bool) (es : List LogEvent) (e : LogEvent)
    → any p (es ++ e ∷ []) ≡ (any p es || p e)
any-concat p [] e = ground arith
any-concat p (x ∷ es) e = ground (arith, any-concat p es e)

module _ (max_group_size : ℕ) (event : LogEvent) (now : Time) (b : GroupBuffer)
    (room : length b.events < max_group_size) where
  -- No event is cut off.
  pub events-touch : (touch max_group_size event now b).events ≡ b.events ++ event ∷ []
  unfolding touch
  events-touch = ground (arith, length-append b.events (event ∷ []))

  pub length-touch : length (touch max_group_size event now b).events ≡ length b.events + 1
  length-touch = rw events-touch (omega (arith, length-append b.events (event ∷ [])))

  pub has_alert-touch :
      (touch max_group_size event now b).has_alert ≡ (b.has_alert || event.alert_matched)
  unfolding touch
  has_alert-touch = refl

  pub touch-IsFlagged : IsFlagged b → IsFlagged (touch max_group_size event now b)
  touch-IsFlagged f =
      rw (events-touch, has_alert-touch, any-concat)
        (cc (ap (λ (h : Bool). h || event.alert_matched) f))

  pub first_seen-touch : (touch max_group_size event now b).first_seen ≡ (
      if b.first_seen == 0 || ltb event.timestamp b.first_seen
      then event.timestamp
      else b.first_seen)
  unfolding touch
  first_seen-touch = ground (arith, length-append b.events (event ∷ []))
