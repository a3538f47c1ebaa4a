-- ===== src/Store/DingTalk/Window/Runs.antt =====
-- internal/store/dingtalk_store.go: calls of waitForSendWindow, with answers of DingTalk that there are
-- too many messages at any moment, also while a call waits. The time of a message is the clock that
-- its call reads when the wait is over; the request itself follows, outside the window.
use docker_monitor.Model.{Time}
use docker_monitor.Prelude.{List, Option, [], arith, none, some, ◌∷◌, ◌≡◌, ◌≢◌, ◌≤◌}
use docker_monitor.Store.DingTalk.Window.{
  Window, begin_wait, cancel_wait, finish_wait, note_rate_limit,
}

-- What happens to the window: a call begins, its wait ends and it sends, its context is cancelled
-- while it waits, or DingTalk answers another message that there are too many.
pub data Happening : Type 0 where
  began : Happening
  sent_at : Time → Happening
  canceled : Happening
  limited_at : Time → Happening

-- The wait of the call that holds sendMu is over.
abbrev pub IsOver : Time → Option Time → Type 0
IsOver t none = ⊥
IsOver t (some w) = w ≤ t

-- The happenings can take place: one call at a time holds sendMu, and it does not send before the time
-- that it read when it began.
abbrev pub IsRun : List Happening → Window → Type 0
IsRun [] s = Unit
IsRun (began ∷ hs) s = (s.waiting ≡ none) × IsRun hs (begin_wait s)
IsRun (sent_at t ∷ hs) s = IsOver t s.waiting × IsRun hs (finish_wait t s)
IsRun (canceled ∷ hs) s = (s.waiting ≢ none) × IsRun hs (cancel_wait s)
IsRun (limited_at t ∷ hs) s = IsRun hs (note_rate_limit t s)

pub waiting-limited : (t : Time) (s : Window) → (note_rate_limit t s).waiting ≡ s.waiting
unfolding note_rate_limit
waiting-limited t s = ground arith
