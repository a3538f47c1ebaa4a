-- ===== src/Store/DingTalk/Window/Paced.antt =====
-- internal/store/dingtalk_store.go: how far apart the messages of a run are.
use docker_monitor.Model.{Time}
use docker_monitor.Prelude.{List, Option, [], arith, none, refl, some, ℕ, ◌+◌, ◌<◌, ◌∷◌, ◌≡◌, ◌≤◌}
use docker_monitor.Store.DingTalk.Window.{
  Window, begin_wait, cancel_wait, finish_wait, note_rate_limit, wait_until,
}
use docker_monitor.Store.DingTalk.Window.Runs.{
  Happening, IsOver, IsRun, began, canceled, limited_at, sent_at, waiting-limited,
}

-- Every message is sent at `bound` or later.
abbrev pub SentFrom : Time → List Happening → Type 0
SentFrom bound [] = Unit
SentFrom bound (sent_at t ∷ hs) = (bound ≤ t) × SentFrom bound hs
SentFrom bound (_ ∷ hs) = SentFrom bound hs

-- Every message of a call that has yet to begin is sent at `bound` or later.
abbrev pub BegunFrom : Time → List Happening → Type 0
BegunFrom bound [] = Unit
BegunFrom bound (began ∷ hs) = SentFrom bound hs
BegunFrom bound (_ ∷ hs) = BegunFrom bound hs

-- Every message comes `interval` or more after each one before it, and `backoff` or more after each
-- answer of too many that came before its call began.
abbrev pub IsPaced : ℕ → ℕ → List Happening → Type 0
IsPaced interval backoff [] = Unit
IsPaced interval backoff (sent_at t ∷ hs) = SentFrom (t + interval) hs × IsPaced interval backoff hs
IsPaced interval backoff (limited_at t ∷ hs) =
    BegunFrom (t + backoff) hs × IsPaced interval backoff hs
IsPaced interval backoff (_ ∷ hs) = IsPaced interval backoff hs

-- What the waiting call waits for is not before the bound.
abbrev WaitsFrom : Time → Option Time → Type 0
WaitsFrom bound none = Unit
WaitsFrom bound (some w) = bound ≤ w

WaitsFrom-IsOver :
    (bound t : Time) (waiting : Option Time)
    → WaitsFrom bound waiting
    → IsOver t waiting
    → bound ≤ t
WaitsFrom-IsOver bound t none h over = absurd over
WaitsFrom-IsOver bound t (some w) h over = omega (arith, h, over)

wait_until-finish :
    (bound t : Time) (s : Window)
    → bound ≤ t
    → bound ≤ wait_until s
    → bound ≤ wait_until (finish_wait t s)
unfolding wait_until finish_wait
wait_until-finish bound t s h le = ground arith

wait_until-limited : (t : Time) (s : Window) → wait_until s ≤ wait_until (note_rate_limit t s)
unfolding wait_until note_rate_limit
wait_until-limited t s = ground arith

waiting-finish : (t : Time) (s : Window) → (finish_wait t s).waiting ≡ none
unfolding finish_wait
waiting-finish t s = ground arith

-- A bound that the window and the waiting call wait for holds of all that is sent.
sent_from :
    (bound : Time) (hs : List Happening) (s : Window)
    → bound ≤ wait_until s
    → WaitsFrom bound s.waiting
    → IsRun hs s
    → SentFrom bound hs
unfolding begin_wait cancel_wait wait_until
sent_from bound [] s le h w = tt
sent_from bound (began ∷ hs) s le h w = sent_from bound hs (begin_wait s) le le w.1
sent_from bound (sent_at t ∷ hs) s le h w =
    let late = WaitsFrom-IsOver bound t s.waiting h w.0 in
    let free : WaitsFrom bound (finish_wait t s).waiting = rw (waiting-finish t s) tt in
    (late, sent_from bound hs (finish_wait t s) (wait_until-finish bound t s late le) free w.1)
sent_from bound (canceled ∷ hs) s le h w = sent_from bound hs (cancel_wait s) le tt w.1
sent_from bound (limited_at t ∷ hs) s le h w =
    let held : WaitsFrom bound (note_rate_limit t s).waiting = rw (waiting-limited t s) h in
    sent_from bound hs (note_rate_limit t s) (omega (arith, wait_until-limited t s)) held w

blocked_until-finish : (t : Time) (s : Window) → (finish_wait t s).blocked_until ≡ s.blocked_until
unfolding finish_wait
blocked_until-finish t s = ground arith

blocked_until-limited :
    (t : Time) (s : Window) → s.blocked_until ≤ (note_rate_limit t s).blocked_until
unfolding note_rate_limit
blocked_until-limited t s = ground arith

blocked_until-wait : (s : Window) → s.blocked_until ≤ wait_until s
unfolding wait_until
blocked_until-wait s = ground arith

-- The end of the block holds of the calls that have yet to begin.
begun_from :
    (bound : Time) (hs : List Happening) (s : Window)
    → bound ≤ s.blocked_until
    → IsRun hs s
    → BegunFrom bound hs
unfolding begin_wait cancel_wait wait_until
begun_from bound [] s le w = tt
begun_from bound (began ∷ hs) s le w =
    let from_now : bound ≤ wait_until s = omega (arith, le, blocked_until-wait s) in
    sent_from bound hs (begin_wait s) from_now from_now w.1
begun_from bound (sent_at t ∷ hs) s le w =
    let still : bound ≤ (finish_wait t s).blocked_until = rw (blocked_until-finish t s) le in
    begun_from bound hs (finish_wait t s) still w.1
begun_from bound (canceled ∷ hs) s le w = begun_from bound hs (cancel_wait s) le w.1
begun_from bound (limited_at t ∷ hs) s le w =
    begun_from bound hs (note_rate_limit t s) (omega (arith, le, blocked_until-limited t s)) w

wait_until-sent :
    (interval : ℕ) (t : Time) (s : Window)
    → 0 < interval
    → s.send_interval ≡ interval
    → t + interval ≤ wait_until (finish_wait t s)
unfolding wait_until finish_wait
wait_until-sent interval t s h e = ground (arith, h, e)

blocked_until-noted :
    (backoff : ℕ) (t : Time) (s : Window)
    → 0 < backoff
    → s.rate_limit_backoff ≡ backoff
    → t + backoff ≤ (note_rate_limit t s).blocked_until
unfolding note_rate_limit
blocked_until-noted backoff t s h e = ground (arith, h, e)

module _ (interval backoff : ℕ) (some_interval : 0 < interval) (some_backoff : 0 < backoff) where
  HasSettings : Window → Type 0
  HasSettings s = (s.send_interval ≡ interval) × (s.rate_limit_backoff ≡ backoff)

  HasSettings-finish : (t : Time) (s : Window) → HasSettings s → HasSettings (finish_wait t s)
  unfolding finish_wait HasSettings
  HasSettings-finish t s h = ground arith

  HasSettings-limited : (t : Time) (s : Window) → HasSettings s → HasSettings (note_rate_limit t s)
  unfolding note_rate_limit HasSettings
  HasSettings-limited t s h = ground arith

  paced :
      (hs : List Happening) (s : Window) → HasSettings s → IsRun hs s → IsPaced interval backoff hs
  unfolding begin_wait cancel_wait HasSettings
  paced [] s set w = tt
  paced (began ∷ hs) s set w = paced hs (begin_wait s) set w.1
  paced (sent_at t ∷ hs) s set w =
      let later = wait_until-sent interval t s some_interval set.0 in
      let free : WaitsFrom (t + interval) (finish_wait t s).waiting = rw (waiting-finish t s) tt in
      (
        sent_from (t + interval) hs (finish_wait t s) later free w.1,
        paced hs (finish_wait t s) (HasSettings-finish t s set) w.1,
      )
  paced (canceled ∷ hs) s set w = paced hs (cancel_wait s) set w.1
  paced (limited_at t ∷ hs) s set w =
      let noted = blocked_until-noted backoff t s some_backoff set.1 in
      (
        begun_from (t + backoff) hs (note_rate_limit t s) noted w,
        paced hs (note_rate_limit t s) (HasSettings-limited t s set) w,
      )

-- With a positive interval and back-off, where calls begin, wait, send and are cancelled one at a
-- time, and answers of too many messages come at any moment: each message is sent at least the
-- interval after every earlier one, and at least the back-off after every answer of too many that
-- came before its own call began.
pub IsRun-IsPaced :
    (hs : List Happening) (s : Window)
    → 0 < s.send_interval
    → 0 < s.rate_limit_backoff
    → IsRun hs s
    → IsPaced s.send_interval s.rate_limit_backoff hs
unfolding HasSettings
IsRun-IsPaced hs s hi hb w = paced s.send_interval s.rate_limit_backoff hi hb hs s (refl, refl) w
