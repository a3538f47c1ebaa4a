-- ===== src/Store/DingTalk/Window.antt =====
-- internal/store/dingtalk_store.go: waitForSendWindow and noteRateLimit. A call of waitForSendWindow
-- holds sendMu from its begin to its end, but mu only while it reads or writes the window, so a call
-- is two steps, its begin (which reads the time to wait for) and its end (the wait is over, or the
-- context was cancelled), between which noteRateLimit may run.
pub mod Runs
mod Paced
mod Overtaken
mod Tests
use docker_monitor.Model.{Time}
use docker_monitor.Parser.ChainBlocker.{blocked}
use docker_monitor.Prelude.{Option, if◌then◌else◌, leb, ltb, none, some, ℕ, ◌+◌}

-- `waiting` is the local waitUntil of the call that holds sendMu, if one does.
pub record Window : Type 0 where
  pub send_interval : ℕ
  pub rate_limit_backoff : ℕ
  pub next_send_at : Time
  pub blocked_until : Time
  pub waiting : Option Time

-- The time that a call which begins now waits for.
pub wait_until : Window → Time
wait_until s = if ltb s.next_send_at s.blocked_until then s.blocked_until else s.next_send_at

-- waitForSendWindow up to the wait: it has sendMu, and has read the window under mu.
pub begin_wait : Window → Window
unfolding wait_until
begin_wait s = record s { waiting = some (wait_until s) }

-- waitForSendWindow after the wait, where time.Now() is `sent`: it returns nil.
pub finish_wait : Time → Window → Window
finish_wait sent s =
    if ltb 0 s.send_interval
    then record s { next_send_at = sent + s.send_interval; waiting = none }
    else record s { waiting = none }

-- waitForSendWindow where ctx is done during the wait: it returns the error of ctx.
pub cancel_wait : Window → Window
cancel_wait s = record s { waiting = none }

pub note_rate_limit : Time → Window → Window
note_rate_limit now s =
    let blocked = now + s.rate_limit_backoff in
    if leb s.rate_limit_backoff 0
    then s
    else if ltb s.blocked_until blocked
    then record s { blocked_until = blocked }
    else s
