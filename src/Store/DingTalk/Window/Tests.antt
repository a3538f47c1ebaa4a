-- ===== src/Store/DingTalk/Window/Tests.antt =====
-- internal/store/dingtalk_store.go: a run of three calls, and a call that is overtaken by an answer.
use docker_monitor.Prelude.{List, [], arith, none, refl, ◌∷◌}
use docker_monitor.Store.DingTalk.Window.{
  Window, begin_wait, cancel_wait, finish_wait, note_rate_limit, wait_until,
}
use docker_monitor.Store.DingTalk.Window.Paced.{IsPaced, IsRun-IsPaced}
use docker_monitor.Store.DingTalk.Window.Runs.{Happening, began, canceled, limited_at, sent_at}

abbrev test_window : Window
test_window = record {
  send_interval = 3;
  rate_limit_backoff = 20;
  next_send_at = 0;
  blocked_until = 0;
  waiting = none;
}

-- The second call is cancelled, and the third begins after the answer.
abbrev happenings : List Happening
happenings =
    began ∷ sent_at 5 ∷ limited_at 6 ∷ began ∷ canceled ∷ began ∷ limited_at 7 ∷ sent_at 26 ∷ []

IsRun-IsPaced_example : IsPaced 3 20 happenings
unfolding wait_until begin_wait finish_wait cancel_wait note_rate_limit
IsRun-IsPaced_example =
    IsRun-IsPaced happenings test_window (omega arith) (omega arith)
      (refl, (omega arith, (refl, ((λ e. cc), (refl, (omega arith, tt))))))

-- The answer comes while the second call waits for the interval, which then sends within the back-off.
abbrev paused : Window
paused = record test_window { next_send_at = 8 }
