-- ===== src/Store/DingTalk/Window/Overtaken.antt =====
-- internal/store/dingtalk_store.go: answers of too many messages while a call of waitForSendWindow waits.
use docker_monitor.Model.{Time}
use docker_monitor.Prelude.{List, [], ◌++◌, ◌∷◌}
use docker_monitor.Store.DingTalk.Window.{Window}
use docker_monitor.Store.DingTalk.Window.Runs.{Happening, limited_at, sent_at}

-- Answers of too many, at these times.
abbrev pub answers : List Time → List Happening
answers [] = []
answers (t ∷ ts) = limited_at t ∷ answers ts

abbrev sent_after : List Time → Time → List Happening
sent_after ts sent = answers ts ++ sent_at sent ∷ []
