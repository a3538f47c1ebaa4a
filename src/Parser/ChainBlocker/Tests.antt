-- ===== src/Parser/ChainBlocker/Tests.antt =====
-- A blocker of 10 time units and two ids.
use docker_monitor.Parser.ChainBlocker.{ChainBlocker, block, blocked}
use docker_monitor.Parser.ChainBlocker.History.{
  Call, ask_at, block_at, blocker, is_silent, run, run-blocked, run-blocked_sound,
}
use docker_monitor.Prelude.{List, [], arith, false, length, not, refl, some, ◌&&◌, ◌∷◌, ◌≡◌, ◌≤◌}
use docker_monitor.Prelude.Assoc.{insert, lookup}
use docker_monitor.Prelude.Bytes.{is_empty, str_eq, text}

abbrev calls : List Call
calls = ask_at (text "b") 12 ∷ block_at (text "b") 4 ∷ block_at (text "a") 3 ∷ []

abbrev after_calls : ChainBlocker
after_calls = blocker 10 2 ((text "a", 13) ∷ (text "b", 14) ∷ [])

after_calls_lem : run (some (blocker 10 2 [])) calls ≡ some after_calls
unfolding block blocked insert lookup str_eq is_empty
after_calls_lem = refl

run-blocked_sound_example :
    (length after_calls.entries ≤ 2)
    × (((blocked (text "b") 13 (some after_calls)).0 && not (is_silent 10 (text "b") 13 calls))
        ≡ false)
run-blocked_sound_example = run-blocked_sound 10 2 calls (text "b") 13 after_calls after_calls_lem

run-blocked_example :
    (blocked (text "b") 13 (run (some (blocker 10 3 [])) calls)).0
    ≡ is_silent 10 (text "b") 13 calls
run-blocked_example = run-blocked 10 3 calls (text "b") 13 (omega arith) (omega arith, tt)
