-- ===== src/Store/File/Tests.antt =====
-- Batches of one day, of which one is a health report, and one that could not be opened; a batch without
-- a time, which goes to the day of the clock.
use docker_monitor.Model.{LogBatch, sample_event}
use docker_monitor.Prelude.{List, [], false, if◌then◌else◌, refl, true, ◌++◌, ◌==◌, ◌∷◌, ◌≡◌}
use docker_monitor.Prelude.Bytes.{Bytes, str_eq, text}
use docker_monitor.Prelude.Bytes.Space.{trim_space}
use docker_monitor.Store.File.{FileFormats, appended, content, open_failed, sync_failed}
use docker_monitor.Store.File.Appended.{FileCall, append_calls, append_calls-content, written_to}

abbrev day_format : FileFormats
day_format = record {
  month = λ t. text "m";
  date = λ t. if t == 1 then text "d" else text "e";
  join_path = λ a b. a ++ text "/" ++ b;
  encode = λ b. b.log_id ++ text "\n";
}

abbrev batch_of : Bytes → LogBatch
batch_of id = record {
  log_id = id;
  first_seen = 1;
  last_seen = 1;
  count = 1;
  containers = [];
  events = sample_event id true 1 ∷ [];
  flushed_at = 2;
  suppress_alert_sinks = false;
}

abbrev calls : List FileCall
calls =
    record { progress = appended; batch = batch_of (text "1"); now = 5 }
    ∷ record { progress = appended; batch = batch_of (text "monitor.health.x"); now = 5 }
    ∷ record { progress = open_failed (text "full"); batch = batch_of (text "2"); now = 5 }
    ∷ record {
      progress = appended;
      batch = record (batch_of (text "4")) { last_seen = 0 };
      now = 5;
    }
    ∷ record { progress = sync_failed (text "slow"); batch = batch_of (text "3"); now = 5 }
    ∷ []

append_calls-content_example :
    content (text "o/m/d.jsonl") (append_calls day_format (text "o") calls [])
    ≡ content (text "o/m/d.jsonl") [] ++ written_to day_format (text "o") (text "o/m/d.jsonl") calls
append_calls-content_example =
    append_calls-content day_format (text "o") calls (text "o/m/d.jsonl") []

two_lines : written_to day_format (text "o") (text "o/m/d.jsonl") calls ≡ text "1\n3\n"
unfolding trim_space str_eq
two_lines = refl

clock_line : written_to day_format (text "o") (text "o/m/e.jsonl") calls ≡ text "4\n"
unfolding trim_space str_eq
clock_line = refl
