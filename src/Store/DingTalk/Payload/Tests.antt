-- ===== src/Store/DingTalk/Payload/Tests.antt =====
-- A batch of one event, and the messages that it gives.
use docker_monitor.Model.{LogBatch, LogEvent, sample_event}
use docker_monitor.Prelude.{
  [], arith, false, if◌then◌else◌, leb, length, refl, some, true, ℕ, ◌&&◌, ◌++◌, ◌-◌, ◌∷◌, ◌≡◌, ◌≢◌,
  ◌≤◌, ◌⊎◌,
}
use docker_monitor.Prelude.Bytes.{Bytes, has_prefix, is_empty, str_eq, text}
use docker_monitor.Prelude.Bytes.Index.{index_byte}
use docker_monitor.Prelude.Bytes.Space.{trim_space}
use docker_monitor.Prelude.Int.{pos}
use docker_monitor.Store.DingTalk.Payload.{
  DingTalkSettings, Payload, append_alert, body, marshal_payload, max_payload_bytes,
  new_ding_talk_store, other_message, text_message,
}
use docker_monitor.Store.DingTalk.Payload.Fits.{cut_at, marshal_payload-fits}
use docker_monitor.Store.DingTalk.Payload.Sent.{append_alert-sent, log_send, messages_of}
use docker_monitor.Store.DingTalk.Text.{
  Formats, build_title, detailed_log, extract_docker_hosts, host_of_container, hosts_from,
  is_health_batch, normalize_levels, render_mobile_mentions, replace_fences,
}
use docker_monitor.Store.DingTalk.Text.Fence.{detailed_log-has_fence, has_fence}

-- ASCII letters only.
abbrev ascii_upper : Bytes → Bytes
ascii_upper [] = []
ascii_upper (c ∷ s) = (if leb 0x61 c && leb c 0x7a then c - 0x20 else c) ∷ ascii_upper s

abbrev formats : Formats
formats = record { to_upper = ascii_upper; decimal = λ n. text "1"; display_time = λ t. text "now" }

abbrev event : LogEvent
event = record (sample_event (text "42") true 1) { level = text "Error"; raw = text " a ```` b " }

abbrev batch : LogBatch
batch = record {
  log_id = text "42";
  first_seen = 1;
  last_seen = 1;
  count = 1;
  containers = text "h1/web" ∷ text "db" ∷ text "h1/api" ∷ [];
  events = event ∷ [];
  flushed_at = 2;
  suppress_alert_sinks = false;
}

abbrev settings : DingTalkSettings
settings = record {
  at_all = false;
  at_mobiles = text "1" ∷ [];
  mention_levels = text "ERROR" ∷ [];
  max_events = pos 5;
}

shown_log : detailed_log event ≡ text "a '''` b"
unfolding detailed_log replace_fences trim_space is_empty
shown_log = refl

title : build_title batch ≡ text "Docker日志告警 42 [h1]"
unfolding build_title is_health_batch extract_docker_hosts hosts_from host_of_container index_byte
    trim_space has_prefix str_eq is_empty
title = refl

-- A blank first mobile leaves its space.
blank_mobile : render_mobile_mentions (text " " ∷ text "1" ∷ []) ≡ text " @1"
unfolding render_mobile_mentions trim_space is_empty
blank_mobile = refl

accepted :
    new_ding_talk_store formats
      (text "u")
      false
      (text "1" ∷ [])
      (text " error" ∷ text " " ∷ [])
      (pos 0)
    ≡ some settings
unfolding new_ding_talk_store normalize_levels trim_space is_empty
accepted = refl

append_alert-sent_example :
    (append_alert formats (log_send (λ p. [])) (some settings) batch []).1
    ≡ [] ++ messages_of formats settings (λ p. []) (text " error" ∷ text " " ∷ []) batch
append_alert-sent_example =
    append_alert-sent formats (λ p. []) (text "u") false (text "1" ∷ [])
      (text " error" ∷ text " " ∷ []) (pos 0) batch [] accepted

detailed_log-has_fence_example : has_fence (detailed_log event) ≡ false
detailed_log-has_fence_example = detailed_log-has_fence event

-- A payload is its text and ten bytes more.
abbrev plain : Payload → Bytes
plain p = p.text_content ++ text "0123456789"

abbrev long_payload : Payload
long_payload = record {
  msg_type = text_message;
  markdown_title = [];
  markdown_text = [];
  text_content = text "x";
  at_mobiles = [];
  is_at_all = false;
}

text_is_known : text_message ≢ other_message
text_is_known h = cc

marshal_payload-fits_example :
    (sent : Payload) × (marshal_payload plain long_payload ≡ body (plain sent))
    × (length (plain sent) ≤ max_payload_bytes)
    × ((sent ≡ long_payload) ⊎ ((n : ℕ) × (sent ≡ cut_at plain text_message long_payload n)))
marshal_payload-fits_example = marshal_payload-fits plain long_payload text_is_known (ground arith)
