-- ===== src/Store/DingTalk/Payload.antt =====
-- internal/store/dingtalk_store.go: payloads, their truncation, and AppendBatch.
pub mod Fits
pub mod Sent
mod Tests
use docker_monitor.Model.{Errors, LogBatch}
use docker_monitor.Prelude.{
  Bool, List, Option, [], false, if◌then◌else◌, leb, length, ltb, none, not, some, ℕ, ◌||◌, ◌∷◌,
}
use docker_monitor.Prelude.Bytes.{Bytes, is_empty}
use docker_monitor.Prelude.Bytes.Space.{trim_space}
use docker_monitor.Prelude.Int.{is_nonpositive, pos, ℤ}
use docker_monitor.Store.DingTalk.Text.{
  Formats, batch_has_any_level, build_markdown, build_mention_text, build_title, mentioned_mobiles,
  normalize_levels,
}
use docker_monitor.Store.DingTalk.Truncate.{truncate_payload_string}

-- The type of a message; `other` stands for every text but the two that the code tells apart.
pub data MsgType : Type 0 where
  markdown_message : MsgType
  text_message : MsgType
  other_message : MsgType

-- dingTalkPayload with its bodies.
pub record Payload : Type 0 where
  pub msg_type : MsgType
  pub markdown_title : Bytes
  pub markdown_text : Bytes
  pub text_content : Bytes
  pub at_mobiles : List Bytes
  pub is_at_all : Bool

-- maxDingTalkPayloadBytes
abbrev pub max_payload_bytes : ℕ
max_payload_bytes = 20000

pub data Marshalled : Type 0 where
  body : Bytes → Marshalled
  exceeds : Marshalled
  exceeds_after_truncation : Marshalled

abbrev pub with_markdown : Payload → Bytes → Payload
with_markdown payload content = record payload { markdown_text = content }

abbrev pub with_content : Payload → Bytes → Payload
with_content payload content = record payload { text_content = content }

-- `marshal` is json.Marshal, which returns no error on such a struct.
module _ (marshal : Payload → Bytes) where
  abbrev pub is_small : Payload → Bool
  is_small payload = leb (length (marshal payload)) max_payload_bytes

  abbrev pub put_back : (Bytes → Payload) → Option Bytes → Option Payload
  put_back build none = none
  put_back build (some content) = some (build content)

  -- truncateDingTalkPayload: none where it is not ok.
  abbrev pub truncate_by_type : MsgType → Payload → Option Payload
  truncate_by_type markdown_message payload = put_back (with_markdown payload) (
      truncate_payload_string (λ content. is_small (with_markdown payload content))
        payload.markdown_text)
  truncate_by_type text_message payload = put_back (with_content payload) (
      truncate_payload_string (λ content. is_small (with_content payload content))
        payload.text_content)
  truncate_by_type other_message payload = none

  unfoldable pub truncate_payload : Payload → Option Payload
  unfolding truncate_payload_string
  truncate_payload payload = truncate_by_type payload.msg_type payload

  abbrev pub marshal_trimmed : Option Payload → Marshalled
  marshal_trimmed none = exceeds
  marshal_trimmed (some payload) =
      if is_small payload then body (marshal payload) else exceeds_after_truncation

  -- marshalDingTalkPayload
  unfoldable pub marshal_payload : Payload → Marshalled
  unfolding truncate_payload
  marshal_payload payload =
      if is_small payload
      then body (marshal payload)
      else marshal_trimmed (truncate_payload payload)

-- The settings of a store.
pub record DingTalkSettings : Type 0 where
  pub at_all : Bool
  pub at_mobiles : List Bytes
  pub mention_levels : List Bytes
  pub max_events : ℤ

-- NewDingTalkStore, of what AppendBatch reads; none where there is no address.
unfoldable pub new_ding_talk_store :
    Formats → Bytes → Bool → List Bytes → List Bytes → ℤ → Option DingTalkSettings
unfolding normalize_levels trim_space is_empty
new_ding_talk_store go webhook_url at_all at_mobiles mention_levels max_events =
    if is_empty (trim_space webhook_url)
    then none
    else some (record {
      at_all = at_all;
      at_mobiles = at_mobiles;
      mention_levels = normalize_levels go mention_levels;
      max_events = if is_nonpositive max_events then pos 5 else max_events;
    })

unfoldable pub markdown_payload : Formats → DingTalkSettings → LogBatch → Payload
unfolding build_title build_markdown
markdown_payload go s batch = record {
  msg_type = markdown_message;
  markdown_title = build_title batch;
  markdown_text = build_markdown go batch s.max_events;
  text_content = [];
  at_mobiles = [];
  is_at_all = false;
}

unfoldable pub mention_payload : DingTalkSettings → LogBatch → List Bytes → Payload
unfolding build_mention_text
mention_payload s batch at_mobiles = record {
  msg_type = text_message;
  markdown_title = [];
  markdown_text = [];
  text_content = build_mention_text batch s.at_all at_mobiles;
  at_mobiles = at_mobiles;
  is_at_all = s.at_all;
}

-- `send` is sendPayload on a state S.
module _ {S : Type 0} (go : Formats) (send : Payload → S → Errors × S) where
  abbrev pub send_mention : DingTalkSettings → LogBatch → List Bytes → S → Errors × S
  send_mention s batch at_mobiles st =
      if s.at_all || ltb 0 (length at_mobiles)
      then send (mention_payload s batch at_mobiles) st
      else ([], st)

  -- What follows the first message, whose error is given.
  abbrev pub after_markdown : DingTalkSettings → LogBatch → Bool → Errors × S → Errors × S
  after_markdown s batch should_mention (e ∷ es, st) = (e ∷ es, st)
  after_markdown s batch should_mention ([], st) =
      if not should_mention
      then ([], st)
      else send_mention s batch (mentioned_mobiles s.at_mobiles should_mention) st

  -- AppendBatch
  unfoldable pub append_alert : Option DingTalkSettings → LogBatch → S → Errors × S
  unfolding batch_has_any_level markdown_payload mention_payload
  append_alert none batch st = ([], st)
  append_alert (some s) batch st =
      if batch.suppress_alert_sinks
      then ([], st)
      else after_markdown s batch (batch_has_any_level go batch s.mention_levels)
          (send (markdown_payload go s batch) st)
