-- ===== src/Store/DingTalk/Payload/Sent.antt =====
-- internal/store/dingtalk_store.go: the messages of AppendBatch.
use mathlib.Core.List.{append-nil, append_assoc}
use docker_monitor.Model.{Errors, LogBatch, LogEvent}
use docker_monitor.Prelude.{
  Bool, Bool-cases, List, [], any, ap, arith, false, if◌then◌else◌, inl, inr, length, ltb, not,
  refl, some, sym, true, ◌&&◌, ◌++◌, ◌==◌, ◌||◌, ◌∙◌, ◌∷◌, ◌≡◌,
}
use docker_monitor.Prelude.Bytes.{Bytes, is_empty, str_eq}
use docker_monitor.Prelude.Bytes.Space.{trim_space}
use docker_monitor.Prelude.Int.{ℤ}
use docker_monitor.Store.DingTalk.Payload.{
  DingTalkSettings, Payload, after_markdown, append_alert, markdown_payload, mention_payload,
  new_ding_talk_store,
}
use docker_monitor.Store.DingTalk.Text.{
  Formats, batch_has_any_level, normalize_level, normalize_levels,
}

-- Whether an event has one of the levels as they are configured, up to space around it and case.
abbrev pub mentions_level : Formats → List Bytes → LogEvent → Bool
mentions_level go levels event =
    any
      (λ level.
        not (is_empty (normalize_level go level))
        && str_eq (normalize_level go level) (normalize_level go event.level))
      levels

normalize_levels-any :
    (go : Formats) (levels : List Bytes) (event : LogEvent)
    → any (λ t. str_eq t (normalize_level go event.level)) (normalize_levels go levels)
      ≡ mentions_level go levels event
unfolding normalize_levels
normalize_levels-any go [] event = refl
normalize_levels-any go (level ∷ levels) event =
    ground (arith, normalize_levels-any go levels event)

no_level :
    (go : Formats) (events : List LogEvent)
    → any (λ (e : LogEvent). any (λ t. str_eq t (normalize_level go e.level)) []) events ≡ false
no_level go [] = refl
no_level go (e ∷ events) = no_level go events

any_same :
    (go : Formats) (levels : List Bytes) (events : List LogEvent)
    → any
        (λ (e : LogEvent).
          any (λ t. str_eq t (normalize_level go e.level)) (normalize_levels go levels))
        events
      ≡ any (mentions_level go levels) events
any_same go levels [] = refl
any_same go levels (e ∷ events) =
    ground (arith, normalize_levels-any go levels e, any_same go levels events)

guarded_any :
    (go : Formats) (targets : List Bytes) (events : List LogEvent)
    → (if length targets == 0
        then false
        else any
            (λ (e : LogEvent). any (λ t. str_eq t (normalize_level go e.level)) targets)
            events)
      ≡ any (λ (e : LogEvent). any (λ t. str_eq t (normalize_level go e.level)) targets) events
guarded_any go [] events = sym (no_level go events)
guarded_any go (t ∷ targets) events =
    let there : (length (t ∷ targets) == 0) ≡ false = ground arith in rw there refl

batch_has_any_level_lem :
    (go : Formats) (levels : List Bytes) (batch : LogBatch)
    → batch_has_any_level go batch (normalize_levels go levels)
      ≡ any (mentions_level go levels) batch.events
unfolding batch_has_any_level
batch_has_any_level_lem go levels batch =
    guarded_any go (normalize_levels go levels) batch.events ∙ any_same go levels batch.events

-- The errors of sending a message, in front of which the messages are logged.
abbrev pub log_send : (Payload → Errors) → Payload → List Payload → Errors × List Payload
log_send errors payload sent = (errors payload, sent ++ payload ∷ [])

-- The messages of a batch that is not kept from alert sinks.
abbrev pub messages_of :
    Formats → DingTalkSettings → (Payload → Errors) → List Bytes → LogBatch → List Payload
messages_of go s errors levels batch =
    let markdown = markdown_payload go s batch in
    markdown
    ∷ (if length (errors markdown) == 0
          && any (mentions_level go levels) batch.events
          && (s.at_all || ltb 0 (length s.at_mobiles))
        then mention_payload s batch s.at_mobiles ∷ []
        else [])

after_markdown-sent :
    (go : Formats) (s : DingTalkSettings) (errors : Payload → Errors) (batch : LogBatch)
    (mentioned : Bool) (es : Errors) (sent : List Payload)
    → (after_markdown go (log_send errors) s batch mentioned (es, sent)).1
      ≡ sent
        ++ (if length es == 0 && mentioned && (s.at_all || ltb 0 (length s.at_mobiles))
            then mention_payload s batch s.at_mobiles ∷ []
            else [])
after_markdown-sent go s errors batch mentioned (e ∷ es) sent =
    let failed_first : (length (e ∷ es) == 0) ≡ false = ground arith in
    rw failed_first (sym (append-nil sent))
after_markdown-sent go s errors batch false [] sent = sym (append-nil sent)
after_markdown-sent go s errors batch true [] sent =
    elim (Bool-cases (s.at_all || ltb 0 (length s.at_mobiles))) [
      | inl someone ↦ rw someone refl
      | inr nobody ↦ rw nobody (sym (append-nil sent))
    ]

settings-levels :
    (go : Formats) (webhook_url : Bytes) (at_all : Bool) (at_mobiles mention_levels : List Bytes)
    (max_events : ℤ) {s : DingTalkSettings}
    → new_ding_talk_store go webhook_url at_all at_mobiles mention_levels max_events ≡ some s
    → s.mention_levels ≡ normalize_levels go mention_levels
unfolding new_ding_talk_store
settings-levels go webhook_url at_all at_mobiles mention_levels max_events {s} h =
    elim (Bool-cases (is_empty (trim_space webhook_url))) [
      | inl nowhere ↦ absurd (ground (arith, h, nowhere))
      | inr there ↦ ground (arith, h, there)
    ]

-- A store that is set up with an address sends nothing of a batch that is kept from alert sinks, and of
-- another one a message with the log; exactly if that is sent without an error, an event of the batch has
-- one of the levels configured, up to space around it and case, and there is someone to mention, a
-- second message mentions them.
pub append_alert-sent :
    (go : Formats) (errors : Payload → Errors) (webhook_url : Bytes) (at_all : Bool)
    (at_mobiles mention_levels : List Bytes) (max_events : ℤ) {s : DingTalkSettings}
    (batch : LogBatch) (sent : List Payload)
    → new_ding_talk_store go webhook_url at_all at_mobiles mention_levels max_events ≡ some s
    → (append_alert go (log_send errors) (some s) batch sent).1
      ≡ sent
        ++ (if batch.suppress_alert_sinks then [] else messages_of go s errors mention_levels batch)
unfolding append_alert new_ding_talk_store
append_alert-sent go errors webhook_url at_all at_mobiles mention_levels max_events {s} batch sent
      h =
    elim (Bool-cases batch.suppress_alert_sinks) [
      | inl kept ↦ rw kept (sym (append-nil sent))
      | inr given ↦
          let levels =
            settings-levels go webhook_url at_all at_mobiles mention_levels max_events h in
          let mentioned : batch_has_any_level go batch s.mention_levels
              ≡ any (mentions_level go mention_levels) batch.events =
            ap (batch_has_any_level go batch) levels
            ∙ batch_has_any_level_lem go mention_levels batch in
          let first = log_send errors (markdown_payload go s batch) sent in
          rw given (
            ap (λ m. (after_markdown go (log_send errors) s batch m first).1) mentioned
            ∙ after_markdown-sent go s errors batch
                (any (mentions_level go mention_levels) batch.events)
                (errors (markdown_payload go s batch)) (sent ++ markdown_payload go s batch ∷ [])
            ∙ append_assoc sent (markdown_payload go s batch ∷ []) _)
    ]
