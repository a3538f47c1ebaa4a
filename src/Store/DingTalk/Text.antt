-- ===== src/Store/DingTalk/Text.antt =====
-- internal/store/dingtalk_store.go: the text of messages, from extractDockerHosts and isHealthBatch to
-- buildDingTalkMarkdown and buildDingTalkMentionText.
pub mod Fence
pub mod Hosts
use docker_monitor.Model.{LogBatch, LogEvent, Time, sample_event}
use docker_monitor.Parser.Extract.{first}
use docker_monitor.Prelude.{
  Bool, List, Option, [], any, drop, false, if◌then◌else◌, leb, length, ltb, none, some, suc, take,
  true, zero, ℕ, ◌&&◌, ◌++◌, ◌-◌, ◌==◌, ◌||◌, ◌∷◌,
}
use docker_monitor.Prelude.Bytes.{Bytes, has_prefix, is_empty, str_eq, text}
use docker_monitor.Prelude.Bytes.Index.{index_byte}
use docker_monitor.Prelude.Bytes.Space.{trim_space}
use docker_monitor.Prelude.Int.{clamp_zero, is_nonpositive, ℤ}

-- What the text takes from the Go library: strings.ToUpper, the decimal digits of %d, and a time in the
-- location and layout of formatDisplayTimeInLocation.
pub record Formats : Type 0 where
  pub to_upper : Bytes → Bytes
  pub decimal : ℕ → Bytes
  pub display_time : Time → Bytes

-- extractDockerHosts: the host that a container's name begins with, none where there is none.
abbrev pub host_before : Bytes → Option ℕ → Option Bytes
host_before name none = none
host_before name (some index) =
    let host = trim_space (take index name) in
    if leb index 0 || is_empty host then none else some host

unfoldable pub host_of_container : Bytes → Option Bytes
unfolding trim_space is_empty index_byte
host_of_container name = host_before name (index_byte b'/' name)

abbrev pub add_host : Option Bytes → List Bytes → List Bytes
add_host none hosts = hosts
add_host (some host) hosts = if any (λ h. str_eq h host) hosts then hosts else hosts ++ host ∷ []

unfoldable pub hosts_from : List Bytes → List Bytes → List Bytes
unfolding host_of_container str_eq
hosts_from hosts [] = hosts
hosts_from hosts (name ∷ containers) =
    hosts_from (add_host (host_of_container name) hosts) containers

unfoldable pub extract_docker_hosts : LogBatch → List Bytes
unfolding hosts_from
extract_docker_hosts batch = hosts_from [] batch.containers

abbrev pub health_prefix : Bytes
health_prefix = text "monitor.health."

unfoldable pub is_health_batch : LogBatch → Bool
unfolding has_prefix trim_space
is_health_batch batch = has_prefix (trim_space batch.log_id) health_prefix

-- strings.TrimPrefix
abbrev pub trim_prefix : Bytes → Bytes → Bytes
trim_prefix s prefix = if has_prefix s prefix then drop (length prefix) s else s

unfoldable pub health_component : Bytes → Bytes
unfolding has_prefix trim_space
health_component log_id = trim_prefix (trim_space log_id) health_prefix

-- emptyAsDash
unfoldable pub empty_as_dash : Bytes → Bytes
unfolding trim_space is_empty
empty_as_dash value = if is_empty (trim_space value) then text "-" else value

-- strings.Join
abbrev pub join : Bytes → List Bytes → Bytes
join sep [] = []
join sep (s ∷ []) = s
join sep (s ∷ t ∷ rest) = s ++ sep ++ join sep (t ∷ rest)

-- strings.ReplaceAll(text, "```", "'''")
unfoldable pub replace_fences : Bytes → Bytes
replace_fences (a ∷ b ∷ c ∷ s) =
    let later = replace_fences (b ∷ c ∷ s) in
    let beyond = replace_fences s in
    if a == 0x60 && b == 0x60 && c == 0x60 then 0x27 ∷ 0x27 ∷ 0x27 ∷ beyond else a ∷ later
replace_fences s = s

-- maxDetailLength
abbrev pub max_detail_length : ℕ
max_detail_length = 5000

abbrev pub cut_detail : Bytes → Bytes
cut_detail s =
    if ltb max_detail_length (length s) then take max_detail_length s ++ text "\n... (已截断)" else s

unfoldable pub detailed_log : LogEvent → Bytes
unfolding replace_fences trim_space is_empty
detailed_log event =
    let raw = trim_space event.raw in
    let detail = if is_empty raw then trim_space event.message else raw in
    if is_empty detail then text "-" else cut_detail (replace_fences detail)

-- buildDingTalkTitle
unfoldable pub build_title : LogBatch → Bytes
unfolding is_health_batch extract_docker_hosts is_empty
build_title batch =
    let prefix = if is_health_batch batch then text "Docker监控健康告警 " else text "Docker日志告警 " in
    let hosts = extract_docker_hosts batch in
    prefix
    ++ batch.log_id
    ++ (if length hosts == 0 then [] else text " [" ++ join (text ",") hosts ++ text "]")

-- renderMobileMentions; `first` is whether the mobile is at place 0.
abbrev pub render_from : Bool → List Bytes → Bytes
render_from first [] = []
render_from first (given ∷ mobiles) =
    let mobile = trim_space given in
    let rest = render_from false mobiles in
    if is_empty mobile then rest else (if first then [] else text " ") ++ text "@" ++ mobile ++ rest

unfoldable pub render_mobile_mentions : List Bytes → Bytes
unfolding trim_space is_empty
render_mobile_mentions = render_from true

-- firstBatchEvent
abbrev pub first_batch_event : List LogEvent → LogEvent
first_batch_event [] = sample_event [] false 0
first_batch_event (e ∷ es) = e

module _ (go : Formats) where
  -- The line with a key and a value in it.
  abbrev pub entry : Bytes → Bytes → Bytes
  entry key value = text "- " ++ key ++ text ": `" ++ value ++ text "`\n"

  abbrev pub hosts_entry : LogBatch → Bytes
  hosts_entry batch =
      let hosts = extract_docker_hosts batch in
      if length hosts == 0 then [] else entry (text "主机") (join (text ", ") hosts)

  -- formatDisplayTimeInLocation
  abbrev pub format_display_time : Time → Bytes
  format_display_time ts = if ts == 0 then text "-" else go.display_time ts

  abbrev pub fenced : LogEvent → Bytes
  fenced event = text "```\n" ++ detailed_log event ++ text "\n```\n"

  -- The loop over the events, with the number of events to show and the number left out then.
  abbrev pub show_events : ℕ → ℕ → List LogEvent → Bytes
  show_events room omitted [] = []
  show_events zero omitted (event ∷ events) =
      text "\n- 其余 `" ++ go.decimal omitted ++ text "` 条日志已省略"
  show_events (suc room) omitted (event ∷ events) =
      text "\n- `"
      ++ format_display_time event.timestamp
      ++ text "` `"
      ++ event.container.name
      ++ text "` `"
      ++ empty_as_dash event.level
      ++ text "`"
      ++ text "\n\n"
      ++ fenced event
      ++ show_events room omitted events

  -- buildHealthDingTalkMarkdown
  unfoldable pub build_health_markdown : LogBatch → Bytes
  unfolding build_title extract_docker_hosts health_component detailed_log empty_as_dash trim_space
  build_health_markdown batch =
      let event = first_batch_event batch.events in
      text "### "
      ++ build_title batch
      ++ text "\n\n"
      ++ hosts_entry batch
      ++ entry (text "状态") (empty_as_dash event.level)
      ++ entry (text "组件") (health_component batch.log_id)
      ++ entry (text "时间") (format_display_time event.timestamp)
      ++ entry (text "容器") (join (text ", ") batch.containers)
      ++ text "\n#### 说明\n\n"
      ++ trim_space event.message
      ++ text "\n\n#### 详情\n\n"
      ++ fenced event

  -- buildDingTalkMarkdown
  unfoldable pub build_markdown : LogBatch → ℤ → Bytes
  unfolding build_health_markdown build_title extract_docker_hosts is_health_batch
  build_markdown batch max_events =
      let room = if is_nonpositive max_events then 5 else clamp_zero max_events in
      if is_health_batch batch
      then build_health_markdown batch
      else text "### "
        ++ build_title batch
        ++ text "\n\n"
        ++ hosts_entry batch
        ++ entry (text "LogID") batch.log_id
        ++ entry (text "日志条数") (go.decimal batch.count)
        ++ entry (text "容器") (join (text ", ") batch.containers)
        ++ entry (text "首次时间") (format_display_time batch.first_seen)
        ++ entry (text "最后时间") (format_display_time batch.last_seen)
        ++ text "\n#### 最近日志\n"
        ++ show_events room (length batch.events - room) batch.events

  -- normalizeLevels and batchHasAnyLevel; the set of levels is a list.
  abbrev pub normalize_level : Bytes → Bytes
  normalize_level level = trim_space (go.to_upper level)

  abbrev pub add_level : Bytes → List Bytes → List Bytes
  add_level level levels = if is_empty level then levels else level ∷ levels

  unfoldable pub normalize_levels : List Bytes → List Bytes
  unfolding trim_space is_empty
  normalize_levels [] = []
  normalize_levels (level ∷ levels) = add_level (normalize_level level) (normalize_levels levels)

  unfoldable pub batch_has_any_level : LogBatch → List Bytes → Bool
  unfolding trim_space str_eq
  batch_has_any_level batch targets =
      if length targets == 0
      then false
      else any (λ (event : LogEvent). any (λ t. str_eq t (normalize_level event.level)) targets)
          batch.events

-- mentionedMobiles
abbrev pub mentioned_mobiles : List Bytes → Bool → List Bytes
mentioned_mobiles mobiles should_mention = if should_mention then mobiles else []

-- buildDingTalkMentionText
abbrev pub mention_subject : LogBatch → Bytes
mention_subject batch =
    let hosts = extract_docker_hosts batch in
    let message = trim_space (first_batch_event batch.events).message in
    if is_health_batch batch
    then text "Docker监控健康告警"
      ++ (if length hosts == 0 then [] else text " [" ++ join (text ",") hosts ++ text "]")
      ++ (if is_empty message then [] else text " " ++ message)
    else build_title batch

unfoldable pub build_mention_text : LogBatch → Bool → List Bytes → Bytes
unfolding is_health_batch build_title extract_docker_hosts render_mobile_mentions trim_space
    is_empty
build_mention_text batch at_all at_mobiles =
    let mentions = render_mobile_mentions at_mobiles in
    mention_subject batch
    ++ (if at_all then text " @all" else if is_empty mentions then [] else text " " ++ mentions)
