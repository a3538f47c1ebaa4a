-- ===== src/Model.antt =====
-- internal/model/log_event.go, and the interface through which batches leave a component.
-- A time is the number of nanoseconds since Go's zero time, so 0 is the time for which IsZero holds.
-- An error is the list of the messages that errors.Join has put together; nil is the empty list.
use docker_monitor.Prelude.{ℕ, ◌-◌, ◌^◌, Bool, false, List, [], ◌∷◌, ◌++◌, min}
use docker_monitor.Prelude.Bytes.{Bytes}

abbrev pub Time : Type 0
Time = ℕ

-- The largest time.Duration.
abbrev pub max_duration : ℕ
max_duration = 2 ^ 63 - 1

-- now.Sub(t), where a negative result is read as 0: the code compares it with positive bounds only.
abbrev pub time_sub : Time → Time → ℕ
time_sub now t = min (now - t) max_duration

pub record ContainerInfo : Type 0 where
  pub id : Bytes
  pub name : Bytes

pub record RawLog : Type 0 where
  pub timestamp : Time
  pub container : ContainerInfo
  pub stream : Bytes
  pub line : Bytes

pub record LogEvent : Type 0 where
  pub timestamp : Time
  pub container : ContainerInfo
  pub stream : Bytes
  pub level : Bytes
  pub log_id : Bytes
  pub alert_matched : Bool
  pub message : Bytes
  pub raw : Bytes
  pub parsed_from_json : Bool

pub record LogBatch : Type 0 where
  pub log_id : Bytes
  pub first_seen : Time
  pub last_seen : Time
  pub count : ℕ
  pub containers : List Bytes
  pub events : List LogEvent
  pub flushed_at : Time
  pub suppress_alert_sinks : Bool

abbrev pub Errors : Type 0
Errors = List Bytes

-- AppendBatch of a store with state S: its error, and the state that it leaves.
abbrev pub Sink : Type 0 → Type 0
Sink S = LogBatch → S → Errors × S

-- The loop of FlushAll over the drained batches: it goes on after an error, and joins them.
unfoldable pub append_all : {S : Type 0} → Sink S → List LogBatch → S → Errors × S
append_all sink [] s = ([], s)
append_all sink (b ∷ bs) s =
    let (e, s') = sink b s in let (es, s'') = append_all sink bs s' in (e ++ es, s'')

-- A store in front of which a log of the batches handed to it is kept.
abbrev pub recorded : {S : Type 0} → Sink S → Sink (S × List LogBatch)
recorded sink b (s, log) = let (e, s') = sink b s in (e, (s', log ++ b ∷ []))

-- No event, no container: a base for examples.
abbrev pub sample_event : Bytes → Bool → Time → LogEvent
sample_event id alert at = record {
  timestamp = at;
  container = record { id = []; name = [] };
  stream = [];
  level = [];
  log_id = id;
  alert_matched = alert;
  message = [];
  raw = [];
  parsed_from_json = false;
}
