-- ===== src/Monitor.antt =====
-- cmd/monitor/main.go: the line handler of a host, which puts the parser in front of the aggregator, the
-- labels of hosts, and the end of run.
pub mod Pipeline
pub mod Stop
mod Tests
use docker_monitor.Aggregator.{Aggregator, add_event, flush_all}
use docker_monitor.Config.{ResolvedHostConfig}
use docker_monitor.Docker.OwnContainer.{container}
use docker_monitor.Model.{Errors, LogEvent, RawLog, Sink, Time}
use docker_monitor.Parser.ChainBlocker.{ChainBlocker}
use docker_monitor.Parser.Parse.{Parser, parse}
use docker_monitor.Parser.Runtime.{Runtime}
use docker_monitor.Prelude.{
  Bool, List, Option, [], if◌then◌else◌, map, none, some, take, ℕ, ◌++◌, ◌||◌, ◌∷◌,
}
use docker_monitor.Prelude.Bytes.{Bytes, has_prefix, is_empty, text}
use docker_monitor.Prelude.Bytes.Index.{index_byte}
use docker_monitor.Prelude.Bytes.Space.{trim_space}
use docker_monitor.Store.BestEffort.{close}
use docker_monitor.Store.DingTalk.Text.{join, trim_prefix}

-- The part of a label before its first slash.
abbrev pub before_slash : Bytes → Option ℕ → Bytes
before_slash s none = s
before_slash s (some index) = take index s

abbrev pub ssh_label : Bytes → Bytes
ssh_label trimmed =
    let host = trim_prefix (before_slash trimmed (index_byte b'/' trimmed)) (text "@") in
    if is_empty host then text "ssh" else host

-- dockerHostLabel
unfoldable pub docker_host_label : Bytes → Bytes
unfolding trim_space is_empty has_prefix index_byte
docker_host_label given =
    let host = trim_space given in
    if is_empty host || has_prefix host (text "unix://")
    then text "local"
    else if has_prefix host (text "ssh://")
    then ssh_label (trim_prefix host (text "ssh://"))
    else if has_prefix host (text "tcp://")
    then trim_prefix host (text "tcp://")
    else if has_prefix host (text "http://")
    then trim_prefix host (text "http://")
    else if has_prefix host (text "https://")
    then trim_prefix host (text "https://")
    else host

-- resolvedDockerHosts
unfoldable pub resolved_docker_hosts : List ResolvedHostConfig → List Bytes
resolved_docker_hosts [] = [] ∷ []
resolved_docker_hosts (h ∷ hs) = map (λ (c : ResolvedHostConfig). c.host) (h ∷ hs)

-- The name under which the lines of a container go on: with the label, where there are several hosts.
abbrev pub relabel : Bool → Bytes → RawLog → RawLog
relabel multi_host label raw =
    if multi_host
    then record raw {
      container = record raw.container { name = label ++ text "/" ++ raw.container.name };
    }
    else raw

-- When a line comes in: the clock as Parse reads it, and as Add reads it, twice.
pub record Moment : Type 0 where
  pub parsed_at : Time
  pub added_at : Time
  pub flushed_at : Time

module _ (go : Runtime) (p : Parser go) (multi_host : Bool) (label : Bytes) {S : Type 0}
    (sink : Sink S) where
  -- What the handler works on: the chain blocker of the parser, the aggregator and its store.
  abbrev pub State : Type 0
  State = Option ChainBlocker × (Aggregator × S)

  abbrev pub add_parsed : Option LogEvent → Moment → Aggregator × S → Errors × (Aggregator × S)
  add_parsed none t s = ([], s)
  add_parsed (some event) t s = add_event sink event t.added_at t.flushed_at s

  -- The handler that newMonitorInstance gives to the watcher. Parse returns no error.
  pub handle_line : RawLog → Moment → State → Errors × State
  handle_line raw t (b, s) =
      let (event, b') = parse go p (relabel multi_host label raw) t.parsed_at b in
      let (e, s') = add_parsed event t s in (e, (b', s'))

-- An instance, as far as the end of run uses it: one for debugging has no aggregator and no store.
pub record Output (S : Type 0) : Type 0 where
  pub aggregator : Aggregator
  pub store : S

pub record Instance (S : Type 0) : Type 0 where
  pub label : Bytes
  pub output : Option (Output S)

-- fmt.Errorf with %w at its end, nil where there is nothing to wrap.
abbrev pub wrap : Bytes → Bytes → Errors → Errors
wrap label what [] = []
wrap label what (e ∷ es) = (text "docker host " ++ label ++ what ++ join (text "\n") (e ∷ es)) ∷ []

-- The two loops after wg.Wait; `close` is outputStore.Close.
module _ {S : Type 0} (sink : Sink S) (close : S → Errors × S) (now : Time)
    (clock : Bytes → Time) where
  abbrev pub flush_output : Bytes → Option (Output S) → Errors × Option (Output S)
  flush_output label none = ([], none)
  flush_output label (some o) =
      let (e, (a, s)) = flush_all sink now clock (o.aggregator, o.store) in
      (wrap label (text " final flush failed: ") e, some (record { aggregator = a; store = s }))

  abbrev pub close_output : Bytes → Option (Output S) → Errors × Option (Output S)
  close_output label none = ([], none)
  close_output label (some o) =
      let (e, s) = close o.store in
      (wrap label (text " store shutdown failed: ") e, some (record o { store = s }))

  unfoldable pub flush_instances : List (Instance S) → Errors × List (Instance S)
  flush_instances [] = ([], [])
  flush_instances (i ∷ instances) =
      let (e, o) = flush_output i.label i.output in
      let (es, rest) = flush_instances instances in (e ++ es, record i { output = o } ∷ rest)

  unfoldable pub close_instances : List (Instance S) → Errors × List (Instance S)
  close_instances [] = ([], [])
  close_instances (i ∷ instances) =
      let (e, o) = close_output i.label i.output in
      let (es, rest) = close_instances instances in (e ++ es, record i { output = o } ∷ rest)

  -- The end of run; `collected` has what the goroutines sent to errCh.
  unfoldable pub stop_run : Errors → List (Instance S) → Errors × List (Instance S)
  unfolding flush_instances close_instances
  stop_run collected instances =
      let (flushed, instances') = flush_instances instances in
      let (shut_errors, instances'') = close_instances instances' in
      (flushed ++ shut_errors ++ collected, instances'')
