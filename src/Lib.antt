-- ===== src/Lib.antt =====
-- docker-monitor: a monitor that follows the logs of Docker containers, picks out alerts, and hands
-- them in batches to a file and to a chat.
--
-- The program (Go). cmd/monitor/main.go reads the configuration (internal/config) and starts, for each
-- Docker host, a watcher (internal/docker/watcher.go) that keeps one log stream for each container;
-- internal/docker/logs.go cuts a stream into frames and lines; internal/parser turns a line into an
-- event, or drops it; internal/aggregator groups events by log id and hands batches to the stores
-- (internal/store), a file and, behind a queue, a DingTalk robot. The watcher hands reports on its own
-- health to the stores too, and tells the aggregator when it reads history.
--
-- What models what:
--   Prelude         Go strings as lists of bytes, maps as association lists, sort, and their laws
--   Model           internal/model/log_event.go, and the AppendBatch interface of the stores
--   Config          the types of internal/config/config.go; Config.Overrides the applyXOverrides
--                   functions, Config.Validate validateResolved and the duration methods,
--                   Config.Memory ParseMemoryLimit, Config.Hosts HostConfigsOrDefault, HostsOrDefault,
--                   ResolveHosts; Config.Platform is what they use of the Go library
--   Aggregator      internal/aggregator/aggregator.go: New `new`, Add `add_event`, add `add` (its middle
--                   part `touch`, its end `settle`), FlushAll `flush_all`, drainAll `drain_all`,
--                   evictGroupsLocked `evict_groups`, EnterBackfill and ExitBackfill
--   Parser          internal/parser/parser.go: Runtime is what it uses of the standard library, Extract
--                   its helpers, Parse has New `new` and Parse `parse`, ChainBlocker the chainBlocker
--   Docker.LineWriter  lineWriter of internal/docker/logs.go: Write `write`, Flush `flush`, emitLine
--   Docker.Demux    copyDockerLogs of internal/docker/logs.go
--   Docker.LogReader  LogReader.Stream of internal/docker/logs.go `stream_log`, which puts the two together
--   Docker.OwnContainer  internal/docker/self.go
--   Docker.Ssh      internal/docker/ssh_helper.go: shellQuote, shellJoin, dockerDialStdioArgs, command
--   Docker.Watcher.*  internal/docker/watcher.go, by concern: Streams has the tables of running streams
--                   (activate, stop, stopAll, removeActive), Events what changes them (handleEvent,
--                   maybeStart, syncContainers), Loop the loops of Run and runEventLoop, StreamRun the
--                   loop of runStream with its closure and deferred calls, Backoff nextRetryDelay,
--                   Cursors initialLogSince and recordLogTimestamp, Discovery MatchAny,
--                   selectContainer and findReplacementContainer, Replay beginStreamBackfill and
--                   endStreamBackfill, combined with the aggregator in one step relation, Health
--                   reportHealthEvent and reportBackfillSummary
--   Store.File      internal/store/file_store.go
--   Store.DingTalk  internal/store/dingtalk_store.go: Window waitForSendWindow, split at its wait
--                   (`begin_wait`, then `finish_wait` or `cancel_wait`), and noteRateLimit, Truncate
--                   truncatePayloadString with truncateUTF8ByBytes, Text the texts of messages,
--                   Payload marshalDingTalkPayload and AppendBatch `append_alert`
--   Store.Multi     internal/store/multi_store.go
--   Store.BestEffort  internal/store/best_effort_store.go: AppendBatch, Close, and the worker as steps
--   Monitor         cmd/monitor/main.go: the handler of newMonitorInstance `handle_line`, dockerHostLabel,
--                   and the end of run `stop_run`
--
-- Conventions. A method takes the state and returns the new one; a mutex makes it one step (a call
-- that waits between two holds of it is two), and an interleaving is the order of the steps. Times
-- are nanoseconds since Go's zero time; clock readings are arguments. Strings are lists of bytes. A
-- Go map is an association list without double keys whose order stands for the order of a range
-- loop, so a theorem about all lists is one about all orders. An error is the list of its joined
-- messages, nil the empty list. A goroutine that waits for others (the loops of Run, runEventLoop and
-- runStream) is a function of the list of what it receives, round by round; a list that ends leaves
-- it waiting. The steps of replay windows hold the call of the controller too, which the code makes
-- right after it has unlocked backfillMu.
--
-- Bounds and fuel. Atomic counters are bit patterns modulo 2 ^ 32 and 2 ^ 64. The loop of Write runs on
-- fuel 2 n + 2 for n bytes: a round either consumes a byte or begins to cut a line, once; that this is
-- enough is part of the equivalence with the loop over single bytes. The loop over frames runs on one
-- more than the number of bytes, and every frame has eight of them at least. The binary search of
-- truncatePayloadString runs on two more than the length of the text, each round making its range
-- shorter.
--
-- Not modelled: the loading and YAML decoding of the configuration, the Docker client,
-- sendPayload with its HTTP, parseSSHSpec and the process that carries ssh, goroutines, contexts and
-- timers as such, logging, and the probe under scripts. JSON, regexps, time.Parse, the formats of
-- times and numbers, the pieces in which io.Copy reads, and the handlers and stores behind an
-- interface are parameters.
mod Prelude
pub mod Model
pub mod Aggregator
pub mod Docker
pub mod Config
pub mod Parser
pub mod Store
pub mod Monitor
