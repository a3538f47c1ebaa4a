-- ===== src/Parser.antt =====
-- internal/parser: from a log line to an event.
pub mod ChainBlocker
pub mod Runtime
pub mod Extract
pub mod Parse
pub mod Example
