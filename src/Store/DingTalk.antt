-- ===== src/Store/DingTalk.antt =====
-- internal/store/dingtalk_store.go: the window in which messages are sent, the text of messages, and the
-- size that DingTalk takes.
pub mod Window
pub mod Truncate
pub mod Text
pub mod Payload
