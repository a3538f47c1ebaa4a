-- ===== src/Store.antt =====
-- internal/store: where batches go.
pub mod Multi
pub mod File
pub mod BestEffort
pub mod DingTalk
