-- ===== src/Ingest.antt =====
-- channels-go/internal/ingest/ingest.go: the pipeline from an inbound message to its row, its
-- policy decision, and the work that follows it.
pub mod Base
pub mod Steps
pub mod Jobs
pub mod Work
pub mod Effect
pub mod Persist
pub mod Handlers
pub mod Once
pub mod Repeat
pub mod Total
mod Examples
