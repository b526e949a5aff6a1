-- ===== src/Sink.antt =====
-- The element `KvsSink` of src/kvssink/imp.rs, and its settings of src/kvssink/properties.rs.
pub mod Settings
pub mod State
pub mod Render
pub mod Failures
pub mod Worker
pub mod Lifecycle
pub mod Signals
pub mod Recovery
pub mod Handoff
pub mod Stop
pub mod Invariant
mod Runs
mod TaskRuns
