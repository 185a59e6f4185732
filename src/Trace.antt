-- ===== src/Trace.antt =====
-- src/scnsim/benchmark/operations.py: the timing spans of one operation and their way to the
-- archive.
pub mod Recorder
pub mod Cursor
pub mod Publish
pub mod Intervals
pub mod Nesting
pub mod Lifecycle
pub mod Finish
