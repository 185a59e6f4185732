-- ===== src/Execution.antt =====
-- src/scnsim/execution/coordinator.py: one prepared request, from the search for a stored success to
-- the receipt of a new attempt.
pub mod State
pub mod Attempt
pub mod Coordinator
pub mod Journal
pub mod Keeps
pub mod Ends
pub mod Judging
pub mod Outcome
