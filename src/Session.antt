-- ===== src/Session.antt =====
-- src/scnsim/execution/process.py: the parent's side of the conversation with one child process.
pub mod State
pub mod Judge
pub mod Terminal
pub mod Automaton
pub mod Good
pub mod Refines
pub mod Commitments
pub mod Greet
pub mod Ends
