-- ===== src/Protocol.antt =====
-- src/scnsim/execution/protocol.py: the frames that a child process may send.
pub mod Json
pub mod Frames
pub mod Ready
pub mod Binding
pub mod Reserved
pub mod Counts
