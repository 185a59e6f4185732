-- ===== src/Store.antt =====
-- src/scnsim/workspace/operation_store.py: the SQLite authority of one Plan leaf's operation
-- evidence. The tables and the SQL statements are modelled by lists under SQLite's documented
-- meaning of those statements; the hash is a parameter.
pub mod Database
pub mod Action
pub mod Snapshot
pub mod Writes
pub mod Put
pub mod Grows
pub mod Calls
pub mod Returns
pub mod Streams
pub mod Advances
pub mod Sound
pub mod Pointers
pub mod Reads
pub mod EntryReads
pub mod Reading
pub mod Transaction
pub mod Lifecycle
