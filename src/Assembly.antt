-- ===== src/Assembly.antt =====
-- src/scnsim/authoring/assembly.py and plan.py: how a circuit plan is put together.
pub mod State
pub mod Action
pub mod Endpoints
pub mod Chain
pub mod Structures
pub mod Union
pub mod Links
pub mod Wiring
pub mod Reach
pub mod Getnet
pub mod Getnets
pub mod Joining
pub mod Linking
pub mod Parts
pub mod Inductive
pub mod Coupling
pub mod Finish
pub mod Calls
pub mod Consumed
pub mod Kept
pub mod Completeness
pub mod Seal
pub mod Once
pub mod Series
pub mod Single
