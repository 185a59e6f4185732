-- ===== src/Wire.antt =====
-- src/scnsim/authoring/handles.py, `_Net`: the wire equivalence of the authoring scopes, a
-- union-find with path compression in which ground absorbs.
pub mod Net
pub mod Forest
pub mod Create
pub mod Root
pub mod Join
pub mod Merge
