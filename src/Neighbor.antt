-- ===== src/Neighbor.antt =====
-- ts-core/src/net/neighbor: the nodes that a link reaches.
pub mod Table
pub mod Steps
pub mod Invariant
pub mod Reach
pub mod Local
pub mod History
