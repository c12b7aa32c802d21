-- ===== src/Network.antt =====
-- ts-core/src/net/node/networkState.ts: what an observer knows of the network.
pub mod Node
pub mod State
pub mod Views
pub mod Disconnect
pub mod Priority
pub mod Invariant
pub mod Changes
pub mod Removal
pub mod History
pub mod Search
pub mod Rounds
pub mod Reachable
