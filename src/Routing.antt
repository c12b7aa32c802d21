-- ===== src/Routing.antt =====
-- ts-core/src/net/routing: frames that are passed from node to node.
pub mod Frame
pub mod Delivery
pub mod FrameIdCache
pub mod Socket
pub mod Events
pub mod Once
