-- ===== src/Tunnel.antt =====
-- ts-core/src/net/tunnel: ports of nodes, and the frames between them.
pub mod Frame
pub mod Service
pub mod Ports
pub mod Closing
pub mod Reach
pub mod Served
pub mod Hands
pub mod Removal
pub mod Arrival
pub mod History
