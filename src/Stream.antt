-- ===== src/Stream.antt =====
-- ts-core/src/net/stream: data of any length over a trusted socket.
pub mod Frame
pub mod Socket
pub mod Accumulate
pub mod Carry
pub mod Delivery
pub mod Entries
