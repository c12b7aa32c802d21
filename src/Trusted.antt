-- ===== src/Trusted.antt =====
-- ts-core/src/net/trusted: a connection with a handshake, acknowledged data and a closing
-- handshake over an unreliable tunnel.
pub mod Frame
pub mod Codec
pub mod Action
pub mod Syn
pub mod Fin
pub mod Data
pub mod State
pub mod Protocol
pub mod Checksum
pub mod Pseudo
