-- ===== src/Discovery.antt =====
-- ts-core/src/net/discovery: the ids of frames that were seen, and the best response to a request.
pub mod FrameId
pub mod Window
pub mod Stays
pub mod Request
pub mod Best
pub mod Cache
