-- ===== src/Link.antt =====
-- ts-core/src/net/link: the addresses that frames are sent to.
pub mod Address
pub mod RoundTrip
