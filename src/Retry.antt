-- ===== src/Retry.antt =====
-- pesigitg-daemon/src/retry: the QUIC Retry service.
pub mod Token
pub mod Build
pub mod Load
pub mod Checksum
pub mod Datapath
