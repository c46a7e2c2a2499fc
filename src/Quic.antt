-- ===== src/Quic.antt =====
-- pesigitg-daemon/src/quic: parsing of the unprotected part of QUIC Initial packets.
pub mod Initial
