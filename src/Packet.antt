-- ===== src/Packet.antt =====
-- pesigitg-daemon/src/packet.rs: the pipeline of a frame, from its layout to the verdict.
pub mod Parse
pub mod Process
