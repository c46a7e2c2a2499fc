-- ===== src/Config.antt =====
-- pesigitg-daemon/src/config: the table of routes that the daemon holds, and its `[retry]` section.
pub mod Retry
pub mod Table
pub mod KeyAge
