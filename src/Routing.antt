-- ===== src/Routing.antt =====
-- pesigitg-routing/src: validated routes, and Connection IDs read back to the server they name.
pub mod Route
pub mod Cid
