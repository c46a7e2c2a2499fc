-- ===== src/Daemon/Liveness.antt =====
-- How a server that was down comes back into use: `check_and_rebuild` of pesigitg-daemon/src/main.rs in a
-- run of the daemon.
use pesigitg.Health.Round.{Round}
