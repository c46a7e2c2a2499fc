-- ===== src/Daemon.antt =====
-- The periodic work on the live configuration: `check_and_rebuild` of pesigitg-daemon/src/main.rs, and
-- `reload_config`, `build_status` and `log_draining_servers` of pesigitg-daemon/src/config/mod.rs. The
-- live table behind its `ArcSwap` is an argument and a result.
pub mod Upkeep
pub mod Reload
pub mod Liveness
use pesigitg.Prelude.{
  ℕ, ◌+◌, Bool, true, ◌||◌, Option, none, some, List, [], ◌∷◌, ◌++◌, if◌then◌else◌, Run, Absent,
  ◌>>=◌, ◌>>◌, ok,
}
use pesigitg.Common.Address.{IpAddr}
use pesigitg.Config.Table.{
  ConfigTable, active, has_unresolved_macs, rebuild_fallback_servers, inherit_ages_from,
}
use pesigitg.Health.{HealthChecker, check}
use pesigitg.Neigh.{Neighbours, resolve_macs}
use pesigitg.Routing.Route.{RouteConfig, Server}

-- The loop over `configs_mut`; each call of `resolve_macs` reads the neighbour table anew, here by the
-- position of its slot.
unfoldable pub resolve_slots :
    (ℕ → Option Neighbours) → ℕ → List (Option RouteConfig) → List (Option RouteConfig)
resolve_slots query i [] = []
resolve_slots query i (none ∷ slots) = none ∷ resolve_slots query (i + 1) slots
resolve_slots query i (some c ∷ slots) =
    some (record c { servers = resolve_macs (query i) c.servers })
    ∷ resolve_slots query (i + 1) slots

unfoldable pub resolve_table : (ℕ → Option Neighbours) → ConfigTable → ConfigTable
resolve_table query table = record table { slots = resolve_slots query 0 table.slots }

-- What `main` does with the table it has read, before it publishes it.
unfoldable pub initial_table : (ℕ → Option Neighbours) → ConfigTable → ConfigTable
initial_table query rc = rebuild_fallback_servers (resolve_table query rc)

-- The table that is rebuilt is stored; else the clone is dropped and the live table stays.
unfoldable pub store_if : Bool → ConfigTable → ConfigTable → ConfigTable
store_if rebuild rc live = if rebuild then rebuild_fallback_servers rc else live

unfoldable pub check_and_rebuild :
    (IpAddr → ℕ → Option Bool)
    → (ℕ → Option Neighbours)
    → HealthChecker
    → ConfigTable
    → ℕ
    → Run Absent (HealthChecker × ConfigTable × Bool)
check_and_rebuild connect query hc live now = do
  let unresolved = has_unresolved_macs live
  (hc', rc, changed) ← check connect hc (if unresolved then resolve_table query live else live) now
  let rebuild = unresolved || changed
  ok (hc', store_if rebuild rc live, rebuild)

-- `reload_config`, from the result of reading the route file on.
unfoldable pub reload_config :
    (ℕ → Option Neighbours) → Option ConfigTable → ConfigTable → ConfigTable
reload_config query none live = live
reload_config query (some rc) live =
    inherit_ages_from (rebuild_fallback_servers (resolve_table query rc)) live

unfoldable pub count_servers : (Server → Bool) → List Server → ℕ
count_servers p [] = 0
count_servers p (s ∷ servers) = (if p s then 1 else 0) + count_servers p servers

unfoldable pub count_configs : (Server → Bool) → List RouteConfig → ℕ
count_configs p [] = 0
count_configs p (c ∷ cs) = count_servers p c.servers + count_configs p cs

-- The numbers in the line of `build_status`: healthy, total and draining.
unfoldable pub status_counts : ConfigTable → ℕ × ℕ × ℕ
status_counts table = (
  count_configs (λ s. s.healthy) (active table.slots),
  count_configs (λ s. true) (active table.slots),
  count_configs (λ s. s.draining) (active table.slots),
)

unfoldable pub draining_of : RouteConfig → List Server → List (Server × ℕ)
draining_of c [] = []
draining_of c (s ∷ servers) =
    let rest = draining_of c servers in if s.draining then (s, c.config_id) ∷ rest else rest

-- The warnings of `log_draining_servers`.
unfoldable pub draining_servers : List RouteConfig → List (Server × ℕ)
draining_servers [] = []
draining_servers (c ∷ cs) = draining_of c c.servers ++ draining_servers cs
