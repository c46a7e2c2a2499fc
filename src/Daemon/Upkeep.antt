-- ===== src/Daemon/Upkeep.antt =====
-- The live table of the daemon over the reloads and periodic checks of pesigitg-daemon/src/main.rs.
use pesigitg.Prelude.{
  ◌>>=◌, ℕ, ◌≤◌, ◌≡◌, refl, Bool, true, false, ◌||◌, Option, none, some, [], arith, if◌then◌else◌,
  ok,
}
use mathlib.Core.Path.{subst}
use pesigitg.Common.Address.{IpAddr}
use pesigitg.Config.Table.{
  ConfigTable, active, has_unresolved_macs, rebuild_configs, rebuild_fallback_servers,
  inherit_ages_from,
}
use pesigitg.Daemon.{resolve_table, initial_table, store_if, check_and_rebuild, reload_config}
use pesigitg.Health.{HealthChecker, new, check, reset_backoff}
use pesigitg.Health.Recovery.{Running, started, checked, reset}
use pesigitg.Health.Round.{Round, check-Round}
use pesigitg.Neigh.{Neighbours}

-- The table that a periodic check works on.
unfoldable pub working_copy : (ℕ → Option Neighbours) → ConfigTable → ConfigTable
working_copy query live = if has_unresolved_macs live then resolve_table query live else live

-- A periodic check is a round of the health checks on the working copy.
pub check_and_rebuild-Round :
    (connect : IpAddr → ℕ → Option Bool) (query : ℕ → Option Neighbours) (hc : HealthChecker)
    (live : ConfigTable) (now : ℕ)
    → (hc' : HealthChecker) × (rc : ConfigTable) × (changed : Bool) × (check_and_rebuild connect
          query hc live now
        ≡ ok (
          hc',
          store_if (has_unresolved_macs live || changed) rc live,
          has_unresolved_macs live || changed,
        ))
      × (check connect hc (working_copy query live) now ≡ ok (hc', rc, changed))
      × Round connect hc (working_copy query live) now hc' rc changed
unfolding check_and_rebuild working_copy ◌>>=◌
check_and_rebuild-Round connect query hc live now =
    let (hc', rc, changed, e, r) = check-Round connect hc (working_copy query live) now in
    (hc', rc, changed, rw e refl, e, r)

-- The daemon's health checker and live table, each with the time of its last step.
pub data Serving : HealthChecker → ConfigTable → ℕ → Type 0 where
  booted :
      (port : ℕ) (query : ℕ → Option Neighbours) (rc : ConfigTable) (now : ℕ)
      → Serving (new port) (initial_table query rc) now
  reloaded :
      {hc : HealthChecker} {live : ConfigTable} {time : ℕ}
      → Serving hc live time
      → (query : ℕ → Option Neighbours) (read : Option ConfigTable) (now : ℕ) → time ≤ now
      → Serving (reset_backoff hc now) (reload_config query read live) now
  ticked :
      {hc : HealthChecker} {live : ConfigTable} {time : ℕ}
      → Serving hc live time
      → (connect : IpAddr → ℕ → Option Bool) (query : ℕ → Option Neighbours) (now : ℕ) → time ≤ now
      → (hc' : HealthChecker) (live' : ConfigTable) (rebuild : Bool)
      → check_and_rebuild connect query hc live now ≡ ok (hc', live', rebuild)
      → Serving hc' live' now

-- The published pool is the one of the published slots.
pub IsConsistent : ConfigTable → Type 0
IsConsistent table = table.fallback_servers ≡ rebuild_configs [] (active table.slots)

rebuild-IsConsistent : (table : ConfigTable) → IsConsistent (rebuild_fallback_servers table)
unfolding IsConsistent rebuild_fallback_servers
rebuild-IsConsistent table = refl

inherit_ages_from-IsConsistent :
    (table prev : ConfigTable) → IsConsistent table → IsConsistent (inherit_ages_from table prev)
unfolding IsConsistent inherit_ages_from
inherit_ages_from-IsConsistent table prev h = h

store_if-IsConsistent :
    (rebuild : Bool) (rc live : ConfigTable)
    → IsConsistent live
    → IsConsistent (store_if rebuild rc live)
unfolding store_if
store_if-IsConsistent true rc live h = rebuild-IsConsistent rc
store_if-IsConsistent false rc live h = h

reload_config-IsConsistent :
    (query : ℕ → Option Neighbours) (read : Option ConfigTable) (live : ConfigTable)
    → IsConsistent live
    → IsConsistent (reload_config query read live)
unfolding reload_config
reload_config-IsConsistent query none live h = h
reload_config-IsConsistent query (some rc) live h =
    inherit_ages_from-IsConsistent (rebuild_fallback_servers (resolve_table query rc)) live
      (rebuild-IsConsistent (resolve_table query rc))

-- Over any boot, reloads and periodic checks the published fallback pool is the one that the published
-- servers give: readers never see servers of one table with the pool of another.
pub Serving-IsConsistent :
    (hc : HealthChecker) (live : ConfigTable) (time : ℕ) → Serving hc live time → IsConsistent live
unfolding initial_table
Serving-IsConsistent hc live time (booted port query rc now) =
    rebuild-IsConsistent (resolve_table query rc)
Serving-IsConsistent hc live time
      (reloaded {hc = h} {live = before} {time = t} s query read now l) =
    reload_config-IsConsistent query read before (Serving-IsConsistent h before t s)
Serving-IsConsistent hc live time
      (ticked {hc = h} {live = before} {time = t} s connect query now l hc' live' rebuild e) =
    let (h', rc, changed, e', e'', r) = check_and_rebuild-Round connect query h before now in
    let same : store_if (has_unresolved_macs before || changed) rc before ≡ live' = ground arith in
    subst IsConsistent same (
      store_if-IsConsistent (has_unresolved_macs before || changed) rc before
        (Serving-IsConsistent h before t s))

-- The health checker of a running daemon runs as a health checker does.
pub Serving-Running :
    (hc : HealthChecker) (live : ConfigTable) (time : ℕ) → Serving hc live time → Running hc time
Serving-Running hc live time (booted port query rc now) = started port now
Serving-Running hc live time (reloaded {hc = h} {live = before} {time = t} s query read now l) =
    reset (Serving-Running h before t s) now l
Serving-Running hc live time
      (ticked {hc = h} {live = before} {time = t} s connect query now l hc' live' rebuild e) =
    let (h', rc, changed, e', e'', r) = check_and_rebuild-Round connect query h before now in
    let same : h' ≡ hc' = ground arith in
    subst (λ x. Running x now) same
      (checked (Serving-Running h before t s) connect (working_copy query before) now l h' rc
        changed e'')
