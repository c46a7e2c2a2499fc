-- ===== src/Daemon/Reload.antt =====
-- What becomes of the health flags at a reload: `reload_config` of
-- pesigitg-daemon/src/config/mod.rs, then the periodic checks of pesigitg-daemon/src/main.rs.
use pesigitg.Prelude.{
  ℕ, ◌+◌, ◌≡◌, refl, sym, ◌∙◌, inl, inr, Bool, true, false, Option, none, some, List, [], ◌∷◌,
  arith, Bool-cases, ok,
}
use pesigitg.Common.Address.{IpAddr}
use pesigitg.Common.AddressMap.{find, contains}
use pesigitg.Config.Table.{
  ConfigTable, active, any_server, any_config, has_unresolved_macs, eligible, rebuild_servers,
  rebuild_configs, rebuild_fallback_servers, inherit_ages_from, is_none,
}
use pesigitg.Daemon.{resolve_slots, resolve_table, store_if, check_and_rebuild, reload_config}
use pesigitg.Daemon.Upkeep.{working_copy, check_and_rebuild-Round}
use pesigitg.Health.{ServerHealth, HealthChecker, all_addrs, or_discovered, succeed}
use pesigitg.Health.Batch.{flips, after, outcome}
use pesigitg.Health.Due.{entry, is_due}
use pesigitg.Health.Round.{Round, expected, probe_of}
use pesigitg.Neigh.{Neighbours, resolve_macs, with_table, fill_mac, fill_macs}
use pesigitg.Neigh.Resolution.{resolve_macs-with_table}
use pesigitg.Routing.Route.{RouteConfig, Server}

-- The health checker knows each configured server, as healthy.
unfoldable pub AllUp : HealthChecker → ConfigTable → Type 0
AllUp hc table =
    (x : IpAddr)
    → contains x (all_addrs table) ≡ true
    → (s : ServerHealth) × (find x hc.state ≡ some s) × (s.healthy ≡ true)

-- Each configured server answers its probe.
unfoldable pub AllAnswer : (IpAddr → ℕ → Option Bool) → HealthChecker → ConfigTable → Type 0
AllAnswer connect hc table =
    (x : IpAddr) → contains x (all_addrs table) ≡ true → connect x hc.port ≡ some true

entry-healthy :
    (hc : HealthChecker) (table : ConfigTable) (now : ℕ) (x : IpAddr)
    → AllUp hc table
    → contains x (all_addrs table) ≡ true
    → (entry hc.state x now).healthy ≡ true
unfolding entry or_discovered AllUp
entry-healthy hc table now x u c = let (s, e, h) = u x c in rw e h

probe_of-answer :
    (connect : IpAddr → ℕ → Option Bool) (hc : HealthChecker) (table : ConfigTable) (now : ℕ)
    (x : IpAddr) (b : Bool)
    → AllAnswer connect hc table
    → contains x (all_addrs table) ≡ true
    → probe_of connect hc now x ≡ some b
    → b ≡ true
unfolding probe_of AllAnswer
probe_of-answer connect hc table now x b a c e = elim (Bool-cases (is_due hc.state x now)) [
  | inl d ↦ let same : some true ≡ some b = sym (a x c) ∙ (rw d at e) in ground arith
  | inr d ↦ let no : none ≡ some b = rw d at e in ground arith
]

quiet_round :
    {connect : IpAddr → ℕ → Option Bool} {hc hc' : HealthChecker} {table table' : ConfigTable}
    {now : ℕ} {changed : Bool}
    → Round connect hc table now hc' table' changed
    → AllUp hc table
    → AllAnswer connect hc table
    → changed ≡ false
unfolding flips
quiet_round {connect = connect} {hc = hc} {table = table} {now = now} r u a = r.quiet λ x b c e.
    rw (probe_of-answer connect hc table now x b a c e, entry-healthy hc table now x u c) refl

after-healthy :
    (s : ServerHealth) (o : Option Bool) (now : ℕ)
    → s.healthy ≡ true
    → ((b : Bool) → o ≡ some b → b ≡ true)
    → (after s o now).healthy ≡ true
unfolding after outcome succeed
after-healthy s none now h f = h
after-healthy s (some b) now h f = rw (f b refl, h) refl

quiet_round-AllUp :
    {connect : IpAddr → ℕ → Option Bool} {hc hc' : HealthChecker} {table table' : ConfigTable}
    {now : ℕ} {changed : Bool}
    → Round connect hc table now hc' table' changed
    → AllUp hc table
    → AllAnswer connect hc table
    → AllUp hc' table
unfolding AllUp expected
quiet_round-AllUp {connect = connect} {hc = hc} {table = table} {now = now} r u a x c = (
  after (entry hc.state x now) (probe_of connect hc now x) now,
  r.entries x ∙ rw c refl,
  after-healthy (entry hc.state x now) (probe_of connect hc now x) now
      (entry-healthy hc table now x u c) (λ b e. probe_of-answer connect hc table now x b a c e),
)

-- While every server is up and answers and no MAC is missing, a check stores nothing.
quiet_check :
    (connect : IpAddr → ℕ → Option Bool) (query : ℕ → Option Neighbours) (hc : HealthChecker)
    (live : ConfigTable) (now : ℕ)
    → has_unresolved_macs live ≡ false
    → AllUp hc live
    → AllAnswer connect hc live
    → (hc' : HealthChecker) × (check_and_rebuild connect query hc live now ≡ ok (hc', live, false))
      × AllUp hc' live
unfolding working_copy store_if
quiet_check connect query hc live now m u a =
    let (hc', rc, changed, e, e', r) = check_and_rebuild-Round connect query hc live now in
    let r' : Round connect hc live now hc' rc changed = rw m at r in
    let quiet = quiet_round r' u a in (hc', e ∙ rw (m, quiet) refl, quiet_round-AllUp r' u a)

rebuild_servers-none_up :
    (chosen servers : List Server)
    → any_server (λ s. s.healthy) servers ≡ false
    → rebuild_servers chosen servers ≡ chosen
unfolding rebuild_servers any_server eligible
rebuild_servers-none_up chosen [] h = refl
rebuild_servers-none_up chosen (s ∷ servers) h =
    let down : s.healthy ≡ false = ground arith in
    rw down (rebuild_servers-none_up chosen servers (ground arith))

rebuild_configs-none_up :
    (chosen : List Server) (cs : List RouteConfig)
    → any_config (λ s. s.healthy) cs ≡ false
    → rebuild_configs chosen cs ≡ chosen
unfolding rebuild_configs any_config
rebuild_configs-none_up chosen [] h = refl
rebuild_configs-none_up chosen (c ∷ cs) h =
    let here' : any_server (λ s. s.healthy) c.servers ≡ false = ground arith in
    rw (rebuild_servers-none_up chosen c.servers here')
      (rebuild_configs-none_up chosen cs (ground arith))

fill_mac-healthy : (table : Neighbours) (s : Server) → (fill_mac table s).healthy ≡ s.healthy
unfolding fill_mac
fill_mac-healthy table s = elim (Bool-cases (is_none s.mac)) [
  | inl e ↦ rw e refl
  | inr e ↦ rw e refl
]

fill_macs-none_up :
    (table : Neighbours) (servers : List Server)
    → any_server (λ s. s.healthy) (fill_macs table servers) ≡ any_server (λ s. s.healthy) servers
unfolding fill_macs any_server
fill_macs-none_up table [] = refl
fill_macs-none_up table (s ∷ servers) =
    rw (fill_mac-healthy table s, fill_macs-none_up table servers) refl

resolve_macs-none_up :
    (query : Option Neighbours) (servers : List Server)
    → any_server (λ s. s.healthy) (resolve_macs query servers) ≡ any_server (λ s. s.healthy) servers
unfolding with_table
resolve_macs-none_up query servers = rw (resolve_macs-with_table query servers) (go query)
  where
    go :
        (q : Option Neighbours)
        → any_server (λ s. s.healthy) (with_table q servers) ≡ any_server (λ s. s.healthy) servers
    go none = refl
    go (some table) = fill_macs-none_up table servers

resolve_slots-none_up :
    (query : ℕ → Option Neighbours) (i : ℕ) (slots : List (Option RouteConfig))
    → any_config (λ s. s.healthy) (active (resolve_slots query i slots))
      ≡ any_config (λ s. s.healthy) (active slots)
unfolding resolve_slots active any_config
resolve_slots-none_up query i [] = refl
resolve_slots-none_up query i (none ∷ slots) = resolve_slots-none_up query (i + 1) slots
resolve_slots-none_up query i (some c ∷ slots) =
    rw (resolve_macs-none_up (query i) c.servers, resolve_slots-none_up query (i + 1) slots) refl

reload_config-fallback :
    (query : ℕ → Option Neighbours) (rc live : ConfigTable)
    → any_config (λ s. s.healthy) (active rc.slots) ≡ false
    → (reload_config query (some rc) live).fallback_servers ≡ []
unfolding reload_config resolve_table rebuild_fallback_servers inherit_ages_from
reload_config-fallback query rc live h =
    rebuild_configs-none_up [] (active (resolve_slots query 0 rc.slots))
      (resolve_slots-none_up query 0 rc.slots ∙ h)

-- Servers that stay up are lost at a reload: a route file is read with no server marked healthy; if the
-- health checker knows every server of the reloaded table as healthy, all of them answer and no MAC is
-- missing, the published table has an empty fallback pool and the next check leaves it exactly as it
-- is, with the checker in a state from which the same holds again.
pub reload_config-forgets :
    (connect : IpAddr → ℕ → Option Bool) (query query' : ℕ → Option Neighbours) (hc : HealthChecker)
    (rc live : ConfigTable) (now : ℕ)
    → any_config (λ s. s.healthy) (active rc.slots) ≡ false
    → has_unresolved_macs (reload_config query (some rc) live) ≡ false
    → AllUp hc (reload_config query (some rc) live)
    → AllAnswer connect hc (reload_config query (some rc) live)
    → ((reload_config query (some rc) live).fallback_servers ≡ [])
      × ((hc' : HealthChecker) × (check_and_rebuild connect query' hc
              (reload_config query (some rc) live)
              now
            ≡ ok (hc', reload_config query (some rc) live, false))
          × AllUp hc' (reload_config query (some rc) live))
reload_config-forgets connect query query' hc rc live now h m u a = (
  reload_config-fallback query rc live h,
  quiet_check connect query' hc (reload_config query (some rc) live) now m u a,
)
