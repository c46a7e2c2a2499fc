-- ===== src/Health/Liveness.antt =====
-- How a server that answers again comes back into use: pesigitg-daemon/src/health.rs together with
-- `rebuild_fallback_servers` of pesigitg-daemon/src/config/route.rs.
use pesigitg.Prelude.{
  ℕ, ◌+◌, ◌≤◌, ◌≡◌, refl, ◌∙◌, inl, inr, Bool, true, false, Option, none, some, arith, le→leb,
  Bool-cases, Option-cases,
}
use mathlib.Core.Path.{subst}
use pesigitg.Common.Address.{IpAddr, addr_eq}
use pesigitg.Common.AddressMap.{find, contains}
use pesigitg.Config.Table.{ConfigTable, active, any_server, is_none, rebuild_fallback_servers}
use pesigitg.Config.Table.Fallback.{Member, Serves, reaches, rebuild_fallback_servers-reaches}
use pesigitg.Health.{
  RouteConfig, Server, ServerHealth, HealthMap, HealthChecker, all_addrs, or_discovered, discovered,
  succeed, mirror_health, mirror_slots,
}
use pesigitg.Health.Batch.{outcome, after}
use pesigitg.Health.Due.{entry, is_due}
use pesigitg.Health.Mirror.{
  mirrored_server, mirrored_config, mirror_servers-Member, mirror_slots-Member,
}
use pesigitg.Health.Recovery.{Entries}
use pesigitg.Health.Round.{Round, expected, probe_of}

pub due_by_now :
    (state : HealthMap) (time now : ℕ) (x : IpAddr)
    → Entries state time
    → time + 300_000_000_000 ≤ now
    → is_due state x now ≡ true
unfolding is_due entry or_discovered discovered Entries
due_by_now state time now x es h = elim (Option-cases (find x state)) [
  | inl e ↦ rw e (ground arith)
  | inr (s, e) ↦ rw e (le→leb s.next_probe_at now (omega (arith, (es x s e).soon)))
]

pub succeed-healthy : (s : ServerHealth) (now : ℕ) → ((succeed s now).0).healthy ≡ true
unfolding succeed
succeed-healthy s now = elim (Bool-cases s.healthy) [ inl e ↦ rw e refl | inr e ↦ rw e refl ]

pub answered-entry :
    {connect : IpAddr → ℕ → Option Bool} {hc hc' : HealthChecker} {table table' : ConfigTable}
    {now : ℕ} {changed : Bool} (x : IpAddr)
    → Round connect hc table now hc' table' changed
    → contains x (all_addrs table) ≡ true
    → is_due hc.state x now ≡ true
    → connect x hc.port ≡ some true
    → find x hc'.state ≡ some ((succeed (entry hc.state x now) now).0)
unfolding expected probe_of after outcome
answered-entry x r c d a = r.entries x ∙ rw (c, d, a) refl

mirror_health-address :
    (o : Option ServerHealth) (s : Server) → (mirror_health o s).address ≡ s.address
unfolding mirror_health
mirror_health-address none s = refl
mirror_health-address (some h) s = refl

mirror_health-Serves :
    (h : ServerHealth) (s : Server)
    → h.healthy ≡ true
    → s.draining ≡ false
    → is_none s.mac ≡ false
    → Serves (mirror_health (some h) s)
unfolding mirror_health
mirror_health-Serves h s a b c = record { healthy = a; staying = b; resolved = c }

mirrored_server-Serves :
    (state : HealthMap) (h : ServerHealth) (s : Server)
    → find s.address state ≡ some h
    → h.healthy ≡ true
    → s.draining ≡ false
    → is_none s.mac ≡ false
    → Serves (mirrored_server state s)
unfolding mirrored_server
mirrored_server-Serves state h s e a b c = rw e (mirror_health-Serves h s a b c)

-- Rebuilding the pool of a table that copies the entries reaches a server with a healthy entry.
pub mirrored-reaches :
    (state : HealthMap) (table : ConfigTable) (c : RouteConfig) (s : Server) (h : ServerHealth)
    → Member c (active table.slots)
    → Member s c.servers
    → find s.address state ≡ some h
    → h.healthy ≡ true
    → s.draining ≡ false
    → is_none s.mac ≡ false
    → reaches
        ((rebuild_fallback_servers
          (record table { slots = mirror_slots state table.slots })).fallback_servers)
        s
      ≡ true
unfolding mirrored_server mirrored_config reaches
mirrored-reaches state table c s h n m e a b k =
    let servers =
      (rebuild_fallback_servers
        (record table { slots = mirror_slots state table.slots })).fallback_servers in
    subst (λ x. any_server (λ t. addr_eq t.address x) servers ≡ true)
      (mirror_health-address (find s.address state) s)
      (rebuild_fallback_servers-reaches (record table { slots = mirror_slots state table.slots })
        (mirrored_config state c) (mirrored_server state s)
        (mirror_slots-Member state c table.slots n) (mirror_servers-Member state s c.servers m)
        (mirrored_server-Serves state h s e a b k))
