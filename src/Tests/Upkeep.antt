-- ===== src/Tests/Upkeep.antt =====
-- Instances of the theorems on the health checks, the neighbour table and the daemon's upkeep.
use pesigitg.Prelude.{
  zero, suc, ◌<◌, Run, Absent, bytes_eq, inl, inr, Bool-cases, ℕ, ◌+◌, ◌≡◌, refl, Bool, true, false,
  Option, none, some, List, [], ◌∷◌, arith, Safe, replicate, ok,
}
use mathlib.Core.List.{Permᴰ}
use pesigitg.Common.Address.{IpAddr, addr_eq}
use pesigitg.Common.AddressMap.{find, contains, DistinctKeys, insert_addr}
use pesigitg.Config.Table.{
  inherit_ages_from, ConfigTable, active, any_server, any_config, is_none, rebuild_fallback_servers,
  has_unresolved_macs,
}
use pesigitg.Daemon.{resolve_table, resolve_slots, initial_table, check_and_rebuild, reload_config}
use pesigitg.Daemon.Upkeep.{booted, IsConsistent, Serving-IsConsistent}
use pesigitg.Daemon.Reload.{AllUp, AllAnswer, reload_config-forgets}
use pesigitg.Health.{
  collect_servers, collect_configs, ServerHealth, HealthMap, HealthChecker, new, discovered,
  succeed, apply_probe, apply_loop, probe_interval, check, all_addrs,
}
use pesigitg.Health.History.{found, probed, Agrees, Observed-Agrees}
use pesigitg.Routing.Route.{Server}
use pesigitg.Health.Order.{apply_loop-Perm}
use pesigitg.Health.Recovery.{started, checked, Entries, Running-Entries}
use pesigitg.Health.Round.{Round, check-Round}
use pesigitg.Neigh.{count_none, Neighbours, done, recv_neigh_entries, resolve_macs}
use pesigitg.Neigh.Dumps.{Neighbour, Envelope, Link, Attribute}
use pesigitg.Neigh.Resolution.{AllResolved, resolve_macs-AllResolved}
use pesigitg.Neigh.RoundTrip.{Ending, dump, insert_all, process_chunk-dump}
use pesigitg.Neigh.Rounds.{IsLast, Stops, Ended, recv_neigh_entries-Ended}
use pesigitg.Neigh.{Dump}
use pesigitg.Tests.Samples.{mac_a, address_a, address_b, server_a, route_a, table_a}

abbrev second : ℕ
second = 1_000_000_000

-- Up after its first probe, one second after the start.
abbrev health_up : ServerHealth
health_up = record {
  consecutive_failures = 0;
  healthy = true;
  next_probe_at = second + probe_interval;
  transitions = 0;
  state_since = second;
  ever_healthy = true;
}

Observed-Agrees_example : Agrees (true ∷ []) health_up
unfolding apply_probe succeed discovered
Observed-Agrees_example =
    Observed-Agrees (true ∷ []) health_up (probed (found 0) true second (health_up, true) refl)

abbrev answering : IpAddr → ℕ → Option Bool
answering a port = some true

abbrev checker : HealthChecker
checker = record { state = []; port = 443 }

check-Round_example :
    (hc' : HealthChecker) × (table' : ConfigTable) × (changed : Bool) × (check answering checker
        table_a second
      ≡ ok (hc', table', changed))
    × Round answering checker table_a second hc' table' changed
check-Round_example = check-Round answering checker table_a second

abbrev two_up : HealthMap
two_up = (address_a, health_up) ∷ (address_b, health_up) ∷ []

apply_loop-Perm_example :
    apply_loop two_up ((address_a, true) ∷ (address_b, false) ∷ []) second false
    ≡ apply_loop two_up ((address_b, false) ∷ (address_a, true) ∷ []) second false
unfolding DistinctKeys find addr_eq bytes_eq
apply_loop-Perm_example =
    apply_loop-Perm second
      (Permᴰ.swap {a = (address_a, true)} {b = (address_b, false)} {l = []} refl refl)
      (refl, (refl, tt)) two_up false

-- The first round of a checker that was started five nanoseconds in.
abbrev first_round :
    (hc' : HealthChecker) × (table' : ConfigTable) × (changed : Bool) × (check answering
        (new 443)
        table_a
        second
      ≡ ok (hc', table', changed))
    × Round answering (new 443) table_a second hc' table' changed
first_round = check-Round answering (new 443) table_a second

Running-Entries_example : Entries (first_round.0).state second
Running-Entries_example = Running-Entries (first_round.0) second (
    checked (started 443 5) answering table_a second (omega arith) (first_round.0) (first_round.1)
      (first_round.2) (first_round.3))

-- Messages of one dump, in several parts: `NLM_F_MULTI`, and the sequence number of the request.
abbrev multi : Envelope
multi = record {
  flags0 = 2;
  flags1 = 0;
  seq0 = 1;
  seq1 = 0;
  seq2 = 0;
  seq3 = 0;
  pid0 = 0x39;
  pid1 = 0x30;
  pid2 = 0;
  pid3 = 0;
}

abbrev link_3 : Link
link_3 = record {
  pad0 = 0;
  pad1 = 0;
  pad2 = 0;
  index0 = 3;
  index1 = 0;
  index2 = 0;
  index3 = 0;
  flags = 0;
  kind = 1;
}

abbrev ending : Ending
ending = record { envelope = multi; payload = 0 ∷ 0 ∷ 0 ∷ 0 ∷ [] }

abbrev received : ℕ → Option (List ℕ)
received zero = some (replicate 20 7)
received (suc i) = some (dump ending [])

-- The end of the dump comes in the second buffer.
received-IsLast : IsLast (received 1)
unfolding IsLast Stops insert_all
received-IsLast = λ table. (done, table, (λ e. ground arith), process_chunk-dump ending [] table tt)

recv_neigh_entries-Ended_example :
    (r : Run Absent Dump) × ((fuel : ℕ) → 1 < fuel → recv_neigh_entries received fuel ≡ r)
    × Safe Ended r
recv_neigh_entries-Ended_example = recv_neigh_entries-Ended received 1 received-IsLast

-- `NDA_CACHEINFO` with its sixteen bytes.
abbrev cacheinfo : Attribute
cacheinfo = record {
  kind = 3;
  payload = 0 ∷ 0 ∷ 0 ∷ 0 ∷ 1 ∷ 0 ∷ 0 ∷ 0 ∷ 2 ∷ 0 ∷ 0 ∷ 0 ∷ 1 ∷ 0 ∷ 0 ∷ 0 ∷ [];
  pad = [];
}

-- A neighbour that is reachable, and one that is permanent.
abbrev neighbours : List Neighbour
neighbours =
    record {
      ip = address_a;
      mac = mac_a;
      low = 2;
      high = 0;
      envelope = multi;
      link = link_3;
      others = cacheinfo ∷ [];
    }
    ∷ record {
      ip = address_b;
      mac = mac_a;
      low = 128;
      high = 0;
      envelope = multi;
      link = link_3;
      others = [];
    }
    ∷ []

-- One server without a MAC, and one with one.
abbrev servers_ab : List Server
servers_ab = record server_a { mac = none; address = address_b } ∷ server_a ∷ []

resolve_macs-AllResolved_example :
    AllResolved
      ((address_b, mac_a) ∷ [])
      servers_ab
      (resolve_macs (some ((address_b, mac_a) ∷ [])) servers_ab)
    × (resolve_macs none servers_ab ≡ servers_ab)
resolve_macs-AllResolved_example = resolve_macs-AllResolved ((address_b, mac_a) ∷ []) servers_ab

abbrev unread : ℕ → Option Neighbours
unread i = none

Serving-IsConsistent_example : IsConsistent (initial_table unread table_a)
Serving-IsConsistent_example =
    Serving-IsConsistent (new 443) (initial_table unread table_a) 0 (booted 443 unread table_a 0)

-- The table as a route file gives it, and a checker that knows its server.
abbrev table_read : ConfigTable
table_read = record table_a {
  slots =
      some (record route_a { servers = record server_a { healthy = false } ∷ [] })
      ∷ none
      ∷ none
      ∷ none
      ∷ none
      ∷ none
      ∷ none
      ∷ [];
  fallback_servers = [];
}

abbrev checker_up : HealthChecker
checker_up = record { state = (address_a, health_up) ∷ []; port = 443 }

abbrev table_reloaded : ConfigTable
table_reloaded = reload_config unread (some table_read) table_a

no_server_up : any_config (λ s. s.healthy) (active table_read.slots) ≡ false
unfolding any_config any_server active
no_server_up = refl

no_mac_missing : has_unresolved_macs table_reloaded ≡ false
unfolding has_unresolved_macs any_config any_server active reload_config resolve_table resolve_slots
    resolve_macs count_none is_none rebuild_fallback_servers inherit_ages_from
no_mac_missing = refl

known_up :
    (x : IpAddr)
    → contains x (all_addrs table_reloaded) ≡ true
    → find x checker_up.state ≡ some health_up
unfolding all_addrs collect_configs collect_servers insert_addr contains find active reload_config
    resolve_table resolve_slots resolve_macs count_none is_none rebuild_fallback_servers
    inherit_ages_from
known_up x c = elim (Bool-cases (addr_eq address_a x)) [
  | inl e ↦ rw e refl
  | inr e ↦ let no : false ≡ true = rw e at c in ground arith
]

reload_config-forgets_example :
    (table_reloaded.fallback_servers ≡ [])
    × ((hc' : HealthChecker) × (check_and_rebuild answering unread checker_up table_reloaded second
          ≡ ok (hc', table_reloaded, false))
        × AllUp hc' table_reloaded)
unfolding AllUp AllAnswer
reload_config-forgets_example =
    reload_config-forgets answering unread unread checker_up table_read table_a second no_server_up
      no_mac_missing (λ x c. (health_up, known_up x c, refl)) (λ x c. refl)
