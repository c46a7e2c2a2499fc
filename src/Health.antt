-- ===== src/Health.antt =====
-- pesigitg-daemon/src/health.rs: the probes of the servers. An `Instant` and a `Duration` are numbers
-- of nanoseconds; the outcome of a handshake is a parameter, `none` where its task does not finish.
pub mod Delays
pub mod History
pub mod Batch
pub mod Due
pub mod Round
pub mod Mirror
pub mod Recovery
pub mod Liveness
pub mod Order
use pesigitg.Prelude.{
  ℕ, ◌+◌, ◌-◌, ◌%◌, ◌^◌, min, Bool, true, false, ◌&&◌, ◌||◌, Option, none, some, List, [], ◌∷◌,
  ◌++◌, ltb, leb, if◌then◌else◌, length, Run, Absent, ◌>>=◌, index, ok, panic,
}
use pesigitg.Common.Address.{IpAddr}
use pesigitg.Common.AddressMap.{find, put, retain_keys, contains, insert_addr}
use pesigitg.Config.Table.{ConfigTable, active}
use pesigitg.Routing.Route.{RouteConfig, Server}

abbrev pub failure_threshold : ℕ
failure_threshold = 3

abbrev pub probe_interval : ℕ
probe_interval = 5_000_000_000

abbrev pub backoff_schedule : List ℕ
backoff_schedule = 10_000_000_000 ∷ 30_000_000_000 ∷ 60_000_000_000 ∷ 300_000_000_000 ∷ []

pub record ServerHealth : Type 0 where
  pub consecutive_failures : ℕ
  pub healthy : Bool
  pub next_probe_at : ℕ
  pub transitions : ℕ
  pub state_since : ℕ
  pub ever_healthy : Bool

abbrev pub HealthMap : Type 0
HealthMap = List (IpAddr × ServerHealth)

-- The runtime and its two endpoints are in the parameter `connect` of the probes.
pub record HealthChecker : Type 0 where
  pub state : HealthMap
  pub port : ℕ

unfoldable pub new : ℕ → HealthChecker
new port = record { state = []; port = port }

unfoldable pub backoff_for : ℕ → Run Absent ℕ
backoff_for failures =
    if ltb failures failure_threshold
    then ok probe_interval
    else index backoff_schedule (min (failures - failure_threshold) (length backoff_schedule - 1))

unfoldable pub reset_entries : ℕ → HealthMap → HealthMap
reset_entries now [] = []
reset_entries now ((a, s) ∷ m) = (a, record s { next_probe_at = now }) ∷ reset_entries now m

unfoldable pub reset_backoff : HealthChecker → ℕ → HealthChecker
reset_backoff hc now = record hc { state = reset_entries now hc.state }

-- The set of the servers' addresses.
unfoldable pub collect_servers : List IpAddr → List Server → List IpAddr
collect_servers addrs [] = addrs
collect_servers addrs (s ∷ servers) = collect_servers (insert_addr s.address addrs) servers

unfoldable pub collect_configs : List IpAddr → List RouteConfig → List IpAddr
collect_configs addrs [] = addrs
collect_configs addrs (c ∷ cs) = collect_configs (collect_servers addrs c.servers) cs

unfoldable pub all_addrs : ConfigTable → List IpAddr
all_addrs table = collect_configs [] (active table.slots)

unfoldable pub evict_removed : HealthMap → List IpAddr → HealthMap
evict_removed state current = retain_keys (λ a. contains a current) state

unfoldable pub discovered : ℕ → ServerHealth
discovered now = record {
  consecutive_failures = 0;
  healthy = false;
  next_probe_at = now;
  transitions = 0;
  state_since = now;
  ever_healthy = false;
}

unfoldable pub or_discovered : Option ServerHealth → ℕ → ServerHealth
or_discovered none now = discovered now
or_discovered (some s) now = s

-- The loop over the addresses: every one has an entry after it, and those that are due are listed.
unfoldable pub track : List IpAddr → ℕ → HealthMap → List IpAddr → HealthMap × List IpAddr
track [] now state due = (state, due)
track (a ∷ addrs) now state due =
    let s = or_discovered (find a state) now in
    track addrs now (put a s state) (if leb s.next_probe_at now then due ++ (a ∷ []) else due)

unfoldable pub record_probe : IpAddr → Option Bool → List (IpAddr × Bool) → List (IpAddr × Bool)
record_probe a none results = results
record_probe a (some answered) results = put a answered results

unfoldable pub probe_loop :
    (IpAddr → Option Bool) → List IpAddr → List (IpAddr × Bool) → List (IpAddr × Bool)
probe_loop connect [] results = results
probe_loop connect (a ∷ addrs) results =
    probe_loop connect addrs (record_probe a (connect a) results)

unfoldable pub probe_all : (IpAddr → ℕ → Option Bool) → ℕ → List IpAddr → List (IpAddr × Bool)
probe_all connect port addrs = probe_loop (λ a. connect a port) addrs []

-- A probe that was answered, and whether the server came back up.
unfoldable pub succeed : ServerHealth → ℕ → ServerHealth × Bool
succeed s now =
    if s.healthy
    then (record s { consecutive_failures = 0; next_probe_at = now + probe_interval }, false)
    else (
      record {
        consecutive_failures = 0;
        healthy = true;
        next_probe_at = now + probe_interval;
        transitions = if s.ever_healthy then (s.transitions + 1) % 2 ^ 32 else s.transitions;
        state_since = now;
        ever_healthy = true;
      },
      true,
    )

-- A probe that failed, and whether the server went down by it; the counters are `u32`.
unfoldable pub fail : ServerHealth → ℕ → Run Absent (ServerHealth × Bool)
fail s now = do
  let failures = (s.consecutive_failures + 1) % 2 ^ 32
  delay ← backoff_for failures
  ok (
      if s.healthy && leb failure_threshold failures
      then (
        record {
          consecutive_failures = failures;
          healthy = false;
          next_probe_at = now + delay;
          transitions = (s.transitions + 1) % 2 ^ 32;
          state_since = now;
          ever_healthy = s.ever_healthy;
        },
        true,
      )
      else (record s { consecutive_failures = failures; next_probe_at = now + delay }, false))

unfoldable pub apply_probe : ServerHealth → Bool → ℕ → Run Absent (ServerHealth × Bool)
apply_probe s true now = ok (succeed s now)
apply_probe s false now = fail s now

-- `expect("state missing for probed addr")`
unfoldable pub expect {ℓ} : {A : Type ℓ} → Option A → Run Absent A
expect none = panic
expect (some a) = ok a

unfoldable pub apply_loop :
    HealthMap → List (IpAddr × Bool) → ℕ → Bool → Run Absent (HealthMap × Bool)
apply_loop state [] now changed = ok (state, changed)
apply_loop state ((a, answered) ∷ probes) now changed = do
  s ← expect (find a state)
  (s', flipped) ← apply_probe s answered now
  apply_loop (put a s' state) probes now (changed || flipped)

unfoldable pub mirror_health : Option ServerHealth → Server → Server
mirror_health none server = server
mirror_health (some s) server = record server {
  healthy = s.healthy;
  transitions = s.transitions;
  state_since = some s.state_since;
}

unfoldable pub mirror_servers : HealthMap → List Server → List Server
mirror_servers state [] = []
mirror_servers state (s ∷ servers) =
    mirror_health (find s.address state) s ∷ mirror_servers state servers

unfoldable pub mirror_slots : HealthMap → List (Option RouteConfig) → List (Option RouteConfig)
mirror_slots state [] = []
mirror_slots state (none ∷ slots) = none ∷ mirror_slots state slots
mirror_slots state (some c ∷ slots) =
    some (record c { servers = mirror_servers state c.servers }) ∷ mirror_slots state slots

unfoldable pub apply_probe_results :
    HealthMap → List (IpAddr × Bool) → ℕ → ConfigTable → Run Absent (HealthMap × ConfigTable × Bool)
apply_probe_results state probes now table = do
  (state', changed) ← apply_loop state probes now false
  ok (state', record table { slots = mirror_slots state' table.slots }, changed)

-- `check`, once the due addresses are known.
unfoldable pub probe_due :
    (IpAddr → ℕ → Option Bool)
    → HealthChecker
    → ConfigTable
    → ℕ
    → HealthMap × List IpAddr
    → Run Absent (HealthChecker × ConfigTable × Bool)
probe_due connect hc table now (state, []) = ok (record hc { state = state }, table, false)
probe_due connect hc table now (state, a ∷ due) = do
  (state', table', changed) ←
      apply_probe_results state (probe_all connect hc.port (a ∷ due)) now table
  ok (record hc { state = state' }, table', changed)

unfoldable pub check :
    (IpAddr → ℕ → Option Bool)
    → HealthChecker
    → ConfigTable
    → ℕ
    → Run Absent (HealthChecker × ConfigTable × Bool)
check connect hc table now =
    probe_due connect hc table now
      (track (all_addrs table) now (evict_removed hc.state (all_addrs table)) [])
