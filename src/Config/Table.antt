-- ===== src/Config/Table.antt =====
-- pesigitg-daemon/src/config/route.rs: `ConfigTable`, seven slots of routes indexed by config_id, and
-- `lookup_config` of pesigitg-daemon/src/cid.rs.
pub mod Fallback
use pesigitg.Common.Address.{addr_eq}
use pesigitg.Config.Retry.{RetryConfig, inherit_age_from}
use pesigitg.Routing.Route.{RouteConfig, Server, same_key, cid_length}
use pesigitg.Routing.Cid.{first_cid_octet, extract_raw_dcid}
use pesigitg.Prelude.{
  ◌/◌, Bool, true, false, not, ◌&&◌, ◌||◌, Option, none, some, List, [], ◌∷◌, ◌++◌, ltb, ◌==◌,
  if◌then◌else◌, length, get_or, set, replicate, Run, Absent, ◌>>=◌, ◌>>◌, return_if, or_else, ok,
  panic, absent, ℕ, ◌+◌,
}

pub record ConfigTable : Type 0 where
  pub slots : List (Option RouteConfig)
  pub loaded_at : List (Option ℕ)
  pub fallback_servers : List Server
  pub retry : Option RetryConfig

-- `slots[id] = v` on the arrays of seven.
pub set_slot {ℓ} : {A : Type ℓ} → List (Option A) → ℕ → A → Run Absent (List (Option A))
set_slot xs id v = if ltb id (length xs) then ok (set xs id (some v)) else panic

-- The loop over the parsed configurations in `ConfigTable::from_str`.
pub fill_slots :
    List RouteConfig
    → ℕ
    → List (Option RouteConfig)
    → List (Option ℕ)
    → Run Absent (List (Option RouteConfig) × List (Option ℕ))
fill_slots [] now slots loaded_at = ok (slots, loaded_at)
fill_slots (config ∷ configs) now slots loaded_at = do
  slots' ← set_slot slots config.config_id config
  loaded_at' ← set_slot loaded_at config.config_id now
  fill_slots configs now slots' loaded_at'

-- `ConfigTable::from_str`, from the parsed routes and the validated `[retry]` section on.
pub from_configs : List RouteConfig → Option RetryConfig → ℕ → Run Absent ConfigTable
from_configs configs retry now = do
  (slots, loaded_at) ← fill_slots configs now (replicate 7 none) (replicate 7 none)
  ok (record { slots = slots; loaded_at = loaded_at; fallback_servers = []; retry = retry })

-- The body of the loop in `inherit_ages_from`, for the slots of both tables in step.
pub inherit_slot : Option RouteConfig → Option RouteConfig → Option ℕ → Option ℕ → Option ℕ
inherit_slot (some new_cfg) (some old_cfg) mine theirs =
    if same_key new_cfg.encryption old_cfg.encryption then theirs else mine
inherit_slot _ old mine theirs = mine

pub inherit_slots :
    List (Option RouteConfig)
    → List (Option RouteConfig)
    → List (Option ℕ)
    → List (Option ℕ)
    → List (Option ℕ)
inherit_slots (n ∷ new) (o ∷ old) (m ∷ mine) (t ∷ theirs) =
    inherit_slot n o m t ∷ inherit_slots new old mine theirs
inherit_slots new old mine theirs = mine

pub inherit_retry : Option RetryConfig → Option RetryConfig → Option RetryConfig
inherit_retry (some new_retry) (some old_retry) = some (inherit_age_from new_retry old_retry)
inherit_retry new_retry old_retry = new_retry

unfoldable pub inherit_ages_from : ConfigTable → ConfigTable → ConfigTable
inherit_ages_from table prev = record table {
  loaded_at = inherit_slots table.slots prev.slots table.loaded_at prev.loaded_at;
  retry = inherit_retry table.retry prev.retry;
}

pub loaded_at : ConfigTable → ℕ → Option ℕ
loaded_at table config_id = get_or table.loaded_at config_id none

unfoldable pub get : ConfigTable → ℕ → Option RouteConfig
get table config_id = get_or table.slots config_id none

-- `self.configs()`, the occupied slots in order.
unfoldable pub active : List (Option RouteConfig) → List RouteConfig
active [] = []
active (none ∷ slots) = active slots
active (some c ∷ slots) = c ∷ active slots

pub configs : ConfigTable → List RouteConfig
configs table = active table.slots

unfoldable pub first_cid_length : List RouteConfig → Option ℕ
first_cid_length [] = none
first_cid_length (c ∷ cs) = some (cid_length c)

unfoldable pub fallback_cid_length : ConfigTable → Option ℕ
fallback_cid_length table = first_cid_length (active table.slots)

unfoldable pub any_server : (Server → Bool) → List Server → Bool
any_server p [] = false
any_server p (s ∷ servers) = p s || any_server p servers

unfoldable pub any_config : (Server → Bool) → List RouteConfig → Bool
any_config p [] = false
any_config p (c ∷ cs) = any_server p c.servers || any_config p cs

unfoldable pub is_none {ℓ} : {A : Type ℓ} → Option A → Bool
is_none none = true
is_none (some a) = false

pub has_draining_servers : ConfigTable → Bool
has_draining_servers table = any_config (λ s. s.draining) (active table.slots)

unfoldable pub has_unresolved_macs : ConfigTable → Bool
has_unresolved_macs table = any_config (λ s. is_none s.mac) (active table.slots)

pub count_unresolved : List Server → ℕ
count_unresolved [] = 0
count_unresolved (s ∷ servers) = (if is_none s.mac then 1 else 0) + count_unresolved servers

pub unresolved_in : List RouteConfig → ℕ
unresolved_in [] = 0
unresolved_in (c ∷ cs) = count_unresolved c.servers + unresolved_in cs

pub unresolved_macs_count : ConfigTable → ℕ
unresolved_macs_count table = unresolved_in (active table.slots)

-- The condition under which `rebuild_fallback_servers` takes a server.
unfoldable pub eligible : Server → List Server → Bool
eligible server chosen =
    ((server.healthy && not (is_none server.mac)) && not server.draining)
    && not (any_server (λ s. addr_eq s.address server.address) chosen)

unfoldable pub rebuild_servers : List Server → List Server → List Server
rebuild_servers chosen [] = chosen
rebuild_servers chosen (s ∷ servers) =
    rebuild_servers (if eligible s chosen then chosen ++ (s ∷ []) else chosen) servers

unfoldable pub rebuild_configs : List Server → List RouteConfig → List Server
rebuild_configs chosen [] = chosen
rebuild_configs chosen (c ∷ cs) = rebuild_configs (rebuild_servers chosen c.servers) cs

unfoldable pub rebuild_fallback_servers : ConfigTable → ConfigTable
rebuild_fallback_servers table = record table {
  fallback_servers = rebuild_configs [] (active table.slots);
}

-- pesigitg-daemon/src/cid.rs.
unfoldable pub lookup_config : List ℕ → ConfigTable → Run Absent (List ℕ × RouteConfig)
lookup_config quic table = do
  first_octet ← first_cid_octet quic
  let config_id = first_octet / 32
  return_if (config_id == 7) absent
  config ← or_else (get table config_id) absent
  dcid ← extract_raw_dcid quic (cid_length config)
  ok (dcid, config)
