-- ===== src/Config/KeyAge.antt =====
-- pesigitg-daemon/src/config/key_age.rs: one warning for each key that is older than its policy.
-- An instant is a number of nanoseconds; the warnings that are logged are part of the result.
use pesigitg.Config.Retry.{RetryConfig}
use pesigitg.Config.Table.{ConfigTable, active, configs}
use pesigitg.Config.Table
use pesigitg.Routing.Route.{RouteConfig}
use pesigitg.Prelude.{
  ◌-◌, ◌/◌, Bool, false, Option, none, some, List, [], ◌∷◌, ◌++◌, leb, ◌==◌, if◌then◌else◌, get_or,
  set, replicate, ℕ,
}

pub record KeyAgeWarner : Type 0 where
  pub qlb_warned_for : List (Option ℕ)
  pub retry_warned_for : Option ℕ

pub new : KeyAgeWarner
new = record { qlb_warned_for = replicate 7 none; retry_warned_for = none }

pub data Warning : Type 0 where
  qlb_key : (config_id age : ℕ) → Warning
  retry_key : (age : ℕ) → Warning

-- `now.saturating_duration_since(loaded).as_secs()`
pub age_secs : ℕ → ℕ → ℕ
age_secs now loaded = (now - loaded) / 1_000_000_000

-- `warned == Some(loaded)`
pub is_some_at : Option ℕ → ℕ → Bool
is_some_at none loaded = false
is_some_at (some w) loaded = w == loaded

-- Whether the policy `max` calls for a warning about the key loaded at `loaded`.
pub due : Option ℕ → Option ℕ → Option ℕ → ℕ → Option (ℕ × ℕ)
due none loaded warned now = none
due (some max) none warned now = none
due (some max) (some loaded) warned now =
    if leb (age_secs now loaded) max
    then none
    else if is_some_at warned loaded
    then none
    else some (loaded, age_secs now loaded)

-- One round of the loop over the configurations: the slot array and what is logged.
pub check_config : ConfigTable → ℕ → RouteConfig → List (Option ℕ) → List (Option ℕ) × List Warning
check_config table now cfg warned =
    elim (due cfg.max_key_age_secs (Table.loaded_at table cfg.config_id)
      (get_or warned cfg.config_id none) now) [
        | none ↦ (warned, [])
        | some (loaded, age) ↦
            (set warned cfg.config_id (some loaded), qlb_key cfg.config_id age ∷ [])
      ]

pub check_configs :
    ConfigTable → ℕ → List RouteConfig → List (Option ℕ) → List (Option ℕ) × List Warning
check_configs table now [] warned = (warned, [])
check_configs table now (cfg ∷ cfgs) warned =
    let (warned', log) = check_config table now cfg warned in
    let (warned'', logs) = check_configs table now cfgs warned' in (warned'', log ++ logs)

pub check_retry : Option RetryConfig → ℕ → Option ℕ → Option ℕ × List Warning
check_retry none now warned = (warned, [])
check_retry (some retry) now warned =
    elim (due retry.max_key_age_secs (some retry.loaded_at) warned now) [
      | none ↦ (warned, [])
      | some (loaded, age) ↦ (some loaded, retry_key age ∷ [])
    ]

pub check_at : KeyAgeWarner → ConfigTable → ℕ → KeyAgeWarner × List Warning
check_at w table now =
    let (qlb, logs) = check_configs table now (configs table) w.qlb_warned_for in
    let (retry, log) = check_retry table.retry now w.retry_warned_for in
    (record { qlb_warned_for = qlb; retry_warned_for = retry }, logs ++ log)
