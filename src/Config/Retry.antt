-- ===== src/Config/Retry.antt =====
-- pesigitg-daemon/src/config/retry.rs. `now` is the instant of `Instant::now()`.
pub mod Valid
use pesigitg.Common.Hex.{HexError}
use pesigitg.Common.Hex
use pesigitg.Retry.Load.{LoadRateTracker}
use pesigitg.Retry.Load
use pesigitg.Prelude.{
  ◌*◌, Bool, true, false, not, ◌||◌, Option, none, some, List, [], ◌∷◌, ltb, leb, ◌==◌,
  if◌then◌else◌, bytes_eq, length, replicate, Run, ◌>>=◌, ◌>>◌, return_if, map_err, ok, err, ℕ,
}

pub data RetryMode : Type 0 where
  observe always load : RetryMode

pub record RetryConfig : Type 0 where
  pub enabled : Bool
  pub token_key : List ℕ
  pub token_lifetime_ms : ℕ
  pub mode : RetryMode
  pub ports : List ℕ
  pub load_trigger_rate : Option ℕ
  pub load_tracker : Option LoadRateTracker
  pub loaded_at : ℕ
  pub max_key_age_secs : Option ℕ

-- `TokenKey::same_key` decides whether the age of the key is carried over.
pub inherit_age_from : RetryConfig → RetryConfig → RetryConfig
inherit_age_from r prev =
    if bytes_eq r.token_key prev.token_key then record r { loaded_at = prev.loaded_at } else r

-- The error messages of `validate`.
pub data RetryError : Type 0 where
  unknown_mode lifetime_range key_required missing_load zero_trigger_rate : RetryError
  stray_load zero_max_key_age : RetryError
  invalid_key : HexError → RetryError
  key_length : ℕ → RetryError

-- The deserialized section, its defaults filled in; `load` is the trigger rate of `[retry.load]`.
pub record RawRetry : Type 0 where
  pub enabled : Bool
  pub token_key : Option (List ℕ)
  pub token_lifetime_secs : ℕ
  pub mode : List ℕ
  pub ports : List ℕ
  pub load : Option ℕ
  pub max_key_age_secs : Option ℕ

abbrev pub observe_text : List ℕ
observe_text = b'o' ∷ b'b' ∷ b's' ∷ b'e' ∷ b'r' ∷ b'v' ∷ b'e' ∷ []

abbrev pub always_text : List ℕ
always_text = b'a' ∷ b'l' ∷ b'w' ∷ b'a' ∷ b'y' ∷ b's' ∷ []

abbrev pub load_text : List ℕ
load_text = b'l' ∷ b'o' ∷ b'a' ∷ b'd' ∷ []

unfoldable pub parse_mode : List ℕ → Run RetryError RetryMode
parse_mode text =
    if bytes_eq text observe_text
    then ok observe
    else if bytes_eq text always_text
    then ok always
    else if bytes_eq text load_text
    then ok load
    else err unknown_mode

unfoldable pub parse_hex_retry_key : List ℕ → Run RetryError (List ℕ)
parse_hex_retry_key s = do
  bytes ← map_err invalid_key (Hex.decode s)
  return_if (not (length bytes == 32)) (key_length (length bytes))
  ok bytes

unfoldable pub token_key_of : Option (List ℕ) → Bool → Run RetryError (List ℕ)
token_key_of (some hex) enabled = parse_hex_retry_key hex
token_key_of none true = err key_required
token_key_of none false = ok (replicate 32 0)

unfoldable pub trigger_rate_of : RetryMode → Option ℕ → Run RetryError (Option ℕ)
trigger_rate_of load none = err missing_load
trigger_rate_of load (some trigger_rate) =
    if trigger_rate == 0 then err zero_trigger_rate else ok (some trigger_rate)
trigger_rate_of mode none = ok none
trigger_rate_of mode (some trigger_rate) = err stray_load

unfoldable pub tracker_of : RetryMode → Option LoadRateTracker
tracker_of load = some Load.new
tracker_of mode = none

-- `sort_unstable` on numbers.
unfoldable pub insert_sorted : ℕ → List ℕ → List ℕ
insert_sorted p [] = p ∷ []
insert_sorted p (q ∷ ports) = if leb p q then p ∷ (q ∷ ports) else q ∷ insert_sorted p ports

unfoldable pub sort : List ℕ → List ℕ
sort [] = []
sort (p ∷ ports) = insert_sorted p (sort ports)

-- `Vec::dedup`: a port that repeats the one before it is removed.
unfoldable pub dedup_after : ℕ → List ℕ → List ℕ
dedup_after p [] = []
dedup_after p (q ∷ ports) = let rest = dedup_after q ports in if p == q then rest else q ∷ rest

unfoldable pub dedup : List ℕ → List ℕ
dedup [] = []
dedup (p ∷ ports) = p ∷ dedup_after p ports

unfoldable pub is_zero : Option ℕ → Bool
is_zero none = false
is_zero (some n) = n == 0

unfoldable pub validate : ℕ → RawRetry → Run RetryError RetryConfig
validate now raw = do
  mode ← parse_mode raw.mode
  return_if (raw.token_lifetime_secs == 0 || ltb 86400 raw.token_lifetime_secs) lifetime_range
  token_key ← token_key_of raw.token_key raw.enabled
  load_trigger_rate ← trigger_rate_of mode raw.load
  return_if (is_zero raw.max_key_age_secs) zero_max_key_age
  ok (record {
    enabled = raw.enabled;
    token_key = token_key;
    token_lifetime_ms = raw.token_lifetime_secs * 1000;
    mode = mode;
    ports = dedup (sort raw.ports);
    load_trigger_rate = load_trigger_rate;
    load_tracker = tracker_of mode;
    loaded_at = now;
    max_key_age_secs = raw.max_key_age_secs;
  })
