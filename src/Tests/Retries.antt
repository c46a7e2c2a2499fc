-- ===== src/Tests/Retries.antt =====
-- Instances of the theorems on Retry tokens, the load tracker and the decision to answer.
use pesigitg.Prelude.{
  zero, suc, ◌<◌, All, false, ℕ, ◌+◌, ◌-◌, ◌%◌, ◌^◌, ◌≡◌, refl, ◌≢◌, true, none, some, List, [],
  ◌∷◌, arith, ltb, if◌then◌else◌, Safe, length, take, replicate, length-replicate, ok, err,
}
use pesigitg.Config.Retry
use pesigitg.Routing.Route.Validate.{HasAsciiKey}
use pesigitg.Config.Retry.Valid.{IsRetry, validate-IsRetry}
use pesigitg.Config.Retry.{RawRetry, load_text, RetryConfig, observe}
use pesigitg.Config.Table.{ConfigTable}
use pesigitg.Packet.Parse.{ParsedFrame, udp, ipv4}
use pesigitg.Packet.Parse.Bounds.{Located, whole}
use pesigitg.Retry.Datapath.{emitted, Frame, contents, try_handle}
use pesigitg.Retry.Datapath.Quiet.{observing, try_handle-Quiet}
use pesigitg.Retry.Load.Threads.{interleave}
use pesigitg.Retry.Load.Interleavings.{interleave-conserves, workers, sum, contributed}
use pesigitg.Retry.Load.Stale.{rate-record_late}
use pesigitg.Retry.Load.{LoadRateTracker, rate, record_batch}
use pesigitg.Retry.Load.Windows.{record_all, total, InSecond, rate-record_all}
use pesigitg.Retry.Token.{expired, token_len, mint, verify}
use pesigitg.Retry.Token.RoundTrip.{verify-mint}
use pesigitg.Tests.Samples.{key, table_a, address_a, dcid_a, local_mac}

abbrev hmac : List ℕ → List ℕ → List ℕ
hmac k text = replicate 32 (length text % 256)

verify-mint_example :
    (token : List ℕ) × (mint hmac key address_a dcid_a 1000 ≡ ok token)
    × (length token ≡ token_len)
    × (verify hmac key token address_a dcid_a 1500 10000
        ≡ (if ltb 10000 (1500 - 1000) then err expired else ok tt))
verify-mint_example =
    verify-mint hmac (λ k text. length-replicate 32 (length text % 256)) key address_a dcid_a 1000
      (omega arith) 1500 10000 (omega arith) (omega arith)

abbrev tracker : LoadRateTracker
tracker = record { window_sec = 5; window_count = 3; last_rate = 7 }

abbrev batches : List (ℕ × ℕ)
batches = (10, 5100) ∷ (20, 5900) ∷ []

rate-record_all_example :
    (rate (record_all tracker batches) ≡ rate tracker)
    × (rate (record_batch (record_all tracker batches) 1 6000) ≡ (3 + total batches) % 2 ^ 64)
unfolding InSecond
rate-record_all_example =
    rate-record_all tracker batches 1 6000 (omega arith, (omega arith, tt)) (omega arith)
      (omega arith)

abbrev retry_a : RetryConfig
retry_a = record {
  enabled = true;
  token_key = key;
  token_lifetime_ms = 10000;
  mode = observe;
  ports = [];
  load_trigger_rate = none;
  load_tracker = none;
  loaded_at = 0;
  max_key_age_secs = none;
}

abbrev frame_a : Frame
frame_a = record { chunk = replicate 100 0; len = 60 }

abbrev parsed_a : ParsedFrame
parsed_a = record {
  family = ipv4;
  ip_hdr_len = 20;
  src_mac = local_mac;
  src_addr = address_a;
  dst_addr = address_a;
  l4 = udp 34 42 5120 443;
}

abbrev table_r : ConfigTable
table_r = record table_a { retry = some retry_a }

frame_a-Located : Located (contents frame_a) (udp 34 42 5120 443)
unfolding contents replicate take
frame_a-Located = whole 34 42 5120 443 refl (omega arith)

try_handle-Quiet_example :
    Safe
      (λ h. (h.outcome ≢ emitted) × (h.frame ≡ frame_a))
      (try_handle hmac (λ k n a. replicate 16 0) frame_a parsed_a table_r local_mac 0 0)
try_handle-Quiet_example =
    try_handle-Quiet hmac (λ k n a. replicate 16 0) frame_a parsed_a table_r retry_a local_mac 0 0
      refl observing frame_a-Located

abbrev raw_retry : RawRetry
raw_retry = record {
  enabled = false;
  token_key = some (replicate 64 b'7');
  token_lifetime_secs = 30;
  mode = load_text;
  ports = 8443 ∷ 443 ∷ 8443 ∷ [];
  load = some 1000;
  max_key_age_secs = none;
}

ascii_digits : (n : ℕ) → All (λ c. c < 128) (replicate n b'7')
unfolding replicate
ascii_digits zero = tt
ascii_digits (suc n) = (omega arith, ascii_digits n)

raw_retry-HasAsciiKey : HasAsciiKey raw_retry.token_key
unfolding HasAsciiKey
raw_retry-HasAsciiKey = ascii_digits 64

validate-IsRetry_example : Safe IsRetry (Retry.validate 0 raw_retry)
validate-IsRetry_example = validate-IsRetry 0 raw_retry raw_retry-HasAsciiKey

-- Two workers at the turn of a second, their steps interleaved.
interleave-conserves_example :
    ((interleave (0 ∷ 1 ∷ 0 ∷ 1 ∷ 1 ∷ 0 ∷ 0 ∷ []) (workers tracker batches)).tracker.window_count
        + sum ((interleave (0 ∷ 1 ∷ 0 ∷ 1 ∷ 1 ∷ 0 ∷ 0 ∷ []) (workers tracker batches)).taken))
      % 2 ^ 64
    ≡ (tracker.window_count
        + contributed
            ((interleave (0 ∷ 1 ∷ 0 ∷ 1 ∷ 1 ∷ 0 ∷ 0 ∷ []) (workers tracker batches)).calls))
      % 2 ^ 64
interleave-conserves_example = interleave-conserves (0 ∷ 1 ∷ 0 ∷ 1 ∷ 1 ∷ 0 ∷ 0 ∷ []) tracker batches

rate-record_late_example : rate (record_batch (record_batch tracker 2 4999) 50 5001) ≡ 2
rate-record_late_example =
    rate-record_late tracker 2 50 4999 5001 (omega arith) (omega arith) (omega arith) (omega arith)
