-- ===== src/Stats.antt =====
-- The counters of pesigitg-daemon/src/stats.rs, and the part of the packet loop of
-- pesigitg-daemon/src/threading.rs that counts. A counter has 64 bits and wraps.
pub mod Snapshots
pub mod Tally
pub mod Verdicts
pub mod Batches
pub mod Counters
pub mod Deltas
use pesigitg.Prelude.{
  ltb, ℕ, ◌+◌, ◌-◌, ◌%◌, ◌^◌, Bool, true, false, List, [], ◌∷◌, if◌then◌else◌, replicate, Run,
  Absent, ◌>>=◌, ◌>>◌, index, store, ok,
}
use pesigitg.Packet.Process.{
  Verdict, cid_forward, cid_forward_draining, fallback_forward, icmp_forward,
  cid_unroutable_no_server, cid_unroutable_bad_server_id, pass,
}
use pesigitg.Retry.Datapath.{
  Outcome, skip, forward, emitted, Detail, no_detail, parse_failed, token_valid, observed,
}

-- The flag of an outcome is the test `outcome == RetryOutcome::Emitted`.
unfoldable pub is_emitted : Outcome → Bool
is_emitted emitted = true
is_emitted skip = false
is_emitted forward = false

unfoldable pub add : ℕ → ℕ → ℕ
add counter n = (counter + n) % 2 ^ 64

pub record BatchStats : Type 0 where
  pub forwarded : ℕ
  pub cid_routed : ℕ
  pub cid_by_config : List ℕ
  pub fallback_routed : ℕ
  pub cid_unroutable_no_server : ℕ
  pub cid_unroutable_bad_server_id : ℕ
  pub draining_forwarded : ℕ
  pub icmp_forwarded : ℕ
  pub passed : ℕ
  pub retry_initials_seen : ℕ
  pub retry_issued : ℕ
  pub retry_token_validated : ℕ
  pub retry_token_invalid : ℕ
  pub retry_token_expired : ℕ
  pub retry_parse_error : ℕ

unfoldable pub new_batch : BatchStats
new_batch = record {
  forwarded = 0;
  cid_routed = 0;
  cid_by_config = replicate 7 0;
  fallback_routed = 0;
  cid_unroutable_no_server = 0;
  cid_unroutable_bad_server_id = 0;
  draining_forwarded = 0;
  icmp_forwarded = 0;
  passed = 0;
  retry_initials_seen = 0;
  retry_issued = 0;
  retry_token_validated = 0;
  retry_token_invalid = 0;
  retry_token_expired = 0;
  retry_parse_error = 0;
}

-- A configuration id above 6 is out of the array.
unfoldable pub record_cid_forward : ℕ → BatchStats → Run Absent BatchStats
record_cid_forward config_id b = do
  count ← index b.cid_by_config config_id
  slots ← store b.cid_by_config config_id (add count 1)
  ok (record b {
    cid_routed = add b.cid_routed 1;
    cid_by_config = slots;
    forwarded = add b.forwarded 1;
  })

unfoldable pub record_fallback_forward : BatchStats → BatchStats
record_fallback_forward b = record b {
  fallback_routed = add b.fallback_routed 1;
  forwarded = add b.forwarded 1;
}

unfoldable pub record_icmp_forward : BatchStats → BatchStats
record_icmp_forward b = record b {
  icmp_forwarded = add b.icmp_forwarded 1;
  forwarded = add b.forwarded 1;
}

unfoldable pub record_draining_forward : BatchStats → BatchStats
record_draining_forward b = record b { draining_forwarded = add b.draining_forwarded 1 }

unfoldable pub record_cid_unroutable_no_server : BatchStats → BatchStats
record_cid_unroutable_no_server b = record b {
  cid_unroutable_no_server = add b.cid_unroutable_no_server 1;
}

unfoldable pub record_cid_unroutable_bad_server_id : BatchStats → BatchStats
record_cid_unroutable_bad_server_id b = record b {
  cid_unroutable_bad_server_id = add b.cid_unroutable_bad_server_id 1;
}

unfoldable pub record_pass : BatchStats → BatchStats
record_pass b = record b { passed = add b.passed 1 }

-- The two counters that `record_retry` increments after its `match`.
unfoldable pub seen : Outcome → BatchStats → BatchStats
seen outcome b = record b {
  retry_initials_seen = add b.retry_initials_seen 1;
  retry_issued = if is_emitted outcome then add b.retry_issued 1 else b.retry_issued;
}

unfoldable pub record_retry : Outcome → Detail → BatchStats → BatchStats
record_retry outcome no_detail b = b
record_retry outcome parse_failed b =
    seen outcome (record b { retry_parse_error = add b.retry_parse_error 1 })
record_retry outcome token_valid b =
    seen outcome (record b { retry_token_validated = add b.retry_token_validated 1 })
record_retry outcome Detail.token_invalid b =
    seen outcome (record b { retry_token_invalid = add b.retry_token_invalid 1 })
record_retry outcome Detail.token_expired b =
    seen outcome (record b { retry_token_expired = add b.retry_token_expired 1 })
record_retry outcome Detail.issued b = seen outcome b
record_retry outcome observed b = seen outcome b

-- The `match verdict` of the packet loop.
unfoldable pub count_verdict : Verdict → BatchStats → Run Absent BatchStats
count_verdict (cid_forward config_id) b = record_cid_forward config_id b
count_verdict (cid_forward_draining config_id) b = do
  b' ← record_cid_forward config_id b
  ok (record_draining_forward b')
count_verdict fallback_forward b = ok (record_fallback_forward b)
count_verdict icmp_forward b = ok (record_icmp_forward b)
count_verdict cid_unroutable_no_server b = ok (record_cid_unroutable_no_server b)
count_verdict cid_unroutable_bad_server_id b = ok (record_cid_unroutable_bad_server_id b)
count_verdict pass b = ok (record_pass b)

-- What the loop learns of one packet: the outcome and detail of the retry path, and the verdict, which
-- is not looked at where a Retry packet is emitted.
pub record Packet : Type 0 where
  pub outcome : Outcome
  pub detail : Detail
  pub verdict : Verdict

unfoldable pub count_packet : Packet → BatchStats → Run Absent BatchStats
count_packet p b =
    let b' = record_retry p.outcome p.detail b in
    if is_emitted p.outcome then ok b' else count_verdict p.verdict b'

unfoldable pub count_batch : List Packet → BatchStats → Run Absent BatchStats
count_batch [] b = ok b
count_batch (p ∷ packets) b = do b' ← count_packet p b; count_batch packets b'
