-- ===== src/Stats/Snapshots.antt =====
-- The counters that workers share, their snapshot and its change: `flush`, `aggregate` and `delta` of
-- pesigitg-daemon/src/stats.rs.
use pesigitg.Prelude.{ℕ, ◌+◌, ◌-◌, ◌%◌, ◌^◌, List, [], ◌∷◌, ltb, if◌then◌else◌}
use pesigitg.Stats.{add, BatchStats, new_batch}

unfoldable pub wrapping_sub : ℕ → ℕ → ℕ
wrapping_sub a b = (a + (2 ^ 64 - b)) % 2 ^ 64

-- The counters that a worker shares; a snapshot has the same ones.
pub record WorkerStats : Type 0 where
  pub rx_packets : ℕ
  pub counts : BatchStats
  pub pending_fill_peak : ℕ

unfoldable pub new_worker : WorkerStats
new_worker = record { rx_packets = 0; counts = new_batch; pending_fill_peak = 0 }

unfoldable pub record_rx : ℕ → WorkerStats → WorkerStats
record_rx n w = record w { rx_packets = add w.rx_packets n }

unfoldable pub record_pending_fill : ℕ → WorkerStats → WorkerStats
record_pending_fill depth w =
    if ltb w.pending_fill_peak depth then record w { pending_fill_peak = depth } else w

-- `if n > 0 { add(counter, n) }`
unfoldable pub flush_counter : ℕ → ℕ → ℕ
flush_counter counter n = if ltb 0 n then add counter n else counter

unfoldable pub flush_slots : List ℕ → List ℕ → List ℕ
flush_slots [] ns = []
flush_slots (c ∷ cs) [] = c ∷ cs
flush_slots (c ∷ cs) (n ∷ ns) = flush_counter c n ∷ flush_slots cs ns

-- The counters by configuration are flushed if a packet was routed by its CID.
unfoldable pub flush : BatchStats → BatchStats → BatchStats
flush b w = record {
  forwarded = flush_counter w.forwarded b.forwarded;
  cid_routed = flush_counter w.cid_routed b.cid_routed;
  cid_by_config =
      if ltb 0 b.cid_routed then flush_slots w.cid_by_config b.cid_by_config else w.cid_by_config;
  fallback_routed = flush_counter w.fallback_routed b.fallback_routed;
  cid_unroutable_no_server = flush_counter w.cid_unroutable_no_server b.cid_unroutable_no_server;
  cid_unroutable_bad_server_id =
      flush_counter w.cid_unroutable_bad_server_id b.cid_unroutable_bad_server_id;
  draining_forwarded = flush_counter w.draining_forwarded b.draining_forwarded;
  icmp_forwarded = flush_counter w.icmp_forwarded b.icmp_forwarded;
  passed = flush_counter w.passed b.passed;
  retry_initials_seen = flush_counter w.retry_initials_seen b.retry_initials_seen;
  retry_issued = flush_counter w.retry_issued b.retry_issued;
  retry_token_validated = flush_counter w.retry_token_validated b.retry_token_validated;
  retry_token_invalid = flush_counter w.retry_token_invalid b.retry_token_invalid;
  retry_token_expired = flush_counter w.retry_token_expired b.retry_token_expired;
  retry_parse_error = flush_counter w.retry_parse_error b.retry_parse_error;
}

-- Two lists of counters, one beside the other.
unfoldable pub zip_counters : (ℕ → ℕ → ℕ) → List ℕ → List ℕ → List ℕ
zip_counters f [] ys = []
zip_counters f (x ∷ xs) [] = []
zip_counters f (x ∷ xs) (y ∷ ys) = f x y ∷ zip_counters f xs ys

-- One operation on every counter, as `delta` and `aggregate` write it out.
unfoldable pub pointwise : (ℕ → ℕ → ℕ) → BatchStats → BatchStats → BatchStats
pointwise f a b = record {
  forwarded = f a.forwarded b.forwarded;
  cid_routed = f a.cid_routed b.cid_routed;
  cid_by_config = zip_counters f a.cid_by_config b.cid_by_config;
  fallback_routed = f a.fallback_routed b.fallback_routed;
  cid_unroutable_no_server = f a.cid_unroutable_no_server b.cid_unroutable_no_server;
  cid_unroutable_bad_server_id = f a.cid_unroutable_bad_server_id b.cid_unroutable_bad_server_id;
  draining_forwarded = f a.draining_forwarded b.draining_forwarded;
  icmp_forwarded = f a.icmp_forwarded b.icmp_forwarded;
  passed = f a.passed b.passed;
  retry_initials_seen = f a.retry_initials_seen b.retry_initials_seen;
  retry_issued = f a.retry_issued b.retry_issued;
  retry_token_validated = f a.retry_token_validated b.retry_token_validated;
  retry_token_invalid = f a.retry_token_invalid b.retry_token_invalid;
  retry_token_expired = f a.retry_token_expired b.retry_token_expired;
  retry_parse_error = f a.retry_parse_error b.retry_parse_error;
}

-- The high-water mark is kept, not subtracted.
unfoldable pub delta : WorkerStats → WorkerStats → WorkerStats
delta now prev = record {
  rx_packets = wrapping_sub now.rx_packets prev.rx_packets;
  counts = pointwise wrapping_sub now.counts prev.counts;
  pending_fill_peak = now.pending_fill_peak;
}

unfoldable pub add_slot : WorkerStats → WorkerStats → WorkerStats
add_slot sum w = record {
  rx_packets = add sum.rx_packets w.rx_packets;
  counts = pointwise add sum.counts w.counts;
  pending_fill_peak =
      if ltb sum.pending_fill_peak w.pending_fill_peak
      then w.pending_fill_peak
      else sum.pending_fill_peak;
}

unfoldable pub aggregate_from : WorkerStats → List WorkerStats → WorkerStats
aggregate_from sum [] = sum
aggregate_from sum (w ∷ ws) = aggregate_from (add_slot sum w) ws

unfoldable pub aggregate : List WorkerStats → WorkerStats
aggregate ws = aggregate_from new_worker ws
