-- ===== src/Stats/Tally.antt =====
-- What the counters of a batch say of its packets: pesigitg-daemon/src/stats.rs.
use pesigitg.Prelude.{
  ℕ, zero, suc, ◌+◌, ◌^◌, ◌≤◌, ◌<◌, ◌≡◌, refl, ◌≢◌, List, [], ◌∷◌, arith, length, get_or, set,
  replicate,
}
use pesigitg.Packet.Process.{Verdict, cid_forward, cid_forward_draining}
use pesigitg.Retry.Datapath.{
  Outcome, skip, forward, emitted, Detail, no_detail, parse_failed, token_valid, observed,
}
use pesigitg.Stats.{is_emitted, add, BatchStats, new_batch, seen, record_retry, Packet}

unfoldable pub total : List ℕ → ℕ
total [] = 0
total (x ∷ xs) = x + total xs

pub total-set :
    (xs : List ℕ) (i : ℕ) → i < length xs → total (set xs i (get_or xs i 0 + 1)) ≡ total xs + 1
unfolding set get_or total
total-set [] i h = ground arith
total-set (x ∷ xs) zero h = omega arith
total-set (x ∷ xs) (suc i) h = let rest = total-set xs i (omega arith) in omega arith

pub get_or-total : (xs : List ℕ) (i : ℕ) → get_or xs i 0 ≤ total xs
unfolding get_or total
get_or-total [] i = omega arith
get_or-total (x ∷ xs) zero = omega arith
get_or-total (x ∷ xs) (suc i) = let rest = get_or-total xs i in omega arith

-- The counters after `n` packets of which each is counted once, the retry path having seen at most `m`
-- of them and `k` details being ahead of it.
pub record Tally (n m k : ℕ) (b : BatchStats) : Type 0 where
  pub packets :
      b.forwarded + b.cid_unroutable_no_server + b.cid_unroutable_bad_server_id + b.passed
        + b.retry_issued
      ≡ n
  pub forwards : b.forwarded ≡ b.cid_routed + b.fallback_routed + b.icmp_forwarded
  pub configs : total b.cid_by_config ≡ b.cid_routed
  pub slots : length b.cid_by_config ≡ 7
  pub draining : b.draining_forwarded ≤ b.cid_routed
  pub initials : b.retry_initials_seen ≤ m
  pub issues : b.retry_issued ≤ b.retry_initials_seen
  pub details :
      b.retry_token_validated + b.retry_token_invalid + b.retry_token_expired + b.retry_parse_error
      ≤ b.retry_initials_seen + k

-- A verdict names a configuration that has a slot.
unfoldable pub IsCounted : Verdict → Type 0
IsCounted (cid_forward config_id) = config_id < 7
IsCounted (cid_forward_draining config_id) = config_id < 7
IsCounted v = Unit {0}

-- The retry path gives a detail with each packet that it emits.
unfoldable pub IsReported : Packet → Type 0
IsReported p = (p.outcome ≡ emitted → p.detail ≢ no_detail) × IsCounted p.verdict

pub add_small : (c : ℕ) → c + 1 < 2 ^ 64 → add c 1 ≡ c + 1
unfolding add
add_small c h = omega arith

pub new_batch-Tally : Tally 0 0 0 new_batch
unfolding new_batch total replicate
new_batch-Tally = record {
  packets = refl;
  forwards = refl;
  configs = refl;
  slots = refl;
  draining = omega arith;
  initials = omega arith;
  issues = omega arith;
  details = omega arith;
}

module _ (n : ℕ) (b : BatchStats) (t : Tally n n 0 b) (h : n + 1 < 2 ^ 64) where
  detail_small :
      (b.retry_token_validated + 1 < 2 ^ 64)
      × (b.retry_token_invalid + 1 < 2 ^ 64)
      × (b.retry_token_expired + 1 < 2 ^ 64)
      × (b.retry_parse_error + 1 < 2 ^ 64)
  detail_small = (
    omega (arith, t.details, t.initials),
    omega (arith, t.details, t.initials),
    omega (arith, t.details, t.initials),
    omega (arith, t.details, t.initials),
  )

  -- One of the four details counted.
  detail-Tally :
      (v i e p : ℕ)
      → v + i + e + p
        ≡ b.retry_token_validated + b.retry_token_invalid + b.retry_token_expired
          + b.retry_parse_error + 1
      → Tally n n 1 (record b {
        retry_token_validated = v;
        retry_token_invalid = i;
        retry_token_expired = e;
        retry_parse_error = p;
      })
  detail-Tally v i e p g = record {
    packets = t.packets;
    forwards = t.forwards;
    configs = t.configs;
    slots = t.slots;
    draining = t.draining;
    initials = t.initials;
    issues = t.issues;
    details = omega (arith, t.details);
  }

  ahead-Tally : Tally n n 1 b
  ahead-Tally = record {
    packets = t.packets;
    forwards = t.forwards;
    configs = t.configs;
    slots = t.slots;
    draining = t.draining;
    initials = t.initials;
    issues = t.issues;
    details = omega (arith, t.details);
  }

unfoldable pub sent : Outcome → ℕ
sent emitted = 1
sent skip = 0
sent forward = 0

unsent-Tally :
    (n : ℕ) (b : BatchStats)
    → Tally n n 1 b
    → n + 1 < 2 ^ 64
    → Tally (n + 0) (n + 1) 0 (record b { retry_initials_seen = add b.retry_initials_seen 1 })
unsent-Tally n b t h =
    let e = add_small b.retry_initials_seen (omega (arith, t.initials)) in
    record {
      packets = omega (arith, t.packets);
      forwards = t.forwards;
      configs = t.configs;
      slots = t.slots;
      draining = t.draining;
      initials = omega (arith, e, t.initials);
      issues = omega (arith, e, t.issues);
      details = omega (arith, e, t.details);
    }

-- Nothing is counted for a packet that the retry path does not look at.
silent-Tally : (n : ℕ) (b : BatchStats) → Tally n n 0 b → Tally (n + 0) (n + 1) 0 b
silent-Tally n b t = record {
  packets = omega (arith, t.packets);
  forwards = t.forwards;
  configs = t.configs;
  slots = t.slots;
  draining = t.draining;
  initials = omega (arith, t.initials);
  issues = t.issues;
  details = t.details;
}

seen-Tally :
    (n : ℕ) (o : Outcome) (b : BatchStats)
    → Tally n n 1 b
    → n + 1 < 2 ^ 64
    → Tally (n + sent o) (n + 1) 0 (seen o b)
unfolding seen is_emitted sent
seen-Tally n emitted b t h =
    let e = add_small b.retry_initials_seen (omega (arith, t.initials)) in
    let e' = add_small b.retry_issued (omega (arith, t.initials, t.issues)) in
    record {
      packets = omega (arith, e', t.packets);
      forwards = t.forwards;
      configs = t.configs;
      slots = t.slots;
      draining = t.draining;
      initials = omega (arith, e, t.initials);
      issues = omega (arith, e, e', t.issues);
      details = omega (arith, e, t.details);
    }
seen-Tally n skip b t h = unsent-Tally n b t h
seen-Tally n forward b t h = unsent-Tally n b t h

pub record_retry-Tally :
    (n : ℕ) (o : Outcome) (d : Detail) (b : BatchStats)
    → Tally n n 0 b
    → n + 1 < 2 ^ 64
    → (o ≡ emitted → d ≢ no_detail)
    → Tally (n + sent o) (n + 1) 0 (record_retry o d b)
unfolding record_retry sent
record_retry-Tally n emitted no_detail b t h r = elim (r refl refl) [ ]
record_retry-Tally n skip no_detail b t h r = silent-Tally n b t
record_retry-Tally n forward no_detail b t h r = silent-Tally n b t
record_retry-Tally n o Detail.issued b t h r = seen-Tally n o b (ahead-Tally n b t h) h
record_retry-Tally n o observed b t h r = seen-Tally n o b (ahead-Tally n b t h) h
record_retry-Tally n o parse_failed b t h r =
    let (v, i, e, p) = detail_small n b t h in
    seen-Tally n o (record b { retry_parse_error = add b.retry_parse_error 1 })
      (detail-Tally n b t h b.retry_token_validated b.retry_token_invalid b.retry_token_expired
        (add b.retry_parse_error 1) (omega (arith, add_small b.retry_parse_error p)))
      h
record_retry-Tally n o token_valid b t h r =
    let (v, i, e, p) = detail_small n b t h in
    seen-Tally n o (record b { retry_token_validated = add b.retry_token_validated 1 })
      (detail-Tally n b t h (add b.retry_token_validated 1) b.retry_token_invalid
        b.retry_token_expired b.retry_parse_error
        (omega (arith, add_small b.retry_token_validated v)))
      h
record_retry-Tally n o Detail.token_invalid b t h r =
    let (v, i, e, p) = detail_small n b t h in
    seen-Tally n o (record b { retry_token_invalid = add b.retry_token_invalid 1 })
      (detail-Tally n b t h b.retry_token_validated (add b.retry_token_invalid 1)
        b.retry_token_expired b.retry_parse_error
        (omega (arith, add_small b.retry_token_invalid i)))
      h
record_retry-Tally n o Detail.token_expired b t h r =
    let (v, i, e, p) = detail_small n b t h in
    seen-Tally n o (record b { retry_token_expired = add b.retry_token_expired 1 })
      (detail-Tally n b t h b.retry_token_validated b.retry_token_invalid
        (add b.retry_token_expired 1) b.retry_parse_error
        (omega (arith, add_small b.retry_token_expired e)))
      h
