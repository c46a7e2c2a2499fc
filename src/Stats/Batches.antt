-- ===== src/Stats/Batches.antt =====
-- The counters of a whole batch of packets: pesigitg-daemon/src/stats.rs.
use pesigitg.Prelude.{
  ◌>>=◌, ℕ, ◌+◌, ◌^◌, ◌<◌, ◌≡◌, refl, List, [], ◌∷◌, arith, if◌then◌else◌, length, All, ok,
}
use mathlib.Core.Path.{subst}
use pesigitg.Packet.Process.{Verdict}
use pesigitg.Retry.Datapath.{Outcome, skip, forward, emitted}
use pesigitg.Stats.{
  is_emitted, BatchStats, new_batch, record_retry, count_verdict, Packet, count_packet, count_batch,
}
use pesigitg.Stats.Tally.{Tally, IsCounted, IsReported, sent, new_batch-Tally, record_retry-Tally}
use pesigitg.Stats.Verdicts.{count_verdict-Tally}

-- A packet is counted by its verdict if no Retry packet is emitted for it.
routed-Tally :
    (n : ℕ) (v : Verdict) (b : BatchStats)
    → Tally (n + 0) (n + 1) 0 b
    → n + 1 < 2 ^ 64
    → IsCounted v
    → (b' : BatchStats) × (count_verdict v b ≡ ok b') × Tally (n + 1) (n + 1) 0 b'
routed-Tally n v b t h c =
    count_verdict-Tally n b (subst (λ k. Tally k (n + 1) 0 b) (omega arith) t) h v c

outcome-Tally :
    (n : ℕ) (o : Outcome) (v : Verdict) (b : BatchStats)
    → Tally (n + sent o) (n + 1) 0 b
    → n + 1 < 2 ^ 64
    → IsCounted v
    → (b' : BatchStats) × ((if is_emitted o then ok b else count_verdict v b) ≡ ok b')
      × Tally (n + 1) (n + 1) 0 b'
unfolding is_emitted sent
outcome-Tally n emitted v b t h c = (b, refl, t)
outcome-Tally n skip v b t h c = routed-Tally n v b t h c
outcome-Tally n forward v b t h c = routed-Tally n v b t h c

count_packet-Tally :
    (n : ℕ) (p : Packet) (b : BatchStats)
    → Tally n n 0 b
    → n + 1 < 2 ^ 64
    → IsReported p
    → (b' : BatchStats) × (count_packet p b ≡ ok b') × Tally (n + 1) (n + 1) 0 b'
unfolding count_packet IsReported
count_packet-Tally n p b t h (r, c) =
    outcome-Tally n p.outcome p.verdict (record_retry p.outcome p.detail b)
      (record_retry-Tally n p.outcome p.detail b t h r) h c

count_from-Tally :
    (n : ℕ) (packets : List Packet) (b : BatchStats)
    → Tally n n 0 b
    → n + length packets < 2 ^ 64
    → All IsReported packets
    → (b' : BatchStats) × (count_batch packets b ≡ ok b')
      × Tally (n + length packets) (n + length packets) 0 b'
unfolding count_batch ◌>>=◌
count_from-Tally n [] b t h a = (b, refl, subst (λ k. Tally k k 0 b) (omega arith) t)
count_from-Tally n (p ∷ packets) b t h (r, a) =
    let (b', e, t') = count_packet-Tally n p b t (omega arith) r in
    let (b'', e', t'') = count_from-Tally (n + 1) packets b' t' (omega arith) a in
    (b'', rw e e', subst (λ k. Tally k k 0 b'') (omega arith) t'')

-- A batch of fewer than 2 ^ 64 packets, each with a configuration id below 7 where its verdict has one
-- and with a detail where a Retry packet is emitted for it, is counted without a panic. Each packet is
-- in exactly one of the counters of forwarded, unroutable, passed and issued; the forwarded ones are
-- those by CID, by fallback and by ICMP; the counters by configuration add up to those by CID; draining
-- is within those by CID; and the issued, and the valid, invalid, expired and unparsable, are within
-- the Initials seen, which are within the packets.
pub count_batch-Tally :
    (packets : List Packet)
    → length packets < 2 ^ 64
    → All IsReported packets
    → (b : BatchStats) × (count_batch packets new_batch ≡ ok b)
      × Tally (length packets) (length packets) 0 b
count_batch-Tally packets h a =
    let (b, e, t) = count_from-Tally 0 packets new_batch new_batch-Tally (omega arith) a in
    (b, e, subst (λ k. Tally k k 0 b) (omega arith) t)
