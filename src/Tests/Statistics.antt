-- ===== src/Tests/Statistics.antt =====
-- Instances of the theorems on the counters.
use pesigitg.Prelude.{◌≡◌, refl, List, [], ◌∷◌, arith, replicate, All, ok}
use pesigitg.Packet.Process.{cid_forward, cid_forward_draining, pass}
use pesigitg.Retry.Datapath.{skip, emitted, no_detail, token_valid, Detail}
use pesigitg.Stats.{BatchStats, new_batch, Packet, count_batch}
use pesigitg.Stats.Batches.{count_batch-Tally}
use pesigitg.Stats.Deltas.{HasSlots, delta-count_batch}
use pesigitg.Stats.Snapshots.{WorkerStats, flush, aggregate, delta}
use pesigitg.Stats.Tally.{Tally, IsCounted, IsReported}

-- A packet to a server, one to a draining server with a valid token, and one that a Retry packet answers.
abbrev three_packets : List Packet
three_packets =
    record { outcome = skip; detail = no_detail; verdict = cid_forward 2 }
    ∷ (record { outcome = skip; detail = token_valid; verdict = cid_forward_draining 6 }
        ∷ (record { outcome = emitted; detail = Detail.issued; verdict = pass } ∷ []))

three_packets-IsReported : All IsReported three_packets
unfolding IsReported IsCounted
three_packets-IsReported = (
  ((λ e d. ground arith), omega arith),
  (((λ e d. ground arith), omega arith), (((λ e d. ground arith), tt), tt)),
)

count_batch-Tally_example :
    (b : BatchStats) × (count_batch three_packets new_batch ≡ ok b) × Tally 3 3 0 b
count_batch-Tally_example = count_batch-Tally three_packets (omega arith) three_packets-IsReported

-- A worker whose count of passed packets is about to wrap.
abbrev worn_worker : WorkerStats
worn_worker = record {
  rx_packets = 0;
  counts = record new_batch { passed = 18_446_744_073_709_551_615 };
  pending_fill_peak = 0;
}

worn_worker-HasSlots : HasSlots worn_worker.counts
unfolding HasSlots new_batch replicate
worn_worker-HasSlots = refl

delta-count_batch_example :
    (b : BatchStats) × (count_batch three_packets new_batch ≡ ok b)
    × ((delta
          (aggregate
            (worn_worker ∷ (record worn_worker { counts = flush b worn_worker.counts } ∷ [])))
          (aggregate (worn_worker ∷ (worn_worker ∷ [])))).counts
        ≡ b)
delta-count_batch_example =
    delta-count_batch three_packets (worn_worker ∷ []) [] worn_worker (omega arith)
      three_packets-IsReported worn_worker-HasSlots (worn_worker-HasSlots, tt) tt
