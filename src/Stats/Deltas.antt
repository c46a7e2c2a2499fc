-- ===== src/Stats/Deltas.antt =====
-- Snapshots before and after a batch is flushed: `flush`, `aggregate` and `delta` of
-- pesigitg-daemon/src/stats.rs.
use mathlib.Core.Path.{subst}
use pesigitg.Prelude.{
  replicate, ok, ◌∙◌, inl, inr, ◌++◌, ltb, Bool-cases, All, sym, ℕ, ◌^◌, ◌<◌, ◌≡◌, refl, List, [],
  ◌∷◌, arith, length,
}
use pesigitg.Stats.{count_batch, Packet, new_batch, BatchStats, add}
use pesigitg.Stats.Snapshots.{
  new_worker, aggregate, delta, add_slot, WorkerStats, pointwise, aggregate_from, flush,
  wrapping_sub, zip_counters,
}
use pesigitg.Stats.Batches.{count_batch-Tally}
use pesigitg.Stats.Tally.{IsReported, Tally, total}
use pesigitg.Stats.Counters.{
  add_swap, add_flush, sub_add, zip_swap, zip_flush, zip_zeros, zip_sub, length-zip,
}

-- Counters with a slot for each configuration.
unfoldable pub HasSlots : BatchStats → Type 0
HasSlots b = length b.cid_by_config ≡ 7

swap :
    (s n y : BatchStats) → pointwise add (pointwise add s n) y ≡ pointwise add (pointwise add s y) n
unfolding pointwise
swap s n y = λ i. record {
  forwarded = add_swap s.forwarded n.forwarded y.forwarded i;
  cid_routed = add_swap s.cid_routed n.cid_routed y.cid_routed i;
  cid_by_config = zip_swap s.cid_by_config n.cid_by_config y.cid_by_config i;
  fallback_routed = add_swap s.fallback_routed n.fallback_routed y.fallback_routed i;
  cid_unroutable_no_server =
      add_swap s.cid_unroutable_no_server n.cid_unroutable_no_server y.cid_unroutable_no_server i;
  cid_unroutable_bad_server_id =
      add_swap s.cid_unroutable_bad_server_id n.cid_unroutable_bad_server_id
        y.cid_unroutable_bad_server_id i;
  draining_forwarded = add_swap s.draining_forwarded n.draining_forwarded y.draining_forwarded i;
  icmp_forwarded = add_swap s.icmp_forwarded n.icmp_forwarded y.icmp_forwarded i;
  passed = add_swap s.passed n.passed y.passed i;
  retry_initials_seen =
      add_swap s.retry_initials_seen n.retry_initials_seen y.retry_initials_seen i;
  retry_issued = add_swap s.retry_issued n.retry_issued y.retry_issued i;
  retry_token_validated =
      add_swap s.retry_token_validated n.retry_token_validated y.retry_token_validated i;
  retry_token_invalid =
      add_swap s.retry_token_invalid n.retry_token_invalid y.retry_token_invalid i;
  retry_token_expired =
      add_swap s.retry_token_expired n.retry_token_expired y.retry_token_expired i;
  retry_parse_error = add_swap s.retry_parse_error n.retry_parse_error y.retry_parse_error i;
}

-- The slots are flushed as a whole: without a packet routed by its CID they hold zeros.
slots_flush :
    (b w s : BatchStats)
    → length w.cid_by_config ≡ length b.cid_by_config
    → total b.cid_by_config ≡ b.cid_routed
    → zip_counters add s.cid_by_config (flush b w).cid_by_config
      ≡ zip_counters add (zip_counters add s.cid_by_config w.cid_by_config) b.cid_by_config
unfolding flush
slots_flush b w s h t = elim (Bool-cases (ltb 0 b.cid_routed)) [
  | inl e ↦ rw e (zip_flush s.cid_by_config w.cid_by_config b.cid_by_config h)
  | inr e ↦
      rw e (zip_zeros s.cid_by_config w.cid_by_config b.cid_by_config h (ground (arith, t, e)))
]

flush-swap :
    (b w s : BatchStats)
    → length w.cid_by_config ≡ length b.cid_by_config
    → total b.cid_by_config ≡ b.cid_routed
    → pointwise add s (flush b w) ≡ pointwise add (pointwise add s w) b
unfolding pointwise flush
flush-swap b w s h t = λ i. record {
  forwarded = add_flush s.forwarded w.forwarded b.forwarded i;
  cid_routed = add_flush s.cid_routed w.cid_routed b.cid_routed i;
  cid_by_config = slots_flush b w s h t i;
  fallback_routed = add_flush s.fallback_routed w.fallback_routed b.fallback_routed i;
  cid_unroutable_no_server =
      add_flush s.cid_unroutable_no_server w.cid_unroutable_no_server b.cid_unroutable_no_server i;
  cid_unroutable_bad_server_id =
      add_flush s.cid_unroutable_bad_server_id w.cid_unroutable_bad_server_id
        b.cid_unroutable_bad_server_id i;
  draining_forwarded = add_flush s.draining_forwarded w.draining_forwarded b.draining_forwarded i;
  icmp_forwarded = add_flush s.icmp_forwarded w.icmp_forwarded b.icmp_forwarded i;
  passed = add_flush s.passed w.passed b.passed i;
  retry_initials_seen =
      add_flush s.retry_initials_seen w.retry_initials_seen b.retry_initials_seen i;
  retry_issued = add_flush s.retry_issued w.retry_issued b.retry_issued i;
  retry_token_validated =
      add_flush s.retry_token_validated w.retry_token_validated b.retry_token_validated i;
  retry_token_invalid =
      add_flush s.retry_token_invalid w.retry_token_invalid b.retry_token_invalid i;
  retry_token_expired =
      add_flush s.retry_token_expired w.retry_token_expired b.retry_token_expired i;
  retry_parse_error = add_flush s.retry_parse_error w.retry_parse_error b.retry_parse_error i;
}

-- No counter of a tally is above the number of its packets.
sub-Tally :
    (n m : ℕ) (a c b : BatchStats)
    → Tally n m 0 b
    → n < 2 ^ 64
    → m < 2 ^ 64
    → HasSlots a
    → HasSlots c
    → pointwise wrapping_sub (pointwise add (pointwise add a c) b) (pointwise add a c) ≡ b
unfolding pointwise HasSlots
sub-Tally n m a c b t h g p q =
    let f : b.forwarded < 2 ^ 64 = omega (arith, t.packets) in
    let r : b.cid_routed < 2 ^ 64 = omega (arith, t.forwards, f) in
    let s : b.retry_initials_seen < 2 ^ 64 = omega (arith, t.initials) in
    λ i. record {
      forwarded = sub_add a.forwarded c.forwarded b.forwarded f i;
      cid_routed = sub_add a.cid_routed c.cid_routed b.cid_routed r i;
      cid_by_config =
          zip_sub a.cid_by_config c.cid_by_config b.cid_by_config (p ∙ sym t.slots)
            (q ∙ sym t.slots) (omega (arith, t.configs, r)) i;
      fallback_routed =
          sub_add a.fallback_routed c.fallback_routed b.fallback_routed
            (omega (arith, t.forwards, f)) i;
      cid_unroutable_no_server =
          sub_add a.cid_unroutable_no_server c.cid_unroutable_no_server b.cid_unroutable_no_server
            (omega (arith, t.packets)) i;
      cid_unroutable_bad_server_id =
          sub_add a.cid_unroutable_bad_server_id c.cid_unroutable_bad_server_id
            b.cid_unroutable_bad_server_id (omega (arith, t.packets)) i;
      draining_forwarded =
          sub_add a.draining_forwarded c.draining_forwarded b.draining_forwarded
            (omega (arith, t.draining, r)) i;
      icmp_forwarded =
          sub_add a.icmp_forwarded c.icmp_forwarded b.icmp_forwarded (omega (arith, t.forwards, f))
            i;
      passed = sub_add a.passed c.passed b.passed (omega (arith, t.packets)) i;
      retry_initials_seen =
          sub_add a.retry_initials_seen c.retry_initials_seen b.retry_initials_seen s i;
      retry_issued =
          sub_add a.retry_issued c.retry_issued b.retry_issued (omega (arith, t.issues, s)) i;
      retry_token_validated =
          sub_add a.retry_token_validated c.retry_token_validated b.retry_token_validated
            (omega (arith, t.details, s)) i;
      retry_token_invalid =
          sub_add a.retry_token_invalid c.retry_token_invalid b.retry_token_invalid
            (omega (arith, t.details, s)) i;
      retry_token_expired =
          sub_add a.retry_token_expired c.retry_token_expired b.retry_token_expired
            (omega (arith, t.details, s)) i;
      retry_parse_error =
          sub_add a.retry_parse_error c.retry_parse_error b.retry_parse_error
            (omega (arith, t.details, s)) i;
    }

HasSlots-pointwise : (a c : BatchStats) → HasSlots a → HasSlots c → HasSlots (pointwise add a c)
unfolding pointwise HasSlots
HasSlots-pointwise a c p q = length-zip a.cid_by_config c.cid_by_config (p ∙ sym q) ∙ p

-- The counters of the workers, added up.
pub sum_from : BatchStats → List WorkerStats → BatchStats
sum_from s [] = s
sum_from s (w ∷ ws) = sum_from (pointwise add s w.counts) ws

aggregate_from-counts :
    (s : WorkerStats) (ws : List WorkerStats) → (aggregate_from s ws).counts ≡ sum_from s.counts ws
unfolding aggregate_from sum_from add_slot
aggregate_from-counts s [] = refl
aggregate_from-counts s (w ∷ ws) = aggregate_from-counts (add_slot s w) ws

module _ (n m : ℕ) (b : BatchStats) (t : Tally n m 0 b) (h : n < 2 ^ 64) (g : m < 2 ^ 64) where
  sum_after :
      (ws : List WorkerStats) (a c : BatchStats)
      → HasSlots a
      → HasSlots c
      → All (λ w. HasSlots w.counts) ws
      → pointwise wrapping_sub
          (sum_from (pointwise add (pointwise add a c) b) ws)
          (sum_from (pointwise add a c) ws)
        ≡ b
  unfolding sum_from
  sum_after [] a c p q l = sub-Tally n m a c b t h g p q
  sum_after (w ∷ ws) a c p q (k, l) =
      rw (swap (pointwise add a c) b w.counts)
        (sum_after ws (pointwise add a c) w.counts (HasSlots-pointwise a c p q) k l)

  sum_through :
      (us vs : List WorkerStats) (w : WorkerStats) (s : BatchStats)
      → HasSlots s
      → HasSlots w.counts
      → All (λ w. HasSlots w.counts) us
      → All (λ w. HasSlots w.counts) vs
      → pointwise wrapping_sub
          (sum_from s (us ++ (record w { counts = flush b w.counts } ∷ vs)))
          (sum_from s (us ++ (w ∷ vs)))
        ≡ b
  unfolding sum_from HasSlots
  sum_through [] vs w s p q k l =
      subst
        (λ x. pointwise wrapping_sub (sum_from x vs) (sum_from (pointwise add s w.counts) vs) ≡ b)
        (sym (flush-swap b w.counts s (q ∙ sym t.slots) t.configs)) (sum_after vs s w.counts p q l)
  sum_through (u ∷ us) vs w s p q (j, k) l =
      sum_through us vs w (pointwise add s u.counts) (HasSlots-pointwise s u.counts p j) q k l

  delta-flush :
      (us vs : List WorkerStats) (w : WorkerStats)
      → HasSlots w.counts
      → All (λ w. HasSlots w.counts) us
      → All (λ w. HasSlots w.counts) vs
      → (delta
          (aggregate (us ++ (record w { counts = flush b w.counts } ∷ vs)))
          (aggregate (us ++ (w ∷ vs)))).counts
        ≡ b
  unfolding delta aggregate new_worker new_batch HasSlots replicate
  delta-flush us vs w q k l =
      rw
        (
          aggregate_from-counts new_worker (us ++ (record w { counts = flush b w.counts } ∷ vs)),
          aggregate_from-counts new_worker (us ++ (w ∷ vs)),
        )
        (sum_through us vs w new_batch refl q k l)

-- A batch of packets as `count_batch-Tally` has it, flushed to one of any number of workers, moves the
-- snapshot by exactly the batch's counters: `delta` of the snapshots after and before gives them back,
-- however often the counters of workers and snapshots have wrapped, while no other worker flushes.
pub delta-count_batch :
    (packets : List Packet) (us vs : List WorkerStats) (w : WorkerStats)
    → length packets < 2 ^ 64
    → All IsReported packets
    → HasSlots w.counts
    → All (λ x. HasSlots x.counts) us
    → All (λ x. HasSlots x.counts) vs
    → (b : BatchStats) × (count_batch packets new_batch ≡ ok b)
      × ((delta
            (aggregate (us ++ (record w { counts = flush b w.counts } ∷ vs)))
            (aggregate (us ++ (w ∷ vs)))).counts
          ≡ b)
delta-count_batch packets us vs w h r q k l =
    let (b, e, t) = count_batch-Tally packets h r in
    (b, e, delta-flush (length packets) (length packets) b t h h us vs w q k l)
