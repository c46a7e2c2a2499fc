-- ===== src/Stats/Verdicts.antt =====
-- The counters of a verdict keep the tally of a batch: pesigitg-daemon/src/stats.rs.
use pesigitg.Prelude.{
  ◌>>=◌, ℕ, ◌+◌, ◌^◌, ◌≤◌, ◌<◌, ◌≡◌, refl, ◌∙◌, arith, index_lem, store_lem, length, get_or, set,
  length-set, Absent, ok,
}
use pesigitg.Packet.Process.{
  Verdict, cid_forward, cid_forward_draining, fallback_forward, icmp_forward,
  cid_unroutable_no_server, cid_unroutable_bad_server_id, pass,
}
use pesigitg.Stats.{
  add, BatchStats, record_cid_forward, record_fallback_forward, record_icmp_forward,
  record_draining_forward, record_cid_unroutable_no_server, record_cid_unroutable_bad_server_id,
  record_pass, count_verdict,
}
use pesigitg.Stats.Tally.{total-set, get_or-total, Tally, IsCounted, add_small}

-- A configuration with a slot is counted there, and in both sums.
record_cid_forward_lem :
    (n m c : ℕ) (b : BatchStats)
    → Tally n m 0 b
    → n + 1 < 2 ^ 64
    → c < 7
    → record_cid_forward c b
      ≡ ok (record b {
        cid_routed = b.cid_routed + 1;
        cid_by_config = set b.cid_by_config c (get_or b.cid_by_config c 0 + 1);
        forwarded = b.forwarded + 1;
      })
unfolding record_cid_forward ◌>>=◌
record_cid_forward_lem n m c b t h l =
    let inside : c < length b.cid_by_config = omega (arith, t.slots) in
    let small : b.forwarded ≤ n = omega (arith, t.packets) in
    let small' : b.cid_routed ≤ n = omega (arith, t.forwards, small) in
    let small'' : get_or b.cid_by_config c 0 ≤ n =
      omega (arith, get_or-total b.cid_by_config c, t.configs, small') in
    rw
      (
        index_lem {E = Absent} b.cid_by_config c inside,
        store_lem {E = Absent} b.cid_by_config c (add (get_or b.cid_by_config c 0) 1) inside,
        add_small (get_or b.cid_by_config c 0) (omega (arith, small'')),
        add_small b.cid_routed (omega (arith, small')),
        add_small b.forwarded (omega (arith, small)),
      )
      refl

cid_forward-Tally :
    (n c d : ℕ) (b : BatchStats)
    → Tally n (n + 1) 0 b
    → c < 7
    → d ≤ b.draining_forwarded + 1
    → Tally (n + 1) (n + 1) 0 (record b {
      cid_routed = b.cid_routed + 1;
      cid_by_config = set b.cid_by_config c (get_or b.cid_by_config c 0 + 1);
      forwarded = b.forwarded + 1;
      draining_forwarded = d;
    })
cid_forward-Tally n c d b t l g = record {
  packets = omega (arith, t.packets);
  forwards = omega (arith, t.forwards);
  configs = omega (arith, total-set b.cid_by_config c (omega (arith, t.slots)), t.configs);
  slots = length-set b.cid_by_config c (get_or b.cid_by_config c 0 + 1) ∙ t.slots;
  draining = omega (arith, t.draining, g);
  initials = t.initials;
  issues = t.issues;
  details = t.details;
}

-- The counters of a verdict other than that of a CID.
verdict-Tally :
    (n f ns bad p fb ic : ℕ) (b : BatchStats)
    → Tally n (n + 1) 0 b
    → f + ns + bad + p
      ≡ b.forwarded + b.cid_unroutable_no_server + b.cid_unroutable_bad_server_id + b.passed + 1
    → f ≡ b.cid_routed + fb + ic
    → Tally (n + 1) (n + 1) 0 (record b {
      forwarded = f;
      cid_unroutable_no_server = ns;
      cid_unroutable_bad_server_id = bad;
      passed = p;
      fallback_routed = fb;
      icmp_forwarded = ic;
    })
verdict-Tally n f ns bad p fb ic b t e e' = record {
  packets = omega (arith, t.packets, e);
  forwards = e';
  configs = t.configs;
  slots = t.slots;
  draining = t.draining;
  initials = t.initials;
  issues = t.issues;
  details = t.details;
}

module _ (n : ℕ) (b : BatchStats) (t : Tally n (n + 1) 0 b) (h : n + 1 < 2 ^ 64) where
  counters_small :
      (add b.forwarded 1 ≡ b.forwarded + 1)
      × (add b.cid_unroutable_no_server 1 ≡ b.cid_unroutable_no_server + 1)
      × (add b.cid_unroutable_bad_server_id 1 ≡ b.cid_unroutable_bad_server_id + 1)
      × (add b.passed 1 ≡ b.passed + 1)
      × (add b.fallback_routed 1 ≡ b.fallback_routed + 1)
      × (add b.icmp_forwarded 1 ≡ b.icmp_forwarded + 1)
      × (add b.draining_forwarded 1 ≡ b.draining_forwarded + 1)
  counters_small = (
    add_small b.forwarded (omega (arith, t.packets)),
    add_small b.cid_unroutable_no_server (omega (arith, t.packets)),
    add_small b.cid_unroutable_bad_server_id (omega (arith, t.packets)),
    add_small b.passed (omega (arith, t.packets)),
    add_small b.fallback_routed (omega (arith, t.packets, t.forwards)),
    add_small b.icmp_forwarded (omega (arith, t.packets, t.forwards)),
    add_small b.draining_forwarded (omega (arith, t.packets, t.forwards, t.draining)),
  )

  pub count_verdict-Tally :
      (v : Verdict)
      → IsCounted v
      → (b' : BatchStats) × (count_verdict v b ≡ ok b') × Tally (n + 1) (n + 1) 0 b'
  unfolding count_verdict IsCounted record_fallback_forward record_icmp_forward
      record_draining_forward record_cid_unroutable_no_server record_cid_unroutable_bad_server_id
      record_pass ◌>>=◌
  count_verdict-Tally (cid_forward c) l = (
    record b {
      cid_routed = b.cid_routed + 1;
      cid_by_config = set b.cid_by_config c (get_or b.cid_by_config c 0 + 1);
      forwarded = b.forwarded + 1;
    },
    record_cid_forward_lem n (n + 1) c b t h l,
    cid_forward-Tally n c b.draining_forwarded b t l (omega arith),
  )
  count_verdict-Tally (cid_forward_draining c) l = (
    record b {
      cid_routed = b.cid_routed + 1;
      cid_by_config = set b.cid_by_config c (get_or b.cid_by_config c 0 + 1);
      forwarded = b.forwarded + 1;
      draining_forwarded = add b.draining_forwarded 1;
    },
    rw (record_cid_forward_lem n (n + 1) c b t h l) refl,
    let (f, ns, bad, p, fb, ic, d) = counters_small in
        cid_forward-Tally n c (add b.draining_forwarded 1) b t l (omega (arith, d)),
  )
  count_verdict-Tally fallback_forward l =
      let (f, ns, bad, p, fb, ic, d) = counters_small in
      (
        record b { fallback_routed = add b.fallback_routed 1; forwarded = add b.forwarded 1 },
        refl,
        verdict-Tally n (add b.forwarded 1) b.cid_unroutable_no_server
            b.cid_unroutable_bad_server_id b.passed (add b.fallback_routed 1) b.icmp_forwarded b t
            (omega (arith, f)) (omega (arith, f, fb, t.forwards)),
      )
  count_verdict-Tally icmp_forward l =
      let (f, ns, bad, p, fb, ic, d) = counters_small in
      (
        record b { icmp_forwarded = add b.icmp_forwarded 1; forwarded = add b.forwarded 1 },
        refl,
        verdict-Tally n (add b.forwarded 1) b.cid_unroutable_no_server
            b.cid_unroutable_bad_server_id b.passed b.fallback_routed (add b.icmp_forwarded 1) b t
            (omega (arith, f)) (omega (arith, f, ic, t.forwards)),
      )
  count_verdict-Tally cid_unroutable_no_server l =
      let (f, ns, bad, p, fb, ic, d) = counters_small in
      (
        record b { cid_unroutable_no_server = add b.cid_unroutable_no_server 1 },
        refl,
        verdict-Tally n b.forwarded (add b.cid_unroutable_no_server 1)
            b.cid_unroutable_bad_server_id b.passed b.fallback_routed b.icmp_forwarded b t
            (omega (arith, ns)) t.forwards,
      )
  count_verdict-Tally cid_unroutable_bad_server_id l =
      let (f, ns, bad, p, fb, ic, d) = counters_small in
      (
        record b { cid_unroutable_bad_server_id = add b.cid_unroutable_bad_server_id 1 },
        refl,
        verdict-Tally n b.forwarded b.cid_unroutable_no_server
            (add b.cid_unroutable_bad_server_id 1) b.passed b.fallback_routed b.icmp_forwarded b t
            (omega (arith, bad)) t.forwards,
      )
  count_verdict-Tally pass l =
      let (f, ns, bad, p, fb, ic, d) = counters_small in
      (
        record b { passed = add b.passed 1 },
        refl,
        verdict-Tally n b.forwarded b.cid_unroutable_no_server b.cid_unroutable_bad_server_id
            (add b.passed 1) b.fallback_routed b.icmp_forwarded b t (omega (arith, p)) t.forwards,
      )
