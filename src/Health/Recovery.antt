-- ===== src/Health/Recovery.antt =====
-- The life of a health checker of pesigitg-daemon/src/health.rs, as its rounds and resets in order.
use mathlib.Core.Path.{subst}
use pesigitg.Prelude.{
  ◌%◌, ◌^◌, refl, sym, ◌∙◌, ◌&&◌, none, [], ◌∷◌, leb, Option-cases, ℕ, ◌+◌, ◌≤◌, ◌≡◌, inl, inr,
  Bool, true, false, Option, some, List, arith, Bool-cases, ok,
}
use pesigitg.Common.Address.{IpAddr, addr_eq}
use pesigitg.Common.AddressMap.{find, contains}
use pesigitg.Config.Table.{ConfigTable}
use pesigitg.Health.{
  ServerHealth, HealthMap, HealthChecker, new, all_addrs, or_discovered, discovered, succeed, check,
  reset_entries, reset_backoff,
}
use pesigitg.Health.Batch.{outcome, apply_probe-outcome, after}
use pesigitg.Health.Delays.{wait-ends}
use pesigitg.Health.Due.{entry}
use pesigitg.Health.History.{Observed, found, probed, rescheduled, failed}
use pesigitg.Health.Round.{Round, check-Round, expected, probe_of}

-- The states that a health checker goes through, each with the time of its last step.
pub data Running : HealthChecker → ℕ → Type 0 where
  started : (port now : ℕ) → Running (new port) now
  checked :
      {hc : HealthChecker} {time : ℕ}
      → Running hc time
      → (connect : IpAddr → ℕ → Option Bool) (table : ConfigTable) (now : ℕ) → time ≤ now
      → (hc' : HealthChecker) (table' : ConfigTable) (changed : Bool)
      → check connect hc table now ≡ ok (hc', table', changed)
      → Running hc' now
  reset :
      {hc : HealthChecker} {time : ℕ}
      → Running hc time
      → (now : ℕ) → time ≤ now
      → Running (reset_backoff hc now) now

-- An entry comes from a history of probes, and its next probe is at most five minutes away.
pub record IsEntry (time : ℕ) (s : ServerHealth) : Type 0 where
  pub history : List Bool
  pub observed : Observed history s
  pub soon : s.next_probe_at ≤ time + 300_000_000_000

unfoldable pub Entries : HealthMap → ℕ → Type 0
Entries state time = (x : IpAddr) (s : ServerHealth) → find x state ≡ some s → IsEntry time s

later : (time now : ℕ) (s : ServerHealth) → time ≤ now → IsEntry time s → IsEntry now s
later time now s h e = record {
  history = e.history;
  observed = e.observed;
  soon = omega (arith, e.soon);
}

outcome-soon :
    (s : ServerHealth) (b : Bool) (now : ℕ)
    → ((outcome s b now).0).next_probe_at ≤ now + 300_000_000_000
unfolding outcome succeed failed
outcome-soon s true now = elim (Bool-cases s.healthy) [
  | inl e ↦ rw e (omega arith)
  | inr e ↦ rw e (omega arith)
]
outcome-soon s false now =
    let failures = (s.consecutive_failures + 1) % 2 ^ 32 in
    let (low, high) = wait-ends failures in
    elim (Bool-cases (s.healthy && leb 3 failures)) [
      | inl e ↦ rw e (omega (arith, high))
      | inr e ↦ rw e (omega (arith, high))
    ]

after-IsEntry :
    (s : ServerHealth) (o : Option Bool) (now : ℕ) → IsEntry now s → IsEntry now (after s o now)
unfolding after
after-IsEntry s none now e = e
after-IsEntry s (some b) now e = record {
  history = b ∷ e.history;
  observed = probed e.observed b now (outcome s b now) (apply_probe-outcome s b now);
  soon = outcome-soon s b now;
}

entry-IsEntry :
    (state : HealthMap) (time now : ℕ) (x : IpAddr)
    → time ≤ now
    → Entries state time
    → IsEntry now (entry state x now)
unfolding entry or_discovered Entries discovered
entry-IsEntry state time now x h es = elim (Option-cases (find x state)) [
  | inl e ↦ rw e (record { history = []; observed = found now; soon = omega arith })
  | inr (s, e) ↦ rw e (later time now s h (es x s e))
]

check-Entries :
    {connect : IpAddr → ℕ → Option Bool} {hc hc' : HealthChecker} {table table' : ConfigTable}
    {time now : ℕ} {changed : Bool}
    → time ≤ now
    → Entries hc.state time
    → Round connect hc table now hc' table' changed
    → Entries hc'.state now
unfolding Entries expected
check-Entries {connect = connect} {hc = hc} {table = table} {time = time} {now = now} h es r x s e =
    elim (Bool-cases (contains x (all_addrs table))) [
      | inl c ↦
          let i : some (after (entry hc.state x now) (probe_of connect hc now x) now) ≡ some s =
            sym (r.entries x ∙ rw c refl) ∙ e in
          let same : after (entry hc.state x now) (probe_of connect hc now x) now ≡ s =
            ground arith in
          subst (IsEntry now) same (
            after-IsEntry (entry hc.state x now) (probe_of connect hc now x) now
              (entry-IsEntry hc.state time now x h es))
      | inr c ↦ let i : none ≡ some s = sym (r.entries x ∙ rw c refl) ∙ e in ground arith
    ]

reset_entries-find :
    (now : ℕ) (x : IpAddr) (m : HealthMap) (s : ServerHealth)
    → find x (reset_entries now m) ≡ some s
    → (t : ServerHealth) × (find x m ≡ some t) × (record t { next_probe_at = now } ≡ s)
unfolding reset_entries find
reset_entries-find now x [] s h = ground arith
reset_entries-find now x ((a, t) ∷ m) s h = elim (Bool-cases (addr_eq a x)) [
  | inl g ↦
      let i : some (record t { next_probe_at = now }) ≡ some s = rw g at h in
      (t, rw g refl, ground arith)
  | inr g ↦ let (u, e, k) = reset_entries-find now x m s (rw g at h) in (u, rw g e, k)
]

-- In every run each entry is what the history of some probes leads to, and no server waits for its
-- next probe for more than five minutes.
pub Running-Entries : (hc : HealthChecker) (time : ℕ) → Running hc time → Entries hc.state time
unfolding Entries new reset_backoff find
Running-Entries hc time (started port now) x s e = ground arith
Running-Entries hc time
      (checked {hc = before} {time = t} r connect table now h hc' table' changed e) x s g =
    let (hc'', table'', changed', e', round) = check-Round connect before table now in
    let same : hc'' ≡ hc' = ground arith in
    subst (λ k. Entries k.state now) same (check-Entries h (Running-Entries before t r) round) x s g
Running-Entries hc time (reset {hc = before} {time = t} r now h) x s e =
    let (u, e', k) = reset_entries-find now x before.state s e in
    let i = Running-Entries before t r x u e' in
    subst (IsEntry now) k
      (record { history = i.history; observed = rescheduled i.observed now; soon = omega arith })
