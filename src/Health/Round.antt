-- ===== src/Health/Round.antt =====
-- `check` of pesigitg-daemon/src/health.rs, a whole round, as a change of each server by itself.
use pesigitg.Prelude.{
  sym, ◌∷◌, run, ok, ℕ, ◌≡◌, refl, ap, ◌∙◌, inl, inr, Bool, true, false, ◌&&◌, Option, none, some,
  List, [], arith, leb, if◌then◌else◌, Bool-cases,
}
use pesigitg.Common.Address.{IpAddr}
use pesigitg.Common.AddressMap.{find, contains, find-retain_keys}
use pesigitg.Config.Table.{ConfigTable}
use pesigitg.Health.{
  apply_probe_results, probe_due, probe_all, check, ServerHealth, HealthMap, HealthChecker,
  all_addrs, evict_removed, or_discovered, track, mirror_slots,
}
use pesigitg.Health.Batch.{
  flipped-true, apply_loop-Applied, flipped-false, Applied, flip_of, update, Tracked, after, flips,
}
use pesigitg.Health.Due.{probe_all-DistinctKeys, probe_all-find, entry, is_due, track-Listed}

-- The outcome of a server's probe in a round: none if it is not due or its probe does not finish.
unfoldable pub probe_of : (IpAddr → ℕ → Option Bool) → HealthChecker → ℕ → IpAddr → Option Bool
probe_of connect hc now x = if is_due hc.state x now then connect x hc.port else none

-- A server's entry after a round.
unfoldable pub expected :
    (IpAddr → ℕ → Option Bool) → HealthChecker → ConfigTable → ℕ → IpAddr → Option ServerHealth
expected connect hc table now x =
    if contains x (all_addrs table)
    then some (after (entry hc.state x now) (probe_of connect hc now x) now)
    else none

-- What a round does.
pub record Round (connect : IpAddr → ℕ → Option Bool) (hc : HealthChecker) (table : ConfigTable)
    (now : ℕ) (hc' : HealthChecker) (table' : ConfigTable) (changed : Bool) : Type 0 where
  pub entries : (x : IpAddr) → find x hc'.state ≡ expected connect hc table now x
  pub port : hc'.port ≡ hc.port
  pub mirrored :
      (x : IpAddr)
      → contains x (all_addrs table) ≡ true
      → is_due hc.state x now ≡ true
      → table' ≡ record table { slots = mirror_slots hc'.state table.slots }
  pub quiet :
      ((x : IpAddr) (b : Bool)
        → contains x (all_addrs table) ≡ true
        → probe_of connect hc now x ≡ some b
        → flips (entry hc.state x now) b ≡ false)
      → changed ≡ false
  pub turned :
      (x : IpAddr) (b : Bool)
      → contains x (all_addrs table) ≡ true
      → probe_of connect hc now x ≡ some b
      → flips (entry hc.state x now) b ≡ true
      → changed ≡ true

module _ (connect : IpAddr → ℕ → Option Bool) (hc : HealthChecker) (table : ConfigTable)
    (now : ℕ) where
  kept : HealthMap
  kept = evict_removed hc.state (all_addrs table)

  kept-find :
      (x : IpAddr) → find x kept ≡ (if contains x (all_addrs table) then find x hc.state else none)
  unfolding kept evict_removed
  kept-find x = find-retain_keys (λ a. contains a (all_addrs table)) x hc.state

  kept-entry :
      (x : IpAddr) → contains x (all_addrs table) ≡ true → entry kept x now ≡ entry hc.state x now
  unfolding entry
  kept-entry x c = ap (λ o. or_discovered o now) (kept-find x ∙ rw c refl)

  kept-is_due :
      (x : IpAddr) → contains x (all_addrs table) ≡ true → is_due kept x now ≡ is_due hc.state x now
  unfolding is_due
  kept-is_due x c = ap (λ s. leb s.next_probe_at now) (kept-entry x c)

  pub record First (r : HealthMap × List IpAddr) : Type 0 where
    pub present :
        (x : IpAddr)
        → find x (r.0)
          ≡ (if contains x (all_addrs table) then some (entry hc.state x now) else none)
    pub due :
        (x : IpAddr) → contains x (r.1) ≡ contains x (all_addrs table) && is_due hc.state x now

  track-First : First (track (all_addrs table) now kept [])
  unfolding contains
  track-First =
      let i = track-Listed (all_addrs table) now kept [] in
      record {
        present = λ x. i.entries x ∙ elim (Bool-cases (contains x (all_addrs table))) [
          | inl c ↦ rw (c, kept-entry x c) refl
          | inr c ↦ rw c (kept-find x ∙ rw c refl)
        ];
        due = λ x. i.due x ∙ elim (Bool-cases (contains x (all_addrs table))) [
          | inl c ↦ rw (c, kept-is_due x c) (ground arith)
          | inr c ↦ rw c (ground arith)
        ];
      }

  -- The outcomes that the loop over the batch sees.
  batch-find :
      (r : HealthMap × List IpAddr)
      → First r
      → (x : IpAddr)
      → find x (probe_all connect hc.port (r.1))
        ≡ (if contains x (all_addrs table) then probe_of connect hc now x else none)
  unfolding probe_of
  batch-find r f x =
      probe_all-find connect hc.port (r.1) x ∙ elim (Bool-cases (contains x (all_addrs table))) [
        | inl c ↦ rw (f.due x, c) refl
        | inr c ↦ rw (f.due x, c) refl
      ]

  batch-Tracked :
      (r : HealthMap × List IpAddr) → First r → Tracked (r.0) (probe_all connect hc.port (r.1))
  unfolding Tracked
  batch-Tracked r f x h e = elim (Bool-cases (contains x (all_addrs table))) [
    | inl c ↦
        let impossible : some (entry hc.state x now) ≡ none = sym (f.present x ∙ rw c refl) ∙ e in
        ground arith
    | inr c ↦ h (batch-find r f x ∙ rw c refl)
  ]

  Idle :
      (r : HealthMap × List IpAddr)
      → First r
      → r.1 ≡ []
      → (x : IpAddr) → contains x (all_addrs table) ≡ true
      → is_due hc.state x now ≡ false
  unfolding contains
  Idle r f e x c = sym (f.due x ∙ rw c refl) ∙ ap (contains x) e

  idle-Round :
      (state : HealthMap)
      → First (state, [])
      → Round connect hc table now (record hc { state = state }) table false
  unfolding expected probe_of after
  idle-Round state f = record {
    entries = λ x. f.present x ∙ elim (Bool-cases (contains x (all_addrs table))) [
      | inl c ↦ rw (c, Idle (state, []) f refl x c) refl
      | inr c ↦ rw c refl
    ];
    port = refl;
    mirrored = λ x c d. let no = Idle (state, []) f refl x c in ground arith;
    quiet = λ h. refl;
    turned = λ x b c e h.
        let no = Idle (state, []) f refl x c in
        let none' : none ≡ some b = rw no at e in ground arith;
  }

  busy-Round :
      (r : HealthMap × List IpAddr) (state' : HealthMap) (changed : Bool)
      → First r
      → Applied (r.0) (probe_all connect hc.port (r.1)) now false (state', changed)
      → Round connect hc table now
          (record hc { state = state' })
          (record table { slots = mirror_slots state' table.slots })
          changed
  unfolding expected update flip_of
  busy-Round r state' changed f i =
      let probes = probe_all connect hc.port (r.1) in
      record {
        entries = λ x. i.entries x ∙ elim (Bool-cases (contains x (all_addrs table))) [
          | inl c ↦ rw (f.present x, batch-find r f x, c) refl
          | inr c ↦ rw (f.present x, batch-find r f x, c) refl
        ];
        port = refl;
        mirrored = λ x c d. refl;
        quiet = λ h.
            i.changed
            ∙ flipped-false (r.0) probes (probe_all-DistinctKeys connect hc.port (r.1)) (λ x b e.
              elim (Bool-cases (contains x (all_addrs table))) [
                | inl c ↦ rw (f.present x, c) (h x b c (sym (batch-find r f x ∙ rw c refl) ∙ e))
                | inr c ↦ rw (f.present x, c) refl
              ]);
        turned = λ x b c e h.
            i.changed
            ∙ flipped-true (r.0) probes x b (batch-find r f x ∙ rw (c, e) refl)
                (rw (f.present x, c) h);
      }

  -- A round always completes, without a panic, and each server changes by its own probe only: it has
  -- an entry just when it is configured, the entry it had before or a new one, changed by the
  -- outcome of its probe if it was due; if one was due, the table's servers copy their entries; the
  -- result tells whether a probe turned the health of a server.
  pub check-Round :
      (hc' : HealthChecker) × (table' : ConfigTable) × (changed : Bool) × (check connect hc table
          now
        ≡ ok (hc', table', changed))
      × Round connect hc table now hc' table' changed
  unfolding check kept probe_due apply_probe_results run
  check-Round = go (track (all_addrs table) now kept []) track-First
    where
      go :
          (r : HealthMap × List IpAddr)
          → First r
          → (hc' : HealthChecker) × (table' : ConfigTable) × (changed : Bool) × (probe_due connect
                hc table now r
              ≡ ok (hc', table', changed))
            × Round connect hc table now hc' table' changed
      go (state, []) f = (record hc { state = state }, table, false, refl, idle-Round state f)
      go (state, a ∷ due) f =
          let ((state', changed), e, i) =
            apply_loop-Applied state (probe_all connect hc.port (a ∷ due)) now false
              (probe_all-DistinctKeys connect hc.port (a ∷ due))
              (batch-Tracked (state, a ∷ due) f) in
          (
            record hc { state = state' },
            record table { slots = mirror_slots state' table.slots },
            changed,
            rw e refl,
            busy-Round (state, a ∷ due) state' changed f i,
          )
