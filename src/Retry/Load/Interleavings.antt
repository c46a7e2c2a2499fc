-- ===== src/Retry/Load/Interleavings.antt =====
-- What holds of the tracker of pesigitg-daemon/src/retry/load.rs however the workers' calls interleave.
use pesigitg.Prelude.{
  zero, suc, ◌∙◌, ◌%◌, ◌^◌, arith, ltb, ℕ, ◌+◌, ◌≡◌, refl, inl, inr, List, [], ◌∷◌, ◌==◌,
  Bool-cases,
}
use pesigitg.Retry.Load.{LoadRateTracker}
use pesigitg.Retry.Load.Threads.{
  Progress, begins, loaded, won, swapped, adds, finished, Call, call, exchange, fetch_add, advance,
  log, Workers, turn, interleave,
}

unfoldable pub sum : List ℕ → ℕ
sum [] = 0
sum (x ∷ xs) = x + sum xs

-- What a call has put into the tracker so far.
added : Progress → ℕ → ℕ
added finished count = count
added p count = 0

pub contributed : List Call → ℕ
contributed [] = 0
contributed (c ∷ calls) = added c.progress c.count + contributed calls

fetch_add-count :
    (t : LoadRateTracker) (count : ℕ)
    → (fetch_add t count).window_count % 2 ^ 64 ≡ (t.window_count + count) % 2 ^ 64
unfolding fetch_add
fetch_add-count t count = elim (Bool-cases (ltb 0 count)) [
  | inl e ↦ rw e (omega arith)
  | inr e ↦ rw e (ground arith)
]

-- One step keeps the sum of what is in the window and what was taken out equal to what was put in.
advance-conserves :
    (t : LoadRateTracker) (c : Call) (p : Progress) (taken : List ℕ) (others : ℕ)
    → (t.window_count + sum taken) % 2 ^ 64 ≡ (others + added p c.count) % 2 ^ 64
    → (((advance t c p).0).window_count + sum (log t p taken)) % 2 ^ 64
      ≡ (others + added (((advance t c p).1).progress) (((advance t c p).1).count)) % 2 ^ 64
unfolding advance log sum added exchange
advance-conserves t c begins taken others h = h
advance-conserves t c (loaded cur) taken others h = elim (Bool-cases (c.now_sec == cur)) [
  | inl g ↦ rw g h
  | inr g ↦ elim (Bool-cases (t.window_sec == cur)) [ inl k ↦ rw (g, k) h | inr k ↦ rw (g, k) h ]
]
advance-conserves t c won taken others h = omega (arith, h)
advance-conserves t c (swapped prev) taken others h = h
advance-conserves t c adds taken others h =
    let before : (t.window_count + sum taken) % 2 ^ 64 ≡ (others + 0) % 2 ^ 64 = h in
    omega (arith, before, fetch_add-count t c.count)
advance-conserves t c finished taken others h = h

record IsKept (start : ℕ) (r : LoadRateTracker × List Call × List ℕ) (others : ℕ) : Type 0 where
  kept : ((r.0).window_count + sum (r.2)) % 2 ^ 64 ≡ (start + (others + contributed (r.1))) % 2 ^ 64

turn-IsKept :
    (i : ℕ) (t : LoadRateTracker) (calls : List Call) (taken : List ℕ) (start others : ℕ)
    → IsKept start (t, calls, taken) others
    → IsKept start (turn i t calls taken) others
unfolding turn contributed
turn-IsKept i t [] taken start others h = h
turn-IsKept zero t (c ∷ calls) taken start others h =
    let rest = start + others + contributed calls in
    let step = advance-conserves t c c.progress taken rest (omega (arith, h.kept)) in
    record { kept = omega (arith, step) }
turn-IsKept (suc i) t (c ∷ calls) taken start others h =
    let deeper : IsKept start (t, calls, taken) (others + added c.progress c.count) = record {
      kept = omega (arith, h.kept);
    } in
    let step = turn-IsKept i t calls taken start (others + added c.progress c.count) deeper in
    record { kept = omega (arith, step.kept) }

interleave-IsKept :
    (schedule : List ℕ) (w : Workers) (start : ℕ)
    → IsKept start (w.tracker, w.calls, w.taken) 0
    → IsKept start
        (
          (interleave schedule w).tracker,
          (interleave schedule w).calls,
          (interleave schedule w).taken,
        )
        0
unfolding interleave
interleave-IsKept [] w start h = h
interleave-IsKept (i ∷ schedule) w start h =
    interleave-IsKept schedule _ start (turn-IsKept i w.tracker w.calls w.taken start 0 h)

-- Calls that have not begun.
pub idle_calls : List (ℕ × ℕ) → List Call
idle_calls [] = []
idle_calls ((count, now_ms) ∷ batches) = call count now_ms ∷ idle_calls batches

contributed-idle : (batches : List (ℕ × ℕ)) → contributed (idle_calls batches) ≡ 0
unfolding contributed idle_calls call added
contributed-idle [] = refl
contributed-idle ((count, now_ms) ∷ batches) = omega (arith, contributed-idle batches)

pub workers : LoadRateTracker → List (ℕ × ℕ) → Workers
workers t batches = record { tracker = t; calls = idle_calls batches; taken = [] }

-- No packet is lost or counted twice, however the calls of several workers interleave: at any time what
-- is in the window and what the winners took out of it are together, modulo 2^64, what was in the window
-- at the beginning and the counts of the calls that have added theirs.
pub interleave-conserves :
    (schedule : List ℕ) (t : LoadRateTracker) (batches : List (ℕ × ℕ))
    → ((interleave schedule (workers t batches)).tracker.window_count
          + sum ((interleave schedule (workers t batches)).taken))
        % 2 ^ 64
      ≡ (t.window_count + contributed ((interleave schedule (workers t batches)).calls)) % 2 ^ 64
unfolding workers sum
interleave-conserves schedule t batches =
    let start : IsKept t.window_count (t, idle_calls batches, []) 0 = record {
      kept = rw (contributed-idle batches) (omega arith);
    } in
    (interleave-IsKept schedule (workers t batches) t.window_count start).kept ∙ omega arith
