-- ===== src/Retry/Load/Stale.antt =====
-- pesigitg-daemon/src/retry/load.rs: a batch that began before the second changed.
use pesigitg.Prelude.{
  ℕ, ◌+◌, ◌/◌, ◌%◌, ◌^◌, ◌<◌, ◌≡◌, ◌≢◌, inl, inr, true, false, arith, ltb, ◌==◌, Bool-cases,
}
use pesigitg.Retry.Load.{LoadRateTracker, rate, roll_over, record_batch}

-- A batch with a time of another second moves the window to that second, also back to a past one; then
-- the next batch of the window's own second publishes the late batch's count alone as the rate, however
-- many packets the window had counted.
pub rate-record_late :
    (t : LoadRateTracker) (late count early_ms now_ms : ℕ)
    → early_ms / 1000 ≢ t.window_sec
    → now_ms / 1000 ≡ t.window_sec
    → 0 < late
    → late < 2 ^ 64
    → rate (record_batch (record_batch t late early_ms) count now_ms) ≡ late
unfolding rate record_batch roll_over
rate-record_late t late count early_ms now_ms other same pos small =
    let moved : (early_ms / 1000 == t.window_sec) ≡ false = ground arith in
    let back : (now_ms / 1000 == early_ms / 1000) ≡ false = ground arith in
    let some_late : ltb 0 late ≡ true = ground arith in
    let counted : (0 + late) % 2 ^ 64 ≡ late = omega arith in
    elim (Bool-cases (ltb 0 count)) [
      | inl e ↦ rw (moved, some_late, back, e) counted
      | inr e ↦ rw (moved, some_late, back, e) counted
    ]
