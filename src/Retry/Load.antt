-- ===== src/Retry/Load.antt =====
-- pesigitg-daemon/src/retry/load.rs: packets counted in windows of one second. The three atomics are
-- fields; `record_batch` is one call with no other thread in between.
pub mod Windows
pub mod Threads
pub mod Interleavings
pub mod Stale
use pesigitg.Prelude.{◌/◌, ◌%◌, ◌^◌, ltb, ◌==◌, if◌then◌else◌, ℕ, ◌+◌}

pub record LoadRateTracker : Type 0 where
  pub window_sec : ℕ
  pub window_count : ℕ
  pub last_rate : ℕ

abbrev pub new : LoadRateTracker
new = record { window_sec = 0; window_count = 0; last_rate = 0 }

unfoldable pub rate : LoadRateTracker → ℕ
rate t = t.last_rate

-- The `compare_exchange` and what follows it in a new second.
unfoldable pub roll_over : LoadRateTracker → ℕ → LoadRateTracker
roll_over t now_sec =
    if now_sec == t.window_sec
    then t
    else record { window_sec = now_sec; window_count = 0; last_rate = t.window_count }

-- `fetch_add` wraps at 64 bits.
unfoldable pub record_batch : LoadRateTracker → ℕ → ℕ → LoadRateTracker
record_batch t count now_ms =
    let t' = roll_over t (now_ms / 1000) in
    if ltb 0 count then record t' { window_count = (t'.window_count + count) % 2 ^ 64 } else t'
