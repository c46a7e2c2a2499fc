-- ===== src/Retry/Load/Threads.antt =====
-- pesigitg-daemon/src/retry/load.rs with several workers: each access to one of the atomics is a step
-- of the call of `record_batch` that makes it, and a schedule says whose turn it is. The accesses are
-- relaxed, so this is the order in which they take effect on each atomic.
use pesigitg.Prelude.{ℕ, zero, suc, ◌+◌, ◌/◌, ◌%◌, ◌^◌, List, [], ◌∷◌, ltb, ◌==◌, if◌then◌else◌}
use pesigitg.Retry.Load.{LoadRateTracker}

-- Where a call stands: at the load of `window_sec`, at the exchange, at the swap of the winner, at its
-- store, at the `fetch_add`, and behind it.
pub data Progress : Type 0 where
  begins : Progress
  loaded : (cur : ℕ) → Progress
  won : Progress
  swapped : (prev : ℕ) → Progress
  adds : Progress
  finished : Progress

pub record Call : Type 0 where
  pub count : ℕ
  pub now_sec : ℕ
  pub progress : Progress

-- `record_batch`, called with a number of packets and a time in milliseconds.
unfoldable pub call : ℕ → ℕ → Call
call count now_ms = record { count = count; now_sec = now_ms / 1000; progress = begins }

unfoldable pub exchange : LoadRateTracker → Call → ℕ → LoadRateTracker × Call
exchange t c cur =
    if t.window_sec == cur
    then (record t { window_sec = c.now_sec }, record c { progress = won })
    else (t, record c { progress = adds })

unfoldable pub fetch_add : LoadRateTracker → ℕ → LoadRateTracker
fetch_add t count =
    if ltb 0 count then record t { window_count = (t.window_count + count) % 2 ^ 64 } else t

-- One step of a call.
unfoldable pub advance : LoadRateTracker → Call → Progress → LoadRateTracker × Call
advance t c begins = (t, record c { progress = loaded t.window_sec })
advance t c (loaded cur) =
    if c.now_sec == cur then (t, record c { progress = adds }) else exchange t c cur
advance t c won = (record t { window_count = 0 }, record c { progress = swapped t.window_count })
advance t c (swapped prev) = (record t { last_rate = prev }, record c { progress = adds })
advance t c adds = (fetch_add t c.count, record c { progress = finished })
advance t c finished = (t, record c { progress = finished })

-- The counts that the winners' swaps took out, newest first.
unfoldable pub log : LoadRateTracker → Progress → List ℕ → List ℕ
log t won taken = t.window_count ∷ taken
log t p taken = taken

pub record Workers : Type 0 where
  pub tracker : LoadRateTracker
  pub calls : List Call
  pub taken : List ℕ

unfoldable pub turn :
    ℕ → LoadRateTracker → List Call → List ℕ → LoadRateTracker × List Call × List ℕ
turn i t [] taken = (t, [], taken)
turn zero t (c ∷ calls) taken =
    let (t', c') = advance t c c.progress in (t', c' ∷ calls, log t c.progress taken)
turn (suc i) t (c ∷ calls) taken =
    let (t', calls', taken') = turn i t calls taken in (t', c ∷ calls', taken')

unfoldable pub interleave : List ℕ → Workers → Workers
interleave [] w = w
interleave (i ∷ schedule) w =
    let (t, calls, taken) = turn i w.tracker w.calls w.taken in
    interleave schedule (record { tracker = t; calls = calls; taken = taken })
