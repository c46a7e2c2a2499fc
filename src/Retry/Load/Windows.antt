-- ===== src/Retry/Load/Windows.antt =====
-- pesigitg-daemon/src/retry/load.rs: the rate over a run of batches.
use pesigitg.Prelude.{
  ℕ, ◌+◌, ◌/◌, ◌%◌, ◌^◌, ◌<◌, ◌≡◌, refl, ◌≢◌, inl, inr, false, List, [], ◌∷◌, arith, ltb, ◌==◌,
  ==_refl, Bool-cases,
}
use pesigitg.Retry.Load.{LoadRateTracker, rate, roll_over, record_batch}

-- The calls of `record_batch` in turn, each with its count and its time in milliseconds.
unfoldable pub record_all : LoadRateTracker → List (ℕ × ℕ) → LoadRateTracker
record_all t [] = t
record_all t ((count, now_ms) ∷ batches) = record_all (record_batch t count now_ms) batches

unfoldable pub total : List (ℕ × ℕ) → ℕ
total [] = 0
total ((count, now_ms) ∷ batches) = count + total batches

unfoldable pub InSecond : ℕ → List (ℕ × ℕ) → Type 0
InSecond s [] = Unit
InSecond s ((count, now_ms) ∷ batches) = (now_ms / 1000 ≡ s) × InSecond s batches

abbrev counted : LoadRateTracker → ℕ → LoadRateTracker
counted t n = record t { window_count = (t.window_count + n) % 2 ^ 64 }

record_batch-same :
    (t : LoadRateTracker) (count now_ms : ℕ)
    → now_ms / 1000 ≡ t.window_sec
    → t.window_count < 2 ^ 64
    → record_batch t count now_ms ≡ counted t count
unfolding record_batch roll_over
record_batch-same t count now_ms h g = elim (Bool-cases (ltb 0 count)) [
  | inl e ↦ rw (h, ==_refl t.window_sec, e) refl
  | inr e ↦
      let same : (t.window_count + count) % 2 ^ 64 ≡ t.window_count = ground arith in
      rw (h, ==_refl t.window_sec, e, same) refl
]

record_all-eq :
    (t : LoadRateTracker) (batches : List (ℕ × ℕ))
    → InSecond t.window_sec batches
    → t.window_count < 2 ^ 64
    → record_all t batches ≡ counted t (total batches)
unfolding record_all total InSecond
record_all-eq t [] h g =
    let same : (t.window_count + 0) % 2 ^ 64 ≡ t.window_count = omega arith in rw same refl
record_all-eq t ((count, now_ms) ∷ batches) (h, hs) g =
    let sum : ((t.window_count + count) % 2 ^ 64 + total batches) % 2 ^ 64
        ≡ (t.window_count + (count + total batches)) % 2 ^ 64 =
      omega arith in
    rw
      (
        record_batch-same t count now_ms h g,
        record_all-eq (counted t count) batches hs (omega arith),
        sum,
      )
      refl

-- With a count that fits 64 bits, batches within the current second leave the rate as it is; the
-- first batch of another second makes it the number of packets counted in the second before, modulo
-- 2^64.
pub rate-record_all :
    (t : LoadRateTracker) (batches : List (ℕ × ℕ)) (count now_ms : ℕ)
    → InSecond t.window_sec batches
    → t.window_count < 2 ^ 64
    → now_ms / 1000 ≢ t.window_sec
    → (rate (record_all t batches) ≡ rate t)
      × (rate (record_batch (record_all t batches) count now_ms)
          ≡ (t.window_count + total batches) % 2 ^ 64)
unfolding rate record_batch roll_over
rate-record_all t batches count now_ms h g other =
    let whole = record_all-eq t batches h g in
    let apart : (now_ms / 1000 == t.window_sec) ≡ false = ground arith in
    (
      rw whole refl,
      elim (Bool-cases (ltb 0 count)) [
        | inl e ↦ rw (whole, apart, e) refl
        | inr e ↦ rw (whole, apart, e) refl
      ],
    )
