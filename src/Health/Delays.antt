-- ===== src/Health/Delays.antt =====
-- `backoff_for` of pesigitg-daemon/src/health.rs: the delay before a server is probed again.
use pesigitg.Prelude.{
  ◌<◌, ℕ, zero, suc, ◌-◌, ◌≤◌, min, ◌≡◌, refl, inl, inr, arith, ltb, if◌then◌else◌, lt→ltb,
  Bool-cases, get_or, run, ok,
}
use pesigitg.Health.{probe_interval, backoff_schedule, backoff_for}

step : ℕ → ℕ
step i = get_or backoff_schedule i 0

step-ends : (i : ℕ) → (10_000_000_000 ≤ step (min i 3)) × (step (min i 3) ≤ 300_000_000_000)
unfolding step get_or
step-ends zero = (omega arith, omega arith)
step-ends (suc zero) = (omega arith, omega arith)
step-ends (suc (suc zero)) = (omega arith, omega arith)
step-ends (suc (suc (suc i))) =
    let e : min (suc (suc (suc i))) 3 ≡ 3 = omega arith in rw e (omega arith, omega arith)

-- The delay that `backoff_for` returns.
pub wait : ℕ → ℕ
wait failures = if ltb failures 3 then probe_interval else step (min (failures - 3) 3)

pub backoff_for-wait : (failures : ℕ) → backoff_for failures ≡ ok (wait failures)
unfolding backoff_for wait run step
backoff_for-wait failures = elim (Bool-cases (ltb failures 3)) [
  | inl h ↦ rw h refl
  | inr h ↦ rw (h, lt→ltb (min (failures - 3) 3) 4 (omega arith)) refl
]

pub wait-ends :
    (failures : ℕ) → (probe_interval ≤ wait failures) × (wait failures ≤ 300_000_000_000)
unfolding wait
wait-ends failures = elim (Bool-cases (ltb failures 3)) [
  | inl h ↦ rw h (omega arith, omega arith)
  | inr h ↦ let (low, high) = step-ends (failures - 3) in rw h (omega arith, high)
]

-- How the delay after `failures` failures compares with the one after `later` failures.
pub data Grows (failures later d e : ℕ) : Type 0 where
  same_count : failures ≡ later → d ≡ e → Grows failures later d e
  below_threshold : later < 3 → d ≡ probe_interval → e ≡ probe_interval → Grows failures later d e
  capped : 6 ≤ failures → d ≡ 300_000_000_000 → e ≡ 300_000_000_000 → Grows failures later d e
  longer : probe_interval ≤ d → d < e → e ≤ 300_000_000_000 → Grows failures later d e
