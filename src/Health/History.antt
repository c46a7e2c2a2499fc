-- ===== src/Health/History.antt =====
-- The state of one server in pesigitg-daemon/src/health.rs against the history of its probes.
use mathlib.Core.Path.{subst}
use pesigitg.Health.Delays.{wait, backoff_for-wait}
use pesigitg.Prelude.{
  leb, run, ℕ, suc, ◌+◌, ◌%◌, ◌^◌, ◌≡◌, refl, sym, ◌∙◌, inl, inr, Bool, true, false, not, ◌&&◌,
  ◌||◌, List, [], ◌∷◌, arith, ltb, if◌then◌else◌, Bool-cases, ok,
}
use pesigitg.Health.{fail, failure_threshold, ServerHealth, discovered, apply_probe, succeed}

-- Histories stand newest first. Failures since the last answer:
unfoldable pub trailing : List Bool → ℕ
trailing [] = 0
trailing (true ∷ h) = 0
trailing (false ∷ h) = suc (trailing h)

unfoldable pub answered : List Bool → Bool
answered [] = false
answered (b ∷ h) = b || answered h

-- A server is up when it has answered once and fewer than three probes have failed since its last
-- answer.
unfoldable pub up : List Bool → Bool
up h = answered h && ltb (trailing h) 3

unfoldable pub differ : Bool → Bool → Bool
differ true b = not b
differ false b = b

-- The changes between up and down after the first answer.
unfoldable pub flaps : List Bool → ℕ
flaps [] = 0
flaps (b ∷ h) = (if answered h && differ (up (b ∷ h)) (up h) then 1 else 0) + flaps h

-- What the code has done to a server's state by the end of a history; `reset_backoff` may have moved
-- its next probe in between.
pub data Observed : List Bool → ServerHealth → Type 0 where
  found : (now : ℕ) → Observed [] (discovered now)
  probed :
      {h : List Bool} {s : ServerHealth}
      → Observed h s
      → (b : Bool) (now : ℕ) (next : ServerHealth × Bool) → apply_probe s b now ≡ ok next
      → Observed (b ∷ h) next.0
  rescheduled :
      {h : List Bool} {s : ServerHealth}
      → Observed h s
      → (now : ℕ) → Observed h (record s { next_probe_at = now })

pub record Agrees (h : List Bool) (s : ServerHealth) : Type 0 where
  pub failures : s.consecutive_failures ≡ trailing h % 2 ^ 32
  pub healthy : s.healthy ≡ up h
  pub ever_healthy : s.ever_healthy ≡ answered h
  pub transitions : s.transitions ≡ flaps h % 2 ^ 32

succeed-Agrees :
    (h : List Bool) (s : ServerHealth) (now : ℕ)
    → Agrees h s
    → Agrees (true ∷ h) ((succeed s now).0)
unfolding succeed trailing answered up differ flaps
succeed-Agrees h s now a = elim (Bool-cases s.healthy) [
  | inl e ↦
      let u : answered h && ltb (trailing h) 3 ≡ true = sym a.healthy ∙ e in
      rw e (record {
        failures = refl;
        healthy = ground arith;
        ever_healthy = ground arith;
        transitions = ground arith;
      })
  | inr e ↦
      let u : answered h && ltb (trailing h) 3 ≡ false = sym a.healthy ∙ e in
      rw e (record {
        failures = refl;
        healthy = ground arith;
        ever_healthy = ground arith;
        transitions = ground arith;
      })
]

-- `fail`, with the delay that it waits.
unfoldable pub failed : ServerHealth → ℕ → ℕ → ServerHealth × Bool
failed s now failures =
    if s.healthy && leb failure_threshold failures
    then (
      record {
        consecutive_failures = failures;
        healthy = false;
        next_probe_at = now + wait failures;
        transitions = (s.transitions + 1) % 2 ^ 32;
        state_since = now;
        ever_healthy = s.ever_healthy;
      },
      true,
    )
    else (record s { consecutive_failures = failures; next_probe_at = now + wait failures }, false)

pub fail-failed :
    (s : ServerHealth) (now : ℕ)
    → fail s now ≡ ok (failed s now ((s.consecutive_failures + 1) % 2 ^ 32))
unfolding fail failed run
fail-failed s now = rw (backoff_for-wait ((s.consecutive_failures + 1) % 2 ^ 32)) refl

failed-Agrees :
    (h : List Bool) (s : ServerHealth) (now : ℕ)
    → Agrees h s
    → Agrees (false ∷ h) ((failed s now ((s.consecutive_failures + 1) % 2 ^ 32)).0)
unfolding failed trailing answered up differ flaps
failed-Agrees h s now a =
    elim (Bool-cases (s.healthy && leb 3 ((s.consecutive_failures + 1) % 2 ^ 32))) [
      | inl e ↦
          let u : answered h && ltb (trailing h) 3 ≡ true = ground arith in
          rw e (record {
            failures = ground arith;
            healthy = ground arith;
            ever_healthy = ground arith;
            transitions = ground arith;
          })
      | inr e ↦ rw e (record {
        failures = ground arith;
        healthy = ground arith;
        ever_healthy = ground arith;
        transitions = ground arith;
      })
    ]

-- A server's state is what the history of its probes says, whatever the times and reloads: it is
-- healthy when it has answered once and fewer than three probes have failed since its last answer, it
-- has the count of those failures, and the count of changes after the first answer.
pub Observed-Agrees : (h : List Bool) (s : ServerHealth) → Observed h s → Agrees h s
unfolding discovered apply_probe trailing answered up flaps
Observed-Agrees h s (found now) = record {
  failures = refl;
  healthy = refl;
  ever_healthy = refl;
  transitions = refl;
}
Observed-Agrees h s (probed {h = h'} {s = s'} o true now next e) =
    let same : succeed s' now ≡ next = ground arith in
    subst (λ n. Agrees (true ∷ h') (n.0)) same (succeed-Agrees h' s' now (Observed-Agrees h' s' o))
Observed-Agrees h s (probed {h = h'} {s = s'} o false now next e) =
    let f = fail-failed s' now in
    let same : failed s' now ((s'.consecutive_failures + 1) % 2 ^ 32) ≡ next = ground arith in
    subst (λ n. Agrees (false ∷ h') (n.0)) same (failed-Agrees h' s' now (Observed-Agrees h' s' o))
Observed-Agrees h s (rescheduled {s = s'} o now) =
    let a = Observed-Agrees h s' o in
    record {
      failures = a.failures;
      healthy = a.healthy;
      ever_healthy = a.ever_healthy;
      transitions = a.transitions;
    }
