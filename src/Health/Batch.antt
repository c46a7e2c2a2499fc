-- ===== src/Health/Batch.antt =====
-- A batch of probe outcomes in pesigitg-daemon/src/health.rs: `apply_probe_results` as a change of each
-- server by itself.
use pesigitg.Prelude.{
  ℕ, ◌+◌, ◌%◌, ◌^◌, ◌≡◌, refl, sym, ap, ◌∙◌, ◌≢◌, inl, inr, Bool, true, false, not, ◌&&◌, ◌||◌,
  Option, none, some, List, [], ◌∷◌, arith, leb, Bool-cases, Option-cases, run, ok,
}
use pesigitg.Common.Address.{addr_eq_refl, IpAddr, addr_eq, addr_eq→eq}
use pesigitg.Common.AddressMap.{find, put, DistinctKeys, find-put, find_other, addr_eq_sym}
use pesigitg.Health.{
  ServerHealth, HealthMap, apply_probe, succeed, expect, apply_loop, failure_threshold,
}
use pesigitg.Health.History.{failed, fail-failed}

-- One probe's outcome, which always has a value.
unfoldable pub outcome : ServerHealth → Bool → ℕ → ServerHealth × Bool
outcome s true now = succeed s now
outcome s false now = failed s now ((s.consecutive_failures + 1) % 2 ^ 32)

pub apply_probe-outcome :
    (s : ServerHealth) (b : Bool) (now : ℕ) → apply_probe s b now ≡ ok (outcome s b now)
unfolding apply_probe outcome
apply_probe-outcome s true now = refl
apply_probe-outcome s false now = fail-failed s now

unfoldable pub after : ServerHealth → Option Bool → ℕ → ServerHealth
after s none now = s
after s (some b) now = (outcome s b now).0

-- Whether the outcome turns the server's health.
unfoldable pub flips : ServerHealth → Bool → Bool
flips s true = not s.healthy
flips s false = s.healthy && leb failure_threshold ((s.consecutive_failures + 1) % 2 ^ 32)

outcome-flips : (s : ServerHealth) (b : Bool) (now : ℕ) → (outcome s b now).1 ≡ flips s b
unfolding outcome flips succeed failed
outcome-flips s true now = elim (Bool-cases s.healthy) [ inl e ↦ rw e refl | inr e ↦ rw e refl ]
outcome-flips s false now =
    elim (Bool-cases (s.healthy && leb failure_threshold ((s.consecutive_failures + 1) % 2 ^ 32))) [
      | inl e ↦ rw e refl
      | inr e ↦ rw e refl
    ]

unfoldable pub flip_of : Option ServerHealth → Bool → Bool
flip_of none b = false
flip_of (some s) b = flips s b

unfoldable pub flipped : HealthMap → List (IpAddr × Bool) → Bool
flipped state [] = false
flipped state ((a, b) ∷ probes) = flip_of (find a state) b || flipped state probes

flipped-put :
    (a : IpAddr) (s : ServerHealth) (state : HealthMap) (probes : List (IpAddr × Bool))
    → find a probes ≡ none
    → flipped (put a s state) probes ≡ flipped state probes
unfolding flipped find
flipped-put a s state [] h = refl
flipped-put a s state ((c, b) ∷ probes) h = elim (Bool-cases (addr_eq c a)) [
  | inl e ↦ let impossible : some b ≡ none = rw e at h in ground arith
  | inr e ↦
      rw (find_other a c s state (addr_eq_sym a c ∙ e), flipped-put a s state probes (rw e at h))
        refl
]

unfoldable pub update : Option ServerHealth → Option Bool → ℕ → Option ServerHealth
update none b now = none
update (some s) b now = some (after s b now)

-- What the loop over a batch does: each server that was probed changes by its own outcome.
pub record Applied (state : HealthMap) (probes : List (IpAddr × Bool)) (now : ℕ) (c : Bool)
    (r : HealthMap × Bool) : Type 0 where
  pub entries : (a : IpAddr) → find a (r.0) ≡ update (find a state) (find a probes) now
  pub changed : r.1 ≡ c || flipped state probes

-- Every probed address has an entry.
unfoldable pub Tracked : HealthMap → List (IpAddr × Bool) → Type 0
Tracked state probes = (a : IpAddr) → find a probes ≢ none → find a state ≢ none

update-none : (o : Option ServerHealth) (now : ℕ) → update o none now ≡ o
unfolding update after
update-none none now = refl
update-none (some s) now = refl

Tracked-step :
    (a : IpAddr) (b : Bool) (s : ServerHealth) (state : HealthMap) (probes : List (IpAddr × Bool))
    → Tracked state ((a, b) ∷ probes)
    → Tracked (put a s state) probes
unfolding Tracked find
Tracked-step a b s state probes t x h e = elim (Bool-cases (addr_eq a x)) [
  | inl g ↦ let e' : some s ≡ none = sym (find-put a x s state ∙ rw g refl) ∙ e in ground arith
  | inr g ↦ t x (λ n. h (rw g at n)) (sym (find_other a x s state g) ∙ e)
]

Applied-step :
    (a : IpAddr) (b : Bool) (s : ServerHealth) (state : HealthMap) (probes : List (IpAddr × Bool))
    (now : ℕ) (c : Bool) (r : HealthMap × Bool)
    → find a state ≡ some s
    → find a probes ≡ none
    → Applied (put a ((outcome s b now).0) state) probes now (c || (outcome s b now).1) r
    → Applied state ((a, b) ∷ probes) now c r
unfolding find flipped flip_of update after
Applied-step a b s state probes now c r here' fresh i = record {
  entries = λ x. elim (Bool-cases (addr_eq a x)) [
    | inl g ↦
        let a≡x = addr_eq→eq a x g in
        let at_x : find x state ≡ some s = ap (λ y. find y state) (sym a≡x) ∙ here' in
        let fresh' : find x probes ≡ none = ap (λ y. find y probes) (sym a≡x) ∙ fresh in
        let new_x : find x (put a ((outcome s b now).0) state) ≡ some ((outcome s b now).0) =
          find-put a x ((outcome s b now).0) state ∙ rw g refl in
        i.entries x ∙ rw (new_x, fresh', g, at_x) refl
    | inr g ↦ i.entries x ∙ rw (find_other a x ((outcome s b now).0) state g, g) refl
  ];
  changed =
      let same = flipped-put a ((outcome s b now).0) state probes fresh in
      i.changed ∙ rw (same, outcome-flips s b now, here') (ground arith);
}

pub apply_loop-Applied :
    (state : HealthMap) (probes : List (IpAddr × Bool)) (now : ℕ) (c : Bool)
    → DistinctKeys probes
    → Tracked state probes
    → (r : HealthMap × Bool) × (apply_loop state probes now c ≡ ok r) × Applied state probes now c r
unfolding apply_loop DistinctKeys Tracked find expect run flipped
apply_loop-Applied state [] now c d t = (
  (state, c),
  refl,
  record { entries = λ a. sym (update-none (find a state) now); changed = ground arith },
)
apply_loop-Applied state ((a, b) ∷ probes) now c (fresh, d) t = elim (Option-cases (find a state)) [
  | inl e ↦ absurd (t a (λ n. let k : some b ≡ none = rw (addr_eq_refl a) at n in ground arith) e)
  | inr (s, e) ↦
      let (r, eq, i) =
        apply_loop-Applied (put a ((outcome s b now).0) state) probes now (c || (outcome s b now).1)
          d (Tracked-step a b ((outcome s b now).0) state probes t) in
      (r, rw (e, apply_probe-outcome s b now) eq, Applied-step a b s state probes now c r e fresh i)
]

-- A batch in which no probe turns its server's health changes nothing that callers look at.
pub flipped-false :
    (state : HealthMap) (probes : List (IpAddr × Bool))
    → DistinctKeys probes
    → ((a : IpAddr) (b : Bool) → find a probes ≡ some b → flip_of (find a state) b ≡ false)
    → flipped state probes ≡ false
unfolding flipped DistinctKeys find
flipped-false state [] d h = refl
flipped-false state ((a, b) ∷ probes) (fresh, d) h =
    let head = h a b (rw (addr_eq_refl a) refl) in
    let rest = flipped-false state probes d (λ x y e. elim (Bool-cases (addr_eq a x)) [
      | inl g ↦
          let gone : find x probes ≡ none =
            ap (λ z. find z probes) (sym (addr_eq→eq a x g)) ∙ fresh in
          let impossible : some y ≡ none = sym e ∙ gone in ground arith
      | inr g ↦ h x y (rw g e)
    ]) in
    rw (head, rest) refl

pub flipped-true :
    (state : HealthMap) (probes : List (IpAddr × Bool)) (a : IpAddr) (b : Bool)
    → find a probes ≡ some b
    → flip_of (find a state) b ≡ true
    → flipped state probes ≡ true
unfolding flipped find
flipped-true state [] a b e h = ground arith
flipped-true state ((c, x) ∷ probes) a b e h = elim (Bool-cases (addr_eq c a)) [
  | inl g ↦
      let same : x ≡ b = (let k : some x ≡ some b = rw g at e in ground arith) in
      rw (addr_eq→eq c a g, same, h) refl
  | inr g ↦ rw (flipped-true state probes a b (rw g at e) h) (ground arith)
]
