-- ===== src/Health/Order.antt =====
-- The order in which pesigitg-daemon/src/health.rs goes through a batch of probe outcomes, a hash map.
use mathlib.Core.Path.{ap₂, subst}
use pesigitg.Prelude.{
  ℕ, refl, sym, ◌∙◌, inl, inr, true, false, ◌||◌, some, ◌∷◌, arith, Bool-cases, Option-cases, run,
  panic, ◌≡◌, Bool, none, List,
}
use mathlib.Core.List.{Permᴰ}
use pesigitg.Common.Address.{IpAddr, addr_eq}
use pesigitg.Common.AddressMap.{find, put, DistinctKeys, find_other, addr_eq_sym, put-put}
use pesigitg.Health.{ServerHealth, HealthMap, expect, apply_loop}
use pesigitg.Health.Batch.{outcome, apply_probe-outcome}

missing-tail :
    (x : IpAddr) (e : IpAddr × Bool) (m : List (IpAddr × Bool))
    → find x (e ∷ m) ≡ none
    → (addr_eq (e.0) x ≡ false) × (find x m ≡ none)
unfolding find
missing-tail x (a, b) m h = elim (Bool-cases (addr_eq a x)) [
  | inl g ↦ let impossible : some b ≡ none = rw g at h in ground arith
  | inr g ↦ (g, rw g at h)
]

missing-cons :
    (x : IpAddr) (e : IpAddr × Bool) (m : List (IpAddr × Bool))
    → addr_eq (e.0) x ≡ false
    → find x m ≡ none
    → find x (e ∷ m) ≡ none
unfolding find
missing-cons x (a, b) m g h = rw g h

missing-swap :
    (x : IpAddr) (d e : IpAddr × Bool) (m : List (IpAddr × Bool))
    → find x (d ∷ e ∷ m) ≡ none
    → find x (e ∷ d ∷ m) ≡ none
missing-swap x d e m h =
    let (g, h') = missing-tail x d (e ∷ m) h in
    let (k, h'') = missing-tail x e m h' in missing-cons x e (d ∷ m) k (missing-cons x d m g h'')

missing-Perm :
    (x : IpAddr) {p q : List (IpAddr × Bool)} → Permᴰ p q → find x p ≡ none → find x q ≡ none
missing-Perm x Permᴰ.nil h = h
missing-Perm x (Permᴰ.cons {a = a} {b = b} {l₁ = m} {l₂ = n} e d) h =
    let (g, h') = missing-tail x a m h in
    subst (λ c. find x (c ∷ n) ≡ none) e (missing-cons x a n g (missing-Perm x d h'))
missing-Perm x (Permᴰ.swap {a = a} {b = b} {a' = a'} {b' = b'} {l = m} e f) h =
    let swapped = missing-swap x a b m h in
    subst (λ c. find x (a' ∷ c ∷ m) ≡ none) e (subst (λ c. find x (c ∷ a ∷ m) ≡ none) f swapped)
missing-Perm x (Permᴰ.trans d e) h = missing-Perm x e (missing-Perm x d h)

DistinctKeys-swap :
    (d e : IpAddr × Bool) (m : List (IpAddr × Bool))
    → DistinctKeys (d ∷ e ∷ m)
    → (addr_eq (d.0) (e.0) ≡ false) × DistinctKeys (e ∷ d ∷ m)
unfolding DistinctKeys
DistinctKeys-swap (a, v) (b, w) m (fresh, (fresh', k)) =
    let (g, h) = missing-tail a (b, w) m fresh in
    let g' = addr_eq_sym a b ∙ g in (g', (missing-cons b (a, v) m g' fresh', (h, k)))

DistinctKeys-Perm : {p q : List (IpAddr × Bool)} → Permᴰ p q → DistinctKeys p → DistinctKeys q
unfolding DistinctKeys
DistinctKeys-Perm Permᴰ.nil h = h
DistinctKeys-Perm (Permᴰ.cons {a = (a, v)} {l₂ = n} e d) (fresh, h) =
    subst (λ c. DistinctKeys (c ∷ n)) e (missing-Perm a d fresh, DistinctKeys-Perm d h)
DistinctKeys-Perm (Permᴰ.swap {a = a} {b = b} {a' = a'} {l = m} e f) h =
    let (g, h') = DistinctKeys-swap a b m h in
    subst (λ c. DistinctKeys (a' ∷ c ∷ m)) e (subst (λ c. DistinctKeys (c ∷ a ∷ m)) f h')
DistinctKeys-Perm (Permᴰ.trans d e) h = DistinctKeys-Perm e (DistinctKeys-Perm d h)

-- The rest of the loop after one outcome, whatever it is.
apply_one :
    (state : HealthMap) (a : IpAddr) (b : Bool) (probes : List (IpAddr × Bool)) (now : ℕ) (c : Bool)
    (s : ServerHealth)
    → find a state ≡ some s
    → apply_loop state ((a, b) ∷ probes) now c
      ≡ apply_loop (put a ((outcome s b now).0) state) probes now (c || (outcome s b now).1)
unfolding apply_loop expect run
apply_one state a b probes now c s h = rw (h, apply_probe-outcome s b now) refl

apply_missing :
    (state : HealthMap) (a : IpAddr) (b : Bool) (probes : List (IpAddr × Bool)) (now : ℕ) (c : Bool)
    → find a state ≡ none
    → apply_loop state ((a, b) ∷ probes) now c ≡ panic
unfolding apply_loop expect run
apply_missing state a b probes now c h = rw h refl

-- A missing entry is met in either order.
apply_missing_second :
    (state : HealthMap) (a x : IpAddr) (b y : Bool) (probes : List (IpAddr × Bool)) (now : ℕ)
    (c : Bool)
    → addr_eq a x ≡ false
    → find x state ≡ none
    → apply_loop state ((a, b) ∷ (x, y) ∷ probes) now c ≡ panic
apply_missing_second state a x b y probes now c g h = elim (Option-cases (find a state)) [
  | inl e ↦ apply_missing state a b ((x, y) ∷ probes) now c e
  | inr (s, e) ↦
      apply_one state a b ((x, y) ∷ probes) now c s e
      ∙ apply_missing (put a ((outcome s b now).0) state) x y probes now (c || (outcome s b now).1)
          (find_other a x ((outcome s b now).0) state g ∙ h)
]

apply_both :
    (state : HealthMap) (a x : IpAddr) (b y : Bool) (probes : List (IpAddr × Bool)) (now : ℕ)
    (c : Bool) (s t : ServerHealth)
    → addr_eq a x ≡ false
    → find a state ≡ some s
    → find x state ≡ some t
    → apply_loop state ((a, b) ∷ (x, y) ∷ probes) now c
      ≡ apply_loop
          (put x ((outcome t y now).0) (put a ((outcome s b now).0) state))
          probes
          now
          ((c || (outcome s b now).1) || (outcome t y now).1)
apply_both state a x b y probes now c s t g h k =
    apply_one state a b ((x, y) ∷ probes) now c s h
    ∙ apply_one (put a ((outcome s b now).0) state) x y probes now (c || (outcome s b now).1) t
        (find_other a x ((outcome s b now).0) state g ∙ k)

or-swap : (c d e : Bool) → (c || d) || e ≡ (c || e) || d
or-swap true d e = ground arith
or-swap false d e = ground arith

apply_loop-swap :
    (state : HealthMap) (a x : IpAddr) (b y : Bool) (probes : List (IpAddr × Bool)) (now : ℕ)
    (c : Bool)
    → addr_eq a x ≡ false
    → apply_loop state ((a, b) ∷ (x, y) ∷ probes) now c
      ≡ apply_loop state ((x, y) ∷ (a, b) ∷ probes) now c
apply_loop-swap state a x b y probes now c g =
    let g' = addr_eq_sym x a ∙ g in
    elim (Option-cases (find a state)) [
      | inl e ↦
          apply_missing state a b ((x, y) ∷ probes) now c e
          ∙ sym (apply_missing_second state x a y b probes now c g' e)
      | inr (s, e) ↦ elim (Option-cases (find x state)) [
        | inl k ↦
            apply_missing_second state a x b y probes now c g k
            ∙ sym (apply_missing state x y ((a, b) ∷ probes) now c k)
        | inr (t, k) ↦
            let commute =
              put-put x a ((outcome t y now).0) ((outcome s b now).0) state g'
                (λ n. let i : some t ≡ none = sym k ∙ n in ground arith)
                (λ n. let i : some s ≡ none = sym e ∙ n in ground arith) in
            apply_both state a x b y probes now c s t g e k
            ∙ (ap₂ (λ m d. apply_loop m probes now d) commute
                  (or-swap c ((outcome s b now).1) ((outcome t y now).1))
                ∙ sym (apply_both state x a y b probes now c t s g' k e))
      ]
    ]

apply_loop-cons :
    (e : IpAddr × Bool) (p q : List (IpAddr × Bool)) (now : ℕ)
    → ((state : HealthMap) (c : Bool) → apply_loop state p now c ≡ apply_loop state q now c)
    → (state : HealthMap) (c : Bool)
    → apply_loop state (e ∷ p) now c ≡ apply_loop state (e ∷ q) now c
apply_loop-cons (a, b) p q now h state c = elim (Option-cases (find a state)) [
  | inl e ↦ apply_missing state a b p now c e ∙ sym (apply_missing state a b q now c e)
  | inr (s, e) ↦
      apply_one state a b p now c s e
      ∙ (h (put a ((outcome s b now).0) state) (c || (outcome s b now).1)
          ∙ sym (apply_one state a b q now c s e))
]

-- The loop over a batch of outcomes gives the same entries and the same answer in whatever order the
-- hash map yields the outcomes.
pub apply_loop-Perm :
    {p q : List (IpAddr × Bool)} (now : ℕ)
    → Permᴰ p q
    → DistinctKeys p
    → (state : HealthMap) (c : Bool) → apply_loop state p now c ≡ apply_loop state q now c
unfolding DistinctKeys
apply_loop-Perm now Permᴰ.nil d state c = refl
apply_loop-Perm now (Permᴰ.cons {a = a} {l₁ = m} {l₂ = n} e r) (fresh, d) state c =
    subst (λ x. apply_loop state (a ∷ m) now c ≡ apply_loop state (x ∷ n) now c) e
      (apply_loop-cons a m n now (apply_loop-Perm now r d) state c)
apply_loop-Perm now (Permᴰ.swap {a = a} {b = b} {a' = a'} {l = m} e f) d state c =
    let (g, d') = DistinctKeys-swap a b m d in
    let swapped = apply_loop-swap state (a.0) (b.0) (a.1) (b.1) m now c g in
    subst (λ x. apply_loop state (a ∷ b ∷ m) now c ≡ apply_loop state (a' ∷ x ∷ m) now c) e
      (subst (λ x. apply_loop state (a ∷ b ∷ m) now c ≡ apply_loop state (x ∷ a ∷ m) now c) f
        swapped)
apply_loop-Perm now (Permᴰ.trans r t) d state c =
    apply_loop-Perm now r d state c ∙ apply_loop-Perm now t (DistinctKeys-Perm r d) state c
