-- ===== src/Health/Due.antt =====
-- The first phase of `check` in pesigitg-daemon/src/health.rs: which servers have an entry after it, and
-- which are due.
use pesigitg.Prelude.{
  true, false, Option, none, sym, ◌∙◌, ℕ, ◌≡◌, refl, ap, inl, inr, Bool, ◌&&◌, ◌||◌, some, List, [],
  ◌∷◌, ◌++◌, arith, leb, if◌then◌else◌, Bool-cases,
}
use pesigitg.Common.Address.{IpAddr, addr_eq, addr_eq→eq}
use pesigitg.Common.AddressMap.{
  put-DistinctKeys, DistinctKeys, find_self, find, put, contains, find-put, find_other,
  contains-append,
}
use pesigitg.Health.{
  probe_loop, probe_all, record_probe, ServerHealth, HealthMap, or_discovered, track,
}

unfoldable pub entry : HealthMap → IpAddr → ℕ → ServerHealth
entry state a now = or_discovered (find a state) now

unfoldable pub is_due : HealthMap → IpAddr → ℕ → Bool
is_due state a now = leb ((entry state a now).next_probe_at) now

entry-put :
    (a x : IpAddr) (now : ℕ) (state : HealthMap)
    → entry (put a (entry state a now) state) x now ≡ entry state x now
unfolding entry or_discovered
entry-put a x now state = elim (Bool-cases (addr_eq a x)) [
  | inl g ↦
      rw (find-put a x (or_discovered (find a state) now) state, g)
        (ap (λ y. or_discovered (find y state) now) (addr_eq→eq a x g))
  | inr g ↦ rw (find_other a x (or_discovered (find a state) now) state g) refl
]

is_due-put :
    (a x : IpAddr) (now : ℕ) (state : HealthMap)
    → is_due (put a (entry state a now) state) x now ≡ is_due state x now
unfolding is_due
is_due-put a x now state = rw (entry-put a x now state) refl

listed-append :
    (a x : IpAddr) (now : ℕ) (state : HealthMap) (due : List IpAddr)
    → contains x (if is_due state a now then due ++ (a ∷ []) else due)
      ≡ contains x due || (addr_eq a x && is_due state x now)
unfolding contains
listed-append a x now state due = elim (Bool-cases (addr_eq a x)) [
  | inl g ↦
      let same = ap (λ y. is_due state y now) (addr_eq→eq a x g) in
      elim (Bool-cases (is_due state a now)) [
        | inl e ↦ rw (e, contains-append x due (a ∷ []), sym same, e, g) refl
        | inr e ↦ rw (e, sym same, e) (ground arith)
      ]
  | inr g ↦ elim (Bool-cases (is_due state a now)) [
    | inl e ↦ rw (e, contains-append x due (a ∷ []), g) refl
    | inr e ↦ rw (e, g) (ground arith)
  ]
]

-- After the loop over the addresses each has an entry, and exactly the due ones are listed.
pub record Listed (addrs : List IpAddr) (now : ℕ) (state : HealthMap) (before : List IpAddr)
    (r : HealthMap × List IpAddr) : Type 0 where
  pub entries :
      (x : IpAddr)
      → find x (r.0) ≡ (if contains x addrs then some (entry state x now) else find x state)
  pub due :
      (x : IpAddr)
      → contains x (r.1) ≡ contains x before || (contains x addrs && is_due state x now)

tracked-cases :
    (a x : IpAddr) (now : ℕ) (state : HealthMap) (addrs : List IpAddr)
    → (if contains x addrs
        then some (entry state x now)
        else find x (put a (entry state a now) state))
      ≡ (if contains x (a ∷ addrs) then some (entry state x now) else find x state)
unfolding contains
tracked-cases a x now state addrs = elim (Bool-cases (contains x addrs)) [
  | inl c ↦ elim (Bool-cases (addr_eq a x)) [ inl g ↦ rw (c, g) refl | inr g ↦ rw (c, g) refl ]
  | inr c ↦ elim (Bool-cases (addr_eq a x)) [
    | inl g ↦
        rw (c, g, find-put a x (entry state a now) state, g)
          (ap (λ y. some (entry state y now)) (addr_eq→eq a x g))
    | inr g ↦ rw (c, g) (find_other a x (entry state a now) state g)
  ]
]

pub track-Listed :
    (addrs : List IpAddr) (now : ℕ) (state : HealthMap) (due : List IpAddr)
    → Listed addrs now state due (track addrs now state due)
unfolding track contains entry is_due
track-Listed [] now state due = record { entries = λ x. refl; due = λ x. ground arith }
track-Listed (a ∷ addrs) now state due =
    let state' = put a (entry state a now) state in
    let i = track-Listed addrs now state' (if is_due state a now then due ++ (a ∷ []) else due) in
    record {
      entries =
          λ x. i.entries x ∙ (rw (entry-put a x now state) (tracked-cases a x now state addrs));
      due = λ x.
          i.due x ∙ (rw (listed-append a x now state due, is_due-put a x now state) (ground arith));
    }

-- What the probe of an address yields, if it yields anything, or what was recorded before.
over : Option Bool → Option Bool → Option Bool
over none r = r
over (some b) r = some b

record_probe-find :
    (connect : IpAddr → Option Bool) (a x : IpAddr) (results : List (IpAddr × Bool))
    → find x (record_probe a (connect a) results)
      ≡ (if addr_eq a x then over (connect x) (find x results) else find x results)
unfolding record_probe over
record_probe-find connect a x results = elim (Bool-cases (addr_eq a x)) [
  | inl g ↦ rw (g, sym (addr_eq→eq a x g)) (go (connect a))
  | inr g ↦ rw g (other (connect a) g)
]
  where
    go : (o : Option Bool) → find a (record_probe a o results) ≡ over o (find a results)
    go none = refl
    go (some b) = find_self a b results

    other :
        (o : Option Bool) → addr_eq a x ≡ false → find x (record_probe a o results) ≡ find x results
    other none g = refl
    other (some b) g = find_other a x b results g

probe_loop-find :
    (connect : IpAddr → Option Bool) (addrs : List IpAddr) (x : IpAddr)
    (results : List (IpAddr × Bool))
    → find x (probe_loop connect addrs results)
      ≡ (if contains x addrs then over (connect x) (find x results) else find x results)
unfolding probe_loop contains over
probe_loop-find connect [] x results = refl
probe_loop-find connect (a ∷ addrs) x results =
    probe_loop-find connect addrs x (record_probe a (connect a) results)
    ∙ rw (record_probe-find connect a x results) (join (addr_eq a x) (contains x addrs) (connect x))
  where
    join :
        (p q : Bool) (o : Option Bool)
        → (if q
            then over o (if p then over o (find x results) else find x results)
            else (if p then over o (find x results) else find x results))
          ≡ (if p || q then over o (find x results) else find x results)
    join true true none = refl
    join true true (some b) = refl
    join true false o = refl
    join false true o = refl
    join false false o = refl

pub probe_all-find :
    (connect : IpAddr → ℕ → Option Bool) (port : ℕ) (addrs : List IpAddr) (x : IpAddr)
    → find x (probe_all connect port addrs) ≡ (if contains x addrs then connect x port else none)
unfolding probe_all over find
probe_all-find connect port addrs x =
    probe_loop-find (λ a. connect a port) addrs x [] ∙ last (contains x addrs) (connect x port)
  where
    last :
        (p : Bool) (o : Option Bool) → (if p then over o none else none) ≡ (if p then o else none)
    last true none = refl
    last true (some b) = refl
    last false o = refl

record_probe-DistinctKeys :
    (a : IpAddr) (o : Option Bool) (results : List (IpAddr × Bool))
    → DistinctKeys results
    → DistinctKeys (record_probe a o results)
unfolding record_probe
record_probe-DistinctKeys a none results d = d
record_probe-DistinctKeys a (some b) results d = put-DistinctKeys a b results d

probe_loop-DistinctKeys :
    (connect : IpAddr → Option Bool) (addrs : List IpAddr) (results : List (IpAddr × Bool))
    → DistinctKeys results
    → DistinctKeys (probe_loop connect addrs results)
unfolding probe_loop
probe_loop-DistinctKeys connect [] results d = d
probe_loop-DistinctKeys connect (a ∷ addrs) results d =
    probe_loop-DistinctKeys connect addrs (record_probe a (connect a) results)
      (record_probe-DistinctKeys a (connect a) results d)

pub probe_all-DistinctKeys :
    (connect : IpAddr → ℕ → Option Bool) (port : ℕ) (addrs : List IpAddr)
    → DistinctKeys (probe_all connect port addrs)
unfolding probe_all DistinctKeys
probe_all-DistinctKeys connect port addrs =
    probe_loop-DistinctKeys (λ a. connect a port) addrs [] tt
