-- ===== src/Common/AddressMap.antt =====
-- `HashMap<IpAddr, V>` and `HashSet<IpAddr>`: an association list in which a key stands once, with
-- `get`, `insert`, `retain` on the keys, and `contains`.
use pesigitg.Prelude.{
  ◌≡◌, refl, sym, ap, ◌∙◌, ◌≢◌, inl, inr, Bool, true, false, ◌||◌, Option, none, some, List, [],
  ◌∷◌, ◌++◌, arith, if◌then◌else◌, Bool-cases,
}
use pesigitg.Common.Address.{IpAddr, addr_eq, addr_eq→eq, addr_eq_refl}

module _ {ℓ} {V : Type ℓ} where
  unfoldable pub find : IpAddr → List (IpAddr × V) → Option V
  find a [] = none
  find a ((b, v) ∷ m) = if addr_eq b a then some v else find a m

  unfoldable pub put : IpAddr → V → List (IpAddr × V) → List (IpAddr × V)
  put a v [] = (a, v) ∷ []
  put a v ((b, w) ∷ m) = if addr_eq b a then (a, v) ∷ m else (b, w) ∷ put a v m

  unfoldable pub retain_keys : (IpAddr → Bool) → List (IpAddr × V) → List (IpAddr × V)
  retain_keys keep [] = []
  retain_keys keep ((b, v) ∷ m) =
      let rest = retain_keys keep m in if keep b then (b, v) ∷ rest else rest

  -- Each key stands in the map once.
  unfoldable pub DistinctKeys : List (IpAddr × V) → Type ℓ
  DistinctKeys [] = Unit
  DistinctKeys ((a, v) ∷ m) = (find a m ≡ none) × DistinctKeys m

unfoldable pub contains : IpAddr → List IpAddr → Bool
contains a [] = false
contains a (b ∷ bs) = addr_eq b a || contains a bs

unfoldable pub insert_addr : IpAddr → List IpAddr → List IpAddr
insert_addr a xs = if contains a xs then xs else xs ++ (a ∷ [])

pub addr_eq_sym : (a b : IpAddr) → addr_eq a b ≡ addr_eq b a
addr_eq_sym a b = elim (Bool-cases (addr_eq a b)) [
  | inl h ↦ rw (addr_eq→eq a b h) refl
  | inr h ↦ elim (Bool-cases (addr_eq b a)) [
    | inl g ↦ rw (addr_eq→eq b a g) refl
    | inr g ↦ h ∙ sym g
  ]
]

module _ {ℓ} {V : Type ℓ} where
  pub find-put :
      (a b : IpAddr) (v : V) (m : List (IpAddr × V))
      → find b (put a v m) ≡ (if addr_eq a b then some v else find b m)
  unfolding find put
  find-put a b v [] = refl
  find-put a b v ((c, w) ∷ m) = elim (Bool-cases (addr_eq c a)) [
    | inl h ↦ elim (Bool-cases (addr_eq a b)) [
      | inl g ↦ rw (h, g) refl
      | inr g ↦ let g' : addr_eq c b ≡ false = rw (addr_eq→eq c a h) g in rw (h, g, g') refl
    ]
    | inr h ↦ elim (Bool-cases (addr_eq c b)) [
      | inl g ↦
          let g' : addr_eq a b ≡ false =
            addr_eq_sym a b ∙ (ap (λ x. addr_eq x a) (sym (addr_eq→eq c b g)) ∙ h) in
          rw (h, g, g') refl
      | inr g ↦ rw (h, g) (find-put a b v m)
    ]
  ]

  pub find-retain_keys :
      (keep : IpAddr → Bool) (b : IpAddr) (m : List (IpAddr × V))
      → find b (retain_keys keep m) ≡ (if keep b then find b m else none)
  unfolding find retain_keys
  find-retain_keys keep b [] = elim (Bool-cases (keep b)) [ inl h ↦ rw h refl | inr h ↦ rw h refl ]
  find-retain_keys keep b ((c, w) ∷ m) = elim (Bool-cases (addr_eq c b)) [
    | inl h ↦
        let same = addr_eq→eq c b h in
        let rest = find-retain_keys keep b m in
        elim (Bool-cases (keep b)) [
          | inl g ↦ let g' : keep c ≡ true = ap keep same ∙ g in rw (g', g, h) refl
          | inr g ↦ let g' : keep c ≡ false = ap keep same ∙ g in rw (g', g) (rw g at rest)
        ]
    | inr h ↦ elim (Bool-cases (keep c)) [
      | inl g ↦ rw (g, h) (find-retain_keys keep b m)
      | inr g ↦ rw (g, h) (find-retain_keys keep b m)
    ]
  ]

  pub find_other :
      (a b : IpAddr) (v : V) (m : List (IpAddr × V))
      → addr_eq a b ≡ false
      → find b (put a v m) ≡ find b m
  find_other a b v m h = find-put a b v m ∙ rw h refl

  pub find_self : (a : IpAddr) (v : V) (m : List (IpAddr × V)) → find a (put a v m) ≡ some v
  find_self a v m = find-put a a v m ∙ rw (addr_eq_refl a) refl

  pub put-DistinctKeys :
      (a : IpAddr) (v : V) (m : List (IpAddr × V)) → DistinctKeys m → DistinctKeys (put a v m)
  unfolding put DistinctKeys find
  put-DistinctKeys a v [] h = (refl, tt)
  put-DistinctKeys a v ((b, w) ∷ m) (fresh, h) = elim (Bool-cases (addr_eq b a)) [
    | inl g ↦ rw g ((ap (λ x. find x m) (sym (addr_eq→eq b a g)) ∙ fresh), h)
    | inr g ↦ rw g (find_other a b v m (addr_eq_sym a b ∙ g) ∙ fresh, put-DistinctKeys a v m h)
  ]

  -- Writes at two keys that are there already commute.
  pub put-put :
      (a b : IpAddr) (v w : V) (m : List (IpAddr × V))
      → addr_eq a b ≡ false
      → find a m ≢ none
      → find b m ≢ none
      → put a v (put b w m) ≡ put b w (put a v m)
  unfolding put find
  put-put a b v w [] h p q = absurd (p refl)
  put-put a b v w ((c, x) ∷ m) h p q = elim (Bool-cases (addr_eq c a)) [
    | inl g ↦
        let ba : addr_eq b a ≡ false = addr_eq_sym b a ∙ h in
        let cb : addr_eq c b ≡ false = ap (λ y. addr_eq y b) (addr_eq→eq c a g) ∙ h in
        rw (g, cb, h, g) refl
    | inr g ↦ elim (Bool-cases (addr_eq c b)) [
      | inl k ↦ let ba : addr_eq b a ≡ false = addr_eq_sym b a ∙ h in rw (g, k, ba) refl
      | inr k ↦ rw (g, k, g) (ap (◌∷◌ (c, x)) (put-put a b v w m h (rw g at p) (rw k at q)))
    ]
  ]

pub contains-append :
    (a : IpAddr) (xs ys : List IpAddr) → contains a (xs ++ ys) ≡ contains a xs || contains a ys
unfolding contains
contains-append a [] ys = refl
contains-append a (x ∷ xs) ys = elim (Bool-cases (addr_eq x a)) [
  | inl h ↦ rw h refl
  | inr h ↦ rw h (contains-append a xs ys)
]

pub contains-insert_addr :
    (a b : IpAddr) (xs : List IpAddr) → contains b (insert_addr a xs) ≡ addr_eq a b || contains b xs
unfolding insert_addr contains
contains-insert_addr a b xs = elim (Bool-cases (contains a xs)) [
  | inl h ↦ elim (Bool-cases (addr_eq a b)) [
    | inl g ↦ rw (h, g) (ap (λ x. contains x xs) (sym (addr_eq→eq a b g)) ∙ h)
    | inr g ↦ rw (h, g) refl
  ]
  | inr h ↦ rw (h, contains-append b xs (a ∷ [])) (ground arith)
]
