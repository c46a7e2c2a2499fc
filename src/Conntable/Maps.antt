-- ===== src/Conntable/Maps.antt =====
-- The maps of pesigitg-daemon/src/conntable.rs: their operations as those of a partial function, and
-- the keys of a map stand in it once.
use pesigitg.Prelude.{
  ℕ, ◌≤◌, not, leb, ◌∙◌, ap, false, none, ◌≡◌, refl, inl, inr, Bool, true, ◌&&◌, some, List, [],
  ◌∷◌, arith, ◌==◌, if◌then◌else◌, ==_refl, Bool-cases, bytes_eq→eq, bytes_eq_refl,
}
use pesigitg.Conntable.{
  FlowKey, flow_eq, DcidKey, dcid_eq, Entry, map_get, map_insert, map_retain, live, is_expired,
}
use pesigitg.Common.Address.{addr_eq, addr_eq→eq, addr_eq_refl}

-- A Boolean test that decides equality.
pub record Decides {ℓ} {K : Type ℓ} (eq : K → K → Bool) : Type ℓ where
  pub sound : (j k : K) → eq j k ≡ true → j ≡ k
  pub same : (k : K) → eq k k ≡ true

and-left : (a b : Bool) → a && b ≡ true → a ≡ true
and-left true b h = refl
and-left false b h = h

and-right : (a b : Bool) → a && b ≡ true → b ≡ true
and-right true b h = h
and-right false b h = ground arith

flow_eq→eq : (f g : FlowKey) → flow_eq f g ≡ true → f ≡ g
unfolding flow_eq
flow_eq→eq f g h =
    let rest = and-right (addr_eq f.src_addr g.src_addr) _ h in
    let ports = and-right (addr_eq f.dst_addr g.dst_addr) _ rest in
    let src = addr_eq→eq f.src_addr g.src_addr (and-left _ _ h) in
    let dst = addr_eq→eq f.dst_addr g.dst_addr (and-left _ _ rest) in
    let sport : f.src_port ≡ g.src_port = ground arith in
    let dport : f.dst_port ≡ g.dst_port = ground arith in cc

flow_eq_refl : (f : FlowKey) → flow_eq f f ≡ true
unfolding flow_eq
flow_eq_refl f =
    rw (addr_eq_refl f.src_addr, addr_eq_refl f.dst_addr, ==_refl f.src_port, ==_refl f.dst_port)
      refl

pub flow_eq-Decides : Decides flow_eq
flow_eq-Decides = record { sound = flow_eq→eq; same = flow_eq_refl }

dcid_eq→eq : (a b : DcidKey) → dcid_eq a b ≡ true → a ≡ b
unfolding dcid_eq
dcid_eq→eq a b h =
    let len : a.len ≡ b.len = ground arith in
    let bytes = bytes_eq→eq a.bytes b.bytes (and-right (a.len == b.len) _ h) in cc

dcid_eq_refl : (a : DcidKey) → dcid_eq a a ≡ true
unfolding dcid_eq
dcid_eq_refl a = rw (==_refl a.len, bytes_eq_refl a.bytes) refl

pub dcid_eq-Decides : Decides dcid_eq
dcid_eq-Decides = record { sound = dcid_eq→eq; same = dcid_eq_refl }

module _ {ℓ} {K : Type ℓ} {eq : K → K → Bool} (d : Decides eq) where
  transport-key : (i k j : K) → eq i k ≡ true → eq i j ≡ eq k j
  transport-key i k j h = ap (λ x. eq x j) (d.sound i k h)

  apart : (i k j : K) → eq i k ≡ false → eq i j ≡ true → eq k j ≡ false
  apart i k j h g = elim (Bool-cases (eq k j)) [
    | inl e ↦
        let i≡j : i ≡ j = d.sound i j g in
        let k≡j : k ≡ j = d.sound k j e in
        let i≡k : i ≡ k = cc in let again : eq i k ≡ true = ap (λ x. eq x k) i≡k ∙ d.same k in cc
    | inr e ↦ e
  ]

  pub map_get-map_insert :
      (k j : K) (e : Entry) (m : List (K × Entry))
      → map_get eq j (map_insert eq k e m) ≡ (if eq k j then some e else map_get eq j m)
  unfolding map_get map_insert
  map_get-map_insert k j e [] = refl
  map_get-map_insert k j e ((i, x) ∷ m) = elim (Bool-cases (eq i k)) [
    | inl h ↦ elim (Bool-cases (eq k j)) [
      | inl g ↦ rw (h, g) refl
      | inr g ↦ rw (h, transport-key i k j h, g) refl
    ]
    | inr h ↦ elim (Bool-cases (eq i j)) [
      | inl g ↦ rw (h, apart i k j h g, g) refl
      | inr g ↦ rw (h, g) (map_get-map_insert k j e m)
    ]
  ]

  -- Every key stands in the map once.
  unfoldable pub Distinct : List (K × Entry) → Type ℓ
  Distinct [] = Unit
  Distinct ((j, e) ∷ m) = (map_get eq j m ≡ none) × Distinct m

  pub map_insert-Distinct :
      (k : K) (e : Entry) (m : List (K × Entry)) → Distinct m → Distinct (map_insert eq k e m)
  unfolding map_get map_insert Distinct
  map_insert-Distinct k e [] h = (refl, tt)
  map_insert-Distinct k e ((i, x) ∷ m) (fresh, h) = elim (Bool-cases (eq i k)) [
    | inl g ↦
        let same = ap (λ y. map_get eq y m) (d.sound i k g) in
        let fresh' : map_get eq k m ≡ none = cc in rw g (fresh', h)
    | inr g ↦
        let other = apart i k i g (d.same i) in
        let rest : map_get eq i (map_insert eq k e m) ≡ none =
          rw (map_get-map_insert k i e m, other) fresh in
        rw g (rest, map_insert-Distinct k e m h)
  ]

  pub map_retain-fresh :
      (keep : Entry → Bool) (k : K) (m : List (K × Entry))
      → map_get eq k m ≡ none
      → map_get eq k (map_retain keep m) ≡ none
  unfolding map_get map_retain
  map_retain-fresh keep k [] h = refl
  map_retain-fresh keep k ((i, x) ∷ m) h = elim (Bool-cases (eq i k)) [
    | inl g ↦ let impossible : some x ≡ none = rw g at h in ground arith
    | inr g ↦
        let rest = map_retain-fresh keep k m (rw g at h) in
        elim (Bool-cases (keep x)) [ inl g' ↦ rw (g', g) rest | inr g' ↦ rw g' rest ]
  ]

  pub map_retain-Distinct :
      (keep : Entry → Bool) (m : List (K × Entry)) → Distinct m → Distinct (map_retain keep m)
  unfolding map_retain Distinct
  map_retain-Distinct keep [] h = tt
  map_retain-Distinct keep ((i, x) ∷ m) (fresh, h) = elim (Bool-cases (keep x)) [
    | inl g ↦ rw g (map_retain-fresh keep i m fresh, map_retain-Distinct keep m h)
    | inr g ↦ rw g (map_retain-Distinct keep m h)
  ]

  -- An entry that is swept out had expired already.
  pub live-map_retain :
      (k : K) (now later : ℕ) (m : List (K × Entry))
      → now ≤ later
      → Distinct m
      → live (map_get eq k (map_retain (λ e. not (is_expired e now)) m)) later
        ≡ live (map_get eq k m) later
  unfolding map_get map_retain Distinct live is_expired
  live-map_retain k now later [] h d' = refl
  live-map_retain k now later ((i, x) ∷ m) h (fresh, d') = elim (Bool-cases (eq i k)) [
    | inl g ↦
        let same = ap (λ y. map_get eq y m) (d.sound i k g) in
        elim (Bool-cases (leb x.expires now)) [
          | inl e ↦
              let gone : leb x.expires later ≡ true = ground arith in
              let fresh' : map_get eq k m ≡ none = cc in
              rw (e, g, gone, map_retain-fresh (λ e. not (is_expired e now)) k m fresh') refl
          | inr e ↦ rw (e, g) refl
        ]
    | inr g ↦
        let rest = live-map_retain k now later m h d' in
        elim (Bool-cases (leb x.expires now)) [ inl e ↦ rw (e, g) rest | inr e ↦ rw (e, g) rest ]
  ]
