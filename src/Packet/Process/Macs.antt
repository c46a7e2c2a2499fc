-- ===== src/Packet/Process/Macs.antt =====
-- pesigitg-daemon/src/packet.rs: the tables that `process_packet` works on, and the MACs it finds there.
use native.Mathlib.Nat.{mod-lt}
use pesigitg.Prelude.{
  panic, ℕ, zero, suc, ◌<◌, ◌≡◌, inl, inr, Bool, Option, none, some, List, [], ◌∷◌, arith,
  Bool-cases, Safe, Safe-bind, length, get_or, Run, Absent, ok, err, value, early,
}
use mathlib.Core.Path.{subst}
use pesigitg.Config.Table.{ConfigTable}
use pesigitg.Routing.Route.Macs.{IsMac, HaveMacs}
use pesigitg.Conntable.{
  FlowKey, DcidKey, Entry, ConnectionTable, map_get, flow_eq, dcid_eq, live, is_expired,
  lookup_dcid, or_maybe, lookup,
}
use pesigitg.Packet.Process.{optional, server_at, fallback_mac}
use pesigitg.Routing.Cid.Safety.{Decrypts, Ranges}
use pesigitg.Routing.Route.{RouteConfig, Server}

unfoldable pub HoldsMacs {ℓ} : {K : Type ℓ} → List (K × Entry) → Type 0
HoldsMacs [] = Unit
HoldsMacs ((k, e) ∷ m) = (length e.mac ≡ 6) × HoldsMacs m

-- A configuration under which no connection ID panics.
pub record Usable (c : RouteConfig) : Type 0 where
  pub ranges : Ranges c
  pub decrypts : Decrypts c.encryption c.nonce_length
  pub macs : HaveMacs c.servers

unfoldable pub UsableSlots : List (Option RouteConfig) → Type 0
UsableSlots [] = Unit
UsableSlots (none ∷ slots) = UsableSlots slots
UsableSlots (some c ∷ slots) = Usable c × UsableSlots slots

pub record Ready (table : ConfigTable) (conn : ConnectionTable) : Type 0 where
  pub slots : UsableSlots table.slots
  pub fallbacks : HaveMacs table.fallback_servers
  pub flows : HoldsMacs conn.by_flow
  pub dcids : HoldsMacs conn.by_dcid

pub get-Usable :
    (slots : List (Option RouteConfig)) (id : ℕ) (c : RouteConfig)
    → UsableSlots slots
    → get_or slots id none ≡ some c
    → Usable c
unfolding UsableSlots get_or
get-Usable [] id c u h = ground arith
get-Usable (none ∷ slots) zero c u h = ground arith
get-Usable (some d ∷ slots) zero c u h = let e : d ≡ c = cc in subst Usable e u.0
get-Usable (none ∷ slots) (suc id) c u h = get-Usable slots id c u h
get-Usable (some d ∷ slots) (suc id) c u h = get-Usable slots id c u.1 h

pub server_at-Safe :
    (servers : List Server) (i : ℕ)
    → HaveMacs servers
    → i < length servers
    → Safe (λ s. IsMac s.mac) (server_at servers i)
unfolding server_at HaveMacs
server_at-Safe [] i h g = absurd (omega arith)
server_at-Safe (s ∷ servers) zero h g = value h.0
server_at-Safe (s ∷ servers) (suc i) h g = server_at-Safe servers i h.1 (omega arith)

live-IsMac {ℓ} :
    {K : Type ℓ} (eq : K → K → Bool) (k : K) (m : List (K × Entry)) (now : ℕ)
    → HoldsMacs m
    → IsMac (live (map_get eq k m) now)
unfolding HoldsMacs IsMac live map_get
live-IsMac eq k [] now h = tt
live-IsMac eq k ((j, e) ∷ m) now h = elim (Bool-cases (eq j k)) [
  | inl g ↦ elim (Bool-cases (is_expired e now)) [ inl f ↦ rw (g, f) tt | inr f ↦ rw (g, f) h.0 ]
  | inr g ↦ rw g (live-IsMac eq k m now h.1)
]

or_maybe-IsMac : (a b : Option (List ℕ)) → IsMac a → IsMac b → IsMac (or_maybe a b)
unfolding or_maybe
or_maybe-IsMac none b h g = g
or_maybe-IsMac (some a) b h g = h

pub lookup-IsMac :
    (t : ConnectionTable) (flow : FlowKey) (dcid : Option DcidKey) (now : ℕ)
    → HoldsMacs t.by_flow
    → HoldsMacs t.by_dcid
    → IsMac (lookup t flow dcid now)
unfolding lookup lookup_dcid IsMac
lookup-IsMac t flow none now h g =
    or_maybe-IsMac _ none (live-IsMac flow_eq flow t.by_flow now h) tt
lookup-IsMac t flow (some key) now h g =
    or_maybe-IsMac _ (lookup_dcid t (some key) now) (live-IsMac flow_eq flow t.by_flow now h)
      (live-IsMac dcid_eq key t.by_dcid now g)

-- What holds of the value of an option, if it has one.
unfoldable pub OnSome {ℓ μ} : {A : Type ℓ} → (A → Type μ) → Option A → Type μ
OnSome P none = Unit
OnSome P (some a) = P a

pub optional-Safe {ℓ μ} :
    {A : Type ℓ} {P : A → Type μ} (r : Run Absent A) → Safe P r → Safe (OnSome P) (optional r)
unfolding optional OnSome
optional-Safe (ok b) (value p) = value p
optional-Safe (err x) early = value tt
optional-Safe panic h = elim h [ ]

pub fallback_mac-Safe :
    (hash : FlowKey → ℕ) (flow : FlowKey) (servers : List Server)
    → HaveMacs servers
    → Safe IsMac (fallback_mac hash flow servers)
unfolding fallback_mac IsMac
fallback_mac-Safe hash flow [] h = value tt
fallback_mac-Safe hash flow (s ∷ servers) h =
    Safe-bind _ _ (server_at-Safe (s ∷ servers) _ h (mod-lt _ (omega arith))) λ server m. value m
