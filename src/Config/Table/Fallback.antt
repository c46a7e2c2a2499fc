-- ===== src/Config/Table/Fallback.antt =====
-- pesigitg-daemon/src/config/route.rs: the servers that `rebuild_fallback_servers` collects.
use pesigitg.Prelude.{
  ◌≢◌, length, ◌≡◌, refl, inl, inr, Bool, true, false, ◌||◌, List, [], ◌∷◌, ◌++◌, arith,
  if◌then◌else◌, Bool-cases,
}
use pesigitg.Common.Address.{addr_eq, addr_eq_refl}
use pesigitg.Config.Table.{
  ConfigTable, active, any_server, is_none, eligible, rebuild_servers, rebuild_configs,
  rebuild_fallback_servers,
}
use pesigitg.Routing.Route.{RouteConfig, Server}

-- A server that new flows may be sent to.
pub record Serves (s : Server) : Type 0 where
  pub healthy : s.healthy ≡ true
  pub staying : s.draining ≡ false
  pub resolved : is_none s.mac ≡ false

-- A server of the list has the address of `s`.
unfoldable pub reaches : List Server → Server → Bool
reaches chosen s = any_server (λ c. addr_eq c.address s.address) chosen

-- Servers that serve, each at an address that none before it has.
pub data IsPool : List Server → Type 0 where
  empty : IsPool []
  joined :
      (chosen : List Server) (s : Server)
      → IsPool chosen
      → Serves s
      → reaches chosen s ≡ false
      → IsPool (chosen ++ (s ∷ []))

any_server-append :
    (p : Server → Bool) (xs ys : List Server)
    → any_server p (xs ++ ys) ≡ any_server p xs || any_server p ys
unfolding any_server
any_server-append p [] ys = refl
any_server-append p (x ∷ xs) ys = elim (Bool-cases (p x)) [
  | inl e ↦ rw e refl
  | inr e ↦ rw e (any_server-append p xs ys)
]

-- What a list that is extended reached before it still reaches.
Keeps : List Server → List Server → Type 0
Keeps before after = (t : Server) → reaches before t ≡ true → reaches after t ≡ true

next : Server → List Server → List Server
next s chosen = if eligible s chosen then chosen ++ (s ∷ []) else chosen

next-IsPool : (s : Server) (chosen : List Server) → IsPool chosen → IsPool (next s chosen)
unfolding next eligible reaches
next-IsPool s chosen h = elim (Bool-cases (eligible s chosen)) [
  | inl e ↦ rw e (
      joined chosen s h
        (record { healthy = ground arith; staying = ground arith; resolved = ground arith })
        (ground arith))
  | inr e ↦ rw e h
]

next-Keeps : (s : Server) (chosen : List Server) → Keeps chosen (next s chosen)
unfolding next Keeps reaches
next-Keeps s chosen t h = elim (Bool-cases (eligible s chosen)) [
  | inl e ↦ rw (e, any_server-append (λ c. addr_eq c.address t.address) chosen (s ∷ []), h) refl
  | inr e ↦ rw e h
]

eligible-Serves :
    (s : Server) (chosen : List Server)
    → Serves s
    → reaches chosen s ≡ false
    → eligible s chosen ≡ true
unfolding eligible reaches
eligible-Serves s chosen v g = rw (v.healthy, v.resolved, v.staying, g) refl

append-reaches : (s : Server) (chosen : List Server) → reaches (chosen ++ (s ∷ [])) s ≡ true
unfolding reaches any_server
append-reaches s [] = rw (addr_eq_refl s.address) refl
append-reaches s (c ∷ chosen) = elim (Bool-cases (addr_eq c.address s.address)) [
  | inl e ↦ rw e refl
  | inr e ↦ rw e (append-reaches s chosen)
]

next-reaches : (s : Server) (chosen : List Server) → Serves s → reaches (next s chosen) s ≡ true
unfolding next Keeps
next-reaches s chosen v = elim (Bool-cases (reaches chosen s)) [
  | inl g ↦ next-Keeps s chosen s g
  | inr g ↦ rw (eligible-Serves s chosen v g) (append-reaches s chosen)
]

-- `a` stands in the list.
pub data Member {ℓ} {A : Type ℓ} (a : A) : List A → Type ℓ where
  here : (xs : List A) → Member a (a ∷ xs)
  there : (x : A) (xs : List A) → Member a xs → Member a (x ∷ xs)

rebuild_servers-IsPool :
    (chosen servers : List Server) → IsPool chosen → IsPool (rebuild_servers chosen servers)
unfolding rebuild_servers next
rebuild_servers-IsPool chosen [] h = h
rebuild_servers-IsPool chosen (s ∷ servers) h =
    rebuild_servers-IsPool (next s chosen) servers (next-IsPool s chosen h)

rebuild_servers-Keeps :
    (chosen servers : List Server) → Keeps chosen (rebuild_servers chosen servers)
unfolding rebuild_servers next Keeps
rebuild_servers-Keeps chosen [] t h = h
rebuild_servers-Keeps chosen (s ∷ servers) t h =
    rebuild_servers-Keeps (next s chosen) servers t (next-Keeps s chosen t h)

rebuild_servers-reaches :
    (s : Server) (chosen servers : List Server)
    → Member s servers
    → Serves s
    → reaches (rebuild_servers chosen servers) s ≡ true
unfolding rebuild_servers next Keeps
rebuild_servers-reaches s chosen servers (here xs) v =
    rebuild_servers-Keeps (next s chosen) xs s (next-reaches s chosen v)
rebuild_servers-reaches s chosen servers (there x xs m) v =
    rebuild_servers-reaches s (next x chosen) xs m v

rebuild_configs-IsPool :
    (chosen : List Server) (cs : List RouteConfig)
    → IsPool chosen
    → IsPool (rebuild_configs chosen cs)
unfolding rebuild_configs
rebuild_configs-IsPool chosen [] h = h
rebuild_configs-IsPool chosen (c ∷ cs) h =
    rebuild_configs-IsPool (rebuild_servers chosen c.servers) cs
      (rebuild_servers-IsPool chosen c.servers h)

rebuild_configs-Keeps :
    (chosen : List Server) (cs : List RouteConfig) → Keeps chosen (rebuild_configs chosen cs)
unfolding rebuild_configs Keeps
rebuild_configs-Keeps chosen [] t h = h
rebuild_configs-Keeps chosen (c ∷ cs) t h =
    rebuild_configs-Keeps (rebuild_servers chosen c.servers) cs t
      (rebuild_servers-Keeps chosen c.servers t h)

rebuild_configs-reaches :
    (c : RouteConfig) (s : Server) (chosen : List Server) (cs : List RouteConfig)
    → Member c cs
    → Member s c.servers
    → Serves s
    → reaches (rebuild_configs chosen cs) s ≡ true
unfolding rebuild_configs Keeps
rebuild_configs-reaches c s chosen cs (here xs) m v =
    rebuild_configs-Keeps (rebuild_servers chosen c.servers) xs s
      (rebuild_servers-reaches s chosen c.servers m v)
rebuild_configs-reaches c s chosen cs (there x xs n) m v =
    rebuild_configs-reaches c s (rebuild_servers chosen x.servers) xs n m v

-- After `rebuild_fallback_servers` every fallback server is healthy, not draining and has a MAC, and no
-- two have the same address.
pub rebuild_fallback_servers-IsPool :
    (table : ConfigTable) → IsPool ((rebuild_fallback_servers table).fallback_servers)
unfolding rebuild_fallback_servers
rebuild_fallback_servers-IsPool table = rebuild_configs-IsPool [] (active table.slots) empty

-- After `rebuild_fallback_servers` each server of an active configuration that is healthy, not draining
-- and has a MAC has its address among the fallback servers.
pub rebuild_fallback_servers-reaches :
    (table : ConfigTable) (c : RouteConfig) (s : Server)
    → Member c (active table.slots)
    → Member s c.servers
    → Serves s
    → reaches ((rebuild_fallback_servers table).fallback_servers) s ≡ true
unfolding rebuild_fallback_servers
rebuild_fallback_servers-reaches table c s n m v =
    rebuild_configs-reaches c s [] (active table.slots) n m v

pub Member-length {ℓ} : {A : Type ℓ} {a : A} {xs : List A} → Member a xs → length xs ≢ 0
Member-length (here xs) h = ground arith
Member-length (there x xs m) h = ground arith
