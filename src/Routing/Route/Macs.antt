-- ===== src/Routing/Route/Macs.antt =====
-- The MACs of the servers in pesigitg-routing/src/route.rs, arrays of six bytes there.
use pesigitg.Prelude.{ℕ, ◌≡◌, Option, none, some, List, [], ◌∷◌, length}
use pesigitg.Routing.Route.{Server}

-- A MAC that is there has six bytes.
unfoldable pub IsMac : Option (List ℕ) → Type 0
IsMac none = Unit
IsMac (some mac) = length mac ≡ 6

unfoldable pub HaveMacs : List Server → Type 0
HaveMacs [] = Unit
HaveMacs (s ∷ servers) = IsMac s.mac × HaveMacs servers
