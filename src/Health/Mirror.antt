-- ===== src/Health/Mirror.antt =====
-- The servers of the table and their entries in pesigitg-daemon/src/health.rs.
use pesigitg.Prelude.{◌≡◌, refl, ◌∙◌, true, Option, none, some, List, [], ◌∷◌, arith}
use pesigitg.Common.Address.{IpAddr, addr_eq_refl}
use pesigitg.Common.AddressMap.{find, contains, insert_addr, contains-insert_addr}
use pesigitg.Config.Table.{ConfigTable, active}
use pesigitg.Config.Table.Fallback.{Member-length, Member, here, there}
use pesigitg.Health.{
  HealthMap, all_addrs, collect_servers, collect_configs, mirror_health, mirror_servers,
  mirror_slots,
}
use pesigitg.Routing.Route.{RouteConfig, Server}

insert_addr-keeps :
    (a x : IpAddr) (addrs : List IpAddr)
    → contains x addrs ≡ true
    → contains x (insert_addr a addrs) ≡ true
insert_addr-keeps a x addrs h = contains-insert_addr a x addrs ∙ rw h (ground arith)

collect_servers-keeps :
    (x : IpAddr) (servers : List Server) (addrs : List IpAddr)
    → contains x addrs ≡ true
    → contains x (collect_servers addrs servers) ≡ true
unfolding collect_servers
collect_servers-keeps x [] addrs h = h
collect_servers-keeps x (s ∷ servers) addrs h =
    collect_servers-keeps x servers (insert_addr s.address addrs)
      (insert_addr-keeps s.address x addrs h)

collect_servers-contains :
    (s : Server) (servers : List Server) (addrs : List IpAddr)
    → Member s servers
    → contains s.address (collect_servers addrs servers) ≡ true
unfolding collect_servers
collect_servers-contains s servers addrs (here xs) =
    collect_servers-keeps s.address xs (insert_addr s.address addrs)
      (contains-insert_addr s.address s.address addrs ∙ rw (addr_eq_refl s.address) refl)
collect_servers-contains s servers addrs (there x xs m) =
    collect_servers-contains s xs (insert_addr x.address addrs) m

collect_configs-keeps :
    (x : IpAddr) (cs : List RouteConfig) (addrs : List IpAddr)
    → contains x addrs ≡ true
    → contains x (collect_configs addrs cs) ≡ true
unfolding collect_configs
collect_configs-keeps x [] addrs h = h
collect_configs-keeps x (c ∷ cs) addrs h =
    collect_configs-keeps x cs (collect_servers addrs c.servers)
      (collect_servers-keeps x c.servers addrs h)

collect_configs-contains :
    (c : RouteConfig) (s : Server) (cs : List RouteConfig) (addrs : List IpAddr)
    → Member c cs
    → Member s c.servers
    → contains s.address (collect_configs addrs cs) ≡ true
unfolding collect_configs
collect_configs-contains c s cs addrs (here xs) m =
    collect_configs-keeps s.address xs (collect_servers addrs c.servers)
      (collect_servers-contains s c.servers addrs m)
collect_configs-contains c s cs addrs (there x xs n) m =
    collect_configs-contains c s xs (collect_servers addrs x.servers) n m

pub all_addrs-contains :
    (table : ConfigTable) (c : RouteConfig) (s : Server)
    → Member c (active table.slots)
    → Member s c.servers
    → contains s.address (all_addrs table) ≡ true
unfolding all_addrs
all_addrs-contains table c s n m = collect_configs-contains c s (active table.slots) [] n m

-- A server with the health of its entry.
unfoldable pub mirrored_server : HealthMap → Server → Server
mirrored_server state s = mirror_health (find s.address state) s

unfoldable pub mirrored_config : HealthMap → RouteConfig → RouteConfig
mirrored_config state c = record c { servers = mirror_servers state c.servers }

pub mirror_servers-Member :
    (state : HealthMap) (s : Server) (servers : List Server)
    → Member s servers
    → Member (mirrored_server state s) (mirror_servers state servers)
unfolding mirror_servers mirrored_server
mirror_servers-Member state s servers (here xs) = here (mirror_servers state xs)
mirror_servers-Member state s servers (there x xs m) =
    there (mirrored_server state x) (mirror_servers state xs) (mirror_servers-Member state s xs m)

pub mirror_slots-Member :
    (state : HealthMap) (c : RouteConfig) (slots : List (Option RouteConfig))
    → Member c (active slots)
    → Member (mirrored_config state c) (active (mirror_slots state slots))
unfolding active mirror_slots mirrored_config
mirror_slots-Member state c (none ∷ slots) m = mirror_slots-Member state c slots m
mirror_slots-Member state c (some d ∷ slots) (here xs) = here (active (mirror_slots state slots))
mirror_slots-Member state c (some d ∷ slots) (there x xs m) =
    there (mirrored_config state d) (active (mirror_slots state slots))
      (mirror_slots-Member state c slots m)
mirror_slots-Member state c [] m = absurd (Member-length m refl)
