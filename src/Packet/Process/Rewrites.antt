-- ===== src/Packet/Process/Rewrites.antt =====
-- pesigitg-daemon/src/packet.rs: what `process_packet` can do to a frame.
use pesigitg.Packet.Process.Frames.{
  forwards, Effect, kept, rewritten, is_mac, chosen-mac, unroutable-kept, rewrite_macs-eq,
}
use pesigitg.Config.Table.{ConfigTable, lookup_config, get}
use pesigitg.Conntable.{lookup, FlowKey, DcidKey, ConnectionTable, lookup, insert}
use pesigitg.Packet.Process.{
  refused, icmp_lookup, Verdict, fallback_forward, icmp_forward, pass, Outcome, forward_cid,
  forward_fallback, unroutable, usable_mac, hash_route, table_route, process_fallback, cid_route,
  found_route, process_udp, scid_mac, icmp_route, process_icmp,
}
use pesigitg.Packet.Process.Macs.{
  Usable, Ready, get-Usable, server_at-Safe, lookup-IsMac, OnSome, optional-Safe, fallback_mac-Safe,
}
use pesigitg.Routing.Route.Macs.{IsMac, HaveMacs}
use pesigitg.Routing.Cid.Safety.{
  first_cid_octet-Safe, extract_raw_dcid-Safe, extract_scid-Safe, resolve-Safe,
}
use pesigitg.Routing.Route.{RouteConfig}
use pesigitg.Prelude.{
  ◌<◌, Option, none, some, Safe-return_if, Safe-or_else, Safe-index, Safe-slice_from, Safe-bind,
  Safe-option, ◌>>=◌, arith, Safe, Run, Absent, value, ℕ, ◌≤◌, ◌≡◌, refl, Bool, true, false, List,
  length,
}

module _ (local_mac : List ℕ) (local_six : length local_mac ≡ 6) (frame : List ℕ)
    (room : 14 ≤ length frame) where
  module _ (now : ℕ) (conn : ConnectionTable) where
    abbrev Does : Run Absent Outcome → Type 0
    Does r = Safe (Effect local_mac frame conn) r

    forward_fallback-Does :
        (conn' : ConnectionTable) (mac : List ℕ) (v : Verdict)
        → forwards v ≡ true
        → length mac ≡ 6
        → Does (forward_fallback local_mac now frame conn' mac v)
    unfolding forward_fallback ◌>>=◌
    forward_fallback-Does conn' mac v h g =
        rw (rewrite_macs-eq local_mac local_six frame room mac g)
          (value (rewritten v mac conn' h g))

    forward_cid-Does :
        (dcid mac : List ℕ) (c : RouteConfig) (draining : Bool)
        → length mac ≡ 6
        → Does (forward_cid local_mac now frame conn dcid mac c draining)
    unfolding forward_cid ◌>>=◌ forwards
    forward_cid-Does dcid mac c true g =
        rw (rewrite_macs-eq local_mac local_six frame room mac g) (value (rewritten _ mac _ refl g))
    forward_cid-Does dcid mac c false g =
        rw (rewrite_macs-eq local_mac local_six frame room mac g) (value (rewritten _ mac _ refl g))

    hash_route-Does :
        (hash : FlowKey → ℕ) (flow : FlowKey) (key : Option DcidKey) (mac : Option (List ℕ))
        → IsMac mac
        → Does (hash_route hash local_mac now frame conn flow key mac)
    unfolding hash_route IsMac forwards
    hash_route-Does hash flow key none m = value (kept pass refl)
    hash_route-Does hash flow key (some mac) m =
        forward_fallback-Does (insert conn flow key mac now) mac fallback_forward refl m

    table_route-Does :
        (hash : FlowKey → ℕ) (table : ConfigTable) (flow : FlowKey) (key : Option DcidKey)
        (mac : Option (List ℕ))
        → HaveMacs table.fallback_servers
        → IsMac mac
        → Does (table_route hash local_mac now frame table conn flow key mac)
    unfolding table_route IsMac forwards
    table_route-Does hash table flow key none h m =
        Safe-bind _ _ (fallback_mac-Safe hash flow table.fallback_servers h)
          λ mac g. hash_route-Does hash flow key mac g
    table_route-Does hash table flow key (some mac) h m =
        forward_fallback-Does conn mac fallback_forward refl m

    module _ (hash : FlowKey → ℕ) (table : ConfigTable) (ready : Ready table conn) where
      process_fallback-Does :
          (quic : List ℕ) (flow : FlowKey)
          → Does (process_fallback hash local_mac now frame table conn quic flow)
      unfolding process_fallback
      process_fallback-Does quic flow =
          Safe-bind _ _
            (optional-Safe _ (Safe-or_else _ _ _ λ len _. extract_raw_dcid-Safe quic len))
            λ raw _.
              table_route-Does hash table flow _ _ ready.fallbacks
                (lookup-IsMac conn flow _ now ready.flows ready.dcids)

      usable_mac-Safe :
          (c : RouteConfig) (idx : Option ℕ)
          → Usable c
          → OnSome (λ i. i < length c.servers) idx
          → Safe (OnSome (λ (r : List ℕ × Bool). length r.0 ≡ 6)) (usable_mac c idx)
      unfolding usable_mac OnSome
      usable_mac-Safe c none u h = value tt
      usable_mac-Safe c (some i) u h =
          Safe-bind _ _ (server_at-Safe c.servers i u.macs h)
            λ server m. value (chosen-mac server.healthy server.draining server.mac m)

      refused-Does :
          (quic : List ℕ) (flow : FlowKey) (v : Option Verdict)
          → OnSome (λ v. forwards v ≡ false) v
          → Does (refused hash local_mac now frame table conn quic flow v)
      unfolding refused OnSome
      refused-Does quic flow none h = process_fallback-Does quic flow
      refused-Does quic flow (some v) h = value (kept v h)

      cid_route-Does :
          (quic : List ℕ) (flow : FlowKey) (dcid : List ℕ) (c : RouteConfig) (idx : Option ℕ)
          (usable : Option (List ℕ × Bool))
          → OnSome (λ (r : List ℕ × Bool). length r.0 ≡ 6) usable
          → Does (cid_route hash local_mac now frame table conn quic flow dcid c idx usable)
      unfolding cid_route OnSome unroutable forwards
      cid_route-Does quic flow dcid c idx (some (mac, draining)) m =
          forward_cid-Does dcid mac c draining m
      cid_route-Does quic flow dcid c idx none m =
          refused-Does quic flow (unroutable dcid c idx) (unroutable-kept dcid c idx)

      found_route-Does :
          (quic : List ℕ) (flow : FlowKey) (found : Option (List ℕ × RouteConfig))
          → OnSome (λ (r : List ℕ × RouteConfig). Usable r.1) found
          → Does (found_route hash local_mac now frame table conn quic flow found)
      unfolding found_route OnSome
      found_route-Does quic flow none u = process_fallback-Does quic flow
      found_route-Does quic flow (some (dcid, c)) u =
          Safe-bind _ _ (optional-Safe _ (resolve-Safe dcid c u.ranges u.decrypts)) λ idx h.
            Safe-bind _ _ (usable_mac-Safe c idx u h)
              λ usable m. cid_route-Does quic flow dcid c idx usable m

      lookup_config-Safe :
          (quic : List ℕ)
          → Safe (λ (r : List ℕ × RouteConfig). Usable r.1) (lookup_config quic table)
      unfolding lookup_config get
      lookup_config-Safe quic = Safe-bind _ _ (first_cid_octet-Safe quic) λ first _.
          Safe-return_if _ _ _ λ _. Safe-or_else _ _ _ λ c found.
            Safe-bind _ _ (extract_raw_dcid-Safe quic _)
              λ dcid _. value (get-Usable table.slots _ c ready.slots found)

      pub process_udp-Does :
          (offset : ℕ) (flow : FlowKey)
          → offset ≤ length frame
          → Does (process_udp hash local_mac now frame table conn offset flow)
      unfolding process_udp
      process_udp-Does offset flow h = Safe-slice_from _ _ _ h (
          Safe-bind _ _ (optional-Safe _ (lookup_config-Safe _))
            λ found u. found_route-Does _ flow found u)

      scid_mac-Safe :
          (quic : List ℕ) → Safe (λ mac. length mac ≡ 6) (scid_mac hash local_mac now quic table)
      unfolding scid_mac get
      scid_mac-Safe quic = Safe-bind _ _ (extract_scid-Safe quic) λ scid one.
          Safe-return_if _ _ _ λ _. Safe-index _ _ _ (omega arith) (
            Safe-return_if _ _ _ λ _. Safe-or_else _ _ _ λ c found.
              let u = get-Usable table.slots _ c ready.slots found in
              Safe-bind _ _ (resolve-Safe scid c u.ranges u.decrypts) λ idx bound.
                Safe-bind _ _ (server_at-Safe c.servers idx u.macs bound)
                  λ server m. Safe-option _ _ λ mac e. is_mac server.mac mac e m)

      icmp_lookup-Does :
          (mac : Option (List ℕ)) → IsMac mac → Does (icmp_lookup hash local_mac now frame conn mac)
      unfolding icmp_lookup IsMac forwards
      icmp_lookup-Does none m = value (kept pass refl)
      icmp_lookup-Does (some mac) m = forward_fallback-Does conn mac icmp_forward refl m

      icmp_route-Does :
          (flow : FlowKey) (mac : Option (List ℕ))
          → OnSome (λ m. length m ≡ 6) mac
          → Does (icmp_route hash local_mac now frame conn flow mac)
      unfolding icmp_route OnSome forwards
      icmp_route-Does flow (some mac) m = forward_fallback-Does conn mac icmp_forward refl m
      icmp_route-Does flow none m =
          icmp_lookup-Does (lookup conn flow none now)
            (lookup-IsMac conn flow none now ready.flows ready.dcids)

      pub process_icmp-Does :
          (offset : ℕ) (flow : FlowKey)
          → offset ≤ length frame
          → Does (process_icmp hash local_mac now frame table conn offset flow)
      unfolding process_icmp
      process_icmp-Does offset flow h =
          Safe-slice_from _ _ _ h
            (Safe-bind _ _ (optional-Safe _ (scid_mac-Safe _)) λ mac m. icmp_route-Does flow mac m)
