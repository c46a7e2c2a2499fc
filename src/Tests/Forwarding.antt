-- ===== src/Tests/Forwarding.antt =====
-- Instances of the theorems on frames, verdicts and the connection table.
use pesigitg.Prelude.{
  true, false, Run, Absent, ℕ, ◌≡◌, refl, sym, ◌∙◌, none, some, List, [], ◌∷◌, ◌++◌, arith, Safe,
  get_or, take, drop, replicate, run, ok, panic,
}
use mathlib.Core.Path.{subst}
use pesigitg.Config.Table.{active, is_none, rebuild_fallback_servers}
use pesigitg.Config.Table.Fallback.{
  IsPool, Member, here, reaches, rebuild_fallback_servers-IsPool, rebuild_fallback_servers-reaches,
}
use pesigitg.Tests.Samples.{server_a}
use pesigitg.Common.Address.{v4}
use pesigitg.Conntable.{
  ConnectionTable, from_slice, map_get, flow_eq, live, lookup, insert, maybe_sweep, new,
}
use pesigitg.Conntable.Stickiness.{
  Reachable, started, inserted, lookup-insert_flow, lookup-insert_rebinding, lookup-maybe_sweep,
}
use pesigitg.Packet.Parse.{
  ParsedFrame, udp, icmp, ipv4, parse_frame, parse_frame_ipv4, parse_frame_icmp_ipv4, parse_udp,
  read_u16, read_ihl,
}
use pesigitg.Packet.Parse.Bounds.{Framed, parse_frame-Safe}
use pesigitg.Packet.Process.{process_packet}
use pesigitg.Packet.Process.Macs.{Usable, UsableSlots, HoldsMacs, Ready}
use pesigitg.Packet.Process.Frames.{Effect}
use pesigitg.Packet.Process.Total.{
  EchoesInside, process_packet-Effect, process_packet-truncated_echo,
}
use pesigitg.Quic.Initial.{parse_strict}
use pesigitg.Quic.Initial.Safety.{Within, parse_strict-Safe}
use pesigitg.Routing.Cid.Safety.{Decrypts}
use pesigitg.Routing.Route.Macs.{IsMac, HaveMacs}
use pesigitg.Tests.Samples.{
  mac_a, local_mac, flow_a, flow_b, dcid_a, route_a, table_a, xor_cipher-IsBlockCipher,
}

abbrev table_b : ConnectionTable
table_b = insert (new 0) flow_a (some (from_slice dcid_a)) mac_a 100

lookup-insert_flow_example :
    lookup (insert (new 0) flow_a none mac_a 100) flow_a (some (from_slice dcid_a)) 4_000_000_000
    ≡ some mac_a
lookup-insert_flow_example =
    lookup-insert_flow (new 0) flow_a none (some (from_slice dcid_a)) mac_a 100 4_000_000_000
      (omega arith)

unknown_b : live (map_get flow_eq flow_b ((new 0).by_flow)) 4_000_000_000 ≡ none
unfolding new map_get live
unknown_b = refl

lookup-insert_rebinding_example :
    lookup table_b flow_b (some (from_slice dcid_a)) 4_000_000_000 ≡ some mac_a
lookup-insert_rebinding_example =
    lookup-insert_rebinding (new 0) flow_a flow_b (from_slice dcid_a) mac_a 100 4_000_000_000
      (omega arith) unknown_b

table_b-Reachable : Reachable table_b
table_b-Reachable = inserted flow_a (some (from_slice dcid_a)) mac_a 100 (started 0)

lookup-maybe_sweep_example :
    lookup (maybe_sweep table_b 5_000_000_000) flow_a none 5_000_000_050
    ≡ lookup table_b flow_a none 5_000_000_050
lookup-maybe_sweep_example =
    lookup-maybe_sweep table_b flow_a none 5_000_000_000 5_000_000_050 table_b-Reachable
      (omega arith)

-- An ICMP error whose echoed UDP header is cut after the ports.
abbrev cut_frame : List ℕ
cut_frame =
    replicate 12 2
    ++ (8 ∷ 0 ∷ 0x45 ∷ [])
    ++ replicate 8 0
    ++ (1 ∷ 0 ∷ 0 ∷ 10 ∷ 0 ∷ 0 ∷ 9 ∷ 10 ∷ 0 ∷ 0 ∷ 2 ∷ 3 ∷ [])
    ++ replicate 7 0
    ++ (0x45 ∷ [])
    ++ replicate 8 0
    ++ (17 ∷ 0 ∷ 0 ∷ 10 ∷ 0 ∷ 0 ∷ 1 ∷ 10 ∷ 0 ∷ 0 ∷ 2 ∷ 1 ∷ 187 ∷ 20 ∷ 0 ∷ [])

abbrev cut_parsed : ParsedFrame
cut_parsed = record {
  family = ipv4;
  ip_hdr_len = 20;
  src_mac = replicate 6 2;
  src_addr = v4 (10 ∷ 0 ∷ 0 ∷ 9 ∷ []);
  dst_addr = v4 (10 ∷ 0 ∷ 0 ∷ 2 ∷ []);
  l4 = icmp 70 (record {
    src_addr = v4 (10 ∷ 0 ∷ 0 ∷ 2 ∷ []);
    dst_addr = v4 (10 ∷ 0 ∷ 0 ∷ 1 ∷ []);
    src_port = 5120;
    dst_port = 443;
  });
}

parse_frame-cut : parse_frame cut_frame ≡ ok cut_parsed
unfolding parse_frame parse_frame_ipv4 parse_frame_icmp_ipv4 read_u16 read_ihl run replicate get_or
    take drop
parse_frame-cut = refl

process_packet-truncated_echo_example :
    process_packet (λ f. 0) local_mac 0 cut_frame table_a (new 0) ≡ panic
unfolding replicate
process_packet-truncated_echo_example =
    process_packet-truncated_echo (λ f. 0) local_mac 0 cut_frame table_a (new 0) cut_parsed 70 _
      parse_frame-cut refl (omega arith)

parse_frame-Safe_example : Safe (Framed cut_frame) (parse_frame cut_frame)
parse_frame-Safe_example = parse_frame-Safe cut_frame

parse_strict-Safe_example : Safe (Within (0xc0 ∷ dcid_a)) (parse_strict (0xc0 ∷ dcid_a))
parse_strict-Safe_example = parse_strict-Safe (0xc0 ∷ dcid_a)

-- A UDP packet with a long header.
abbrev udp_frame : List ℕ
udp_frame =
    replicate 12 2
    ++ (8 ∷ 0 ∷ 0x45 ∷ [])
    ++ replicate 8 0
    ++ (17 ∷ 0 ∷ 0 ∷ 10 ∷ 0 ∷ 0 ∷ 9 ∷ 10 ∷ 0 ∷ 0 ∷ 2 ∷ [])
    ++ (20 ∷ 0 ∷ 1 ∷ 187 ∷ 0 ∷ 0 ∷ 0 ∷ 0 ∷ [])
    ++ (0xc0 ∷ 0 ∷ 0 ∷ 0 ∷ 1 ∷ 9 ∷ [])
    ++ replicate 20 0

abbrev udp_parsed : ParsedFrame
udp_parsed = record {
  family = ipv4;
  ip_hdr_len = 20;
  src_mac = replicate 6 2;
  src_addr = v4 (10 ∷ 0 ∷ 0 ∷ 9 ∷ []);
  dst_addr = v4 (10 ∷ 0 ∷ 0 ∷ 2 ∷ []);
  l4 = udp 34 42 5120 443;
}

parse_frame-udp : parse_frame udp_frame ≡ ok udp_parsed
unfolding parse_frame parse_frame_ipv4 parse_udp read_u16 read_ihl run replicate get_or take drop
parse_frame-udp = refl

udp_frame-inside : (p : ParsedFrame) → parse_frame udp_frame ≡ ok p → EchoesInside udp_frame p.l4
unfolding EchoesInside
udp_frame-inside p e =
    let both : ◌≡◌ {A = Run Absent ParsedFrame} (ok udp_parsed) (ok p) = sym parse_frame-udp ∙ e in
    let same : udp_parsed ≡ p = cc in subst (λ p. EchoesInside udp_frame p.l4) same tt

route_a-Usable : Usable route_a
unfolding Decrypts HaveMacs IsMac
route_a-Usable = record {
  ranges = record {
    sid_low = omega arith;
    sid_high = omega arith;
    nonce_low = omega arith;
    nonce_high = omega arith;
    sum = omega arith;
  };
  decrypts = (xor_cipher-IsBlockCipher.keeps, omega arith);
  macs = (refl, tt);
}

table_a-Ready : Ready table_a (new 0)
unfolding UsableSlots HaveMacs HoldsMacs IsMac new
table_a-Ready = record {
  slots = (route_a-Usable, tt);
  fallbacks = (refl, tt);
  flows = tt;
  dcids = tt;
}

process_packet-Effect_example :
    Safe
      (Effect local_mac udp_frame (new 0))
      (process_packet (λ f. 0) local_mac 0 udp_frame table_a (new 0))
process_packet-Effect_example =
    process_packet-Effect (λ f. 0) local_mac 0 udp_frame table_a (new 0) refl table_a-Ready
      udp_frame-inside

rebuild_fallback_servers-IsPool_example :
    IsPool ((rebuild_fallback_servers table_a).fallback_servers)
rebuild_fallback_servers-IsPool_example = rebuild_fallback_servers-IsPool table_a

route_a-Member : Member route_a (active table_a.slots)
unfolding active
route_a-Member = here []

server_a-resolved : is_none server_a.mac ≡ false
unfolding is_none
server_a-resolved = refl

rebuild_fallback_servers-reaches_example :
    reaches ((rebuild_fallback_servers table_a).fallback_servers) server_a ≡ true
rebuild_fallback_servers-reaches_example =
    rebuild_fallback_servers-reaches table_a route_a server_a route_a-Member (here [])
      (record { healthy = refl; staying = refl; resolved = server_a-resolved })
