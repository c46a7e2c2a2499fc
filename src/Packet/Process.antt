-- ===== src/Packet/Process.antt =====
-- pesigitg-daemon/src/packet.rs: the verdict on a parsed frame, with the frame and the connection
-- table as they are left. `hash` stands for FxHasher (crate rustc-hash) on a flow.
pub mod Macs
pub mod Frames
pub mod Rewrites
pub mod Total
pub mod Carriers
pub mod Routes
use pesigitg.Config.Table.{ConfigTable, lookup_config, fallback_cid_length, get}
use pesigitg.Conntable.{FlowKey, DcidKey, ConnectionTable, from_slice, lookup, record_dcid, insert}
use pesigitg.Packet.Parse.{ParsedFrame, L4, udp, icmp, parse_frame}
use pesigitg.Routing.Cid.{extract_raw_dcid, extract_scid, resolve_server_idx}
use pesigitg.Routing.Route.{RouteConfig, Server, cid_payload_length}
use pesigitg.Prelude.{
  map, ◌/◌, ◌==◌, return_if, index, slice_from, zero, ◌%◌, Bool, Option, none, some, List, [], ◌∷◌,
  ltb, if◌then◌else◌, length, Run, Absent, ◌>>=◌, ◌>>◌, or_else, copy_into, ok, err, panic, absent,
  ℕ, suc,
}
use mathlib.Core.Option

pub data Verdict : Type 0 where
  cid_forward cid_forward_draining : ℕ → Verdict
  fallback_forward icmp_forward : Verdict
  cid_unroutable_no_server cid_unroutable_bad_server_id : Verdict
  pass : Verdict

-- What a frame leads to: the verdict, the frame and the table afterwards.
pub record Outcome : Type 0 where
  pub verdict : Verdict
  pub frame : List ℕ
  pub conn : ConnectionTable

-- An `Option` call whose `None` is handled by the caller.
unfoldable pub optional {ℓ} : {A : Type ℓ} → Run Absent A → Run Absent (Option A)
optional (ok a) = ok (some a)
optional (err e) = ok none
optional panic = panic

-- `frame[..6].copy_from_slice(&mac); frame[6..12].copy_from_slice(local_mac);`
unfoldable pub rewrite_macs : List ℕ → List ℕ → List ℕ → Run Absent (List ℕ)
rewrite_macs frame mac local_mac = do
  frame' ← copy_into frame 0 6 mac
  copy_into frame' 6 12 local_mac

-- `config.servers[idx]`
unfoldable pub server_at : List Server → ℕ → Run Absent Server
server_at [] i = panic
server_at (s ∷ servers) zero = ok s
server_at (s ∷ servers) (suc i) = server_at servers i

module _ (hash : FlowKey → ℕ) where
  unfoldable pub fallback_mac : FlowKey → List Server → Run Absent (Option (List ℕ))
  fallback_mac flow [] = ok none
  fallback_mac flow (s ∷ servers) = do
    server ← server_at (s ∷ servers) (hash flow % length (s ∷ servers))
    ok server.mac

module _ (local_mac : List ℕ) (now : ℕ) where
  -- The CID path on a healthy server with a MAC.
  unfoldable pub forward_cid :
      List ℕ → ConnectionTable → List ℕ → List ℕ → RouteConfig → Bool → Run Absent Outcome
  forward_cid frame conn dcid mac config draining = do
    frame' ← rewrite_macs frame mac local_mac
    ok (record {
      verdict =
          if draining then cid_forward_draining config.config_id else cid_forward config.config_id;
      frame = frame';
      conn = record_dcid conn (from_slice dcid) mac now;
    })

  unfoldable pub forward_fallback : List ℕ → ConnectionTable → List ℕ → Verdict → Run Absent Outcome
  forward_fallback frame conn mac verdict = do
    frame' ← rewrite_macs frame mac local_mac
    ok (record { verdict = verdict; frame = frame'; conn = conn })

-- The verdict on a CID that no server takes, if it is long enough for its configuration.
unfoldable pub unroutable : List ℕ → RouteConfig → Option ℕ → Option Verdict
unroutable dcid config server_idx =
    if ltb (cid_payload_length config) (length dcid)
    then some (elim server_idx [
      | none ↦ cid_unroutable_bad_server_id
      | some i ↦ cid_unroutable_no_server
    ])
    else none

-- The MAC of `servers[idx]` if the server is healthy, with its flag for draining.
unfoldable pub usable_mac : RouteConfig → Option ℕ → Run Absent (Option (List ℕ × Bool))
usable_mac config none = ok none
usable_mac config (some idx) = do
  server ← server_at config.servers idx
  ok (if server.healthy then Option.map (λ mac. (mac, server.draining)) server.mac else none)

module _ (hash : FlowKey → ℕ) (local_mac : List ℕ) (now : ℕ) where
  -- The consistent hash, and the entry that it leaves in the connection table.
  unfoldable pub hash_route :
      List ℕ → ConnectionTable → FlowKey → Option DcidKey → Option (List ℕ) → Run Absent Outcome
  hash_route frame conn flow dcid_key none =
      ok (record { verdict = pass; frame = frame; conn = conn })
  hash_route frame conn flow dcid_key (some mac) =
      forward_fallback local_mac now frame (insert conn flow dcid_key mac now) mac fallback_forward

  unfoldable pub table_route :
      List ℕ
      → ConfigTable
      → ConnectionTable
      → FlowKey
      → Option DcidKey
      → Option (List ℕ)
      → Run Absent Outcome
  table_route frame table conn flow dcid_key (some mac) =
      forward_fallback local_mac now frame conn mac fallback_forward
  table_route frame table conn flow dcid_key none = do
    chosen ← fallback_mac hash flow table.fallback_servers
    hash_route frame conn flow dcid_key chosen

  -- `process_udp` from the fallback path on.
  unfoldable pub process_fallback :
      List ℕ → ConfigTable → ConnectionTable → List ℕ → FlowKey → Run Absent Outcome
  process_fallback frame table conn quic flow = do
    raw_dcid ←
        optional (or_else (fallback_cid_length table) absent >>= λ len. extract_raw_dcid quic len)
    let dcid_key = Option.map from_slice raw_dcid
    table_route frame table conn flow dcid_key (lookup conn flow dcid_key now)

  -- What follows a CID that leads to no server that can be used.
  unfoldable pub refused :
      List ℕ
      → ConfigTable
      → ConnectionTable
      → List ℕ
      → FlowKey
      → Option Verdict
      → Run Absent Outcome
  refused frame table conn quic flow none = process_fallback frame table conn quic flow
  refused frame table conn quic flow (some verdict) =
      ok (record { verdict = verdict; frame = frame; conn = conn })

  -- What the fast path does with the MAC of the server that the CID names, if it can be used.
  unfoldable pub cid_route :
      List ℕ
      → ConfigTable
      → ConnectionTable
      → List ℕ
      → FlowKey
      → List ℕ
      → RouteConfig
      → Option ℕ
      → Option (List ℕ × Bool)
      → Run Absent Outcome
  cid_route frame table conn quic flow dcid config server_idx (some (mac, draining)) =
      forward_cid local_mac now frame conn dcid mac config draining
  cid_route frame table conn quic flow dcid config server_idx none =
      refused frame table conn quic flow (unroutable dcid config server_idx)

  unfoldable pub found_route :
      List ℕ
      → ConfigTable
      → ConnectionTable
      → List ℕ
      → FlowKey
      → Option (List ℕ × RouteConfig)
      → Run Absent Outcome
  found_route frame table conn quic flow none = process_fallback frame table conn quic flow
  found_route frame table conn quic flow (some (dcid, config)) = do
    server_idx ← optional (resolve_server_idx dcid config)
    usable ← usable_mac config server_idx
    cid_route frame table conn quic flow dcid config server_idx usable

  unfoldable pub process_udp :
      List ℕ → ConfigTable → ConnectionTable → ℕ → FlowKey → Run Absent Outcome
  process_udp frame table conn quic_offset flow = do
    quic ← slice_from frame quic_offset
    found ← optional (lookup_config quic table)
    found_route frame table conn quic flow found

  -- Strategy 1 of `process_icmp`: the MAC of the server that the echoed SCID names.
  unfoldable pub scid_mac : List ℕ → ConfigTable → Run Absent (List ℕ)
  scid_mac inner_quic table = do
    scid ← extract_scid inner_quic
    return_if (length scid == 0) absent
    first ← index scid 0
    let config_id = first / 32
    return_if (config_id == 7) absent
    config ← or_else (get table config_id) absent
    server_idx ← resolve_server_idx scid config
    server ← server_at config.servers server_idx
    or_else server.mac absent

  -- Strategy 2: the MAC that the connection table has for the reversed flow.
  unfoldable pub icmp_lookup : List ℕ → ConnectionTable → Option (List ℕ) → Run Absent Outcome
  icmp_lookup frame conn none = ok (record { verdict = pass; frame = frame; conn = conn })
  icmp_lookup frame conn (some mac) = forward_fallback local_mac now frame conn mac icmp_forward

  unfoldable pub icmp_route :
      List ℕ → ConnectionTable → FlowKey → Option (List ℕ) → Run Absent Outcome
  icmp_route frame conn reversed_flow (some mac) =
      forward_fallback local_mac now frame conn mac icmp_forward
  icmp_route frame conn reversed_flow none =
      icmp_lookup frame conn (lookup conn reversed_flow none now)

  unfoldable pub process_icmp :
      List ℕ → ConfigTable → ConnectionTable → ℕ → FlowKey → Run Absent Outcome
  process_icmp frame table conn inner_quic_offset reversed_flow = do
    inner_quic ← slice_from frame inner_quic_offset
    mac ← optional (scid_mac inner_quic table)
    icmp_route frame conn reversed_flow mac

  -- The `match parsed.l4`.
  unfoldable pub process_l4 :
      List ℕ → ParsedFrame → L4 → ConfigTable → ConnectionTable → Run Absent Outcome
  process_l4 frame parsed (udp udp_offset quic_offset src_port dst_port) table conn =
      process_udp frame table conn quic_offset (record {
        src_addr = parsed.src_addr;
        dst_addr = parsed.dst_addr;
        src_port = src_port;
        dst_port = dst_port;
      })
  process_l4 frame parsed (icmp inner_quic_offset reversed_flow) table conn =
      process_icmp frame table conn inner_quic_offset reversed_flow

  unfoldable pub process_packet_parsed :
      List ℕ → ParsedFrame → ConfigTable → ConnectionTable → Run Absent Outcome
  process_packet_parsed frame parsed table conn = process_l4 frame parsed parsed.l4 table conn

  unfoldable pub parsed_route :
      List ℕ → ConfigTable → ConnectionTable → Option ParsedFrame → Run Absent Outcome
  parsed_route frame table conn none = ok (record { verdict = pass; frame = frame; conn = conn })
  parsed_route frame table conn (some parsed) = process_packet_parsed frame parsed table conn

  unfoldable pub process_packet : List ℕ → ConfigTable → ConnectionTable → Run Absent Outcome
  process_packet frame table conn = do
    parsed ← optional (parse_frame frame)
    parsed_route frame table conn parsed
