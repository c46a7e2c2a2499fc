-- ===== src/Packet/Process/Routes.antt =====
-- A packet under a Connection ID that a server has made, through pesigitg-daemon/src/packet.rs to that
-- server: the encoder of contrib/quic-lb-core, the decoder and the daemon in one.
use pesigitg.Prelude.{
  ◌>>=◌, ℕ, ◌+◌, ◌*◌, ◌/◌, ◌%◌, ◌≤◌, ◌<◌, bit_and, bit_or, ◌≡◌, refl, sym, ap, ◌∙◌, inl, inr, true,
  some, List, [], ◌∷◌, ◌++◌, arith, ◌==◌, if◌then◌else◌, le→leb, Bool-cases, Safe-ok, every,
  every-below, length, drop, or_else, slice_from, ok,
}
use mathlib.Core.List.{append-nil}
use mathlib.Core.Path.{subst}
use pesigitg.Config.Table.{ConfigTable, lookup_config, get}
use pesigitg.Conntable.{ConnectionTable, FlowKey, from_slice, record_dcid}
use pesigitg.Encoder.{QuicLbEncoder, first_octet, encode_to_vec}
use pesigitg.Encoder.RoundTrip.{Fits, Agrees, encode_to_vec-parts}
use pesigitg.Packet.Parse.{ParsedFrame, L4, udp, parse_frame}
use pesigitg.Packet.Parse.Bounds.{Located, whole, echoed, parse_frame-Safe}
use pesigitg.Packet.Process.{
  cid_forward, cid_forward_draining, Outcome, optional, server_at, usable_mac, forward_cid,
  cid_route, found_route, process_udp, process_l4, process_packet_parsed, parsed_route,
  process_packet,
}
use pesigitg.Packet.Process.Carriers.{Carries, lookup_config-Carries}
use pesigitg.Packet.Process.Frames.{rewrite_macs-eq}
use pesigitg.Routing.Cid.{resolve_server_idx}
use pesigitg.Routing.Route.{RouteConfig, Server, cid_length, cid_payload_length, find_server_idx}

-- The route entry's number in the first octet of a Connection ID.
config_bits : (c x : ℕ) → c < 7 → x < 256 → bit_or (c * 32 % 256) (bit_and x 0x1f) / 32 ≡ c
unfolding every
config_bits c x h g =
    let test = λ (i : ℕ) (y : ℕ). bit_or (i * 32 % 256) (bit_and y 0x1f) / 32 == i in
    let all : every (test c) 256 ≡ true = every-below (λ i. every (test i) 256) 7 c h refl in
    let one = every-below (test c) 256 x g all in ground arith

first_octet-config :
    (enc : QuicLbEncoder) (low : ℕ)
    → enc.config_id < 7
    → low < 256
    → first_octet enc low / 32 ≡ enc.config_id
unfolding first_octet
first_octet-config enc low h g = elim (Bool-cases enc.encode_cid_length) [
  | inl e ↦ rw e (config_bits enc.config_id _ h (omega arith))
  | inr e ↦ rw e (config_bits enc.config_id low h g)
]

usable_mac-healthy :
    (config : RouteConfig) (i : ℕ) (s : Server) (mac : List ℕ)
    → server_at config.servers i ≡ ok s
    → s.healthy ≡ true
    → s.mac ≡ some mac
    → usable_mac config (some i) ≡ ok (some (mac, s.draining))
unfolding usable_mac ◌>>=◌
usable_mac-healthy config i s mac e h m = rw (e, h, m) refl

-- The frame goes to the server, and the Connection ID is recorded for its MAC.
pub delivered :
    List ℕ → ℕ → List ℕ → ConnectionTable → List ℕ → RouteConfig → Server → List ℕ → Outcome
delivered local_mac now frame conn cid config s mac = record {
  verdict =
      if s.draining then cid_forward_draining config.config_id else cid_forward config.config_id;
  frame = mac ++ (local_mac ++ drop 12 frame);
  conn = record_dcid conn (from_slice cid) mac now;
}

module _ (hash : FlowKey → ℕ) (local_mac : List ℕ) (now : ℕ) (frame : List ℕ) (table : ConfigTable)
    (conn : ConnectionTable) (config : RouteConfig) (s : Server) (mac : List ℕ) where
  process_udp-delivered :
      (offset i o : ℕ) (p : List ℕ) (flow : FlowKey)
      → length local_mac ≡ 6
      → length mac ≡ 6
      → 14 ≤ length frame
      → offset ≤ length frame
      → lookup_config (drop offset frame) table ≡ ok (o ∷ p, config)
      → resolve_server_idx (o ∷ p) config ≡ ok i
      → server_at config.servers i ≡ ok s
      → s.healthy ≡ true
      → s.mac ≡ some mac
      → process_udp hash local_mac now frame table conn offset flow
        ≡ ok (delivered local_mac now frame conn (o ∷ p) config s mac)
  unfolding process_udp found_route cid_route forward_cid optional delivered ◌>>=◌ slice_from
  process_udp-delivered offset i o p flow six six' room inside found resolved at up known =
      rw
        (
          le→leb offset (length frame) inside,
          found,
          resolved,
          usable_mac-healthy config i s mac at up known,
          rewrite_macs-eq local_mac six frame room mac six',
        )
        refl

  -- The whole of `process_packet` on a UDP frame is `process_udp`.
  process_packet-udp :
      (p : ParsedFrame) (u q source port : ℕ)
      → parse_frame frame ≡ ok p
      → p.l4 ≡ udp u q source port
      → process_packet hash local_mac now frame table conn
        ≡ process_udp hash local_mac now frame table conn q (record {
          src_addr = p.src_addr;
          dst_addr = p.dst_addr;
          src_port = source;
          dst_port = port;
        })
  unfolding process_packet parsed_route process_packet_parsed process_l4 optional ◌>>=◌
  process_packet-udp p u q source port e l = rw (e, l) refl

Located-udp :
    {frame : List ℕ} (l4 : L4) (u q source port : ℕ)
    → Located frame l4
    → l4 ≡ udp u q source port
    → q ≤ length frame
Located-udp l4 u q source port (whole u' q' s' d' e h) same = ground arith
Located-udp l4 u q source port (echoed q' f h) same = ground arith

module _ (enc : QuicLbEncoder) (fill_bytes : ℕ → List ℕ) (low : ℕ)
    (fills : (n : ℕ) → length (fill_bytes n) ≡ n)
    (bounds : (1 ≤ length enc.server_id)
      × (length enc.server_id ≤ 15)
      × (4 ≤ enc.nonce_length)
      × (length enc.server_id + enc.nonce_length ≤ 19)) where
  -- A client's packet reaches the server that chose its Connection ID: let a server's encoder, with the
  -- lengths, mode and number of a route entry of the table, have made the Connection ID `cid`; let the
  -- entry list the encoder's server id for a server that is healthy and has a MAC. Then a UDP frame with a
  -- QUIC packet to `cid`, of either header form and from any address, is handed on to that server's MAC,
  -- and the Connection ID is recorded for it.
  pub process_packet-delivers :
      (hash : FlowKey → ℕ) (local_mac : List ℕ) (now : ℕ) (frame : List ℕ) (table : ConfigTable)
      (conn : ConnectionTable) (config : RouteConfig) (s : Server) (mac cid : List ℕ) (i : ℕ)
      (p : ParsedFrame) (u q source port : ℕ)
      → Agrees enc config
      → Fits enc.encryption (length enc.server_id) enc.nonce_length
      → enc.config_id < 7
      → low < 256
      → get table enc.config_id ≡ some config
      → find_server_idx config enc.server_id ≡ some i
      → server_at config.servers i ≡ ok s
      → s.healthy ≡ true
      → s.mac ≡ some mac
      → length mac ≡ 6
      → length local_mac ≡ 6
      → encode_to_vec fill_bytes low enc ≡ ok cid
      → parse_frame frame ≡ ok p
      → p.l4 ≡ udp u q source port
      → Carries cid (drop q frame)
      → process_packet hash local_mac now frame table conn
        ≡ ok (delivered local_mac now frame conn cid config s mac)
  unfolding cid_length cid_payload_length or_else
  process_packet-delivers hash local_mac now frame table conn config s mac cid i p u q source port
        agrees fits small low' slot idx at up known six' six made parsed layer carries =
      let (payload, e, size, decodes) =
        encode_to_vec-parts enc fill_bytes low fills bounds config agrees fits in
      let o = first_octet enc low in
      let same : cid ≡ o ∷ payload = ground arith in
      let bits = first_octet-config enc low small low' in
      let framed = Safe-ok p (parse_frame-Safe frame) parsed in
      let inside = Located-udp p.l4 u q source port framed.located layer in
      let len : cid_length config ≡ length (o ∷ payload) =
        rw (agrees.sid, agrees.nonce) (omega (arith, size)) in
      let found =
        lookup_config-Carries table config o payload (drop q frame)
          (subst (λ c. Carries c (drop q frame)) same carries) (rw bits (ground arith))
          (rw bits slot) len in
      let resolved : resolve_server_idx (o ∷ payload) config ≡ ok i =
        ap (λ r. resolve_server_idx (o ∷ r) config) (sym (append-nil payload))
        ∙ (decodes [] ∙ rw idx refl) in
      process_packet-udp hash local_mac now frame table conn config s mac p u q source port parsed
        layer
      ∙ (process_udp-delivered hash local_mac now frame table conn config s mac q i o payload _ six
            six' (omega (arith, framed.headers)) inside found resolved at up known
          ∙ ap (λ c. ok (delivered local_mac now frame conn c config s mac)) (sym same))
