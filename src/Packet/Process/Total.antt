-- ===== src/Packet/Process/Total.antt =====
-- pesigitg-daemon/src/packet.rs: `process_packet` on every frame.
use pesigitg.Prelude.{
  refl, ℕ, ◌≤◌, ◌<◌, ◌≡◌, inl, inr, false, List, arith, leb, Safe, Safe-ne-panic, Safe-ok, length,
  Run-cases, run, ok, panic, value,
}
use pesigitg.Config.Table.{ConfigTable}
use pesigitg.Conntable.{FlowKey, ConnectionTable}
use pesigitg.Packet.Parse.{ParsedFrame, L4, udp, icmp, parse_frame}
use pesigitg.Packet.Parse.Bounds.{Located, whole, echoed, parse_frame-Safe}
use pesigitg.Packet.Process.{
  optional, pass, process_icmp, process_l4, process_packet_parsed, parsed_route, process_packet,
}
use pesigitg.Packet.Process.Macs.{Ready}
use pesigitg.Packet.Process.Frames.{forwards, Effect, kept}
use pesigitg.Packet.Process.Rewrites.{process_udp-Does, process_icmp-Does}

-- The echoed payload of an ICMP error that is parsed starts inside the frame.
unfoldable pub EchoesInside : List ℕ → L4 → Type 0
EchoesInside frame (udp u q s d) = Unit
EchoesInside frame (icmp q flow) = q ≤ length frame

module _ (hash : FlowKey → ℕ) (local_mac : List ℕ) (now : ℕ) (frame : List ℕ) (table : ConfigTable)
    (conn : ConnectionTable) where
  process_l4-Does :
      length local_mac ≡ 6
      → Ready table conn
      → (p : ParsedFrame) (l4 : L4) → 14 ≤ length frame
      → Located frame l4
      → EchoesInside frame l4
      → Safe (Effect local_mac frame conn) (process_l4 hash local_mac now frame p l4 table conn)
  unfolding process_l4 EchoesInside
  process_l4-Does six ready p l4 room (whole u q s d e h) inside =
      process_udp-Does local_mac six frame room now conn hash table ready q _ h
  process_l4-Does six ready p l4 room (echoed q flow h) inside =
      process_icmp-Does local_mac six frame room now conn hash table ready q flow inside

  -- Let the MACs of the interface, of the servers and of the connection table have six bytes, the
  -- configurations lengths in their ranges, AES functions that keep blocks at 16 bytes and nonces
  -- of at most 16 bytes in the four-pass mode, and the payload that an ICMP error echoes start
  -- inside the frame. Then `process_packet` returns without a panic. A frame that it hands on is
  -- the old one with another MAC of six bytes as destination and the MAC of the interface as
  -- source; with any other verdict the frame and the connection table are as they were.
  pub process_packet-Effect :
      length local_mac ≡ 6
      → Ready table conn
      → ((p : ParsedFrame) → parse_frame frame ≡ ok p → EchoesInside frame p.l4)
      → Safe (Effect local_mac frame conn) (process_packet hash local_mac now frame table conn)
  unfolding process_packet optional parsed_route process_packet_parsed run forwards
  process_packet-Effect six ready inside = elim (Run-cases (parse_frame frame)) [
    | inl (p, e) ↦
        let f = Safe-ok p (parse_frame-Safe frame) e in
        rw e (process_l4-Does six ready p p.l4 (omega (arith, f.headers)) f.located (inside p e))
    | inr (inl (x, e)) ↦ rw e (value (kept pass refl))
    | inr (inr e) ↦ absurd (Safe-ne-panic (parse_frame-Safe frame) e)
  ]

  -- A frame that is parsed as an ICMP error whose echoed payload would start behind the end of the
  -- frame makes `process_packet` panic, whatever the tables hold.
  pub process_packet-truncated_echo :
      (p : ParsedFrame) (q : ℕ) (flow : FlowKey)
      → parse_frame frame ≡ ok p
      → p.l4 ≡ icmp q flow
      → length frame < q
      → process_packet hash local_mac now frame table conn ≡ panic
  unfolding process_packet optional parsed_route process_packet_parsed process_l4 process_icmp run
  process_packet-truncated_echo p q flow e l h =
      let outside : leb q (length frame) ≡ false = ground arith in rw (e, l, outside)
