-- ===== src/Packet/Parse/Bounds.antt =====
-- pesigitg-daemon/src/packet.rs: what holds of `parse_frame` on every frame.
use mathlib.Core.Path.{subst}
use pesigitg.Prelude.{
  sym, ◌∙◌, Safe-weaken, ◌-◌, ◌==◌, get_or, take, drop, length-take, length-drop, ℕ, zero, suc, ◌+◌,
  ◌≤◌, ◌≡◌, refl, Bool, List, arith, Safe, Safe-if, Safe-return_if, Safe-index, Safe-slice,
  Safe-bind, length, value, early,
}
use pesigitg.Packet.Parse.{
  IpFamily, ParsedFrame, L4, udp, icmp, eth_hdr_len, udp_hdr_len, ipv4_min_hdr_len, eth_p_ip,
  eth_p_ipv6, ipproto_udp, ipproto_icmp, ipproto_icmpv6, ipproto_fragment, is_extension,
  outer_stops, inner_stops, read_u16, read_ihl, parse_udp, parse_frame_icmp_ipv4, parse_frame_ipv4,
  walk, parse_frame_icmpv6, parse_frame_ipv6, parse_frame,
}
use pesigitg.Common.Address.{IpAddr}
use pesigitg.Packet.Parse.{ipv4, ipv6}
use pesigitg.Packet.Parse.Layers.{
  u16_at, ihl_at, between, Chain, reached, fragment, extension, reversed4, reversed6, Payload,
  udp_header, echo4, echo6, Layers, over_ipv4, over_ipv6,
}

-- Where the parsed layers lie in the frame. The payload of an echoed UDP packet can start up to four
-- bytes behind the end of the frame.
pub data Located (frame : List ℕ) : L4 → Type 0 where
  whole : (u q s d : ℕ) → q ≡ u + udp_hdr_len → q ≤ length frame → Located frame (udp u q s d)
  echoed : (q : ℕ) (f : _) → q ≤ length frame + 4 → Located frame (icmp q f)

-- A frame that was parsed has an Ethernet and an IP header.
pub record Framed (frame : List ℕ) (p : ParsedFrame) : Type 0 where
  pub headers : eth_hdr_len + ipv4_min_hdr_len ≤ length frame
  pub source : length p.src_mac ≡ 6
  pub located : Located frame p.l4
  pub layers : Layers frame p

length_slice :
    (xs : List ℕ) (a b : ℕ) → a ≤ b → b ≤ length xs → length (take (b - a) (drop a xs)) ≡ b - a
length_slice xs a b h g = rw (length-take, length-drop) (ground arith)

read_u16-Safe :
    (frame : List ℕ) (i : ℕ)
    → i + 2 ≤ length frame
    → Safe (λ v. v ≡ u16_at frame i) (read_u16 frame i)
unfolding read_u16 u16_at
read_u16-Safe frame i h =
    Safe-index _ _ _ (omega arith) (Safe-index _ _ _ (omega arith) (value refl))

read_ihl-Safe :
    (frame : List ℕ) (i : ℕ)
    → i + 1 ≤ length frame
    → Safe (λ v. v ≡ ihl_at frame i) (read_ihl frame i)
unfolding read_ihl ihl_at
read_ihl-Safe frame i h = Safe-index _ _ _ (omega arith) (value refl)

parse_udp-Safe :
    (frame : List ℕ) (family : IpFamily) (ip_hdr_len : ℕ) (src_mac : List ℕ) (src dst : IpAddr)
    (offset proto : ℕ)
    → length src_mac ≡ 6
    → 34 ≤ length frame
    → proto ≡ 17
    → ((p : ParsedFrame)
        → p.family ≡ family
        → p.ip_hdr_len ≡ ip_hdr_len
        → p.src_addr ≡ src
        → p.dst_addr ≡ dst
        → Payload frame family offset proto p.l4
        → Layers frame p)
    → Safe (Framed frame) (parse_udp frame family ip_hdr_len src_mac src dst offset)
unfolding parse_udp
parse_udp-Safe frame family ip_hdr_len src_mac src dst offset proto m h e f =
    Safe-return_if _ _ _ λ room. Safe-bind _ _ (read_u16-Safe _ _ (ground arith)) λ s se.
      Safe-bind _ _ (read_u16-Safe _ _ (ground arith)) λ d de. value (record {
        headers = h;
        source = m;
        located = whole _ _ _ _ refl (ground arith);
        layers = f _ refl refl refl refl (udp_header family offset proto s d e se de);
      })

parse_frame_icmp_ipv4-Safe :
    (frame src_mac : List ℕ) (outer_ihl : ℕ) (src dst : IpAddr)
    → length src_mac ≡ 6
    → 34 ≤ length frame
    → ((p : ParsedFrame)
        → p.family ≡ ipv4
        → p.ip_hdr_len ≡ outer_ihl
        → p.src_addr ≡ src
        → p.dst_addr ≡ dst
        → Payload frame ipv4 (14 + outer_ihl) 1 p.l4
        → Layers frame p)
    → Safe (Framed frame) (parse_frame_icmp_ipv4 frame src_mac outer_ihl src dst)
unfolding parse_frame_icmp_ipv4 reversed4 between
parse_frame_icmp_ipv4-Safe frame src_mac outer_ihl src dst m h f = Safe-return_if _ _ _ λ room.
    Safe-index _ _ _ (ground arith) (
      Safe-return_if _ _ _ λ _. Safe-return_if _ _ _ λ inner.
        Safe-bind _ _ (read_ihl-Safe _ _ (ground arith)) λ ihl ie. Safe-return_if _ _ _ λ _.
          Safe-index _ _ _ (ground arith) (
            Safe-return_if _ _ _ λ proto. Safe-return_if _ _ _ λ ports.
              Safe-slice _ _ _ _ (omega arith) (ground arith) (
                Safe-slice _ _ _ _ (omega arith) (ground arith) (
                  Safe-bind _ _ (read_u16-Safe _ _ (ground arith)) λ s se.
                    Safe-bind _ _ (read_u16-Safe _ _ (ground arith)) λ d de. value (record {
                      headers = h;
                      source = m;
                      located = echoed _ _ (ground arith);
                      layers = f _ refl refl refl refl (
                          echo4 (14 + outer_ihl) 1 _ _ refl (ground arith) (rw ie refl)
                            (rw (← ie, ← se, ← de) refl));
                    })))))

parse_frame_ipv4-Safe :
    (frame src_mac : List ℕ)
    → length src_mac ≡ 6
    → u16_at frame 12 ≡ 0x0800
    → Safe (Framed frame) (parse_frame_ipv4 frame src_mac)
unfolding parse_frame_ipv4 between
parse_frame_ipv4-Safe frame src_mac m t = Safe-return_if _ _ _ λ room.
    Safe-bind _ _ (read_ihl-Safe _ _ (ground arith)) λ ihl ie. Safe-return_if _ _ _ λ _.
      Safe-index _ _ _ (ground arith) (
        Safe-slice _ _ _ _ (omega arith) (ground arith) (
          Safe-slice _ _ _ _ (omega arith) (ground arith) (
            Safe-if (get_or frame (eth_hdr_len + 9) 0 == ipproto_udp)
              (λ e.
                parse_udp-Safe _ _ _ _ _ _ _ (get_or frame 23 0) m (ground arith) (ground arith)
                  (λ p a b c d l. over_ipv4 p a t (b ∙ ie) c d (rw (sym ie) l)))
              λ _.
                Safe-if (get_or frame (eth_hdr_len + 9) 0 == ipproto_icmp)
                  (λ e.
                    let one : get_or frame 23 0 ≡ 1 = ground arith in
                    parse_frame_icmp_ipv4-Safe _ _ _ _ _ m (ground arith)
                      (λ p a b c d l. over_ipv4 p a t (b ∙ ie) c d (rw (sym ie, one) l)))
                  λ _. early)))

-- The walk over extension headers does not read behind the frame, and follows them.
walk-Safe :
    (stops : ℕ → Bool) (n : ℕ) (frame : List ℕ) (next offset : ℕ)
    → Safe (λ r. Chain frame next offset r.0 r.1) (walk stops n frame next offset)
unfolding walk
walk-Safe stops zero frame next offset = value (reached next offset)
walk-Safe stops (suc n) frame next offset =
    Safe-if (stops next) (λ _. value (reached next offset))
      λ _.
        Safe-if (next == ipproto_fragment)
          (λ e. Safe-return_if _ _ _ λ h. Safe-index _ _ _ (ground arith) (
            Safe-weaken (λ r c. fragment next offset r.0 r.1 (ground arith) c)
              (walk-Safe stops n frame _ _)))
          λ _.
            Safe-if (is_extension next)
              (λ e. Safe-return_if _ _ _ λ h. Safe-index _ _ _ (ground arith) (
                Safe-index _ _ _ (ground arith) (
                  Safe-weaken (λ r c. extension next offset r.0 r.1 e c)
                    (walk-Safe stops n frame _ _))))
              λ _. early

parse_frame_icmpv6-Safe :
    (frame src_mac : List ℕ) (ip_hdr_len : ℕ) (src dst : IpAddr) (offset : ℕ)
    → length src_mac ≡ 6
    → 34 ≤ length frame
    → ((p : ParsedFrame)
        → p.family ≡ ipv6
        → p.ip_hdr_len ≡ ip_hdr_len
        → p.src_addr ≡ src
        → p.dst_addr ≡ dst
        → Payload frame ipv6 offset 58 p.l4
        → Layers frame p)
    → Safe (Framed frame) (parse_frame_icmpv6 frame src_mac ip_hdr_len src dst offset)
unfolding parse_frame_icmpv6 reversed6 between
parse_frame_icmpv6-Safe frame src_mac ip_hdr_len src dst offset m h f = Safe-return_if _ _ _ λ room.
    Safe-index _ _ _ (ground arith) (
      Safe-return_if _ _ _ λ _. Safe-return_if _ _ _ λ inner.
        Safe-slice _ _ _ _ (omega arith) (ground arith) (
          Safe-slice _ _ _ _ (omega arith) (ground arith) (
            Safe-index _ _ _ (ground arith) (
              Safe-bind _ _ (walk-Safe inner_stops _ _ _ _) λ r c. Safe-return_if _ _ _ λ k.
                Safe-return_if _ _ _ λ ports.
                  Safe-bind _ _ (read_u16-Safe _ _ (ground arith)) λ s se.
                    Safe-bind _ _ (read_u16-Safe _ _ (ground arith)) λ d de.
                      let last : r.0 ≡ 17 = ground arith in
                      value (record {
                        headers = h;
                        source = m;
                        located = echoed _ _ (ground arith);
                        layers = f _ refl refl refl refl (
                            echo6 offset 58 r.1 _ _ refl
                              (subst
                                (λ x.
                                  Chain frame (get_or frame (offset + 8 + 6) 0) (offset + 8 + 40) x
                                    r.1)
                                last c)
                              refl (rw (← se, ← de) refl));
                      })))))

parse_frame_ipv6-Safe :
    (frame src_mac : List ℕ)
    → length src_mac ≡ 6
    → u16_at frame 12 ≡ 0x86dd
    → Safe (Framed frame) (parse_frame_ipv6 frame src_mac)
unfolding parse_frame_ipv6 between
parse_frame_ipv6-Safe frame src_mac m t = Safe-return_if _ _ _ λ room.
    Safe-slice _ _ _ _ (omega arith) (ground arith) (
      Safe-slice _ _ _ _ (omega arith) (ground arith) (
        Safe-index _ _ _ (ground arith) (
          Safe-bind _ _ (walk-Safe outer_stops _ _ _ _) λ r ch.
            Safe-if (r.0 == ipproto_udp)
              (λ e.
                parse_udp-Safe _ _ _ _ _ _ _ r.0 m (ground arith) (ground arith)
                  (λ p a b c d l. over_ipv6 p r.0 r.1 a t ch b c d l))
              λ _.
                Safe-if (r.0 == ipproto_icmpv6)
                  (λ e.
                    let kind : r.0 ≡ 58 = ground arith in
                    parse_frame_icmpv6-Safe _ _ _ _ _ _ m (ground arith)
                      (λ p a b c d l. over_ipv6 p r.0 r.1 a t ch b c d (rw kind l)))
                  λ _. early)))

-- On every frame `parse_frame` returns without a panic. If it accepts, family, header length,
-- addresses, ports and offsets are those that the headers give from Ethernet on: an IPv4 header is as
-- long as its first byte says, IPv6 extension headers are followed by their types and lengths, UDP comes
-- right behind them with its payload eight bytes on, and in an ICMP error the same holds of the echoed
-- packet, whose flow is taken in reverse. The frame has at least an Ethernet and an IPv4 header, the
-- payload of a UDP packet starts not behind the end of the frame, and that of an echoed one at most four
-- bytes behind it.
pub parse_frame-Safe : (frame : List ℕ) → Safe (Framed frame) (parse_frame frame)
unfolding parse_frame
parse_frame-Safe frame = Safe-return_if _ _ _ λ room.
    Safe-slice _ _ _ _ (omega arith) (ground arith) (
      Safe-bind _ _ (read_u16-Safe _ _ (ground arith)) λ ethertype te.
        let source = length_slice frame 6 12 (omega arith) (ground arith) in
        Safe-if (ethertype == eth_p_ip) (λ e. parse_frame_ipv4-Safe _ _ source (ground arith))
          λ _.
            Safe-if (ethertype == eth_p_ipv6) (λ e. parse_frame_ipv6-Safe _ _ source (ground arith))
              λ _. early)
