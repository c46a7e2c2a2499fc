-- ===== src/Packet/Parse/Layers.antt =====
-- The layers of a frame, as their own fields place them: Ethernet, IPv4 or IPv6 with its extension
-- headers, UDP, or an ICMP error with the packet that it echoes (pesigitg-daemon/src/packet.rs).
use pesigitg.Prelude.{ℕ, ◌+◌, ◌-◌, ◌*◌, bit_and, ◌≡◌, true, List, get_or, take, drop}
use pesigitg.Common.Address.{v4, v6}
use pesigitg.Conntable.{FlowKey}
use pesigitg.Packet.Parse.{IpFamily, ipv4, ipv6, L4, udp, icmp, ParsedFrame, is_extension}

-- Two bytes in network order, the length that an IPv4 header names, and the bytes from `a` to `b`.
unfoldable pub u16_at : List ℕ → ℕ → ℕ
u16_at frame i = get_or frame i 0 * 256 + get_or frame (i + 1) 0

unfoldable pub ihl_at : List ℕ → ℕ → ℕ
ihl_at frame i = bit_and (get_or frame i 0) 0x0f * 4

unfoldable pub between : List ℕ → ℕ → ℕ → List ℕ
between frame a b = take (b - a) (drop a frame)

-- From a next-header value and the offset of its header over extension headers to another such pair.
pub data Chain (frame : List ℕ) : ℕ → ℕ → ℕ → ℕ → Type 0 where
  reached : (p o : ℕ) → Chain frame p o p o
  fragment :
      (p o p' o' : ℕ)
      → p ≡ 44
      → Chain frame (get_or frame o 0) (o + 8) p' o'
      → Chain frame p o p' o'
  extension :
      (p o p' o' : ℕ)
      → is_extension p ≡ true
      → Chain frame (get_or frame o 0) (o + (get_or frame (o + 1) 0 + 1) * 8) p' o'
      → Chain frame p o p' o'

-- The flow of an echoed packet, seen from the other side; its UDP header is at `u`.
unfoldable pub reversed4 : List ℕ → ℕ → ℕ → FlowKey
reversed4 frame ip u = record {
  src_addr = v4 (between frame (ip + 16) (ip + 20));
  dst_addr = v4 (between frame (ip + 12) (ip + 16));
  src_port = u16_at frame (u + 2);
  dst_port = u16_at frame u;
}

unfoldable pub reversed6 : List ℕ → ℕ → ℕ → FlowKey
reversed6 frame ip u = record {
  src_addr = v6 (between frame (ip + 24) (ip + 40));
  dst_addr = v6 (between frame (ip + 8) (ip + 24));
  src_port = u16_at frame (u + 2);
  dst_port = u16_at frame u;
}

-- What follows the IP header, at the offset and with the protocol number that the header gives.
pub data Payload (frame : List ℕ) : IpFamily → ℕ → ℕ → L4 → Type 0 where
  udp_header :
      (family : IpFamily) (at proto s d : ℕ)
      → proto ≡ 17
      → s ≡ u16_at frame at
      → d ≡ u16_at frame (at + 2)
      → Payload frame family at proto (udp at (at + 8) s d)
  echo4 :
      (at proto q : ℕ) (flow : FlowKey)
      → proto ≡ 1
      → get_or frame (at + 8 + 9) 0 ≡ 17
      → q ≡ at + 8 + ihl_at frame (at + 8) + 8
      → flow ≡ reversed4 frame (at + 8) (at + 8 + ihl_at frame (at + 8))
      → Payload frame ipv4 at proto (icmp q flow)
  echo6 :
      (at proto u q : ℕ) (flow : FlowKey)
      → proto ≡ 58
      → Chain frame (get_or frame (at + 8 + 6) 0) (at + 8 + 40) 17 u
      → q ≡ u + 8
      → flow ≡ reversed6 frame (at + 8) u
      → Payload frame ipv6 at proto (icmp q flow)

pub data Layers (frame : List ℕ) : ParsedFrame → Type 0 where
  over_ipv4 :
      (p : ParsedFrame)
      → p.family ≡ ipv4
      → u16_at frame 12 ≡ 0x0800
      → p.ip_hdr_len ≡ ihl_at frame 14
      → p.src_addr ≡ v4 (between frame 26 30)
      → p.dst_addr ≡ v4 (between frame 30 34)
      → Payload frame ipv4 (14 + ihl_at frame 14) (get_or frame 23 0) p.l4
      → Layers frame p
  over_ipv6 :
      (p : ParsedFrame) (next offset : ℕ)
      → p.family ≡ ipv6
      → u16_at frame 12 ≡ 0x86dd
      → Chain frame (get_or frame 20 0) 54 next offset
      → p.ip_hdr_len ≡ offset - 14
      → p.src_addr ≡ v6 (between frame 22 38)
      → p.dst_addr ≡ v6 (between frame 38 54)
      → Payload frame ipv6 offset next p.l4
      → Layers frame p
