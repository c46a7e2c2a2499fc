-- ===== src/Packet/Parse.antt =====
-- pesigitg-daemon/src/packet.rs: `parse_frame` and the parsers below it. The constants are those of
-- pesigitg-common/src/lib.rs.
pub mod Layers
pub mod Bounds
use pesigitg.Common.Address.{IpAddr, v4, v6}
use pesigitg.Conntable.{FlowKey}
use pesigitg.Prelude.{
  zero, bit_and, Bool, not, ◌&&◌, ◌||◌, List, ltb, leb, ◌==◌, if◌then◌else◌, length, Run, Absent,
  ◌>>=◌, ◌>>◌, return_if, index, slice, ok, err, absent, ℕ, suc, ◌+◌, ◌-◌, ◌*◌,
}

abbrev pub eth_hdr_len : ℕ
eth_hdr_len = 14

abbrev pub ipv4_min_hdr_len : ℕ
ipv4_min_hdr_len = 20

abbrev pub ipv6_hdr_len : ℕ
ipv6_hdr_len = 40

abbrev pub udp_hdr_len : ℕ
udp_hdr_len = 8

abbrev pub icmp_hdr_len : ℕ
icmp_hdr_len = 8

abbrev pub eth_p_ip : ℕ
eth_p_ip = 0x0800

abbrev pub eth_p_ipv6 : ℕ
eth_p_ipv6 = 0x86dd

abbrev pub ipproto_icmp : ℕ
ipproto_icmp = 1

abbrev pub ipproto_udp : ℕ
ipproto_udp = 17

abbrev pub ipproto_icmpv6 : ℕ
ipproto_icmpv6 = 58

abbrev pub ipproto_fragment : ℕ
ipproto_fragment = 44

-- Hop-by-hop options, routing and destination options: extensions with a length byte.
abbrev pub is_extension : ℕ → Bool
is_extension p = (p == 0 || p == 43) || p == 60

abbrev pub max_ipv6_ext_hdrs : ℕ
max_ipv6_ext_hdrs = 6

pub data IpFamily : Type 0 where
  ipv4 ipv6 : IpFamily

pub data L4 : Type 0 where
  udp : (udp_offset quic_offset src_port dst_port : ℕ) → L4
  icmp : (inner_quic_offset : ℕ) (reversed_flow : FlowKey) → L4

pub record ParsedFrame : Type 0 where
  pub family : IpFamily
  pub ip_hdr_len : ℕ
  pub src_mac : List ℕ
  pub src_addr : IpAddr
  pub dst_addr : IpAddr
  pub l4 : L4

-- `u16::from_be_bytes([frame[i], frame[i + 1]])`
unfoldable pub read_u16 : List ℕ → ℕ → Run Absent ℕ
read_u16 frame i = do hi ← index frame i; lo ← index frame (i + 1); ok (hi * 256 + lo)

-- `(byte & 0x0F) * 4`
unfoldable pub read_ihl : List ℕ → ℕ → Run Absent ℕ
read_ihl frame i = do b ← index frame i; ok (bit_and b 0x0f * 4)

-- The UDP header at `udp_offset`, in an IPv4 and in an IPv6 frame.
unfoldable pub parse_udp :
    List ℕ → IpFamily → ℕ → List ℕ → IpAddr → IpAddr → ℕ → Run Absent ParsedFrame
parse_udp frame family ip_hdr_len src_mac src_addr dst_addr udp_offset = do
  let quic_offset = udp_offset + udp_hdr_len
  return_if (ltb (length frame) quic_offset) absent
  src_port ← read_u16 frame udp_offset
  dst_port ← read_u16 frame (udp_offset + 2)
  ok (record {
    family = family;
    ip_hdr_len = ip_hdr_len;
    src_mac = src_mac;
    src_addr = src_addr;
    dst_addr = dst_addr;
    l4 = udp udp_offset quic_offset src_port dst_port;
  })

unfoldable pub parse_frame_icmp_ipv4 :
    List ℕ → List ℕ → ℕ → IpAddr → IpAddr → Run Absent ParsedFrame
parse_frame_icmp_ipv4 frame src_mac outer_ihl src_addr dst_addr = do
  let icmp_offset = eth_hdr_len + outer_ihl
  return_if (ltb (length frame) (icmp_offset + icmp_hdr_len)) absent
  icmp_type ← index frame icmp_offset
  return_if (not (icmp_type == 3) && not (icmp_type == 11)) absent
  let inner_ip_offset = icmp_offset + icmp_hdr_len
  return_if (ltb (length frame) (inner_ip_offset + ipv4_min_hdr_len)) absent
  inner_ihl ← read_ihl frame inner_ip_offset
  return_if (ltb inner_ihl ipv4_min_hdr_len) absent
  protocol ← index frame (inner_ip_offset + 9)
  return_if (not (protocol == ipproto_udp)) absent
  let inner_udp_offset = inner_ip_offset + inner_ihl
  let inner_quic_offset = inner_udp_offset + udp_hdr_len
  return_if (ltb (length frame) (inner_udp_offset + 4)) absent
  inner_src ← slice frame (inner_ip_offset + 12) (inner_ip_offset + 16)
  inner_dst ← slice frame (inner_ip_offset + 16) (inner_ip_offset + 20)
  inner_src_port ← read_u16 frame inner_udp_offset
  inner_dst_port ← read_u16 frame (inner_udp_offset + 2)
  ok (record {
    family = ipv4;
    ip_hdr_len = outer_ihl;
    src_mac = src_mac;
    src_addr = src_addr;
    dst_addr = dst_addr;
    l4 = icmp inner_quic_offset (record {
      src_addr = v4 inner_dst;
      dst_addr = v4 inner_src;
      src_port = inner_dst_port;
      dst_port = inner_src_port;
    });
  })

unfoldable pub parse_frame_ipv4 : List ℕ → List ℕ → Run Absent ParsedFrame
parse_frame_ipv4 frame src_mac = do
  return_if (ltb (length frame) (eth_hdr_len + ipv4_min_hdr_len)) absent
  ihl ← read_ihl frame eth_hdr_len
  return_if (ltb ihl ipv4_min_hdr_len) absent
  protocol ← index frame (eth_hdr_len + 9)
  src ← slice frame (eth_hdr_len + 12) (eth_hdr_len + 16)
  dst ← slice frame (eth_hdr_len + 16) (eth_hdr_len + 20)
  if protocol == ipproto_udp
      then parse_udp frame ipv4 ihl src_mac (v4 src) (v4 dst) (eth_hdr_len + ihl)
      else if protocol == ipproto_icmp
      then parse_frame_icmp_ipv4 frame src_mac ihl (v4 src) (v4 dst)
      else err absent

-- The loop over the extension headers; it breaks at a protocol that `stops` names.
unfoldable pub walk : (ℕ → Bool) → ℕ → List ℕ → ℕ → ℕ → Run Absent (ℕ × ℕ)
walk stops zero frame next_hdr offset = ok (next_hdr, offset)
walk stops (suc n) frame next_hdr offset =
    if stops next_hdr
    then ok (next_hdr, offset)
    else if next_hdr == ipproto_fragment
    then (do
      return_if (leb (length frame) offset) absent
      next ← index frame offset
      walk stops n frame next (offset + 8))
    else if is_extension next_hdr
    then (do
      return_if (leb (length frame) (offset + 1)) absent
      next ← index frame offset
      ext_len ← index frame (offset + 1)
      walk stops n frame next (offset + (ext_len + 1) * 8))
    else err absent

abbrev pub outer_stops : ℕ → Bool
outer_stops p = p == ipproto_udp || p == ipproto_icmpv6

abbrev pub inner_stops : ℕ → Bool
inner_stops p = p == ipproto_udp

unfoldable pub parse_frame_icmpv6 :
    List ℕ → List ℕ → ℕ → IpAddr → IpAddr → ℕ → Run Absent ParsedFrame
parse_frame_icmpv6 frame src_mac ip_hdr_len src_addr dst_addr icmp_offset = do
  return_if (ltb (length frame) (icmp_offset + icmp_hdr_len)) absent
  icmp_type ← index frame icmp_offset
  return_if ((not (icmp_type == 1) && not (icmp_type == 2)) && not (icmp_type == 3)) absent
  let inner_ip_offset = icmp_offset + icmp_hdr_len
  return_if (ltb (length frame) (inner_ip_offset + ipv6_hdr_len)) absent
  inner_src ← slice frame (inner_ip_offset + 8) (inner_ip_offset + 24)
  inner_dst ← slice frame (inner_ip_offset + 24) (inner_ip_offset + 40)
  first_hdr ← index frame (inner_ip_offset + 6)
  (inner_next_hdr, inner_offset) ←
      walk inner_stops max_ipv6_ext_hdrs frame first_hdr (inner_ip_offset + ipv6_hdr_len)
  return_if (not (inner_next_hdr == ipproto_udp)) absent
  return_if (ltb (length frame) (inner_offset + 4)) absent
  inner_src_port ← read_u16 frame inner_offset
  inner_dst_port ← read_u16 frame (inner_offset + 2)
  ok (record {
    family = ipv6;
    ip_hdr_len = ip_hdr_len;
    src_mac = src_mac;
    src_addr = src_addr;
    dst_addr = dst_addr;
    l4 = icmp (inner_offset + udp_hdr_len) (record {
      src_addr = v6 inner_dst;
      dst_addr = v6 inner_src;
      src_port = inner_dst_port;
      dst_port = inner_src_port;
    });
  })

unfoldable pub parse_frame_ipv6 : List ℕ → List ℕ → Run Absent ParsedFrame
parse_frame_ipv6 frame src_mac = do
  return_if (ltb (length frame) (eth_hdr_len + ipv6_hdr_len)) absent
  src ← slice frame (eth_hdr_len + 8) (eth_hdr_len + 24)
  dst ← slice frame (eth_hdr_len + 24) (eth_hdr_len + 40)
  first_hdr ← index frame (eth_hdr_len + 6)
  (next_hdr, offset) ←
      walk outer_stops max_ipv6_ext_hdrs frame first_hdr (eth_hdr_len + ipv6_hdr_len)
  let ip_hdr_len = offset - eth_hdr_len
  if next_hdr == ipproto_udp
      then parse_udp frame ipv6 ip_hdr_len src_mac (v6 src) (v6 dst) offset
      else if next_hdr == ipproto_icmpv6
      then parse_frame_icmpv6 frame src_mac ip_hdr_len (v6 src) (v6 dst) offset
      else err absent

unfoldable pub parse_frame : List ℕ → Run Absent ParsedFrame
parse_frame frame = do
  return_if (ltb (length frame) eth_hdr_len) absent
  src_mac ← slice frame 6 12
  ethertype ← read_u16 frame 12
  if ethertype == eth_p_ip
      then parse_frame_ipv4 frame src_mac
      else if ethertype == eth_p_ipv6
      then parse_frame_ipv6 frame src_mac
      else err absent
