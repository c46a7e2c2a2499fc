-- ===== src/Filter.antt =====
-- pesigitg-ebpf/src/main.rs: the filter in the kernel. Its `Err(())` is `err absent`, a port that it
-- does not find is `none`; the PORTS map is a predicate, and what `XSKS.redirect` returns a parameter.
pub mod Reads
pub mod Ipv4
pub mod Ipv6
pub mod Agreement
use pesigitg.Prelude.{
  ℕ, zero, suc, ◌+◌, ◌*◌, ◌%◌, bit_and, Bool, not, ◌&&◌, Option, none, some, List, ltb, ◌==◌,
  if◌then◌else◌, length, get_or, Run, Absent, ◌>>=◌, ◌>>◌, return_if, ok, err, panic, absent,
}
use pesigitg.Packet.Parse.{
  eth_hdr_len, ipv4_min_hdr_len, ipv6_hdr_len, icmp_hdr_len, eth_p_ip, eth_p_ipv6, ipproto_icmp,
  ipproto_udp, ipproto_icmpv6, ipproto_fragment, is_extension, max_ipv6_ext_hdrs, outer_stops,
  inner_stops,
}

abbrev pub xdp_aborted : ℕ
xdp_aborted = 0

abbrev pub xdp_pass : ℕ
xdp_pass = 2

-- `*ptr_at::<u8>(ctx, i)?`
unfoldable pub ptr_u8 : List ℕ → ℕ → Run Absent ℕ
ptr_u8 frame i = if ltb (length frame) (i + 1) then err absent else ok (get_or frame i 0)

-- `u16::from_be(*ptr_at::<u16>(ctx, i)?)`
unfoldable pub ptr_u16 : List ℕ → ℕ → Run Absent ℕ
ptr_u16 frame i =
    if ltb (length frame) (i + 2)
    then err absent
    else ok (get_or frame i 0 * 256 + get_or frame (i + 1) 0)

-- The source port of the UDP packet echoed in an ICMP error.
unfoldable pub inner_ipv4 : List ℕ → ℕ → Run Absent (Option ℕ)
inner_ipv4 frame inner_ip_offset = do
  inner_byte0 ← ptr_u8 frame inner_ip_offset
  let inner_ihl = bit_and inner_byte0 0x0f * 4
  if ltb inner_ihl ipv4_min_hdr_len then ok none else do
    inner_proto ← ptr_u8 frame (inner_ip_offset + 9)
    if not (inner_proto == ipproto_udp)
        then ok none
        else do src_port ← ptr_u16 frame (inner_ip_offset + inner_ihl); ok (some src_port)

unfoldable pub icmp_ipv4 : List ℕ → ℕ → Run Absent (Option ℕ)
icmp_ipv4 frame icmp_offset = do
  icmp_type ← ptr_u8 frame icmp_offset
  if not (icmp_type == 3) && not (icmp_type == 11)
      then ok none
      else inner_ipv4 frame (icmp_offset + icmp_hdr_len)

unfoldable pub udp_port : List ℕ → ℕ → Run Absent (Option ℕ)
udp_port frame udp_offset = do dst_port ← ptr_u16 frame (udp_offset + 2); ok (some dst_port)

unfoldable pub parse_ipv4 : List ℕ → Run Absent (Option ℕ)
parse_ipv4 frame = do
  iph_byte0 ← ptr_u8 frame eth_hdr_len
  let ihl = bit_and iph_byte0 0x0f * 4
  return_if (ltb ihl ipv4_min_hdr_len) absent
  protocol ← ptr_u8 frame (eth_hdr_len + 9)
  if protocol == ipproto_udp
      then udp_port frame (eth_hdr_len + ihl)
      else if protocol == ipproto_icmp
      then icmp_ipv4 frame (eth_hdr_len + ihl)
      else ok none

-- The loops over the extension headers: `none` where the code returns `Ok(None)`. The length byte is
-- masked by 0x1F.
unfoldable pub skip : (ℕ → Bool) → ℕ → List ℕ → ℕ → ℕ → Run Absent (Option (ℕ × ℕ))
skip stops zero frame next_hdr offset = ok (some (next_hdr, offset))
skip stops (suc n) frame next_hdr offset =
    if stops next_hdr
    then ok (some (next_hdr, offset))
    else if next_hdr == ipproto_fragment
    then (do next ← ptr_u8 frame offset; skip stops n frame next (offset + 8))
    else if is_extension next_hdr
    then (do
      next ← ptr_u8 frame offset
      ext_len ← ptr_u8 frame (offset + 1)
      skip stops n frame next (offset + (ext_len % 32 + 1) * 8))
    else ok none

unfoldable pub inner_found : List ℕ → Option (ℕ × ℕ) → Run Absent (Option ℕ)
inner_found frame none = ok none
inner_found frame (some (inner_next_hdr, inner_offset)) =
    if not (inner_next_hdr == ipproto_udp)
    then ok none
    else do src_port ← ptr_u16 frame inner_offset; ok (some src_port)

unfoldable pub inner_ipv6 : List ℕ → ℕ → Run Absent (Option ℕ)
inner_ipv6 frame inner_ip_offset = do
  inner_next_hdr ← ptr_u8 frame (inner_ip_offset + 6)
  inner ← skip inner_stops max_ipv6_ext_hdrs frame inner_next_hdr (inner_ip_offset + ipv6_hdr_len)
  inner_found frame inner

unfoldable pub icmp_ipv6 : List ℕ → ℕ → Run Absent (Option ℕ)
icmp_ipv6 frame offset = do
  icmp_type ← ptr_u8 frame offset
  if (not (icmp_type == 1) && not (icmp_type == 2)) && not (icmp_type == 3)
      then ok none
      else inner_ipv6 frame (offset + icmp_hdr_len)

unfoldable pub outer_found : List ℕ → Option (ℕ × ℕ) → Run Absent (Option ℕ)
outer_found frame none = ok none
outer_found frame (some (next_hdr, offset)) =
    if next_hdr == ipproto_udp
    then udp_port frame offset
    else if next_hdr == ipproto_icmpv6
    then icmp_ipv6 frame offset
    else ok none

unfoldable pub parse_ipv6 : List ℕ → Run Absent (Option ℕ)
parse_ipv6 frame = do
  next_hdr ← ptr_u8 frame (eth_hdr_len + 6)
  outer ← skip outer_stops max_ipv6_ext_hdrs frame next_hdr (eth_hdr_len + ipv6_hdr_len)
  outer_found frame outer

-- The port that the frame is checked for; `none` also for an ethertype other than IP.
unfoldable pub parse_port : List ℕ → Run Absent (Option ℕ)
parse_port frame = do
  eth_proto ← ptr_u16 frame 12
  if eth_proto == eth_p_ip
      then parse_ipv4 frame
      else if eth_proto == eth_p_ipv6
      then parse_ipv6 frame
      else ok none

unfoldable pub decide : (ℕ → Bool) → Run Absent ℕ → Option ℕ → Run Absent ℕ
decide ports redirect none = ok xdp_pass
decide ports redirect (some dst_port) = if not (ports dst_port) then ok xdp_pass else redirect

unfoldable pub try_pesigitg : (ℕ → Bool) → Run Absent ℕ → List ℕ → Run Absent ℕ
try_pesigitg ports redirect frame = do port ← parse_port frame; decide ports redirect port

unfoldable pub xdp_program : (ℕ → Bool) → Run Absent ℕ → List ℕ → ℕ
xdp_program ports redirect frame = elim (try_pesigitg ports redirect frame) [
  | ok action ↦ action
  | err e ↦ xdp_aborted
  | panic ↦ xdp_aborted
]
