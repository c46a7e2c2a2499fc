-- ===== src/Filter/Ipv4.antt =====
-- The IPv4 half of the filter in pesigitg-ebpf/src/main.rs finds the port of a frame that
-- `parse_frame_ipv4` of pesigitg-daemon/src/packet.rs accepts.
use pesigitg.Prelude.{
  ◌>>◌, ◌*◌, ◌≤◌, bit_and, ◌∙◌, false, none, ltb, if◌then◌else◌, length, return_if, ◌>>=◌, ℕ, ◌+◌,
  ◌≡◌, refl, sym, some, List, arith, ◌==◌, Safe, Safe-if, Safe-return_if, Safe-index, Safe-slice,
  Safe-bind, Safe-weaken, get_or, ok, value, early,
}
use pesigitg.Common.Address.{IpAddr}
use pesigitg.Filter.{ipv4_min_hdr_len, udp_port, inner_ipv4, icmp_ipv4, parse_ipv4}
use pesigitg.Filter.Reads.{ptr_u8_lem, ptr_u16_lem, read_u16-be16, read_ihl-bits}
use pesigitg.Packet.Parse.{
  IpFamily, L4, udp, icmp, eth_hdr_len, ipproto_udp, ipproto_icmp, parse_udp, parse_frame_icmp_ipv4,
  parse_frame_ipv4,
}

-- The port that a parsed frame is forwarded for: the destination port of UDP, and for an ICMP error the
-- server's port of the flow that it reports on.
unfoldable pub served_port : L4 → ℕ
served_port (udp u q s d) = d
served_port (icmp q flow) = flow.dst_port

pub parse_udp-port :
    (frame : List ℕ) (family : IpFamily) (ip_hdr_len : ℕ) (src_mac : List ℕ) (src dst : IpAddr)
    (offset : ℕ)
    → Safe
        (λ p. udp_port frame offset ≡ ok (some (served_port p.l4)))
        (parse_udp frame family ip_hdr_len src_mac src dst offset)
unfolding parse_udp udp_port served_port ◌>>=◌
parse_udp-port frame family ip_hdr_len src_mac src dst offset = Safe-return_if _ _ _ λ room.
    Safe-bind _ _ (read_u16-be16 frame offset (ground arith)) λ s _.
      Safe-bind _ _ (read_u16-be16 frame (offset + 2) (ground arith))
        λ d e. value (rw (ptr_u16_lem frame (offset + 2) (ground arith), e) refl)

parse_frame_icmp_ipv4-port :
    (frame src_mac : List ℕ) (outer_ihl : ℕ) (src dst : IpAddr)
    → Safe
        (λ p. icmp_ipv4 frame (eth_hdr_len + outer_ihl) ≡ ok (some (served_port p.l4)))
        (parse_frame_icmp_ipv4 frame src_mac outer_ihl src dst)
unfolding parse_frame_icmp_ipv4 icmp_ipv4 inner_ipv4 served_port ◌>>=◌
parse_frame_icmp_ipv4-port frame src_mac outer_ihl src dst = Safe-return_if _ _ _ λ room.
    Safe-index _ _ _ (ground arith) (
      Safe-return_if _ _ _ λ known. Safe-return_if _ _ _ λ inner.
        Safe-bind _ _ (read_ihl-bits frame (eth_hdr_len + outer_ihl + 8) (ground arith)) λ ihl e.
          Safe-return_if _ _ _ λ long. Safe-index _ _ _ (ground arith) (
            Safe-return_if _ _ _ λ proto. Safe-return_if _ _ _ λ ports.
              Safe-slice _ _ _ _ (omega arith) (ground arith) (
                Safe-slice _ _ _ _ (omega arith) (ground arith) (
                  Safe-bind _ _
                    (read_u16-be16 frame (eth_hdr_len + outer_ihl + 8 + ihl) (ground arith))
                    λ s e'.
                      Safe-bind _ _
                        (read_u16-be16 frame (eth_hdr_len + outer_ihl + 8 + ihl + 2) (ground arith))
                        λ _ _. value (
                          rw
                            (
                              ptr_u8_lem frame (eth_hdr_len + outer_ihl) (ground arith),
                              known,
                              ptr_u8_lem frame (eth_hdr_len + outer_ihl + 8) (ground arith),
                              sym e,
                              long,
                              ptr_u8_lem frame (eth_hdr_len + outer_ihl + 8 + 9) (ground arith),
                              proto,
                              ptr_u16_lem frame (eth_hdr_len + outer_ihl + 8 + ihl) (ground arith),
                              e',
                            )
                            refl)))))

-- What the filter does once the header is known to be there.
parse_ipv4_lem :
    (frame : List ℕ) (ihl : ℕ)
    → 34 ≤ length frame
    → ihl ≡ bit_and (get_or frame 14 0) 0x0f * 4
    → ltb ihl ipv4_min_hdr_len ≡ false
    → parse_ipv4 frame ≡ (
        if get_or frame 23 0 == ipproto_udp
        then udp_port frame (eth_hdr_len + ihl)
        else if get_or frame 23 0 == ipproto_icmp
        then icmp_ipv4 frame (eth_hdr_len + ihl)
        else ok none)
unfolding parse_ipv4 ◌>>=◌ ◌>>◌ return_if
parse_ipv4_lem frame ihl h e long =
    rw (ptr_u8_lem frame 14 (omega arith), sym e, long, ptr_u8_lem frame 23 (omega arith)) refl

pub parse_frame_ipv4-port :
    (frame src_mac : List ℕ)
    → Safe (λ p. parse_ipv4 frame ≡ ok (some (served_port p.l4))) (parse_frame_ipv4 frame src_mac)
unfolding parse_frame_ipv4
parse_frame_ipv4-port frame src_mac = Safe-return_if _ _ _ λ room.
    Safe-bind _ _ (read_ihl-bits frame eth_hdr_len (ground arith)) λ ihl e.
      Safe-return_if _ _ _ λ long. Safe-index _ _ _ (ground arith) (
        Safe-slice _ _ _ _ (omega arith) (ground arith) (
          Safe-slice _ _ _ _ (omega arith) (ground arith) (
            let filtered = parse_ipv4_lem frame ihl (ground arith) e long in
            Safe-if (get_or frame 23 0 == ipproto_udp)
              (λ u.
                Safe-weaken (λ p h. filtered ∙ rw u h)
                  (parse_udp-port frame _ ihl src_mac _ _ (eth_hdr_len + ihl)))
              λ u.
                Safe-if (get_or frame 23 0 == ipproto_icmp)
                  (λ i.
                    Safe-weaken (λ p h. filtered ∙ rw (u, i) h)
                      (parse_frame_icmp_ipv4-port frame src_mac ihl _ _))
                  λ i. early)))
