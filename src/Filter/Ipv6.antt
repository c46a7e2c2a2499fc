-- ===== src/Filter/Ipv6.antt =====
-- The IPv6 half of the filter in pesigitg-ebpf/src/main.rs beside `parse_frame_ipv6` of
-- pesigitg-daemon/src/packet.rs.
use pesigitg.Prelude.{
  ◌-◌, ◌≤◌, sym, ap, ◌∙◌, false, not, Safe-slice, Safe-bind, Safe-result, ℕ, zero, suc, ◌+◌, ◌*◌,
  ◌%◌, ◌<◌, ◌≡◌, refl, Bool, true, ◌&&◌, some, List, arith, ltb, ◌==◌, if◌then◌else◌, Safe, Safe-if,
  Safe-return_if, Safe-index, Safe-weaken, length, get_or, ◌>>=◌, ok, value, early,
}
use pesigitg.Common.Address.{IpAddr}
use pesigitg.Filter.Ipv4.{served_port, parse_udp-port}
use pesigitg.Filter.{
  eth_hdr_len, ipproto_udp, ipproto_icmpv6, inner_stops, max_ipv6_ext_hdrs, outer_found,
  inner_found, icmp_ipv6, outer_stops, inner_ipv6, parse_ipv6, ptr_u8, skip,
}
use pesigitg.Filter.Reads.{read_u16-be16, ptr_u16_lem, be16, ptr_u8_lem}
use pesigitg.Packet.Parse.{
  parse_frame_icmpv6, parse_frame_ipv6, ipproto_fragment, is_extension, walk,
}

-- Every extension header on the way has a length byte below 32, so that the mask leaves it.
unfoldable pub short : (ℕ → Bool) → ℕ → List ℕ → ℕ → ℕ → Bool
short stops zero frame next_hdr offset = true
short stops (suc n) frame next_hdr offset =
    let next = get_or frame offset 0 in
    let ext_len = get_or frame (offset + 1) 0 in
    let fragment = short stops n frame next (offset + 8) in
    let extension = short stops n frame next (offset + (ext_len + 1) * 8) in
    if stops next_hdr
    then true
    else if next_hdr == ipproto_fragment
    then fragment
    else if is_extension next_hdr
    then ltb ext_len 32 && extension
    else true

fragment_step :
    (stops : ℕ → Bool) (n : ℕ) (frame : List ℕ) (offset : ℕ) (r : ℕ × ℕ)
    → offset < length frame
    → skip stops n frame (get_or frame offset 0) (offset + 8) ≡ ok (some r)
    → (ptr_u8 frame offset >>= λ next. skip stops n frame next (offset + 8)) ≡ ok (some r)
unfolding ◌>>=◌
fragment_step stops n frame offset r h e = rw (ptr_u8_lem frame offset h) e

extension_step :
    (stops : ℕ → Bool) (n : ℕ) (frame : List ℕ) (offset : ℕ) (r : ℕ × ℕ)
    → offset + 1 < length frame
    → get_or frame (offset + 1) 0 < 32
    → skip stops n frame (get_or frame offset 0) (offset + (get_or frame (offset + 1) 0 + 1) * 8)
      ≡ ok (some r)
    → (ptr_u8 frame offset >>= λ next. ptr_u8 frame (offset + 1) >>= λ ext_len.
        skip stops n frame next (offset + (ext_len % 32 + 1) * 8))
      ≡ ok (some r)
unfolding ◌>>=◌
extension_step stops n frame offset r h small e =
    let mask : get_or frame (offset + 1) 0 % 32 ≡ get_or frame (offset + 1) 0 = omega arith in
    rw (ptr_u8_lem frame offset (omega arith), ptr_u8_lem frame (offset + 1) h, mask) e

walk-skip :
    (stops : ℕ → Bool) (n : ℕ) (frame : List ℕ) (next_hdr offset : ℕ)
    → short stops n frame next_hdr offset ≡ true
    → Safe
        (λ r. skip stops n frame next_hdr offset ≡ ok (some r))
        (walk stops n frame next_hdr offset)
unfolding walk skip short
walk-skip stops zero frame next_hdr offset h = value refl
walk-skip stops (suc n) frame next_hdr offset h =
    Safe-if (stops next_hdr) (λ s. value (rw s refl))
      λ s.
        Safe-if (next_hdr == ipproto_fragment)
          (λ f. Safe-return_if _ _ _ λ room. Safe-index _ _ _ (ground arith) (
            Safe-weaken (λ r e. rw (s, f) (fragment_step stops n frame offset r (ground arith) e))
              (walk-skip stops n frame (get_or frame offset 0) (offset + 8) (rw (s, f) at h))))
          λ f.
            Safe-if (is_extension next_hdr)
              (λ x.
                let both : ltb (get_or frame (offset + 1) 0) 32
                      && short stops n frame (get_or frame offset 0)
                          (offset + (get_or frame (offset + 1) 0 + 1) * 8)
                    ≡ true =
                  rw (s, f, x) at h in
                Safe-return_if _ _ _ λ room. Safe-index _ _ _ (ground arith) (
                  Safe-index _ _ _ (ground arith) (
                    Safe-weaken
                      (λ r e.
                        rw (s, f, x)
                          (extension_step stops n frame offset r (ground arith) (ground arith) e))
                      (walk-skip stops n frame (get_or frame offset 0)
                        (offset + (get_or frame (offset + 1) 0 + 1) * 8) (ground arith)))))
              λ x. early

inner_ipv6_lem :
    (frame : List ℕ) (at inner_offset : ℕ)
    → at + 6 < length frame
    → skip inner_stops max_ipv6_ext_hdrs frame (get_or frame (at + 6) 0) (at + 40)
      ≡ ok (some (ipproto_udp, inner_offset))
    → inner_offset + 2 ≤ length frame
    → inner_ipv6 frame at ≡ ok (some (be16 frame inner_offset))
unfolding inner_ipv6 inner_found ◌>>=◌
inner_ipv6_lem frame at inner_offset h e room =
    rw (ptr_u8_lem frame (at + 6) h, e, ptr_u16_lem frame inner_offset room) refl

icmp_ipv6_lem :
    (frame : List ℕ) (at : ℕ)
    → at < length frame
    → (not (get_or frame at 0 == 1) && not (get_or frame at 0 == 2)) && not (get_or frame at 0 == 3)
      ≡ false
    → icmp_ipv6 frame at ≡ inner_ipv6 frame (at + 8)
unfolding icmp_ipv6 ◌>>=◌
icmp_ipv6_lem frame at h known = rw (ptr_u8_lem frame at h, known) refl

parse_frame_icmpv6-port :
    (frame src_mac : List ℕ) (ip_hdr_len : ℕ) (src dst : IpAddr) (at : ℕ)
    → short inner_stops max_ipv6_ext_hdrs frame (get_or frame (at + 8 + 6) 0) (at + 8 + 40) ≡ true
    → Safe
        (λ p. icmp_ipv6 frame at ≡ ok (some (served_port p.l4)))
        (parse_frame_icmpv6 frame src_mac ip_hdr_len src dst at)
unfolding parse_frame_icmpv6 served_port
parse_frame_icmpv6-port frame src_mac ip_hdr_len src dst at h = Safe-return_if _ _ _ λ room.
    Safe-index _ _ _ (ground arith) (
      Safe-return_if _ _ _ λ known. Safe-return_if _ _ _ λ inner.
        Safe-slice _ _ _ _ (omega arith) (ground arith) (
          Safe-slice _ _ _ _ (omega arith) (ground arith) (
            Safe-index _ _ _ (ground arith) (
              Safe-bind _ _ (walk-skip inner_stops max_ipv6_ext_hdrs frame _ _ h)
                λ (proto, inner_offset) e. Safe-return_if _ _ _ λ is_udp.
                  Safe-return_if _ _ _ λ ports.
                    Safe-bind _ _ (read_u16-be16 frame inner_offset (ground arith)) λ s e'.
                      Safe-bind _ _ (read_u16-be16 frame (inner_offset + 2) (ground arith)) λ _ _.
                        let same : proto ≡ ipproto_udp = ground arith in
                        value (
                          icmp_ipv6_lem frame at (ground arith) known
                          ∙ (inner_ipv6_lem frame (at + 8) inner_offset (ground arith)
                                (rw same at e) (ground arith)
                              ∙ ap (λ x. ok (some x)) (sym e')))))))

-- The extension headers of a frame, and of the packet echoed in an ICMPv6 error, have length bytes below
-- 32.
pub record ShortExtensions (frame : List ℕ) : Type 0 where
  pub outer : short outer_stops max_ipv6_ext_hdrs frame (get_or frame 20 0) 54 ≡ true
  pub inner :
      (at : ℕ)
      → walk outer_stops max_ipv6_ext_hdrs frame (get_or frame 20 0) 54 ≡ ok (ipproto_icmpv6, at)
      → short inner_stops max_ipv6_ext_hdrs frame (get_or frame (at + 8 + 6) 0) (at + 8 + 40) ≡ true

parse_ipv6_lem :
    (frame : List ℕ) (r : ℕ × ℕ)
    → 20 < length frame
    → skip outer_stops max_ipv6_ext_hdrs frame (get_or frame 20 0) 54 ≡ ok (some r)
    → parse_ipv6 frame ≡ outer_found frame (some r)
unfolding parse_ipv6 ◌>>=◌
parse_ipv6_lem frame r h e = rw (ptr_u8_lem frame 20 h, e) refl

pub parse_frame_ipv6-port :
    (frame src_mac : List ℕ)
    → ShortExtensions frame
    → Safe (λ p. parse_ipv6 frame ≡ ok (some (served_port p.l4))) (parse_frame_ipv6 frame src_mac)
unfolding parse_frame_ipv6 outer_found
parse_frame_ipv6-port frame src_mac s = Safe-return_if _ _ _ λ room.
    Safe-slice _ _ _ _ (omega arith) (ground arith) (
      Safe-slice _ _ _ _ (omega arith) (ground arith) (
        Safe-index _ _ _ (ground arith) (
          Safe-bind _ _ (Safe-result _ (walk-skip outer_stops max_ipv6_ext_hdrs frame _ _ s.outer))
            λ (next, at) (e, w).
              let filtered = parse_ipv6_lem frame (next, at) (ground arith) e in
              Safe-if (next == ipproto_udp)
                (λ u.
                  Safe-weaken (λ p h. filtered ∙ rw u h)
                    (parse_udp-port frame _ (at - eth_hdr_len) src_mac _ _ at))
                λ u.
                  Safe-if (next == ipproto_icmpv6)
                    (λ i.
                      let same : next ≡ ipproto_icmpv6 = ground arith in
                      Safe-weaken (λ p h. filtered ∙ rw (u, i) h)
                        (parse_frame_icmpv6-port frame src_mac (at - eth_hdr_len) _ _ at
                          (s.inner at (rw same at w))))
                    λ i. early)))
