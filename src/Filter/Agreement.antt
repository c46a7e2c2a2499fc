-- ===== src/Filter/Agreement.antt =====
-- The whole filter of pesigitg-ebpf/src/main.rs beside `parse_frame` of pesigitg-daemon/src/packet.rs.
use pesigitg.Prelude.{
  true, false, not, ◌>>=◌, ℕ, ◌≤◌, ◌≡◌, refl, sym, ◌∙◌, Bool, none, some, List, arith, ◌==◌,
  if◌then◌else◌, Safe, Safe-ok, Safe-if, Safe-return_if, Safe-slice, Safe-bind, Safe-weaken, length,
  Run, Absent, ok, early,
}
use pesigitg.Filter.{parse_ipv4, parse_ipv6, parse_port, decide, try_pesigitg, xdp_pass}
use pesigitg.Filter.Reads.{be16, ptr_u16_lem, read_u16-be16}
use pesigitg.Filter.Ipv4.{served_port, parse_frame_ipv4-port}
use pesigitg.Filter.Ipv6.{ShortExtensions, parse_frame_ipv6-port}
use pesigitg.Packet.Parse.{ParsedFrame, eth_p_ip, eth_p_ipv6, parse_frame}

flip :
    (b : Bool) (redirect : Run Absent ℕ)
    → (if not b then ok xdp_pass else redirect) ≡ (if b then redirect else ok xdp_pass)
flip true redirect = refl
flip false redirect = refl

parse_port_lem :
    (frame : List ℕ) (e : ℕ)
    → 14 ≤ length frame
    → e ≡ be16 frame 12
    → parse_port frame ≡ (
        if e == eth_p_ip
        then parse_ipv4 frame
        else if e == eth_p_ipv6
        then parse_ipv6 frame
        else ok none)
unfolding parse_port ◌>>=◌
parse_port_lem frame e h same = rw (ptr_u16_lem frame 12 h, sym same) refl

parse_frame-port :
    (frame : List ℕ)
    → (be16 frame 12 ≡ eth_p_ipv6 → ShortExtensions frame)
    → Safe (λ p. parse_port frame ≡ ok (some (served_port p.l4))) (parse_frame frame)
unfolding parse_frame
parse_frame-port frame s = Safe-return_if _ _ _ λ room.
    Safe-slice _ _ _ _ (omega arith) (ground arith) (
      Safe-bind _ _ (read_u16-be16 frame 12 (ground arith)) λ e same.
        let filtered = parse_port_lem frame e (ground arith) same in
        Safe-if (e == eth_p_ip)
          (λ i. Safe-weaken (λ p h. filtered ∙ rw i h) (parse_frame_ipv4-port frame _))
          λ i.
            Safe-if (e == eth_p_ipv6)
              (λ j.
                Safe-weaken (λ p h. filtered ∙ rw (i, j) h)
                  (parse_frame_ipv6-port frame _
                    (s (sym same ∙ (let k : e ≡ eth_p_ipv6 = ground arith in k)))))
              λ j. early)

-- The filter and the daemon agree on what is the daemon's: a frame that the daemon's parser accepts is
-- redirected to it when the port that it is forwarded for is monitored, and passed to the kernel's stack
-- when it is not. That port is the destination port of UDP, and for an ICMP error the server's port of
-- the echoed flow. In an IPv6 frame the extension headers must have length bytes below 32, since the
-- filter masks those.
pub try_pesigitg-parse_frame :
    (ports : ℕ → Bool) (redirect : Run Absent ℕ) (frame : List ℕ) (p : ParsedFrame)
    → (be16 frame 12 ≡ eth_p_ipv6 → ShortExtensions frame)
    → parse_frame frame ≡ ok p
    → try_pesigitg ports redirect frame
      ≡ (if ports (served_port p.l4) then redirect else ok xdp_pass)
unfolding try_pesigitg decide ◌>>=◌
try_pesigitg-parse_frame ports redirect frame p s e =
    let found : parse_port frame ≡ ok (some (served_port p.l4)) =
      Safe-ok p (parse_frame-port frame s) e in
    rw found (flip (ports (served_port p.l4)) redirect)
