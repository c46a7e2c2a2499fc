-- ===== src/Tests/Kernel.antt =====
-- An instance of the theorem on the filter in the kernel.
use pesigitg.Prelude.{
  ℕ, ◌≡◌, refl, List, [], ◌∷◌, ◌++◌, arith, ◌==◌, if◌then◌else◌, get_or, take, drop, replicate, run,
  ok,
}
use pesigitg.Common.Address.{v6}
use pesigitg.Filter.{try_pesigitg, xdp_pass}
use pesigitg.Filter.Agreement.{try_pesigitg-parse_frame}
use pesigitg.Filter.Ipv4.{served_port}
use pesigitg.Filter.Ipv6.{short, ShortExtensions}
use pesigitg.Packet.Parse.{
  ParsedFrame, udp, ipv6, walk, parse_frame, parse_frame_ipv6, parse_udp, read_u16,
}

-- UDP to port 443 behind one extension header of eight bytes.
abbrev frame_v6 : List ℕ
frame_v6 =
    replicate 12 2
    ++ (0x86 ∷ 0xdd ∷ 0x60 ∷ [])
    ++ replicate 5 0
    ++ (0 ∷ 64 ∷ [])
    ++ replicate 16 1
    ++ replicate 16 3
    ++ (17 ∷ [])
    ++ replicate 7 0
    ++ (20 ∷ 0 ∷ 1 ∷ 187 ∷ 0 ∷ 8 ∷ 0 ∷ 0 ∷ [])

abbrev parsed_v6 : ParsedFrame
parsed_v6 = record {
  family = ipv6;
  ip_hdr_len = 48;
  src_mac = replicate 6 2;
  src_addr = v6 (replicate 16 1);
  dst_addr = v6 (replicate 16 3);
  l4 = udp 62 70 5120 443;
}

parse_frame-v6 : parse_frame frame_v6 ≡ ok parsed_v6
unfolding parse_frame parse_frame_ipv6 walk parse_udp read_u16 run replicate get_or take drop
parse_frame-v6 = refl

v6-ShortExtensions : ShortExtensions frame_v6
unfolding short walk run replicate get_or
v6-ShortExtensions = record { outer = refl; inner = λ at e. ground arith }

try_pesigitg-parse_frame_example :
    try_pesigitg (λ port. port == 443) (ok 4) frame_v6
    ≡ (if served_port parsed_v6.l4 == 443 then ok 4 else ok xdp_pass)
try_pesigitg-parse_frame_example =
    try_pesigitg-parse_frame (λ port. port == 443) (ok 4) frame_v6 parsed_v6
      (λ h. v6-ShortExtensions) parse_frame-v6
