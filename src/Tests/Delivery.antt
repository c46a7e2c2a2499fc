-- ===== src/Tests/Delivery.antt =====
-- An instance of the theorem that a packet reaches the server that chose its Connection ID.
use pesigitg.Prelude.{
  ℕ, ◌≡◌, refl, List, [], ◌∷◌, ◌++◌, arith, bytes_eq, xor_bytes, get_or, set, take, drop, replicate,
  length-replicate, run, ok,
}
use pesigitg.Common.Address.{v4}
use pesigitg.Config.Table.{get}
use pesigitg.Encoder.{
  first_octet, cid_length, encode_into, encode_to_vec, encrypt, encrypt_four_pass, encrypt_passes,
}
use pesigitg.Packet.Parse.{
  ParsedFrame, udp, ipv4, parse_frame, parse_frame_ipv4, parse_udp, read_u16, read_ihl,
}
use pesigitg.Packet.Process.{process_packet, server_at}
use pesigitg.Packet.Process.Carriers.{Carries, short}
use pesigitg.Packet.Process.Routes.{delivered, process_packet-delivers}
use pesigitg.Routing.Cid.{odd_pass, even_pass, round_block, xor_loop}
use pesigitg.Routing.Route.{find_server_idx, position}
use pesigitg.Tests.Samples.{
  encoder_a, route_a, table_a, server_a, mac_a, local_mac, empty_table, xor_cipher-IsBlockCipher,
}

abbrev fill : ℕ → List ℕ
fill n = replicate n 0x5a

-- The Connection ID that the encoder makes with these random bytes.
abbrev cid_made : List ℕ
cid_made = 8 ∷ 89 ∷ 90 ∷ 247 ∷ 156 ∷ 90 ∷ 90 ∷ 90 ∷ 90 ∷ []

made : encode_to_vec fill 3 encoder_a ≡ ok cid_made
unfolding encode_to_vec encode_into encrypt encrypt_four_pass encrypt_passes odd_pass even_pass
    round_block xor_loop first_octet cid_length run replicate take drop get_or set xor_bytes
made = refl

-- A short header with that Connection ID, in a UDP frame to port 443.
abbrev frame_made : List ℕ
frame_made =
    replicate 12 2
    ++ (8 ∷ 0 ∷ 0x45 ∷ [])
    ++ replicate 8 0
    ++ (17 ∷ 0 ∷ 0 ∷ 10 ∷ 0 ∷ 0 ∷ 9 ∷ 10 ∷ 0 ∷ 0 ∷ 2 ∷ [])
    ++ (20 ∷ 0 ∷ 1 ∷ 187 ∷ 0 ∷ 0 ∷ 0 ∷ 0 ∷ [])
    ++ (0x40 ∷ (cid_made ++ (1 ∷ 2 ∷ 3 ∷ [])))

abbrev parsed_made : ParsedFrame
parsed_made = record {
  family = ipv4;
  ip_hdr_len = 20;
  src_mac = replicate 6 2;
  src_addr = v4 (10 ∷ 0 ∷ 0 ∷ 9 ∷ []);
  dst_addr = v4 (10 ∷ 0 ∷ 0 ∷ 2 ∷ []);
  l4 = udp 34 42 5120 443;
}

parse_frame-made : parse_frame frame_made ≡ ok parsed_made
unfolding parse_frame parse_frame_ipv4 parse_udp read_u16 read_ihl run replicate get_or take drop
parse_frame-made = refl

made-Carries : Carries cid_made (drop 42 frame_made)
unfolding drop replicate
made-Carries = short 0x40 (1 ∷ 2 ∷ 3 ∷ []) refl

process_packet-delivers_example :
    process_packet (λ f. 0) local_mac 7 frame_made table_a empty_table
    ≡ ok (delivered local_mac 7 frame_made empty_table cid_made route_a server_a mac_a)
unfolding get get_or find_server_idx position bytes_eq server_at
process_packet-delivers_example =
    process_packet-delivers encoder_a fill 3 (λ n. length-replicate n 0x5a)
      (omega arith, omega arith, omega arith, omega arith) (λ f. 0) local_mac 7 frame_made table_a
      empty_table route_a server_a mac_a cid_made 0 parsed_made 34 42 5120 443
      (record { sid = refl; nonce = refl; mode = refl }) (xor_cipher-IsBlockCipher, omega arith)
      (omega arith) (omega arith) refl refl refl refl refl refl refl made parse_frame-made refl
      made-Carries
