-- ===== src/Tests/Samples.antt =====
-- A deployment: a cipher on blocks, two route entries, a server and a table of connections.
use pesigitg.Prelude.{
  ℕ, ◌∙◌, true, false, none, some, List, [], ◌∷◌, xor_bytes, length-xor_bytes, xor_bytes_twice,
  replicate,
}
use pesigitg.Common.Address.{IpAddr, v4}
use pesigitg.Conntable.{FlowKey, DcidKey, from_slice, ConnectionTable}
use pesigitg.Conntable
use pesigitg.Config.Table.{ConfigTable}
use pesigitg.Encoder.{QuicLbEncoder}
use pesigitg.Encoder.Passes.{IsBlockCipher}
use pesigitg.Routing.Route.{Cipher, four_pass, Server, RouteConfig}

abbrev pub key : List ℕ
key = 7 ∷ 11 ∷ 13 ∷ 17 ∷ 19 ∷ 23 ∷ 29 ∷ 31 ∷ 37 ∷ 41 ∷ 43 ∷ 47 ∷ 53 ∷ 59 ∷ 61 ∷ 67 ∷ []

-- A cipher that inverts itself.
abbrev pub xor_cipher : Cipher
xor_cipher = record {
  encrypt_block = λ block. xor_bytes block key;
  decrypt_block = λ block. xor_bytes block key;
}

pub xor_cipher-IsBlockCipher : IsBlockCipher xor_cipher
xor_cipher-IsBlockCipher = record {
  keeps = λ block h. length-xor_bytes block key ∙ h;
  inverse = λ block h. xor_bytes_twice block key;
}

abbrev pub mac_a : List ℕ
mac_a = 2 ∷ 0 ∷ 0 ∷ 0 ∷ 0 ∷ 1 ∷ []

abbrev pub local_mac : List ℕ
local_mac = 2 ∷ 0 ∷ 0 ∷ 0 ∷ 0 ∷ 9 ∷ []

abbrev pub address_a : IpAddr
address_a = v4 (10 ∷ 0 ∷ 0 ∷ 1 ∷ [])

abbrev pub address_b : IpAddr
address_b = v4 (10 ∷ 0 ∷ 0 ∷ 2 ∷ [])

abbrev pub server_a : Server
server_a = record {
  id = 0xab ∷ 0xcd ∷ [];
  address = address_a;
  mac = some mac_a;
  draining = false;
  healthy = true;
  transitions = 0;
  state_since = none;
}

abbrev pub route_with : ℕ → RouteConfig
route_with nonce_length = record {
  config_id = 0;
  first_octet_encodes_cid_length = true;
  server_id_length = 2;
  nonce_length = nonce_length;
  encryption = four_pass key xor_cipher;
  servers = server_a ∷ [];
  max_key_age_secs = none;
}

abbrev pub route_a : RouteConfig
route_a = route_with 6

abbrev pub encoder_a : QuicLbEncoder
encoder_a = record {
  config_id = 0;
  server_id = 0xab ∷ 0xcd ∷ [];
  nonce_length = 6;
  encryption = four_pass key xor_cipher;
  encode_cid_length = true;
}

abbrev pub table_a : ConfigTable
table_a = record {
  slots = some route_a ∷ none ∷ none ∷ none ∷ none ∷ none ∷ none ∷ [];
  loaded_at = replicate 7 none;
  fallback_servers = server_a ∷ [];
  retry = none;
}

abbrev pub flow_a : FlowKey
flow_a = record { src_addr = address_a; dst_addr = address_b; src_port = 5000; dst_port = 443 }

abbrev pub flow_b : FlowKey
flow_b = record { src_addr = address_b; dst_addr = address_b; src_port = 6000; dst_port = 443 }

abbrev pub dcid_a : List ℕ
dcid_a = 0 ∷ 1 ∷ 2 ∷ 3 ∷ 4 ∷ 5 ∷ 6 ∷ 7 ∷ 8 ∷ 9 ∷ []

abbrev pub empty_table : ConnectionTable
empty_table = Conntable.new 0
