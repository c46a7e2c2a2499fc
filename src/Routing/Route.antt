-- ===== src/Routing/Route.antt =====
-- pesigitg-routing/src/route.rs. The TOML reader, `Aes128::new` and the parser of IP addresses are
-- parameters; the text of an error message is a constructor.
pub mod Macs
pub mod Validate
pub mod DistinctIds
use pesigitg.Common.Address.{IpAddr}
use pesigitg.Common.Hex.{HexError}
use pesigitg.Common.Mac.{MacError}
use pesigitg.Common.Hex
use pesigitg.Common.Mac
use pesigitg.Prelude.{
  map, suc, ◌+◌, ◌*◌, ◌%◌, Bool, true, false, not, ◌||◌, Option, none, some, List, [], ◌∷◌, ltb,
  ◌==◌, if◌then◌else◌, bytes_eq, length, get_or, set, replicate, Run, ◌>>=◌, ◌>>◌, return_if,
  or_else, map_err, ok, panic, ℕ,
}
use mathlib.Core.Option

-- `Aes128` as the code sees it: what it does to a block of 16 bytes.
pub record Cipher : Type 0 where
  pub encrypt_block : List ℕ → List ℕ
  pub decrypt_block : List ℕ → List ℕ

pub data Encryption : Type 0 where
  plaintext : Encryption
  single_pass : (key : List ℕ) → Cipher → Encryption
  four_pass : (key : List ℕ) → Cipher → Encryption

-- `Encryption::same_key`.
unfoldable pub same_key : Encryption → Encryption → Bool
same_key plaintext plaintext = true
same_key (single_pass a c) (single_pass b d) = bytes_eq a b
same_key (four_pass a c) (four_pass b d) = bytes_eq a b
same_key x y = false

pub record Server : Type 0 where
  pub id : List ℕ
  pub address : IpAddr
  pub mac : Option (List ℕ)
  pub draining : Bool
  pub healthy : Bool
  pub transitions : ℕ
  pub state_since : Option ℕ

pub record RouteConfig : Type 0 where
  pub config_id : ℕ
  pub first_octet_encodes_cid_length : Bool
  pub server_id_length : ℕ
  pub nonce_length : ℕ
  pub encryption : Encryption
  pub servers : List Server
  pub max_key_age_secs : Option ℕ

-- Both lengths are `u8`.
unfoldable pub cid_payload_length : RouteConfig → ℕ
cid_payload_length c = (c.server_id_length + c.nonce_length) % 256

unfoldable pub cid_length : RouteConfig → ℕ
unfolding cid_payload_length
cid_length c = (1 + cid_payload_length c) % 256

-- `Iterator::position` on the servers' ids.
unfoldable pub position : List ℕ → List Server → Option ℕ
position id [] = none
position id (s ∷ servers) =
    if bytes_eq s.id id then some 0 else Option.map suc (position id servers)

unfoldable pub find_server_idx : RouteConfig → List ℕ → Option ℕ
find_server_idx c id = position id c.servers

pub data RouteConfigError : Type 0 where
  io toml_error : RouteConfigError
  config_id_range server_id_length_range nonce_length_range : ℕ → RouteConfigError
  sum_too_long : ℕ → ℕ → RouteConfigError
  invalid_hex_key : HexError → RouteConfigError
  key_length : ℕ → RouteConfigError
  server_id_digits server_id_bytes : ℕ → RouteConfigError
  invalid_server_id : HexError → RouteConfigError
  invalid_address : RouteConfigError
  invalid_mac : MacError → RouteConfigError
  zero_max_key_age no_configs duplicate_config_id : RouteConfigError

pub record RawServer : Type 0 where
  pub id : List ℕ
  pub address : List ℕ
  pub mac : Option (List ℕ)
  pub draining : Bool

pub record RawConfig : Type 0 where
  pub config_id : ℕ
  pub first_octet_encodes_cid_length : Bool
  pub server_id_length : ℕ
  pub nonce_length : ℕ
  pub key : Option (List ℕ)
  pub servers : List RawServer
  pub max_key_age_secs : Option ℕ

unfoldable pub parse_hex_key : List ℕ → Run RouteConfigError (List ℕ)
parse_hex_key s = do
  bytes ← map_err invalid_hex_key (Hex.decode s)
  return_if (not (length bytes == 16)) (key_length (length bytes))
  ok bytes

-- `raw.mac.as_deref().map(mac::parse).transpose()`
unfoldable pub parse_mac : Option (List ℕ) → Run RouteConfigError (Option (List ℕ))
parse_mac none = ok none
parse_mac (some text) = do mac ← map_err invalid_mac (Mac.parse text); ok (some mac)

-- `seen[id]`
unfoldable pub flag {κ} : {E : Type κ} → List Bool → ℕ → Run E Bool
flag seen id = if ltb id (length seen) then ok (get_or seen id false) else panic

-- `if let Some(0) = raw.max_key_age_secs`
unfoldable pub is_zero : Option ℕ → Bool
is_zero none = false
is_zero (some n) = n == 0

module _ (new_cipher : List ℕ → Cipher) (parse_addr : List ℕ → Option IpAddr) where
  unfoldable pub parse_server : ℕ → RawServer → Run RouteConfigError Server
  parse_server expected_id_len raw = do
    let digits = length (Hex.trim raw.id)
    return_if (not (digits == expected_id_len * 2)) (server_id_digits digits)
    id ← map_err invalid_server_id (Hex.decode raw.id)
    return_if (not (length id == expected_id_len)) (server_id_bytes (length id))
    address ← or_else (parse_addr raw.address) invalid_address
    mac ← parse_mac raw.mac
    ok (record {
      id = id;
      address = address;
      mac = mac;
      draining = raw.draining;
      healthy = false;
      transitions = 0;
      state_since = none;
    })

  -- `.iter().map(parse_server).collect::<Result<_, _>>()`
  unfoldable pub parse_servers : ℕ → List RawServer → Run RouteConfigError (List Server)
  parse_servers n [] = ok []
  parse_servers n (raw ∷ rest) = do
    server ← parse_server n raw
    servers ← parse_servers n rest
    ok (server ∷ servers)

  unfoldable pub encryption_of : Option (List ℕ) → ℕ → Run RouteConfigError Encryption
  encryption_of none sum = ok plaintext
  encryption_of (some hex) sum = do
    key ← parse_hex_key hex
    if sum == 16 then ok (single_pass key (new_cipher key)) else ok (four_pass key (new_cipher key))

  unfoldable pub validate : RawConfig → Run RouteConfigError RouteConfig
  validate raw = do
    return_if (ltb 6 raw.config_id) (config_id_range raw.config_id)
    return_if (raw.server_id_length == 0 || ltb 15 raw.server_id_length)
        (server_id_length_range raw.server_id_length)
    return_if (ltb raw.nonce_length 4 || ltb 18 raw.nonce_length)
        (nonce_length_range raw.nonce_length)
    let sum = raw.server_id_length + raw.nonce_length
    return_if (ltb 19 sum) (sum_too_long raw.server_id_length raw.nonce_length)
    encryption ← encryption_of raw.key sum
    servers ← parse_servers raw.server_id_length raw.servers
    return_if (is_zero raw.max_key_age_secs) zero_max_key_age
    ok (record {
      config_id = raw.config_id;
      first_octet_encodes_cid_length = raw.first_octet_encodes_cid_length;
      server_id_length = raw.server_id_length;
      nonce_length = raw.nonce_length;
      encryption = encryption;
      servers = servers;
      max_key_age_secs = raw.max_key_age_secs;
    })

  -- The loop over `raw.configs`; `seen` is the array of flags, as the ids that are set.
  unfoldable pub parse_configs :
      List Bool → List RawConfig → Run RouteConfigError (List RouteConfig)
  parse_configs seen [] = ok []
  parse_configs seen (raw ∷ rest) = do
    config ← validate raw
    taken ← flag seen config.config_id
    return_if taken duplicate_config_id
    configs ← parse_configs (set seen config.config_id true) rest
    ok (config ∷ configs)

  -- `parse_routes` from the deserialized file on; `none` is a TOML error.
  unfoldable pub parse_routes : Option (List RawConfig) → Run RouteConfigError (List RouteConfig)
  parse_routes toml = do
    raw ← or_else toml toml_error
    return_if (length raw == 0) no_configs
    parse_configs (replicate 7 false) raw
