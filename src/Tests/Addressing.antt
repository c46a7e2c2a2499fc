-- ===== src/Tests/Addressing.antt =====
-- Instances of the theorems on connection IDs, route files and the addresses in them.
use pesigitg.Prelude.{
  zero, suc, ℕ, ◌≤◌, ◌<◌, ◌≡◌, refl, false, none, some, List, [], ◌∷◌, ◌++◌, arith, Safe, replicate,
  All, length-replicate, or_else, ok, panic, absent,
}
use pesigitg.Common.Hex.{encode, decode, hex_value, is_whitespace}
use pesigitg.Common.Hex.RoundTrip.{IsByte, decode-encode, decode_sign, decode_char}
use pesigitg.Common.Mac.{parse, format}
use pesigitg.Common.Mac.RoundTrip.{parse-format}
use pesigitg.Encoder.{encode_to_vec}
use pesigitg.Encoder.RoundTrip.{resolve-encode}
use pesigitg.Routing.Cid.{resolve_server_idx}
use pesigitg.Routing.Cid.Safety.{Ranges, Decrypts, resolve-Safe}
use pesigitg.Routing.Cid.LongNonce.{resolve-long_nonce}
use pesigitg.Routing.Route.{
  four_pass, RawServer, RawConfig, find_server_idx, validate, parse_routes,
}
use pesigitg.Routing.Route.Validate.{HasAsciiKey, HasAsciiTexts, IsValid, validate-Safe}
use pesigitg.Routing.Route.DistinctIds.{HasAsciiFile, AllValid, Unique, parse_routes-Safe}
use pesigitg.Tests.Samples.{
  key, xor_cipher, xor_cipher-IsBlockCipher, route_with, route_a, encoder_a, dcid_a, address_a,
}

decode-encode_example : decode (encode (0xab ∷ 0x01 ∷ [])) ≡ ok (0xab ∷ 0x01 ∷ [])
decode-encode_example = decode-encode (0xab ∷ 0x01 ∷ []) (omega arith, (omega arith, tt))

f_value : hex_value b'f' ≡ some 15
unfolding hex_value
f_value = refl

decode_sign_example : decode (b'+' ∷ b'f' ∷ []) ≡ ok (15 ∷ [])
decode_sign_example = decode_sign b'f' 15 f_value

abbrev mac_b : List ℕ
mac_b = 1 ∷ 2 ∷ 3 ∷ 4 ∷ 5 ∷ 255 ∷ []

mac_b-bytes : All IsByte mac_b
mac_b-bytes =
    (omega arith, (omega arith, (omega arith, (omega arith, (omega arith, (omega arith, tt))))))

parse-format_example : parse (format mac_b) ≡ ok mac_b
parse-format_example = parse-format mac_b mac_b-bytes refl

resolve-encode_example :
    (cid : List ℕ) × (encode_to_vec (λ n. replicate n 0x5a) 3 encoder_a ≡ ok cid)
    × (resolve_server_idx (cid ++ (1 ∷ [])) route_a
        ≡ or_else (find_server_idx route_a (0xab ∷ 0xcd ∷ [])) absent)
resolve-encode_example =
    resolve-encode encoder_a (λ n. replicate n 0x5a) 3 (λ n. length-replicate n 0x5a)
      (omega arith, omega arith, omega arith, omega arith) route_a (1 ∷ [])
      (record { sid = refl; nonce = refl; mode = refl }) (xor_cipher-IsBlockCipher, omega arith)

route_with-Ranges : (n : ℕ) → 4 ≤ n → n ≤ 17 → Ranges (route_with n)
route_with-Ranges n h g = record {
  sid_low = omega arith;
  sid_high = omega arith;
  nonce_low = h;
  nonce_high = omega arith;
  sum = omega arith;
}

route_a-Decrypts : Decrypts (four_pass key xor_cipher) 6
unfolding Decrypts
route_a-Decrypts = (xor_cipher-IsBlockCipher.keeps, omega arith)

resolve-Safe_example : Safe (λ idx. idx < 1) (resolve_server_idx dcid_a route_a)
resolve-Safe_example =
    resolve-Safe dcid_a route_a (route_with-Ranges 6 (omega arith) (omega arith)) route_a-Decrypts

resolve-long_nonce_example : resolve_server_idx (replicate 20 0) (route_with 17) ≡ panic
unfolding replicate
resolve-long_nonce_example =
    resolve-long_nonce (replicate 20 0) key xor_cipher (route_with 17) refl
      xor_cipher-IsBlockCipher.keeps (route_with-Ranges 17 (omega arith) (omega arith))
      (omega arith) (omega arith)

abbrev raw_server : RawServer
raw_server = record { id = b'a' ∷ b'b' ∷ []; address = []; mac = none; draining = false }

abbrev raw_config : RawConfig
raw_config = record {
  config_id = 1;
  first_octet_encodes_cid_length = false;
  server_id_length = 1;
  nonce_length = 4;
  key = some (replicate 32 b'a');
  servers = raw_server ∷ [];
  max_key_age_secs = none;
}

replicate-All {ℓ κ} : {A : Type ℓ} (P : A → Type κ) (n : ℕ) (a : A) → P a → All P (replicate n a)
unfolding replicate
replicate-All P zero a h = tt
replicate-All P (suc n) a h = (h, replicate-All P n a h)

raw_config-HasAsciiTexts : HasAsciiTexts raw_config
unfolding HasAsciiTexts HasAsciiKey
raw_config-HasAsciiTexts =
    (replicate-All (λ c. c < 128) 32 b'a' (omega arith), ((omega arith, (omega arith, tt)), tt))

validate-Safe_example :
    Safe
      (IsValid (λ k. xor_cipher))
      (validate (λ k. xor_cipher) (λ text. some address_a) raw_config)
validate-Safe_example =
    validate-Safe (λ k. xor_cipher) (λ text. some address_a) raw_config raw_config-HasAsciiTexts

raw_file-HasAsciiFile : HasAsciiFile (some (raw_config ∷ []))
unfolding HasAsciiFile
raw_file-HasAsciiFile = (raw_config-HasAsciiTexts, tt)

parse_routes-Safe_example :
    Safe
      (λ cs. AllValid (λ k. xor_cipher) cs × Unique cs)
      (parse_routes (λ k. xor_cipher) (λ text. some address_a) (some (raw_config ∷ [])))
parse_routes-Safe_example =
    parse_routes-Safe (λ k. xor_cipher) (λ text. some address_a) (some (raw_config ∷ []))
      raw_file-HasAsciiFile

-- The text `aéb`.
decode_char_example : decode (b'a' ∷ 0xc3 ∷ 0xa9 ∷ b'b' ∷ []) ≡ panic
unfolding is_whitespace
decode_char_example =
    decode_char b'a' 0xc3 0xa9 b'b' refl (omega arith) (omega arith) (omega arith) refl
      (omega arith)
