-- ===== src/Routing/Route/Validate.antt =====
-- pesigitg-routing/src/route.rs: what `validate` and `parse_routes` let through.
use pesigitg.Prelude.{
  true, ◌&&◌, Safe-assert, All, ℕ, ◌+◌, ◌-◌, ◌*◌, ◌/◌, ◌≤◌, ◌<◌, ◌≡◌, refl, ◌≢◌, Bool, false,
  Option, none, some, List, [], ◌∷◌, arith, ◌==◌, lt→ltb, Safe, Safe-if, Safe-return_if,
  Safe-or_else, Safe-bind, Safe-weaken, Safe-map_err, length, get_or, value,
}
use pesigitg.Routing.Route.Macs.{IsMac, HaveMacs}
use pesigitg.Common.Address.{IpAddr}
use pesigitg.Common.Hex
use pesigitg.Common.Hex.{decode_pairs, is_char_boundary}
use pesigitg.Common.Hex.Trim.{IsAscii, trim-IsAscii, boundary-IsAscii}
use pesigitg.Common.Mac.{parse_octets}
use pesigitg.Common.Mac
use pesigitg.Routing.Route.{
  Cipher, Encryption, plaintext, single_pass, four_pass, Server, RouteConfig, RawServer, RawConfig,
  parse_hex_key, parse_mac, flag, parse_server, parse_servers, encryption_of, validate,
}

-- The mode that the lengths and the key call for.
pub data Mode (new_cipher : List ℕ → Cipher) (sum : ℕ) : Encryption → Type 0 where
  no_key : Mode new_cipher sum plaintext
  one_block :
      (key : List ℕ)
      → length key ≡ 16
      → sum ≡ 16
      → Mode new_cipher sum (single_pass key (new_cipher key))
  feistel :
      (key : List ℕ)
      → length key ≡ 16
      → sum ≢ 16
      → Mode new_cipher sum (four_pass key (new_cipher key))

-- Every server has an id of the length that its configuration says.
unfoldable pub HaveIds : ℕ → List Server → Type 0
HaveIds n [] = Unit
HaveIds n (s ∷ servers) = (length s.id ≡ n) × HaveIds n servers

pub record IsValid (new_cipher : List ℕ → Cipher) (c : RouteConfig) : Type 0 where
  pub id_range : c.config_id ≤ 6
  pub sid_low : 1 ≤ c.server_id_length
  pub sid_high : c.server_id_length ≤ 15
  pub nonce_low : 4 ≤ c.nonce_length
  pub nonce_high : c.nonce_length ≤ 18
  pub sum : c.server_id_length + c.nonce_length ≤ 19
  pub mode : Mode new_cipher (c.server_id_length + c.nonce_length) c.encryption
  pub ids : HaveIds c.server_id_length c.servers
  pub macs : HaveMacs c.servers

decode_pairs-Safe :
    (i : ℕ) (s : List ℕ) (half : ℕ)
    → IsAscii s
    → length s ≡ 2 * half
    → Safe (λ _. Unit {0}) (decode_pairs i s)
unfolding decode_pairs
decode_pairs-Safe i [] half a h = value tt
decode_pairs-Safe i (c ∷ []) half a h = absurd (omega arith)
decode_pairs-Safe i (c ∷ d ∷ s) half a h =
    let whole : (is_char_boundary (c ∷ d ∷ s) && is_char_boundary s) ≡ true =
      rw (boundary-IsAscii (c ∷ d ∷ s) a, boundary-IsAscii s a.1.1) refl in
    Safe-assert _ _ whole (
      Safe-or_else _ _ _ λ byte _.
        Safe-bind _ _ (decode_pairs-Safe (i + 2) s (half - 1) a.1.1 (omega arith))
          λ bytes _. value tt)

pub decode-Safe : (text : List ℕ) → IsAscii text → Safe (λ _. Unit {0}) (Hex.decode text)
unfolding Hex.decode
decode-Safe text a = Safe-return_if _ _ _ λ h.
    decode_pairs-Safe 0 (Hex.trim text) (length (Hex.trim text) / 2) (trim-IsAscii text a)
      (ground arith)

-- The texts of an entry that are read as hex digits are ASCII.
unfoldable pub HasAsciiKey : Option (List ℕ) → Type 0
HasAsciiKey none = Unit
HasAsciiKey (some key) = IsAscii key

unfoldable pub HasAsciiTexts : RawConfig → Type 0
HasAsciiTexts raw = HasAsciiKey raw.key × All (λ server. IsAscii server.id) raw.servers

parse_octets-Safe :
    (i : ℕ) (parts : List (List ℕ)) → Safe (λ mac. length mac ≡ length parts) (parse_octets i parts)
unfolding parse_octets
parse_octets-Safe i [] = value refl
parse_octets-Safe i (part ∷ parts) =
    Safe-or_else _ _ _
      λ octet _. Safe-bind _ _ (parse_octets-Safe (i + 1) parts) λ octets e. value (omega arith)

mac-Safe : (text : List ℕ) → Safe (λ mac. length mac ≡ 6) (Mac.parse text)
unfolding Mac.parse
mac-Safe text =
    Safe-return_if _ _ _ λ h. Safe-weaken (λ mac e. ground arith) (parse_octets-Safe 0 _)

parse_mac-Safe : (o : Option (List ℕ)) → Safe IsMac (parse_mac o)
unfolding parse_mac IsMac
parse_mac-Safe none = value tt
parse_mac-Safe (some text) = Safe-bind _ _ (Safe-map_err _ (mac-Safe text)) λ mac e. value e

parse_hex_key-Safe : (s : List ℕ) → IsAscii s → Safe (λ key. length key ≡ 16) (parse_hex_key s)
unfolding parse_hex_key
parse_hex_key-Safe s a =
    Safe-bind _ _ (Safe-map_err _ (decode-Safe s a))
      λ bytes _. Safe-return_if _ _ _ λ h. value (ground arith)

pub flag-Safe {κ} :
    {E : Type κ} (seen : List Bool) (id : ℕ)
    → id < length seen
    → Safe {E = E} (λ b. b ≡ get_or seen id false) (flag seen id)
unfolding flag
flag-Safe seen id h = rw (lt→ltb id (length seen) h) (value refl)

module _ (new_cipher : List ℕ → Cipher) (parse_addr : List ℕ → Option IpAddr) where
  parse_server-Safe :
      (n : ℕ) (raw : RawServer)
      → IsAscii raw.id
      → Safe (λ s. (length s.id ≡ n) × IsMac s.mac) (parse_server new_cipher parse_addr n raw)
  unfolding parse_server
  parse_server-Safe n raw a = Safe-return_if _ _ _ λ _.
      Safe-bind _ _ (Safe-map_err _ (decode-Safe raw.id a)) λ id _. Safe-return_if _ _ _ λ size.
        Safe-or_else _ _ _ λ address _.
          Safe-bind _ _ (parse_mac-Safe raw.mac)
            λ mac m. value (let e : length id ≡ n = ground arith in e, m)

  parse_servers-Safe :
      (n : ℕ) (raw : List RawServer)
      → All (λ server. IsAscii server.id) raw
      → Safe
          (λ servers. HaveIds n servers × HaveMacs servers)
          (parse_servers new_cipher parse_addr n raw)
  unfolding parse_servers HaveIds HaveMacs
  parse_servers-Safe n [] a = value (tt, tt)
  parse_servers-Safe n (raw ∷ rest) a = Safe-bind _ _ (parse_server-Safe n raw a.0) λ server h.
      Safe-bind _ _ (parse_servers-Safe n rest a.1) λ servers g. value ((h.0, g.0), (h.1, g.1))

  encryption_of-Safe :
      (key : Option (List ℕ)) (sum : ℕ)
      → HasAsciiKey key
      → Safe (Mode new_cipher sum) (encryption_of new_cipher parse_addr key sum)
  unfolding encryption_of HasAsciiKey
  encryption_of-Safe none sum a = value no_key
  encryption_of-Safe (some hex) sum a = Safe-bind _ _ (parse_hex_key-Safe hex a) λ key h.
      Safe-if (sum == 16) (λ e. value (one_block key h (ground arith)))
        λ e. value (feistel key h (ground arith))

  -- On a deserialized entry whose key and server ids are ASCII texts `validate` returns without a
  -- panic. What it accepts has a config_id
  -- of at most 6, a server id of 1 to 15 and a nonce of 4 to 18 bytes with a sum of at most 19, and
  -- servers whose ids have the configured length and whose MACs, where given, have six bytes. Its
  -- mode is plaintext, or single-pass with a sum of 16, or four-pass with another sum, the last two
  -- with a key of 16 bytes.
  pub validate-Safe :
      (raw : RawConfig)
      → HasAsciiTexts raw
      → Safe (IsValid new_cipher) (validate new_cipher parse_addr raw)
  unfolding validate HasAsciiTexts
  validate-Safe raw a = Safe-return_if _ _ _ λ id. Safe-return_if _ _ _ λ sid.
      Safe-return_if _ _ _ λ nonce. Safe-return_if _ _ _ λ sum.
        Safe-bind _ _ (encryption_of-Safe raw.key _ a.0) λ e mode.
          Safe-bind _ _ (parse_servers-Safe raw.server_id_length raw.servers a.1) λ servers h.
            Safe-return_if _ _ _ λ _. value (record {
              id_range = ground arith;
              sid_low = ground arith;
              sid_high = ground arith;
              nonce_low = ground arith;
              nonce_high = ground arith;
              sum = ground arith;
              mode = mode;
              ids = h.0;
              macs = h.1;
            })
