-- ===== src/Routing/Cid.antt =====
-- pesigitg-routing/src/cid.rs: where the Connection IDs lie in a packet, and how one is decrypted.
pub mod Feistel
pub mod Safety
pub mod LongNonce
use pesigitg.Routing.Route.{
  Cipher, Encryption, plaintext, single_pass, four_pass, RouteConfig, cid_payload_length,
  find_server_idx,
}
use pesigitg.Prelude.{
  zero, suc, ◌+◌, ◌-◌, ◌%◌, ◌^◌, bit_and, bit_xor, Bool, not, List, ltb, ◌==◌, if◌then◌else◌,
  length, replicate, Run, Absent, ◌>>=◌, ◌>>◌, return_if, or_else, index, slice, store, copy_into,
  ok, absent, ℕ,
}

abbrev is_long : ℕ → Bool
is_long first = not (bit_and first 0x80 == 0)

-- Long header: [header(1)][version(4)][dcid_len(1)][dcid(..)]
unfoldable pub long_first_octet : List ℕ → Run Absent ℕ
long_first_octet quic = do
  return_if (ltb (length quic) 7) absent
  dcid_len ← index quic 5
  return_if (dcid_len == 0) absent
  index quic 6

-- Short header: [header(1)][dcid(..)]
unfoldable pub short_first_octet : List ℕ → Run Absent ℕ
short_first_octet quic = do return_if (ltb (length quic) 2) absent; index quic 1

unfoldable pub first_cid_octet : List ℕ → Run Absent ℕ
first_cid_octet quic = do
  return_if (length quic == 0) absent
  first ← index quic 0
  if is_long first then long_first_octet quic else short_first_octet quic

unfoldable pub long_dcid : List ℕ → Run Absent (List ℕ)
long_dcid quic = do
  return_if (ltb (length quic) 6) absent
  dcid_len ← index quic 5
  let end = 6 + dcid_len
  return_if (ltb (length quic) end) absent
  slice quic 6 end

unfoldable pub short_dcid : List ℕ → ℕ → Run Absent (List ℕ)
short_dcid quic cid_length = do
  let end = 1 + cid_length
  return_if (ltb (length quic) end) absent
  slice quic 1 end

unfoldable pub extract_raw_dcid : List ℕ → ℕ → Run Absent (List ℕ)
extract_raw_dcid quic cid_length = do
  return_if (length quic == 0) absent
  first ← index quic 0
  dcid ← if is_long first then long_dcid quic else short_dcid quic cid_length
  return_if (length dcid == 0) absent
  ok dcid

unfoldable pub extract_scid : List ℕ → Run Absent (List ℕ)
extract_scid quic = do
  return_if (length quic == 0) absent
  first ← index quic 0
  return_if (bit_and first 0x80 == 0) absent
  return_if (ltb (length quic) 6) absent
  dcid_len ← index quic 5
  let scid_len_offset = 6 + dcid_len
  return_if (ltb (length quic) (scid_len_offset + 1)) absent
  scid_len ← index quic scid_len_offset
  return_if (scid_len == 0) absent
  let scid_start = scid_len_offset + 1
  let scid_end = scid_start + scid_len
  return_if (ltb (length quic) scid_end) absent
  slice quic scid_start scid_end

module _ {κ} {E : Type κ} where
  -- `for j in 0..n { buf[base + j] ^= ga[j]; }`, from round `j` on with `n` rounds left.
  unfoldable pub xor_loop : ℕ → ℕ → ℕ → List ℕ → List ℕ → Run E (List ℕ)
  xor_loop zero j base ga buf = ok buf
  xor_loop (suc n) j base ga buf = do
    b ← index buf (base + j)
    g ← index ga j
    buf' ← store buf (base + j) (bit_xor b g)
    xor_loop n (suc j) base ga buf'

  -- `let mut block = [0u8; 16]; block[..n].copy_from_slice(half); block[0] ^= i;`
  unfoldable pub round_block : ℕ → ℕ → List ℕ → Run E (List ℕ)
  round_block i n half = do
    block ← copy_into (replicate 16 0) 0 n half
    b ← index block 0
    store block 0 (bit_xor b i)

  -- Odd pass: encrypt Left (server_id), XOR into Right (nonce).
  unfoldable pub odd_pass : Cipher → ℕ → ℕ → ℕ → List ℕ → Run E (List ℕ)
  odd_pass cipher sid_len nonce_len i buf = do
    left ← slice buf 0 sid_len
    block ← round_block i sid_len left
    xor_loop nonce_len 0 sid_len (cipher.encrypt_block block) buf

  -- Even pass: encrypt Right (nonce), XOR into Left (server_id).
  unfoldable pub even_pass : Cipher → ℕ → ℕ → ℕ → List ℕ → Run E (List ℕ)
  even_pass cipher sid_len nonce_len i buf = do
    right ← slice buf sid_len (sid_len + nonce_len)
    block ← round_block i nonce_len right
    xor_loop sid_len 0 0 (cipher.encrypt_block block) buf

  -- The loop over `(0..4u8).rev()`, from pass `i - 1` down.
  unfoldable pub decrypt_passes : ℕ → Cipher → ℕ → ℕ → List ℕ → Run E (List ℕ)
  decrypt_passes zero cipher sid_len nonce_len buf = ok buf
  decrypt_passes (suc i) cipher sid_len nonce_len buf = do
    buf' ←
        if i % 2 == 1
        then odd_pass cipher sid_len nonce_len i buf
        else even_pass cipher sid_len nonce_len i buf
    decrypt_passes i cipher sid_len nonce_len buf'

  unfoldable pub decrypt_four_pass : List ℕ → ℕ → ℕ → Cipher → Run E (List ℕ)
  decrypt_four_pass buf sid_len nonce_len cipher = decrypt_passes 4 cipher sid_len nonce_len buf

  unfoldable pub decrypt_single_pass : List ℕ → Cipher → Run E (List ℕ)
  decrypt_single_pass buf cipher = do
    block ← slice buf 0 16
    copy_into buf 0 16 (cipher.decrypt_block block)

  -- The `match &config.encryption`; `-` on `usize` wraps.
  unfoldable pub decrypt : Encryption → List ℕ → ℕ → ℕ → Run E (List ℕ)
  decrypt plaintext buf sid_len payload_len = ok buf
  decrypt (single_pass key cipher) buf sid_len payload_len = decrypt_single_pass buf cipher
  decrypt (four_pass key cipher) buf sid_len payload_len =
      decrypt_four_pass buf sid_len ((payload_len + 2 ^ 64 - sid_len) % 2 ^ 64) cipher

unfoldable pub resolve_server_idx : List ℕ → RouteConfig → Run Absent ℕ
resolve_server_idx dcid config = do
  let payload_len = cid_payload_length config
  let sid_len = config.server_id_length
  return_if (ltb (length dcid) (1 + payload_len)) absent
  payload ← slice dcid 1 (1 + payload_len)
  buf ← copy_into (replicate 19 0) 0 payload_len payload
  buf' ← decrypt config.encryption buf sid_len payload_len
  sid ← slice buf' 0 sid_len
  or_else (find_server_idx config sid) absent
