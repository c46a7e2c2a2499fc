-- ===== src/Encoder.antt =====
-- contrib/quic-lb-core/src/lib.rs: the server's generator of Connection IDs. `rand` is outside the
-- repository: `fill_bytes n` stands for `n` random bytes, `low` for one. The passes of the Feistel
-- construction are written in both crates alike: `odd_pass` and `even_pass` of `Routing.Cid`.
pub mod Passes
pub mod RoundTrip
use pesigitg.Routing.Route.{Cipher, Encryption, plaintext, single_pass, four_pass}
use pesigitg.Routing.Cid.{odd_pass, even_pass}
use pesigitg.Prelude.{
  zero, suc, ◌+◌, ◌-◌, ◌*◌, ◌%◌, bit_and, bit_or, Bool, not, ◌&&◌, List, leb, ◌==◌, if◌then◌else◌,
  length, replicate, Run, Absent, ◌>>=◌, ◌>>◌, assert, slice, store, copy_into, ok, ℕ,
}

pub record QuicLbEncoder : Type 0 where
  pub config_id : ℕ
  pub server_id : List ℕ
  pub nonce_length : ℕ
  pub encryption : Encryption
  pub encode_cid_length : Bool

-- `QuicLbEncoder::new`, with its assertions.
pub new : ℕ → List ℕ → ℕ → Encryption → Bool → Run Absent QuicLbEncoder
new config_id server_id nonce_length encryption encode_cid_length = do
  assert (leb config_id 6)
  assert (not (length server_id == 0) && leb (length server_id) 15)
  assert (leb 4 nonce_length && leb nonce_length 18)
  assert (leb (length server_id + nonce_length) 19)
  ok (record {
    config_id = config_id;
    server_id = server_id;
    nonce_length = nonce_length;
    encryption = encryption;
    encode_cid_length = encode_cid_length;
  })

unfoldable pub cid_length : QuicLbEncoder → ℕ
cid_length enc = 1 + length enc.server_id + enc.nonce_length

-- `self.config_id << 5` on `u8`, `saturating_sub(1)` and the masks of the five low bits.
unfoldable pub first_octet : QuicLbEncoder → ℕ → ℕ
unfolding cid_length
first_octet enc low =
    let upper = enc.config_id * 32 % 256 in
    if enc.encode_cid_length
    then bit_or upper (bit_and (cid_length enc % 256 - 1) 0x1f)
    else bit_or upper (bit_and low 0x1f)

-- Pass `i`, and the loop over `0..4u8` from pass `i` on with `n` passes left.
unfoldable pub encrypt_passes : ℕ → ℕ → Cipher → ℕ → ℕ → List ℕ → Run Absent (List ℕ)
encrypt_passes zero i cipher sid_len nonce_len buf = ok buf
encrypt_passes (suc n) i cipher sid_len nonce_len buf = do
  buf' ←
      if i % 2 == 0
      then even_pass cipher sid_len nonce_len i buf
      else odd_pass cipher sid_len nonce_len i buf
  encrypt_passes n (i + 1) cipher sid_len nonce_len buf'

unfoldable pub encrypt_four_pass : List ℕ → ℕ → ℕ → Cipher → Run Absent (List ℕ)
encrypt_four_pass buf sid_len nonce_len cipher = encrypt_passes 4 0 cipher sid_len nonce_len buf

pub encrypt_single_pass : List ℕ → Cipher → List ℕ
encrypt_single_pass payload cipher = cipher.encrypt_block payload

-- The `match &self.encryption` on the array `payload` of 19 bytes.
unfoldable pub encrypt : Encryption → List ℕ → ℕ → ℕ → Run Absent (List ℕ)
encrypt plaintext payload sid_len nonce_len = ok payload
encrypt (single_pass key cipher) payload sid_len nonce_len = do
  front ← slice payload 0 (sid_len + nonce_len)
  block ← copy_into (replicate 16 0) 0 (sid_len + nonce_len) front
  copy_into payload 0 16 (encrypt_single_pass block cipher)
encrypt (four_pass key cipher) payload sid_len nonce_len = do
  front ← slice payload 0 (sid_len + nonce_len)
  front' ← encrypt_four_pass front sid_len nonce_len cipher
  copy_into payload 0 (sid_len + nonce_len) front'

module _ (fill_bytes : ℕ → List ℕ) (low : ℕ) where
  unfoldable pub encode_into : QuicLbEncoder → List ℕ → Run Absent (List ℕ × ℕ)
  unfolding cid_length
  encode_into enc buf = do
    let cid_len = cid_length enc
    assert (leb cid_len (length buf))
    let sid_len = length enc.server_id
    let nonce_len = enc.nonce_length
    let payload_len = sid_len + nonce_len
    payload ← copy_into (replicate 19 0) 0 sid_len enc.server_id
    payload' ← copy_into payload sid_len payload_len (fill_bytes (payload_len - sid_len))
    payload'' ← encrypt enc.encryption payload' sid_len nonce_len
    buf' ← store buf 0 (first_octet enc low)
    front ← slice payload'' 0 payload_len
    buf'' ← copy_into buf' 1 cid_len front
    ok (buf'', cid_len)

  unfoldable pub encode_to_vec : QuicLbEncoder → Run Absent (List ℕ)
  encode_to_vec enc = do (buf, n) ← encode_into enc (replicate (cid_length enc) 0); ok buf
