-- ===== src/Retry/Build.antt =====
-- pesigitg-daemon/src/retry/packet.rs: the bytes of a Retry packet and its integrity tag. AES-128-GCM
-- with an empty plaintext is the parameter `gcm_tag`, of key, nonce and associated data.
use pesigitg.Quic.Initial.{quic_v1, quic_v2, max_cid_len}
use pesigitg.Retry.Token.{to_be_bytes}
use pesigitg.Prelude.{
  ◌%◌, ◌||◌, List, [], ◌∷◌, ltb, ◌==◌, if◌then◌else◌, length, replicate, Run, ◌>>=◌, ◌>>◌,
  return_if, slice, store, copy_into, ok, err, ℕ, ◌+◌,
}

abbrev pub retry_key_v1 : List ℕ
retry_key_v1 =
    0xbe ∷ 0x0c ∷ 0x69 ∷ 0x0b ∷ 0x9f ∷ 0x66 ∷ 0x57 ∷ 0x5a ∷ 0x1d ∷ 0x76 ∷ 0x6b ∷ 0x54 ∷ 0xe3 ∷ 0x68
    ∷ 0xc8 ∷ 0x4e ∷ []

abbrev pub retry_nonce_v1 : List ℕ
retry_nonce_v1 =
    0x46 ∷ 0x15 ∷ 0x99 ∷ 0xd3 ∷ 0x5d ∷ 0x63 ∷ 0x2b ∷ 0xf2 ∷ 0x23 ∷ 0x98 ∷ 0x25 ∷ 0xbb ∷ []

abbrev pub retry_key_v2 : List ℕ
retry_key_v2 =
    0x8f ∷ 0xb4 ∷ 0xb0 ∷ 0x1b ∷ 0x56 ∷ 0xac ∷ 0x48 ∷ 0xe2 ∷ 0x60 ∷ 0xfb ∷ 0xcb ∷ 0xce ∷ 0xad ∷ 0x7c
    ∷ 0xcc ∷ 0x92 ∷ []

abbrev pub retry_nonce_v2 : List ℕ
retry_nonce_v2 =
    0xd8 ∷ 0x69 ∷ 0x69 ∷ 0xbc ∷ 0x2d ∷ 0x7c ∷ 0x6d ∷ 0x99 ∷ 0x90 ∷ 0xef ∷ 0xb0 ∷ 0x4a ∷ []

abbrev pub integrity_tag_len : ℕ
integrity_tag_len = 16

abbrev pub pseudo_max : ℕ
pseudo_max = 1024

pub data BuildError : Type 0 where
  output_too_small cid_too_long pseudo_too_long unsupported_version : BuildError

-- The `match version` on the constants, and on the first byte.
pub tag_constants : ℕ → Run BuildError (List ℕ × List ℕ)
tag_constants version =
    if version == quic_v1
    then ok (retry_key_v1, retry_nonce_v1)
    else if version == quic_v2
    then ok (retry_key_v2, retry_nonce_v2)
    else err unsupported_version

pub retry_first_byte : ℕ → Run BuildError ℕ
retry_first_byte version =
    if version == quic_v1
    then ok 0xf0
    else if version == quic_v2
    then ok 0xc0
    else err unsupported_version

module _ (gcm_tag : List ℕ → List ℕ → List ℕ → List ℕ) where
  pub compute_integrity_tag : ℕ → List ℕ → List ℕ → Run BuildError (List ℕ)
  compute_integrity_tag version odcid retry_without_tag = do
    return_if (ltb max_cid_len (length odcid)) cid_too_long
    (key, iv) ← tag_constants version
    let pseudo_len = 1 + length odcid + length retry_without_tag
    return_if (ltb pseudo_max pseudo_len) pseudo_too_long
    pseudo ← store (replicate pseudo_max 0) 0 (length odcid % 256)
    pseudo' ← copy_into pseudo 1 (1 + length odcid) odcid
    pseudo'' ← copy_into pseudo' (1 + length odcid) pseudo_len retry_without_tag
    aad ← slice pseudo'' 0 pseudo_len
    copy_into (replicate 16 0) 0 16 (gcm_tag key iv aad)

  -- The writes into `out`, one after the other; the number of bytes that were written.
  pub build_retry : List ℕ → ℕ → List ℕ → List ℕ → List ℕ → List ℕ → Run BuildError (List ℕ × ℕ)
  build_retry out version odcid dcid scid token = do
    return_if
        ((ltb max_cid_len (length odcid) || ltb max_cid_len (length dcid))
          || ltb max_cid_len (length scid))
        cid_too_long
    first_byte ← retry_first_byte version
    let body_len = 1 + 4 + 1 + length dcid + 1 + length scid + length token
    let total = body_len + integrity_tag_len
    return_if (ltb (length out) total) output_too_small
    out1 ← store out 0 first_byte
    out2 ← copy_into out1 1 5 (to_be_bytes 4 version)
    out3 ← store out2 5 (length dcid % 256)
    out4 ← copy_into out3 6 (6 + length dcid) dcid
    let off = 6 + length dcid
    out5 ← store out4 off (length scid % 256)
    let off' = off + 1
    out6 ← copy_into out5 off' (off' + length scid) scid
    let off'' = off' + length scid
    out7 ← copy_into out6 off'' (off'' + length token) token
    body ← slice out7 0 body_len
    tag ← compute_integrity_tag version odcid body
    out8 ← copy_into out7 body_len total tag
    ok (out8, total)
