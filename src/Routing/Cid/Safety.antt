-- ===== src/Routing/Cid/Safety.antt =====
-- pesigitg-routing/src/cid.rs: which of its functions cannot panic, and what they return.
use pesigitg.Prelude.{
  inl, inr, none, Bool-cases, Option-cases, bytes_eq, zero, suc, ◌-◌, ◌%◌, ◌^◌, ◌<◌, ◌≡◌, refl, ◌∙◌,
  some, [], ◌∷◌, ◌==◌, Safe-bind, Safe-weaken, Safe-option, store-Safe, index-Safe, slice-Safe,
  copy_into-Safe, length-replicate, value, ℕ, ◌+◌, ◌≤◌, List, arith, Safe, Safe-if, Safe-return_if,
  Safe-index, length, get_or,
}
use mathlib.Core.Option
use pesigitg.Routing.Route.{
  Cipher, Encryption, plaintext, single_pass, four_pass, RouteConfig, Server, cid_payload_length,
  position, find_server_idx,
}
use pesigitg.Routing.Cid.{
  is_long, long_first_octet, short_first_octet, first_cid_octet, long_dcid, short_dcid,
  extract_raw_dcid, extract_scid, xor_loop, round_block, odd_pass, even_pass, decrypt_passes,
  decrypt_four_pass, decrypt_single_pass, decrypt, resolve_server_idx,
}
use pesigitg.Routing.Cid.Feistel.{KeepsBlocks}

pub first_cid_octet-Safe : (quic : List ℕ) → Safe (λ _. Unit {0}) (first_cid_octet quic)
unfolding first_cid_octet long_first_octet short_first_octet
first_cid_octet-Safe quic = Safe-return_if _ _ _ λ h. Safe-index _ _ _ (ground arith) (
    Safe-if (is_long (get_or quic 0 0))
      (λ _. Safe-return_if _ _ _ λ g.
        Safe-index _ _ _ (ground arith) (Safe-return_if _ _ _ λ _. index-Safe _ _ (ground arith)))
      λ _. Safe-return_if _ _ _ λ g. index-Safe _ _ (ground arith))

long_dcid-Safe : (quic : List ℕ) → Safe (λ _. Unit {0}) (long_dcid quic)
unfolding long_dcid
long_dcid-Safe quic = Safe-return_if _ _ _ λ h. Safe-index _ _ _ (ground arith) (
    Safe-return_if _ _ _
      λ g. Safe-weaken (λ _ _. tt) (slice-Safe _ _ _ (omega arith) (ground arith)))

short_dcid-Safe :
    (quic : List ℕ) (cid_length : ℕ) → Safe (λ _. Unit {0}) (short_dcid quic cid_length)
unfolding short_dcid
short_dcid-Safe quic cid_length =
    Safe-return_if _ _ _
      λ g. Safe-weaken (λ _ _. tt) (slice-Safe _ _ _ (omega arith) (ground arith))

-- A DCID that is extracted is not empty, and no packet makes the extraction panic.
pub extract_raw_dcid-Safe :
    (quic : List ℕ) (cid_length : ℕ)
    → Safe (λ dcid. 1 ≤ length dcid) (extract_raw_dcid quic cid_length)
unfolding extract_raw_dcid
extract_raw_dcid-Safe quic cid_length = Safe-return_if _ _ _ λ h. Safe-index _ _ _ (ground arith) (
    Safe-bind {Q = λ _. Unit {0}} _ _
      (Safe-if (is_long (get_or quic 0 0)) (λ _. long_dcid-Safe quic)
        λ _. short_dcid-Safe quic cid_length)
      λ dcid _. Safe-return_if _ _ _ λ g. value (ground arith))

pub extract_scid-Safe : (quic : List ℕ) → Safe (λ scid. 1 ≤ length scid) (extract_scid quic)
unfolding extract_scid
extract_scid-Safe quic = Safe-return_if _ _ _ λ h. Safe-index _ _ _ (ground arith) (
    Safe-return_if _ _ _ λ _. Safe-return_if _ _ _ λ six. Safe-index _ _ _ (ground arith) (
      Safe-return_if _ _ _ λ dcid. Safe-index _ _ _ (ground arith) (
        Safe-return_if _ _ _ λ scid. Safe-return_if _ _ _ λ room.
          Safe-weaken (λ xs e. ground arith) (slice-Safe _ _ _ (omega arith) (ground arith)))))

module _ {κ} {E : Type κ} where
  xor_loop-Safe :
      (n j base : ℕ) (ga buf : List ℕ)
      → base + j + n ≤ length buf
      → j + n ≤ length ga
      → Safe {E = E} (λ b. length b ≡ length buf) (xor_loop n j base ga buf)
  unfolding xor_loop
  xor_loop-Safe zero j base ga buf h g = value refl
  xor_loop-Safe (suc n) j base ga buf h g = Safe-index _ _ _ (omega arith) (
      Safe-index _ _ _ (omega arith) (
        Safe-bind _ _ (store-Safe _ _ _ (omega arith)) λ b e.
          Safe-weaken (λ c f. f ∙ e)
            (xor_loop-Safe n (suc j) base ga b (omega arith) (omega arith))))

  round_block-Safe :
      (i n : ℕ) (half : List ℕ)
      → length half ≡ n
      → n ≤ 16
      → Safe {E = E} (λ b. length b ≡ 16) (round_block i n half)
  unfolding round_block
  round_block-Safe i n half h g =
      let zeros = length-replicate {A = ℕ} 16 0 in
      Safe-bind _ _ (copy_into-Safe _ _ _ _ (omega arith) (omega arith) (omega arith)) λ block e.
        Safe-index _ _ _ (omega arith)
          (Safe-weaken (λ b f. omega arith) (store-Safe _ _ _ (omega arith)))

  module _ (c : Cipher) (keeps : KeepsBlocks c) (sid_len nonce_len : ℕ) (hs : sid_len ≤ 16)
      (hn : nonce_len ≤ 16) where
    odd_pass-Safe :
        (i : ℕ) (buf : List ℕ)
        → sid_len + nonce_len ≤ length buf
        → Safe {E = E} (λ b. length b ≡ length buf) (odd_pass c sid_len nonce_len i buf)
    unfolding odd_pass
    odd_pass-Safe i buf h = Safe-bind _ _ (slice-Safe _ _ _ (omega arith) (omega arith)) λ left e.
        Safe-bind _ _ (round_block-Safe _ _ _ (omega arith) hs)
          λ block f. xor_loop-Safe _ _ _ _ _ (omega arith) (omega (arith, keeps block f))

    even_pass-Safe :
        (i : ℕ) (buf : List ℕ)
        → sid_len + nonce_len ≤ length buf
        → Safe {E = E} (λ b. length b ≡ length buf) (even_pass c sid_len nonce_len i buf)
    unfolding even_pass
    even_pass-Safe i buf h = Safe-bind _ _ (slice-Safe _ _ _ (omega arith) (omega arith)) λ right e.
        Safe-bind _ _ (round_block-Safe _ _ _ (omega arith) hn)
          λ block f. xor_loop-Safe _ _ _ _ _ (omega arith) (omega (arith, keeps block f))

    decrypt_passes-Safe :
        (n : ℕ) (buf : List ℕ)
        → sid_len + nonce_len ≤ length buf
        → Safe {E = E} (λ b. length b ≡ length buf) (decrypt_passes n c sid_len nonce_len buf)
    unfolding decrypt_passes
    decrypt_passes-Safe zero buf h = value refl
    decrypt_passes-Safe (suc i) buf h =
        Safe-bind _ _
          (Safe-if (i % 2 == 1) (λ _. odd_pass-Safe i buf h) λ _. even_pass-Safe i buf h)
          λ b e. Safe-weaken (λ d f. f ∙ e) (decrypt_passes-Safe i b (omega arith))

-- What decryption asks of the mode: blocks stay blocks, and in the four-pass mode the nonce fits one.
unfoldable pub Decrypts : Encryption → ℕ → Type 0
Decrypts plaintext nonce_len = Unit
Decrypts (single_pass key c) nonce_len =
    (block : List ℕ) → length block ≡ 16 → length (c.decrypt_block block) ≡ 16
Decrypts (four_pass key c) nonce_len = KeepsBlocks c × (nonce_len ≤ 16)

-- The lengths that `validate` accepts.
pub record Ranges (c : RouteConfig) : Type 0 where
  pub sid_low : 1 ≤ c.server_id_length
  pub sid_high : c.server_id_length ≤ 15
  pub nonce_low : 4 ≤ c.nonce_length
  pub nonce_high : c.nonce_length ≤ 18
  pub sum : c.server_id_length + c.nonce_length ≤ 19

decrypt-Safe {κ} :
    {E : Type κ} (e : Encryption) (buf : List ℕ) (sid_len nonce_len : ℕ)
    → length buf ≡ 19
    → sid_len ≤ 15
    → sid_len + nonce_len ≤ 19
    → Decrypts e nonce_len
    → Safe {E = E} (λ b. length b ≡ 19) (decrypt e buf sid_len (sid_len + nonce_len))
unfolding decrypt decrypt_single_pass decrypt_four_pass Decrypts
decrypt-Safe plaintext buf sid_len nonce_len h s g d = value h
decrypt-Safe (single_pass key c) buf sid_len nonce_len h s g d =
    Safe-bind _ _ (slice-Safe _ _ _ (omega arith) (omega arith)) λ block e.
      Safe-weaken (λ b f. omega arith)
        (copy_into-Safe _ _ _ _ (omega arith) (omega arith) (omega (arith, d block e)))
decrypt-Safe (four_pass key c) buf sid_len nonce_len h s g d =
    let nonce : (sid_len + nonce_len + 2 ^ 64 - sid_len) % 2 ^ 64 ≡ nonce_len = omega arith in
    rw nonce (
      Safe-weaken (λ b f. f ∙ h)
        (decrypt_passes-Safe c d.0 sid_len nonce_len (omega arith) d.1 4 buf (omega arith)))

position-bound :
    (id : List ℕ) (servers : List Server) (i : ℕ)
    → position id servers ≡ some i
    → i < length servers
unfolding position
position-bound id [] i h = ground arith
position-bound id (s ∷ servers) i h = elim (Bool-cases (bytes_eq s.id id)) [
  | inl g ↦ let e : some 0 ≡ some i = rw g at h in ground arith
  | inr g ↦
      let e : Option.map suc (position id servers) ≡ some i = rw g at h in
      elim (Option-cases (position id servers)) [
        | inl f ↦ let e' : none ≡ some i = rw f at e in ground arith
        | inr (k, f) ↦
            let e' : some (suc k) ≡ some i = rw f at e in
            let e'' : suc k ≡ i = cc in omega (arith, position-bound id servers k f)
      ]
]

-- Under a configuration with lengths in the ranges of `validate`, and with AES functions that the
-- mode uses giving blocks of 16 bytes for such blocks, and in the four-pass mode a nonce of at most
-- 16 bytes, no connection ID makes `resolve_server_idx` panic, and an index that it returns is the
-- index of a server.
pub resolve-Safe :
    (dcid : List ℕ) (c : RouteConfig)
    → Ranges c
    → Decrypts c.encryption c.nonce_length
    → Safe (λ idx. idx < length c.servers) (resolve_server_idx dcid c)
unfolding resolve_server_idx cid_payload_length find_server_idx
resolve-Safe dcid c r d =
    let small : (c.server_id_length + c.nonce_length) % 256 ≡ c.server_id_length + c.nonce_length =
      omega (arith, r.sum) in
    let zeros = length-replicate {A = ℕ} 19 0 in
    rw small (
      Safe-return_if _ _ _ λ h.
        Safe-bind _ _ (slice-Safe _ _ _ (omega arith) (ground arith)) λ payload e.
          Safe-bind _ _ (copy_into-Safe _ _ _ _ (omega arith) (omega (arith, r.sum)) (omega arith))
            λ buf f.
              Safe-bind _ _
                (decrypt-Safe c.encryption buf c.server_id_length c.nonce_length (omega arith)
                  r.sid_high r.sum d)
                λ buf' g.
                  Safe-bind _ _ (slice-Safe _ _ _ (omega arith) (omega (arith, r.sum)))
                    λ sid _. Safe-option _ _ λ idx found. position-bound sid c.servers idx found)
