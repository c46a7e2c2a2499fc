-- ===== src/Routing/Cid/LongNonce.antt =====
-- pesigitg-routing/src/cid.rs: `decrypt_four_pass` with a nonce that does not fit one AES block.
use pesigitg.Prelude.{
  ◌>>◌, ◌++◌, le→ltb-false, copy_into_lem, store_lem, replicate, length-append, length-drop,
  length-replicate, Absent, return_if, ◌>>=◌, ℕ, zero, suc, ◌+◌, ◌-◌, ◌%◌, ◌^◌, ◌≤◌, ◌<◌, bit_xor,
  ◌≡◌, inl, inr, List, arith, ltb, Bool-cases, index_lem, slice_lem, length, get_or, take, drop,
  length-take, length-set, Run, run, panic,
}
use pesigitg.Routing.Route.{Cipher, four_pass, RouteConfig, cid_payload_length}
use pesigitg.Routing.Cid.{
  xor_loop, odd_pass, decrypt_passes, decrypt_four_pass, decrypt, resolve_server_idx,
}
use pesigitg.Routing.Cid.Feistel.{KeepsBlocks, padded, length-padded, round_block-eq}
use pesigitg.Routing.Cid.Safety.{Ranges}

module _ {κ} {E : Type κ} where
  xor_loop-panic :
      (n j base : ℕ) (ga buf : List ℕ)
      → base + j + n ≤ length buf
      → j ≤ length ga
      → length ga < j + n
      → ◌≡◌ {A = Run E (List ℕ)} (xor_loop n j base ga buf) panic
  unfolding xor_loop run
  xor_loop-panic zero j base ga buf h g f = absurd (omega arith)
  xor_loop-panic (suc n) j base ga buf h g f = elim (Bool-cases (ltb j (length ga))) [
    | inl e ↦
        rw
          (
            index_lem {E = E} buf (base + j) (omega arith),
            e,
            store_lem {E = E} buf (base + j) (bit_xor (get_or buf (base + j) 0) (get_or ga j 0))
                (omega arith),
          )
          (xor_loop-panic n (suc j) base ga _ (rw length-set (omega arith)) (ground arith)
            (omega arith))
    | inr e ↦ rw (index_lem {E = E} buf (base + j) (omega arith), e)
  ]

  odd_pass-panic :
      (c : Cipher) (sid_len nonce_len i : ℕ) (buf : List ℕ)
      → KeepsBlocks c
      → 1 ≤ sid_len
      → sid_len ≤ 16
      → 16 < nonce_len
      → sid_len + nonce_len ≤ length buf
      → ◌≡◌ {A = Run E (List ℕ)} (odd_pass c sid_len nonce_len i buf) panic
  unfolding odd_pass ◌>>=◌ drop
  odd_pass-panic c sid_len nonce_len i buf keeps h g f e =
      let left : List ℕ = take (sid_len - 0) buf in
      let size : length left ≡ sid_len = rw length-take (omega arith) in
      let block = keeps (padded i left) (length-padded i left (omega arith) (omega arith)) in
      let round = rw size at (round_block-eq {E = E} i left (omega arith) (omega arith)) in
      rw (slice_lem {E = E} buf 0 sid_len (omega arith) (omega arith), round)
        (xor_loop-panic nonce_len 0 sid_len _ buf (omega arith) (omega arith)
          (omega (arith, block)))

-- Under a configuration with lengths in the ranges of `validate`, the four-pass mode and a nonce of
-- more than 16 bytes, where AES encrypts blocks of 16 bytes to such blocks, every connection ID of
-- more bytes than server id and nonce together makes `resolve_server_idx` panic.
pub resolve-long_nonce :
    (dcid key : List ℕ) (cipher : Cipher) (c : RouteConfig)
    → c.encryption ≡ four_pass key cipher
    → KeepsBlocks cipher
    → Ranges c
    → 16 < c.nonce_length
    → c.server_id_length + c.nonce_length < length dcid
    → resolve_server_idx dcid c ≡ panic
unfolding resolve_server_idx cid_payload_length decrypt decrypt_four_pass decrypt_passes ◌>>=◌ ◌>>◌
    return_if take
resolve-long_nonce dcid key cipher c mode keeps r long h =
    let sum : ℕ = c.server_id_length + c.nonce_length in
    let small : sum % 256 ≡ sum = omega (arith, r.sum) in
    let nonce : (sum + 2 ^ 64 - c.server_id_length) % 2 ^ 64 ≡ c.nonce_length =
      omega (arith, r.sum) in
    let payload : List ℕ = take (1 + sum - 1) (drop 1 dcid) in
    let size : length payload ≡ sum = rw (length-take, length-drop) (omega arith) in
    let zeros = length-replicate {A = ℕ} 19 0 in
    let buf : List ℕ =
      take 0 (replicate {A = ℕ} 19 0) ++ (payload ++ drop sum (replicate {A = ℕ} 19 0)) in
    let room : length buf ≡ 19 =
      rw (length-append, length-append, length-drop) (omega (arith, r.sum)) in
    rw (
      small,
      le→ltb-false (length dcid) (1 + sum) (omega arith),
      slice_lem {E = Absent} dcid 1 (1 + sum) (omega arith) (omega arith),
      copy_into_lem {E = Absent} (replicate 19 0) 0 sum payload (omega arith) (omega (arith, r.sum))
          (omega arith),
      mode,
      nonce,
      odd_pass-panic {E = Absent} cipher c.server_id_length c.nonce_length 3 buf keeps r.sid_low
          (omega (arith, r.sid_high)) long (omega (arith, r.sum)),
    )
