-- ===== src/Encoder/Passes.antt =====
-- contrib/quic-lb-core/src/lib.rs against pesigitg-routing/src/cid.rs: each decryption undoes the
-- encryption of the other crate.
use pesigitg.Routing.Route.{Cipher}
use pesigitg.Routing.Cid.{odd_pass, even_pass, decrypt_passes, decrypt_four_pass}
use pesigitg.Routing.Cid.Feistel.{KeepsBlocks, mask, odd_pass-eq, even_pass-eq}
use pesigitg.Encoder.{encrypt_passes, encrypt_four_pass}
use pesigitg.Prelude.{
  ◌>>=◌, ◌≤◌, ◌≡◌, ◌∙◌, List, ◌++◌, arith, xor_bytes, length-xor_bytes, xor_bytes_twice, length,
  Run, Absent, ok, ℕ,
}

-- What the code relies on of AES: blocks stay blocks, and decryption undoes encryption.
pub record IsBlockCipher (c : Cipher) : Type 0 where
  pub keeps : KeepsBlocks c
  pub inverse :
      (block : List ℕ) → length block ≡ 16 → c.decrypt_block (c.encrypt_block block) ≡ block

module _ (c : Cipher) (keeps : KeepsBlocks c) (sid_len nonce_len : ℕ)
    (bounds : (1 ≤ sid_len) × (sid_len ≤ 16) × (1 ≤ nonce_len) × (nonce_len ≤ 16)) where
  odd_at :
      (i : ℕ) (l r z : List ℕ)
      → length l ≡ sid_len
      → length r ≡ nonce_len
      → ◌≡◌ {A = Run Absent (List ℕ)}
          (odd_pass c sid_len nonce_len i (l ++ (r ++ z)))
          (ok (l ++ (xor_bytes r (mask c i l) ++ z)))
  odd_at i l r z h g =
      rw (← h, ← g)
        (odd_pass-eq {E = Absent} c keeps l r i z (omega arith) (omega arith) (omega arith))

  even_at :
      (i : ℕ) (l r z : List ℕ)
      → length l ≡ sid_len
      → length r ≡ nonce_len
      → ◌≡◌ {A = Run Absent (List ℕ)}
          (even_pass c sid_len nonce_len i (l ++ (r ++ z)))
          (ok (xor_bytes l (mask c i r) ++ (r ++ z)))
  even_at i l r z h g =
      rw (← h, ← g)
        (even_pass-eq {E = Absent} c keeps l r i z (omega arith) (omega arith) (omega arith))

  module _ (l r : List ℕ) (hl : length l ≡ sid_len) (hr : length r ≡ nonce_len) where
    abbrev pub left1 : List ℕ
    left1 = xor_bytes l (mask c 0 r)

    abbrev pub right1 : List ℕ
    right1 = xor_bytes r (mask c 1 left1)

    abbrev pub left2 : List ℕ
    left2 = xor_bytes left1 (mask c 2 right1)

    abbrev pub right3 : List ℕ
    right3 = xor_bytes right1 (mask c 3 left2)

    length-left1 : length left1 ≡ sid_len
    length-left1 = length-xor_bytes l _ ∙ hl

    length-right1 : length right1 ≡ nonce_len
    length-right1 = length-xor_bytes r _ ∙ hr

    pub length-left2 : length left2 ≡ sid_len
    length-left2 = length-xor_bytes left1 _ ∙ length-left1

    pub length-right3 : length right3 ≡ nonce_len
    length-right3 = length-xor_bytes right1 _ ∙ length-right1

    pub encrypt_four_pass-eq :
        (z : List ℕ)
        → encrypt_four_pass (l ++ (r ++ z)) sid_len nonce_len c ≡ ok (left2 ++ (right3 ++ z))
    unfolding encrypt_four_pass encrypt_passes ◌>>=◌
    encrypt_four_pass-eq z = rw (
      even_at 0 l r z hl hr,
      odd_at 1 left1 r z length-left1 hr,
      even_at 2 left1 right1 z length-left1 length-right1,
      odd_at 3 left2 right1 z length-left2 length-right1,
    )

    -- The four passes backwards undo the four passes forwards.
    pub decrypt_four_pass-eq :
        (z : List ℕ)
        → ◌≡◌ {A = Run Absent (List ℕ)}
            (decrypt_four_pass (left2 ++ (right3 ++ z)) sid_len nonce_len c)
            (ok (l ++ (r ++ z)))
    unfolding decrypt_four_pass decrypt_passes ◌>>=◌
    decrypt_four_pass-eq z = rw (
      odd_at 3 left2 right3 z length-left2 length-right3,
      xor_bytes_twice right1 (mask c 3 left2),
      even_at 2 left2 right1 z length-left2 length-right1,
      xor_bytes_twice left1 (mask c 2 right1),
      odd_at 1 left1 right1 z length-left1 length-right1,
      xor_bytes_twice r (mask c 1 left1),
      even_at 0 left1 r z length-left1 hr,
      xor_bytes_twice l (mask c 0 r),
    )
