-- ===== src/Encoder/RoundTrip.antt =====
-- contrib/quic-lb-core/src/lib.rs and pesigitg-routing/src/cid.rs: a Connection ID that a server
-- generates is routed back to that server.
use mathlib.Core.List.{append_assoc, append-nil}
use pesigitg.Routing.Route.{
  Cipher, Encryption, plaintext, single_pass, four_pass, RouteConfig, cid_payload_length,
  find_server_idx,
}
use pesigitg.Routing.Cid.{decrypt_single_pass, decrypt, resolve_server_idx}
use pesigitg.Encoder.{
  QuicLbEncoder, encrypt_single_pass, encrypt, cid_length, encode_into, encode_to_vec, first_octet,
}
use pesigitg.Encoder.Passes.{
  IsBlockCipher, left2, right3, length-left2, length-right3, encrypt_four_pass-eq,
  decrypt_four_pass-eq,
}
use pesigitg.Prelude.{
  suc, le→ltb-false, le→leb, store-append, return_if, or_else, absent, ◌>>◌, ◌%◌, ◌^◌, ◌∷◌,
  replicate-append, assert, ◌>>=◌, ◌+◌, ◌-◌, ◌≤◌, ◌≡◌, refl, sym, ap, ◌∙◌, List, [], ◌++◌, arith,
  slice-append, copy_into-append, length, replicate, length-append, length-replicate, Run, Absent,
  ok, ℕ,
}

-- What each mode asks of the lengths and of the cipher.
abbrev pub Fits : Encryption → ℕ → ℕ → Type 0
Fits plaintext s n = Unit {0}
Fits (single_pass key c) s n = IsBlockCipher c × (s + n ≡ 16)
Fits (four_pass key c) s n = IsBlockCipher c × (n ≤ 16)

-- The bytes `p` stand for the server id `s` and the nonce `n`, in the encoder and the decoder.
record Sealed (e : Encryption) (s n p : List ℕ) : Type 0 where
  size : length p ≡ length s + length n
  encrypts :
      (z : List ℕ)
      → length z ≡ 19 - (length s + length n)
      → encrypt e (s ++ (n ++ z)) (length s) (length n) ≡ ok (p ++ z)
  decrypts :
      (z : List ℕ)
      → length z ≡ 19 - (length s + length n)
      → ◌≡◌ {A = Run Absent (List ℕ)}
          (decrypt e (p ++ z) (length s) (length s + length n))
          (ok (s ++ (n ++ z)))

abbrev Bounds : List ℕ → List ℕ → Type 0
Bounds s n = (1 ≤ length s) × (length s ≤ 15) × (4 ≤ length n) × (length s + length n ≤ 19)

Sealed-plaintext : (s n : List ℕ) → Sealed plaintext s n (s ++ n)
unfolding encrypt decrypt
Sealed-plaintext s n = record {
  size = length-append s n;
  encrypts = λ z h. ap ok (sym (append_assoc s n z));
  decrypts = λ z h. ap ok (append_assoc s n z);
}

Sealed-single_pass :
    (key : List ℕ) (c : Cipher) (s n : List ℕ)
    → IsBlockCipher c
    → length s + length n ≡ 16
    → Sealed (single_pass key c) s n (c.encrypt_block (s ++ n))
unfolding encrypt decrypt decrypt_single_pass encrypt_single_pass ◌>>=◌
Sealed-single_pass key c s n ic e =
    let whole : length (s ++ n) ≡ 16 = length-append s n ∙ e in
    let p : List ℕ = c.encrypt_block (s ++ n) in
    let lp : length p ≡ 16 = ic.keeps (s ++ n) whole in
    let zeros : List ℕ = replicate 16 0 in
    let lz : length zeros ≡ 16 = length-replicate 16 0 in
    record {
      size = lp ∙ sym e;
      encrypts = λ z h. rw (
        e,
        ← append_assoc s n z,
        slice-append {E = Absent} 0 16 [] (s ++ n) z refl (omega arith),
        ← append-nil zeros,
        copy_into-append {E = Absent} 0 16 [] zeros [] (s ++ n) refl (omega arith) (omega arith),
        append-nil (s ++ n),
        copy_into-append {E = Absent} 0 16 [] (s ++ n) z p refl (omega arith) (omega arith),
      );
      decrypts = λ z h.
          rw
            (
              slice-append {E = Absent} 0 16 [] p z refl (omega arith),
              ic.inverse (s ++ n) whole,
              copy_into-append {E = Absent} 0 16 [] p z (s ++ n) refl (omega arith) (omega arith),
            )
            (ap ok (append_assoc s n z));
    }

Sealed-four_pass :
    (key : List ℕ) (c : Cipher) (s n : List ℕ)
    → IsBlockCipher c
    → Bounds s n
    → length n ≤ 16
    → (p : List ℕ) × Sealed (four_pass key c) s n p
unfolding encrypt decrypt ◌>>=◌
Sealed-four_pass key c s n ic b h =
    let sid : ℕ = length s in
    let non : ℕ = length n in
    let bounds : (1 ≤ sid) × (sid ≤ 16) × (1 ≤ non) × (non ≤ 16) =
      (omega arith, omega arith, omega arith, omega arith) in
    let l : List ℕ = left2 c ic.keeps sid non bounds s n refl refl in
    let r : List ℕ = right3 c ic.keeps sid non bounds s n refl refl in
    let ll = length-left2 c ic.keeps sid non bounds s n refl refl in
    let lr = length-right3 c ic.keeps sid non bounds s n refl refl in
    let alone =
      rw (append-nil n, append-nil r) at
        (encrypt_four_pass-eq c ic.keeps sid non bounds s n refl refl []) in
    let nonce_len : (sid + non + 2 ^ 64 - sid) % 2 ^ 64 ≡ non = omega arith in
    let lp = length-append l r in
    (
      l ++ r,
      record {
        size = omega (arith, lp, ll, lr);
        encrypts = λ z _. rw (
          ← append_assoc s n z,
          slice-append {E = Absent} 0 (sid + non) [] (s ++ n) z refl
              (omega (arith, length-append s n)),
          alone,
          copy_into-append {E = Absent} 0 (sid + non) [] (s ++ n) z (l ++ r) refl
              (omega (arith, length-append s n)) (omega (arith, length-append s n, lp, ll, lr)),
        );
        decrypts = λ z _.
            rw (nonce_len, append_assoc l r z)
              (decrypt_four_pass-eq c ic.keeps sid non bounds s n refl refl z);
      },
    )

Sealed-exists :
    (e : Encryption) (s n : List ℕ)
    → Bounds s n
    → Fits e (length s) (length n)
    → (p : List ℕ) × Sealed e s n p
Sealed-exists plaintext s n b f = (s ++ n, Sealed-plaintext s n)
Sealed-exists (single_pass key c) s n b f =
    (c.encrypt_block (s ++ n), Sealed-single_pass key c s n f.0 f.1)
Sealed-exists (four_pass key c) s n b f = Sealed-four_pass key c s n f.0 b f.1

zeros_split : (a b : ℕ) → a ≤ b → replicate {A = ℕ} b 0 ≡ replicate a 0 ++ replicate (b - a) 0
zeros_split a b h =
    ap (λ (t : ℕ). replicate {A = ℕ} t 0) (let e : b ≡ a + (b - a) = omega arith in e)
    ∙ replicate-append a (b - a) 0

first_zero : (t m : ℕ) → t ≡ suc m → replicate {A = ℕ} t 0 ≡ 0 ∷ replicate m 0
unfolding replicate
first_zero t m e = rw e

-- The encoder and the route entry of the load balancer describe the same configuration.
pub record Agrees (enc : QuicLbEncoder) (config : RouteConfig) : Type 0 where
  pub sid : config.server_id_length ≡ length enc.server_id
  pub nonce : config.nonce_length ≡ enc.nonce_length
  pub mode : config.encryption ≡ enc.encryption

module _ (enc : QuicLbEncoder) (fill_bytes : ℕ → List ℕ) (low : ℕ)
    (fills : (n : ℕ) → length (fill_bytes n) ≡ n)
    (bounds : (1 ≤ length enc.server_id)
      × (length enc.server_id ≤ 15)
      × (4 ≤ enc.nonce_length)
      × (length enc.server_id + enc.nonce_length ≤ 19)) where
  abbrev s : List ℕ
  s = enc.server_id

  abbrev n : List ℕ
  n = fill_bytes enc.nonce_length

  encode_to_vec-eq :
      (p : List ℕ)
      → Sealed enc.encryption s n p
      → encode_to_vec fill_bytes low enc ≡ ok (first_octet enc low ∷ p)
  unfolding encode_to_vec encode_into cid_length ◌>>=◌ ◌>>◌ assert
  encode_to_vec-eq p sealed =
      let L : ℕ = length s in
      let N : ℕ = enc.nonce_length in
      let z : List ℕ = replicate (19 - L - N) 0 in
      let zeros : List ℕ = replicate (L + N) 0 in
      let first : ℕ = first_octet enc low in
      let lz : length z ≡ 19 - L - N = length-replicate (19 - L - N) 0 in
      let sealing = rw (fills N) at (sealed.encrypts z (omega (arith, lz, fills N))) in
      rw (
        length-replicate {A = ℕ} (1 + L + N) 0,
        le→leb (1 + L + N) (1 + L + N) (omega arith),
        zeros_split L 19 (omega arith),
        copy_into-append {E = Absent} 0 L [] (replicate L 0) (replicate (19 - L) 0) s refl
            (omega (arith, length-replicate {A = ℕ} L 0))
            (omega (arith, length-replicate {A = ℕ} L 0)),
        let e : L + N - L ≡ N = omega arith in e,
        zeros_split N (19 - L) (omega arith),
        copy_into-append {E = Absent} L (L + N) s (replicate N 0) z n refl
            (omega (arith, length-replicate {A = ℕ} N 0))
            (omega (arith, length-replicate {A = ℕ} N 0, fills N)),
        sealing,
        first_zero (1 + L + N) (L + N) (omega arith),
        store-append {E = Absent} 0 [] 0 zeros first refl,
        slice-append {E = Absent} 0 (L + N) [] p z refl (omega (arith, sealed.size, fills N)),
        ← append-nil zeros,
        copy_into-append {E = Absent} 1 (1 + L + N) (first ∷ []) zeros [] p refl
            (omega (arith, length-replicate {A = ℕ} (L + N) 0))
            (omega (arith, length-replicate {A = ℕ} (L + N) 0, sealed.size, fills N)),
        append-nil p,
      )

  resolve-eq :
      (p : List ℕ) (first : ℕ) (rest : List ℕ) (config : RouteConfig)
      → Sealed enc.encryption s n p
      → Agrees enc config
      → resolve_server_idx (first ∷ (p ++ rest)) config ≡ or_else (find_server_idx config s) absent
  unfolding resolve_server_idx cid_payload_length ◌>>=◌ ◌>>◌ return_if
  resolve-eq p first rest config sealed agrees =
      let L : ℕ = length s in
      let N : ℕ = enc.nonce_length in
      let z : List ℕ = replicate (19 - (L + N)) 0 in
      let lz : length z ≡ 19 - (L + N) = length-replicate (19 - (L + N)) 0 in
      let opening = rw (fills N) at (sealed.decrypts z (omega (arith, lz, fills N))) in
      let small : (L + N) % 256 ≡ L + N = omega arith in
      rw (
        agrees.sid,
        agrees.nonce,
        agrees.mode,
        small,
        le→ltb-false (length (first ∷ (p ++ rest))) (1 + (L + N))
            (omega (arith, length-append p rest, sealed.size, fills N)),
        slice-append {E = Absent} 1 (1 + (L + N)) (first ∷ []) p rest refl
            (omega (arith, sealed.size, fills N)),
        zeros_split (L + N) 19 (omega arith),
        copy_into-append {E = Absent} 0 (L + N) [] (replicate (L + N) 0) z p refl
            (omega (arith, length-replicate {A = ℕ} (L + N) 0))
            (omega (arith, length-replicate {A = ℕ} (L + N) 0, sealed.size, fills N)),
        opening,
        slice-append {E = Absent} 0 L [] s (n ++ z) refl (omega arith),
      )

  -- What the encoder writes: the first octet and a payload, which decodes whatever follows it.
  pub encode_to_vec-parts :
      (config : RouteConfig)
      → Agrees enc config
      → Fits enc.encryption (length enc.server_id) enc.nonce_length
      → (p : List ℕ) × (encode_to_vec fill_bytes low enc ≡ ok (first_octet enc low ∷ p))
        × (length p ≡ length enc.server_id + enc.nonce_length)
        × ((rest : List ℕ)
            → resolve_server_idx (first_octet enc low ∷ (p ++ rest)) config
              ≡ or_else (find_server_idx config enc.server_id) absent)
  encode_to_vec-parts config agrees fits =
      let (p, sealed) =
        Sealed-exists enc.encryption s n (omega (arith, fills enc.nonce_length))
          (rw (fills enc.nonce_length) fits) in
      (
        p,
        encode_to_vec-eq p sealed,
        sealed.size ∙ ap (λ k. length s + k) (fills enc.nonce_length),
        λ rest. resolve-eq p (first_octet enc low) rest config sealed agrees,
      )

  -- A connection ID from the encoder, followed by any bytes and decoded under a route entry of the
  -- same lengths and mode, gives the index of the encoder's own server id, or none if the entry
  -- does not list it; and encoding succeeds. The server id has 1 to 15 bytes, the nonce at least 4,
  -- both together at most 19; the source of random bytes gives as many as asked for. In the single-
  -- pass mode the sum is 16, in the four-pass mode the nonce has at most 16 bytes, and in both AES
  -- keeps blocks at 16 bytes and its decryption undoes its encryption.
  pub resolve-encode :
      (config : RouteConfig) (rest : List ℕ)
      → Agrees enc config
      → Fits enc.encryption (length enc.server_id) enc.nonce_length
      → (cid : List ℕ) × (encode_to_vec fill_bytes low enc ≡ ok cid)
        × (resolve_server_idx (cid ++ rest) config
            ≡ or_else (find_server_idx config enc.server_id) absent)
  resolve-encode config rest agrees fits =
      let (p, e, size, decodes) = encode_to_vec-parts config agrees fits in
      (first_octet enc low ∷ p, e, decodes rest)
