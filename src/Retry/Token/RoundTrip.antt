-- ===== src/Retry/Token/RoundTrip.antt =====
-- pesigitg-daemon/src/retry/token.rs: a token that was minted is accepted until it expires.
use native.Mathlib.Nat.{pow-suc}
use mathlib.Core.List.{append-nil}
use pesigitg.Prelude.{
  Bool, false, Run, ◌-◌, ◌%◌, ltb, if◌then◌else◌, le→ltb-false, le→leb, bytes_eq_refl,
  slice_from-append, slice-append, copy_into-append, slice_lem, drop, replicate, length-take,
  length-replicate, replicate-append, err, ◌>>◌, ◌>>=◌, ℕ, zero, suc, ◌+◌, ◌*◌, ◌/◌, ◌^◌, ◌≤◌, ◌<◌,
  ◌≡◌, refl, true, List, [], ◌∷◌, ◌++◌, arith, length, take, length-append, return_if, ok,
}
use pesigitg.Common.Address.{IpAddr}
use pesigitg.Retry.Token.{
  MintError, VerifyError, expired, token_len, to_be_bytes, from_be_bytes, feed, mint,
  verify_truncated_left, verify,
}

length-to_be_bytes : (n v : ℕ) → length (to_be_bytes n v) ≡ n
unfolding to_be_bytes
length-to_be_bytes zero v = refl
length-to_be_bytes (suc n) v = rw (length-append, length-to_be_bytes n (v / 256)) (omega arith)

from_be_bytes-append :
    (acc : ℕ) (xs : List ℕ) (b : ℕ)
    → from_be_bytes acc (xs ++ (b ∷ [])) ≡ from_be_bytes acc xs * 256 + b
unfolding from_be_bytes
from_be_bytes-append acc [] b = refl
from_be_bytes-append acc (x ∷ xs) b = from_be_bytes-append (acc * 256 + x) xs b

from-to_be_bytes : (n v : ℕ) → v < 256 ^ n → from_be_bytes 0 (to_be_bytes n v) ≡ v
unfolding to_be_bytes from_be_bytes
from-to_be_bytes zero v h = omega arith
from-to_be_bytes (suc n) v h =
    let power : 256 ^ suc n ≡ 256 ^ n * 256 = pow-suc 256 n in
    let small : v / 256 < 256 ^ n = omega arith in
    rw
      (
        from_be_bytes-append 0 (to_be_bytes n (v / 256)) (v % 256),
        from-to_be_bytes n (v / 256) small,
      )
      (omega arith)

verify_truncated_left-take :
    (full : List ℕ) → 16 ≤ length full → verify_truncated_left full (take 16 full) ≡ true
unfolding verify_truncated_left
verify_truncated_left-take full h =
    let size : length (take 16 full) ≡ 16 = rw length-take (omega arith) in
    rw (size, le→leb 16 (length full) h, bytes_eq_refl (take 16 full)) refl

return_if-ok :
    (b : Bool)
    → ◌≡◌ {A = Run VerifyError (Unit {0})}
        (return_if b expired >> ok tt)
        (if b then err expired else ok tt)
unfolding return_if ◌>>◌ ◌>>=◌
return_if-ok true = refl
return_if-ok false = refl

module _ (hmac : List ℕ → List ℕ → List ℕ)
    (long : (key text : List ℕ) → length (hmac key text) ≡ 32) (key : List ℕ) (client : IpAddr)
    (odcid : List ℕ) (now : ℕ) (short : length odcid ≤ 20) where
  abbrev ts : List ℕ
  ts = to_be_bytes 8 now

  abbrev tag : List ℕ
  tag = take 16 (hmac key (feed client ts odcid))

  length-tag : length tag ≡ 16
  length-tag = rw length-take (omega (arith, long key (feed client ts odcid)))

  mint-eq : mint hmac key client odcid now ≡ ok (ts ++ tag)
  unfolding mint ◌>>=◌ ◌>>◌ return_if drop
  mint-eq =
      let count : length ts ≡ 8 = length-to_be_bytes 8 now in
      let zeros : length (replicate {A = ℕ} 16 0) ≡ 16 = length-replicate 16 0 in
      let room : length (replicate {A = ℕ} 8 0) ≡ 8 = length-replicate 8 0 in
      rw
        (
          le→ltb-false 20 (length odcid) short,
          replicate-append {A = ℕ} 8 16 0,
          copy_into-append {E = MintError} 0 8 [] (replicate 8 0) (replicate 16 0) ts refl
              (omega arith) (omega arith),
          slice_lem {E = MintError} (hmac key (feed client ts odcid)) 0 16 (omega arith)
              (omega (arith, long key (feed client ts odcid))),
          ← append-nil (replicate {A = ℕ} 16 0),
          copy_into-append {E = MintError} 8 24 ts (replicate 16 0) [] tag count (omega arith)
              (omega (arith, length-tag)),
          append-nil tag,
        )
        refl

  verify-eq :
      (later lifetime : ℕ)
      → now < 2 ^ 64
      → now ≤ later
      → verify hmac key (ts ++ tag) client odcid later lifetime
        ≡ (if ltb lifetime (later - now) then err expired else ok tt)
  unfolding verify ◌>>=◌ ◌>>◌ return_if drop
  verify-eq later lifetime h g =
      let count : length ts ≡ 8 = length-to_be_bytes 8 now in
      let whole : length (ts ++ tag) ≡ 24 = rw length-append (omega (arith, length-tag)) in
      rw
        (
          whole,
          le→ltb-false 20 (length odcid) short,
          slice-append {E = VerifyError} 0 8 [] ts tag refl (omega arith),
          slice_from-append {E = VerifyError} 8 ts tag count,
          verify_truncated_left-take (hmac key (feed client ts odcid))
              (omega (arith, long key (feed client ts odcid))),
          from-to_be_bytes 8 now h,
          le→ltb-false later now g,
        )
        (return_if-ok (ltb lifetime (later - now)))

  -- A token that is minted for a client and an original DCID of at most 20 bytes has 24 bytes, and is
  -- verified with the same key, client and DCID at every later time within its lifetime; after that it
  -- is refused as expired. HMAC-SHA256 gives 32 bytes, and the time fits 64 bits.
  pub verify-mint :
      (later lifetime : ℕ)
      → now < 2 ^ 64
      → now ≤ later
      → (token : List ℕ) × (mint hmac key client odcid now ≡ ok token)
        × (length token ≡ token_len)
        × (verify hmac key token client odcid later lifetime
            ≡ (if ltb lifetime (later - now) then err expired else ok tt))
  verify-mint later lifetime h g =
      let whole : length (ts ++ tag) ≡ 24 =
        rw length-append (omega (arith, length-tag, length-to_be_bytes 8 now)) in
      (ts ++ tag, mint-eq, whole, verify-eq later lifetime h g)
