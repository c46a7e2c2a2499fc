-- ===== src/Retry/Token.antt =====
-- pesigitg-daemon/src/retry/token.rs: tokens that bind a client's address, the original DCID and a
-- time under a key. HMAC-SHA256 is the parameter `hmac`, of the key and of all bytes fed to it.
pub mod RoundTrip
use pesigitg.Common.Address.{IpAddr, v4, v6}
use pesigitg.Prelude.{
  zero, suc, ◌-◌, ◌*◌, ◌/◌, ◌%◌, Bool, not, ◌&&◌, ◌||◌, List, [], ◌∷◌, ◌++◌, ltb, leb, ◌==◌,
  bytes_eq, length, take, replicate, Run, ◌>>=◌, ◌>>◌, return_if, slice, slice_from, copy_into, ok,
  ℕ, ◌+◌,
}

abbrev pub ts_len : ℕ
ts_len = 8

abbrev pub mac_len : ℕ
mac_len = 16

abbrev pub token_len : ℕ
token_len = 24

abbrev pub max_odcid : ℕ
max_odcid = 20

pub data MintError : Type 0 where
  odcid_too_long : MintError

pub data VerifyError : Type 0 where
  invalid expired : VerifyError

-- `u64::to_be_bytes`, and `n` bytes of a number in general.
unfoldable pub to_be_bytes : ℕ → ℕ → List ℕ
to_be_bytes zero v = []
to_be_bytes (suc n) v = to_be_bytes n (v / 256) ++ (v % 256 ∷ [])

unfoldable pub from_be_bytes : ℕ → List ℕ → ℕ
from_be_bytes acc [] = acc
from_be_bytes acc (b ∷ bytes) = from_be_bytes (acc * 256 + b) bytes

-- The bytes that `feed` passes to `mac.update`.
unfoldable pub feed : IpAddr → List ℕ → List ℕ → List ℕ
feed (v4 octets) ts odcid = 4 ∷ (octets ++ (ts ++ (length odcid % 256 ∷ odcid)))
feed (v6 octets) ts odcid = 6 ∷ (octets ++ (ts ++ (length odcid % 256 ∷ odcid)))

-- `verify_truncated_left`: the tag is a nonempty front of the full one.
unfoldable pub verify_truncated_left : List ℕ → List ℕ → Bool
verify_truncated_left full tag =
    not (length tag == 0)
    && (leb (length tag) (length full) && bytes_eq tag (take (length tag) full))

module _ (hmac : List ℕ → List ℕ → List ℕ) where
  unfoldable pub mint : List ℕ → IpAddr → List ℕ → ℕ → Run MintError (List ℕ)
  mint key client odcid now_ms = do
    return_if (ltb max_odcid (length odcid)) odcid_too_long
    let ts = to_be_bytes 8 now_ms
    out ← copy_into (replicate token_len 0) 0 ts_len ts
    full ← slice (hmac key (feed client ts odcid)) 0 mac_len
    copy_into out ts_len token_len full

  unfoldable pub verify : List ℕ → List ℕ → IpAddr → List ℕ → ℕ → ℕ → Run VerifyError (Unit {0})
  verify key token client odcid now_ms lifetime_ms = do
    return_if (not (length token == token_len) || ltb max_odcid (length odcid)) invalid
    ts_bytes ← slice token 0 ts_len
    let ts_ms = from_be_bytes 0 ts_bytes
    tag ← slice_from token ts_len
    return_if (not (verify_truncated_left (hmac key (feed client ts_bytes odcid)) tag)) invalid
    return_if (ltb now_ms ts_ms) invalid
    return_if (ltb lifetime_ms (now_ms - ts_ms)) expired
    ok tt
