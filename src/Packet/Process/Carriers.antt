-- ===== src/Packet/Process/Carriers.antt =====
-- A QUIC packet that carries a Connection ID, as pesigitg-routing/src/cid.rs and
-- pesigitg-daemon/src/cid.rs find it.
use pesigitg.Prelude.{
  ◌>>◌, ◌>>=◌, ◌+◌, ◌/◌, refl, some, [], arith, le→ltb-false, index-append, slice-append,
  length-append, Absent, return_if, or_else, ℕ, bit_and, ◌≡◌, true, false, List, ◌∷◌, ◌++◌, ◌==◌,
  length, get_or, run, ok,
}
use pesigitg.Config.Table.{ConfigTable, lookup_config, get}
use pesigitg.Routing.Cid.{
  first_cid_octet, long_first_octet, short_first_octet, extract_raw_dcid, long_dcid, short_dcid,
}
use pesigitg.Routing.Route.{RouteConfig, cid_length}

-- The packet has a short header or a long one, and `cid` as its destination Connection ID.
pub data Carries (cid : List ℕ) : List ℕ → Type 0 where
  short :
      (first : ℕ) (rest : List ℕ)
      → (bit_and first 0x80 == 0) ≡ true
      → Carries cid (first ∷ (cid ++ rest))
  long :
      (first a b c d : ℕ) (rest : List ℕ)
      → (bit_and first 0x80 == 0) ≡ false
      → Carries cid (first ∷ a ∷ b ∷ c ∷ d ∷ length cid ∷ (cid ++ rest))

pub first_cid_octet-Carries :
    (o : ℕ) (p quic : List ℕ) → Carries (o ∷ p) quic → first_cid_octet quic ≡ ok o
unfolding first_cid_octet short_first_octet long_first_octet run get_or
first_cid_octet-Carries o p quic (short first rest h) = ground arith
first_cid_octet-Carries o p quic (long first a b c d rest h) = ground arith

long_dcid-cut :
    (first a b c d : ℕ) (cid rest : List ℕ)
    → long_dcid (first ∷ a ∷ b ∷ c ∷ d ∷ length cid ∷ (cid ++ rest)) ≡ ok cid
unfolding long_dcid ◌>>=◌ ◌>>◌ return_if
long_dcid-cut first a b c d cid rest =
    let quic = first ∷ a ∷ b ∷ c ∷ d ∷ length cid ∷ (cid ++ rest) in
    let len : length quic ≡ 6 + (length cid + length rest) =
      omega (arith, length-append cid rest) in
    rw
      (
        le→ltb-false (length quic) 6 (omega (arith, len)),
        index-append {E = Absent} 5 (first ∷ a ∷ b ∷ c ∷ d ∷ []) (length cid) (cid ++ rest) refl,
        le→ltb-false (length quic) (6 + length cid) (omega (arith, len)),
      )
      (slice-append {E = Absent} 6 (6 + length cid) (first ∷ a ∷ b ∷ c ∷ d ∷ length cid ∷ []) cid
        rest refl refl)

short_dcid-cut :
    (first : ℕ) (cid rest : List ℕ) → short_dcid (first ∷ (cid ++ rest)) (length cid) ≡ ok cid
unfolding short_dcid ◌>>=◌ ◌>>◌ return_if
short_dcid-cut first cid rest =
    let quic = first ∷ (cid ++ rest) in
    let len : length quic ≡ 1 + (length cid + length rest) =
      omega (arith, length-append cid rest) in
    rw (le→ltb-false (length quic) (1 + length cid) (omega (arith, len)))
      (slice-append {E = Absent} 1 (1 + length cid) (first ∷ []) cid rest refl refl)

nonempty : (x : ℕ) (xs : List ℕ) → (length (x ∷ xs) == 0) ≡ false
nonempty x xs = ground arith

pub extract_raw_dcid-Carries :
    (o : ℕ) (p quic : List ℕ)
    → Carries (o ∷ p) quic
    → extract_raw_dcid quic (length (o ∷ p)) ≡ ok (o ∷ p)
unfolding extract_raw_dcid ◌>>=◌ ◌>>◌ return_if
extract_raw_dcid-Carries o p quic (short first rest h) =
    let tail : List ℕ = (o ∷ p) ++ rest in
    rw
      (
        nonempty first tail,
        index-append {E = Absent} 0 [] first tail refl,
        h,
        short_dcid-cut first (o ∷ p) rest,
        nonempty o p,
      )
      refl
extract_raw_dcid-Carries o p quic (long first a b c d rest h) =
    let tail : List ℕ = a ∷ b ∷ c ∷ d ∷ length (o ∷ p) ∷ ((o ∷ p) ++ rest) in
    rw
      (
        nonempty first tail,
        index-append {E = Absent} 0 [] first tail refl,
        h,
        long_dcid-cut first a b c d (o ∷ p) rest,
        nonempty o p,
      )
      refl

-- The route entry and the Connection ID that the daemon finds in the packet.
pub lookup_config-Carries :
    (table : ConfigTable) (config : RouteConfig) (o : ℕ) (p quic : List ℕ)
    → Carries (o ∷ p) quic
    → (o / 32 == 7) ≡ false
    → get table (o / 32) ≡ some config
    → cid_length config ≡ length (o ∷ p)
    → lookup_config quic table ≡ ok (o ∷ p, config)
unfolding lookup_config ◌>>=◌ ◌>>◌ return_if or_else
lookup_config-Carries table config o p quic carries known slot len =
    rw
      (
        first_cid_octet-Carries o p quic carries,
        known,
        slot,
        len,
        extract_raw_dcid-Carries o p quic carries,
      )
      refl
