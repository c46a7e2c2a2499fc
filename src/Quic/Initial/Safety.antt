-- ===== src/Quic/Initial/Safety.antt =====
-- pesigitg-daemon/src/quic/initial.rs: what holds of `parse_strict` on every byte sequence.
use native.Mathlib.Nat.{one-le-pow}
use pesigitg.Prelude.{
  Safe-map_err, ◌||◌, not, Safe-bind, ◌&&◌, Safe-slice_from, refl, ◌==◌, ltb, Safe-then, Safe-slice,
  Safe-index, value, Safe-return_if, Safe-if, early, Safe, ℕ, ◌+◌, ◌/◌, ◌^◌, ◌≤◌, ◌≡◌, ◌⊎◌, arith,
  List, [], ◌∷◌, length, length-take,
}
use pesigitg.Quic.Initial.{
  parse_token, parse_cids, checked_add, Initial, read_varint, check_version, parse_strict, quic_v1,
  quic_v2,
}

-- What holds of a varint that was read.
abbrev Fits : List ℕ → ℕ × ℕ → Type 0
Fits buf (v, n) = n ≤ length buf

read_varint-Safe : (buf : List ℕ) → Safe (Fits buf) (read_varint buf)
unfolding read_varint
read_varint-Safe [] = early
read_varint-Safe (first ∷ rest) = Safe-return_if _ _ _ λ h.
    Safe-slice _ _ _ _ (one-le-pow (first / 64) 2 (omega arith)) (ground arith)
      (value (ground arith))

check_version-Safe : (v t : ℕ) → Safe (λ _. (v ≡ quic_v1) ⊎ (v ≡ quic_v2)) (check_version v t)
unfolding check_version
check_version-Safe v t =
    Safe-if (v == quic_v1 && not (t == 0)) (λ h. early)
      λ h.
        Safe-if (v == quic_v2 && not (t == 1)) (λ g. early)
          λ g. Safe-if (v == quic_v1 || v == quic_v2) (λ e. value (ground arith)) λ e. early

checked_add-Safe {κ} : {E : Type κ} (a b : ℕ) (e : E) → Safe (λ s. s ≡ a + b) (checked_add a b e)
unfolding checked_add
checked_add-Safe a b e = Safe-if (ltb (a + b) (2 ^ 64)) (λ h. value refl) λ h. early

-- The slices of a parsed packet lie inside it.
pub record Within (packet : List ℕ) (i : Initial) : Type 0 where
  pub dcid_short : length i.dcid ≤ 20
  pub scid_short : length i.scid ≤ 20
  pub known : (i.version ≡ quic_v1) ⊎ (i.version ≡ quic_v2)
  pub inside : i.pn_offset + i.length ≤ length packet

parse_token-Safe :
    (packet : List ℕ) (first version : ℕ) (dcid scid : List ℕ) (scid_end : ℕ)
    → (version ≡ quic_v1) ⊎ (version ≡ quic_v2)
    → length dcid ≤ 20
    → length scid ≤ 20
    → scid_end ≤ length packet
    → Safe (Within packet) (parse_token packet first version dcid scid scid_end)
unfolding parse_token
parse_token-Safe packet first version dcid scid scid_end known d s h = Safe-slice_from _ _ _ h (
    Safe-bind _ _ (Safe-map_err _ (read_varint-Safe _)) λ r fits.
      Safe-bind _ _ (checked_add-Safe _ _ _) λ token_end e. Safe-return_if _ _ _ λ room.
        Safe-slice _ _ _ _ (omega arith) (ground arith) (
          Safe-slice_from _ _ _ (ground arith) (
            Safe-bind _ _ (Safe-map_err _ (read_varint-Safe _)) λ r' fits'.
              Safe-bind _ _ (checked_add-Safe _ _ _) λ declared e'. Safe-return_if _ _ _ λ whole.
                value (record {
                  dcid_short = d;
                  scid_short = s;
                  known = known;
                  inside = ground arith;
                }))))

parse_cids-Safe :
    (packet : List ℕ) (first version : ℕ)
    → (version ≡ quic_v1) ⊎ (version ≡ quic_v2)
    → 9 ≤ length packet
    → Safe (Within packet) (parse_cids packet first version)
unfolding parse_cids
parse_cids-Safe packet first version known nine = Safe-index _ _ _ (omega arith) (
    Safe-return_if _ _ _ λ short. Safe-return_if _ _ _ λ room.
      Safe-slice _ _ _ _ (omega arith) (ground arith) (
        Safe-index _ _ _ (ground arith) (
          Safe-return_if _ _ _ λ short'. Safe-return_if _ _ _ λ room'.
            Safe-slice _ _ _ _ (omega arith) (ground arith) (
              parse_token-Safe packet first version _ _ _ known (rw length-take (ground arith))
                (rw length-take (ground arith)) (ground arith)))))

-- On every byte sequence `parse_strict` returns without a panic; and if it accepts, the version is
-- v1 or v2, both connection IDs have at most 20 bytes, and the packet number and payload that
-- `length` declares lie inside the packet.
pub parse_strict-Safe : (packet : List ℕ) → Safe (Within packet) (parse_strict packet)
unfolding parse_strict
parse_strict-Safe packet = Safe-return_if _ _ _ λ nine. Safe-index _ _ _ (ground arith) (
    Safe-return_if _ _ _ λ _. Safe-return_if _ _ _ λ _. Safe-index _ _ _ (ground arith) (
      Safe-index _ _ _ (ground arith) (
        Safe-index _ _ _ (ground arith) (
          Safe-index _ _ _ (ground arith) (
            Safe-then _ _ (check_version-Safe _ _)
              λ _ known. parse_cids-Safe packet _ _ known (ground arith))))))
