-- ===== src/Routing/Cid/Feistel.antt =====
-- pesigitg-routing/src/cid.rs: the passes of `decrypt_four_pass` as equations on the two halves.
use mathlib.Core.List.{append_assoc}
use pesigitg.Routing.Route.{Cipher}
use pesigitg.Routing.Cid.{xor_loop, round_block, odd_pass, even_pass}
use pesigitg.Prelude.{
  ap, ◌∙◌, slice-append, replicate-append, copy_into-append, length-replicate, ◌>>=◌, index-append,
  store-append, index_lem, drop-get_or, ◌-◌, ◌≤◌, bit_xor, ◌≡◌, refl, List, [], ◌∷◌, ◌++◌, arith,
  xor_bytes, length, get_or, drop, replicate, length-append, Run, ok, ℕ, suc, ◌+◌,
}

-- What the code relies on of `encrypt_block`: a block of 16 bytes becomes one.
abbrev pub KeepsBlocks : Cipher → Type 0
KeepsBlocks c = (block : List ℕ) → length block ≡ 16 → length (c.encrypt_block block) ≡ 16

-- The block of a pass: the half, filled with zeros, with `i` XORed into its first byte.
pub padded : ℕ → List ℕ → List ℕ
padded i [] = []
padded i (x ∷ half) = bit_xor x i ∷ (half ++ replicate (15 - length half) 0)

pub length-padded :
    (i : ℕ) (half : List ℕ) → 1 ≤ length half → length half ≤ 16 → length (padded i half) ≡ 16
unfolding padded
length-padded i [] h g = absurd (omega arith)
length-padded i (x ∷ half) h g =
    rw
      (
        length-append half (replicate (15 - length half) 0),
        length-replicate {A = ℕ} (15 - length half) 0,
      )
      (omega arith)

module _ {κ} {E : Type κ} where
  xor_loop-eq :
      (r : List ℕ) (j base : ℕ) (ga pre z : List ℕ)
      → length pre ≡ base + j
      → length r + j ≤ length ga
      → ◌≡◌ {A = Run E (List ℕ)}
          (xor_loop (length r) j base ga (pre ++ (r ++ z)))
          (ok (pre ++ (xor_bytes r (drop j ga) ++ z)))
  unfolding xor_loop xor_bytes ◌>>=◌
  xor_loop-eq [] j base ga pre z h g = refl
  xor_loop-eq (x ∷ r) j base ga pre z h g =
      let y : ℕ = get_or ga j 0 in
      let out : List ℕ = xor_bytes r (drop (suc j) ga) ++ z in
      let pre' : List ℕ = pre ++ (bit_xor x y ∷ []) in
      rw
        (
          index-append (base + j) pre x (r ++ z) h,
          index_lem ga j (omega arith),
          store-append (base + j) pre x (r ++ z) (bit_xor x y) h,
          drop-get_or j ga 0 (omega arith),
          ← append_assoc pre (bit_xor x y ∷ []) (r ++ z),
          ← append_assoc pre (bit_xor x y ∷ []) out,
        )
        (xor_loop-eq r (suc j) base ga pre' z
          (rw (length-append pre (bit_xor x y ∷ [])) (omega arith)) (omega arith))

  pub round_block-eq :
      (i : ℕ) (half : List ℕ)
      → 1 ≤ length half
      → length half ≤ 16
      → ◌≡◌ {A = Run E (List ℕ)} (round_block i (length half) half) (ok (padded i half))
  unfolding round_block padded ◌>>=◌
  round_block-eq i [] h g = absurd (omega arith)
  round_block-eq i (x ∷ half) h g =
      let n : ℕ = length half in
      let tail : List ℕ = replicate (15 - n) 0 in
      let zeros : List ℕ = replicate (suc n) 0 in
      let count : length zeros ≡ suc n = length-replicate (suc n) 0 in
      let split : replicate {A = ℕ} 16 0 ≡ zeros ++ tail =
        ap (λ (t : ℕ). replicate {A = ℕ} t 0) (let e : 16 ≡ suc n + (15 - n) = omega arith in e)
        ∙ replicate-append (suc n) (15 - n) 0 in
      rw (
        split,
        copy_into-append {E = E} 0 (suc n) [] zeros tail (x ∷ half) refl (omega arith)
            (omega arith),
        index-append {E = E} 0 [] x (half ++ tail) refl,
        store-append {E = E} 0 [] x (half ++ tail) (bit_xor x i) refl,
      )

-- The halves after an odd and after an even pass.
pub mask : Cipher → ℕ → List ℕ → List ℕ
mask c i half = c.encrypt_block (padded i half)

module _ {κ} {E : Type κ} (c : Cipher) (keeps : KeepsBlocks c) (l r : List ℕ) where
  pub odd_pass-eq :
      (i : ℕ) (z : List ℕ)
      → 1 ≤ length l
      → length l ≤ 16
      → length r ≤ 16
      → ◌≡◌ {A = Run E (List ℕ)}
          (odd_pass c (length l) (length r) i (l ++ (r ++ z)))
          (ok (l ++ (xor_bytes r (mask c i l) ++ z)))
  unfolding odd_pass mask ◌>>=◌ drop
  odd_pass-eq i z h g f =
      rw
        (
          slice-append {E = E} 0 (length l) [] l (r ++ z) refl (omega arith),
          round_block-eq {E = E} i l h g,
        )
        (xor_loop-eq r 0 (length l) (mask c i l) l z (omega arith)
          (omega (arith, keeps (padded i l) (length-padded i l h g))))

  pub even_pass-eq :
      (i : ℕ) (z : List ℕ)
      → length l ≤ 16
      → 1 ≤ length r
      → length r ≤ 16
      → ◌≡◌ {A = Run E (List ℕ)}
          (even_pass c (length l) (length r) i (l ++ (r ++ z)))
          (ok (xor_bytes l (mask c i r) ++ (r ++ z)))
  unfolding even_pass mask ◌>>=◌ drop
  even_pass-eq i z h g f =
      rw
        (
          slice-append {E = E} (length l) (length l + length r) l r z refl (omega arith),
          round_block-eq {E = E} i r g f,
        )
        (xor_loop-eq l 0 0 (mask c i r) [] (r ++ z) (omega arith)
          (omega (arith, keeps (padded i r) (length-padded i r g f))))
