-- ===== src/Neigh/Messages.antt =====
-- The fields of the messages that pesigitg-daemon/src/neigh.rs reads, in a buffer written as its
-- parts.
use pesigitg.Prelude.{
  ◌>>=◌, suc, ◌<◌, refl, ap, ◌∙◌, Option, lt→ltb, le→ltb-false, slice-append, slice, ℕ, ◌+◌, ◌*◌,
  ◌≡◌, sym, List, [], ◌∷◌, ◌++◌, arith, index-append, length, length-append, Run, Absent, index, ok,
}
use mathlib.Core.List.{append_assoc}
use pesigitg.Common.Address.{IpAddr}
use pesigitg.Neigh.{attributes, read_u16, take_dst, take_lladdr, nlmsg_align}

pub read_u16-append :
    (pre : List ℕ) (a b : ℕ) (rest : List ℕ) (i : ℕ)
    → length pre ≡ i
    → read_u16 (pre ++ (a ∷ b ∷ rest)) i ≡ ok (a + b * 256)
unfolding read_u16 ◌>>=◌
read_u16-append pre a b rest i h =
    let whole : pre ++ (a ∷ b ∷ rest) ≡ (pre ++ (a ∷ [])) ++ (b ∷ rest) =
      sym (append_assoc pre (a ∷ []) (b ∷ rest)) in
    let first : ◌≡◌ {A = Run Absent ℕ} (index (pre ++ (a ∷ b ∷ rest)) i) (ok a) =
      index-append i pre a (b ∷ rest) h in
    let second : ◌≡◌ {A = Run Absent ℕ} (index (pre ++ (a ∷ b ∷ rest)) (i + 1)) (ok b) = rw whole (
      index-append (i + 1) (pre ++ (a ∷ [])) b rest
        (rw (length-append pre (a ∷ [])) (omega arith))) in
    rw (first, second) refl

-- The header of an attribute, and its type two bytes behind it.
pub read_header :
    (pre : List ℕ) (n ty : ℕ) (rest : List ℕ) (i : ℕ)
    → length pre ≡ i
    → (read_u16 (pre ++ (n ∷ 0 ∷ ty ∷ 0 ∷ rest)) i ≡ ok n)
      × (read_u16 (pre ++ (n ∷ 0 ∷ ty ∷ 0 ∷ rest)) (i + 2) ≡ ok ty)
read_header pre n ty rest i h =
    let whole : pre ++ (n ∷ 0 ∷ ty ∷ 0 ∷ rest) ≡ (pre ++ (n ∷ 0 ∷ [])) ++ (ty ∷ 0 ∷ rest) =
      sym (append_assoc pre (n ∷ 0 ∷ []) (ty ∷ 0 ∷ rest)) in
    let n' : n + 0 * 256 ≡ n = omega arith in
    let ty' : ty + 0 * 256 ≡ ty = omega arith in
    (
      read_u16-append pre n 0 (ty ∷ 0 ∷ rest) i h ∙ ap ok n',
      rw whole (
          read_u16-append (pre ++ (n ∷ 0 ∷ [])) ty 0 rest (i + 2)
            (rw (length-append pre (n ∷ 0 ∷ [])) (omega arith))
          ∙ ap ok ty'),
    )

pub length-parts :
    (pre xs ys : List ℕ) → length (pre ++ (xs ++ ys)) ≡ length pre + (length xs + length ys)
length-parts pre xs ys = rw (length-append pre (xs ++ ys), length-append xs ys) refl

pub attributes-append :
    (fuel : ℕ) (pre : List ℕ) (n ty : ℕ) (payload rest : List ℕ) (family i : ℕ)
    (dst : Option IpAddr) (lladdr : Option (List ℕ))
    → length pre ≡ i
    → n ≡ 4 + length payload
    → attributes (suc fuel) (pre ++ (n ∷ 0 ∷ ty ∷ 0 ∷ (payload ++ rest))) family i dst lladdr
      ≡ attributes fuel
          (pre ++ (n ∷ 0 ∷ ty ∷ 0 ∷ (payload ++ rest)))
          family
          (i + nlmsg_align n)
          (take_dst family ty payload dst)
          (take_lladdr ty payload lladdr)
unfolding attributes ◌>>=◌
attributes-append fuel pre n ty payload rest family i dst lladdr h e =
    let buf = pre ++ (n ∷ 0 ∷ ty ∷ 0 ∷ (payload ++ rest)) in
    let len : length buf ≡ i + (4 + (length payload + length rest)) =
      length-parts pre (n ∷ 0 ∷ ty ∷ 0 ∷ []) (payload ++ rest)
      ∙ rw (length-append payload rest) (omega arith) in
    let (read_n, read_ty) = read_header pre n ty (payload ++ rest) i h in
    let whole : buf ≡ (pre ++ (n ∷ 0 ∷ ty ∷ 0 ∷ [])) ++ (payload ++ rest) =
      sym (append_assoc pre (n ∷ 0 ∷ ty ∷ 0 ∷ []) (payload ++ rest)) in
    let cut : ◌≡◌ {A = Run Absent (List ℕ)} (slice buf (i + 4) (i + n)) (ok payload) = rw whole (
      slice-append (i + 4) (i + n) (pre ++ (n ∷ 0 ∷ ty ∷ 0 ∷ [])) payload rest
        (rw (length-append pre (n ∷ 0 ∷ ty ∷ 0 ∷ [])) (omega arith)) (omega arith)) in
    rw
      (
        le→ltb-false (length buf) (i + 4) (omega (arith, len)),
        read_n,
        le→ltb-false n 4 (omega arith),
        le→ltb-false (length buf) (i + n) (omega (arith, len)),
        cut,
        read_ty,
      )
      refl

pub attributes-end :
    (fuel : ℕ) (buf : List ℕ) (family i : ℕ) (dst : Option IpAddr) (lladdr : Option (List ℕ))
    → length buf < i + 4
    → attributes (suc fuel) buf family i dst lladdr ≡ ok (dst, lladdr)
unfolding attributes
attributes-end fuel buf family i dst lladdr h = rw (lt→ltb (length buf) (i + 4) h) refl
