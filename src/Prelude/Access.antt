-- ===== src/Prelude/Access.antt =====
-- Reading and writing a buffer that is written as its parts, one after the other.
use Prim.Native.Nat.{ℕ, ◌+◌, ◌-◌, ◌≤◌, ◌<◌}
use mathlib.Core.Path.{◌≡◌, sym}
use mathlib.Core.List.{List, ◌∷◌, ◌++◌, append_assoc}
use native.Mathlib.Omega.{arith}
use pesigitg.Prelude.Tests.{lt→ltb, le→leb, ==_refl}
use pesigitg.Prelude.Lists.{
  set, get_or, take, length, drop, length-append, take-append, drop-append, get_or-append,
  set-append,
}
use pesigitg.Prelude.Results.{run, Run, ok, index, slice, slice_from, store, copy_into}

module _ {κ} {E : Type κ} where
  pub index-append :
      (i : ℕ) (xs : List ℕ) (y : ℕ) (ys : List ℕ)
      → length xs ≡ i
      → ◌≡◌ {A = Run E ℕ} (index (xs ++ (y ∷ ys)) i) (ok y)
  unfolding run
  index-append i xs y ys h = rw (
    lt→ltb i (length (xs ++ (y ∷ ys))) (rw (length-append xs (y ∷ ys)) (omega arith)),
    get_or-append i xs y ys 0 h,
  )

  pub store-append :
      (i : ℕ) (xs : List ℕ) (y : ℕ) (ys : List ℕ) (v : ℕ)
      → length xs ≡ i
      → ◌≡◌ {A = Run E (List ℕ)} (store (xs ++ (y ∷ ys)) i v) (ok (xs ++ (v ∷ ys)))
  unfolding run
  store-append i xs y ys v h = rw (
    lt→ltb i (length (xs ++ (y ∷ ys))) (rw (length-append xs (y ∷ ys)) (omega arith)),
    set-append i xs y ys v h,
  )

  pub slice_from-append :
      (a : ℕ) (xs ys : List ℕ)
      → length xs ≡ a
      → ◌≡◌ {A = Run E (List ℕ)} (slice_from (xs ++ ys) a) (ok ys)
  unfolding run
  slice_from-append a xs ys h =
      rw (
        le→leb a (length (xs ++ ys)) (rw (length-append xs ys) (omega arith)),
        drop-append a xs ys h,
      )

  pub slice-append :
      (a b : ℕ) (xs ys zs : List ℕ)
      → length xs ≡ a
      → a + length ys ≡ b
      → ◌≡◌ {A = Run E (List ℕ)} (slice (xs ++ (ys ++ zs)) a b) (ok ys)
  unfolding run
  slice-append a b xs ys zs h g = rw (
    le→leb a b (omega arith),
    le→leb b (length (xs ++ (ys ++ zs)))
        (rw (length-append xs (ys ++ zs), length-append ys zs) (omega arith)),
    drop-append a xs (ys ++ zs) h,
    take-append (b - a) ys zs (omega arith),
  )

  pub copy_into-append :
      (a b : ℕ) (xs ys zs src : List ℕ)
      → length xs ≡ a
      → a + length ys ≡ b
      → length src ≡ length ys
      → ◌≡◌ {A = Run E (List ℕ)} (copy_into (xs ++ (ys ++ zs)) a b src) (ok (xs ++ (src ++ zs)))
  unfolding run
  copy_into-append a b xs ys zs src h g e =
      let d : length src ≡ b - a = omega arith in
      let whole : (xs ++ (ys ++ zs)) ≡ ((xs ++ ys) ++ zs) = sym (append_assoc xs ys zs) in
      let cut : drop b (xs ++ (ys ++ zs)) ≡ zs =
        rw whole (drop-append b (xs ++ ys) zs (rw (length-append xs ys) (omega arith))) in
      rw (
        le→leb a b (omega arith),
        le→leb b (length (xs ++ (ys ++ zs)))
            (rw (length-append xs (ys ++ zs), length-append ys zs) (omega arith)),
        d,
        ==_refl (b - a),
        take-append a xs (ys ++ zs) h,
        cut,
      )

  pub index_lem :
      (xs : List ℕ) (i : ℕ) → i < length xs → ◌≡◌ {A = Run E ℕ} (index xs i) (ok (get_or xs i 0))
  unfolding run
  index_lem xs i h = rw (lt→ltb i (length xs) h)

  pub slice_lem :
      (xs : List ℕ) (a b : ℕ)
      → a ≤ b
      → b ≤ length xs
      → ◌≡◌ {A = Run E (List ℕ)} (slice xs a b) (ok (take (b - a) (drop a xs)))
  unfolding run
  slice_lem xs a b h g = rw (le→leb a b h, le→leb b (length xs) g)

module _ {κ} {E : Type κ} where
  pub copy_into_lem :
      (xs : List ℕ) (a b : ℕ) (src : List ℕ)
      → a ≤ b
      → b ≤ length xs
      → length src ≡ b - a
      → ◌≡◌ {A = Run E (List ℕ)} (copy_into xs a b src) (ok (take a xs ++ (src ++ drop b xs)))
  unfolding run
  copy_into_lem xs a b src h g e = rw (le→leb a b h, le→leb b (length xs) g, e, ==_refl (b - a))

  pub store_lem :
      (xs : List ℕ) (i v : ℕ)
      → i < length xs
      → ◌≡◌ {A = Run E (List ℕ)} (store xs i v) (ok (set xs i v))
  unfolding run
  store_lem xs i v h = rw (lt→ltb i (length xs) h)
