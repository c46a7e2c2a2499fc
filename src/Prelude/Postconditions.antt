-- ===== src/Prelude/Postconditions.antt =====
-- Postconditions of Rust code: `Safe P r` says that `r` is no panic and that a value in it has `P`.
-- One rule for each step of a `do` block carries what its guard has established.
use pesigitg.Prelude.Results.{store, copy_into, run}
use Prim.Native.Nat.{ℕ, ◌-◌, ◌≤◌, ◌<◌}
use mathlib.Core.Path.{◌≡◌, refl, subst}
use mathlib.Core.Logic.{◌≢◌}
use mathlib.Core.Bool.{Bool, true, false}
use mathlib.Core.Option.{Option, none, some}
use mathlib.Core.List.{List}
use pesigitg.Prelude.Tests.{if◌then◌else◌, lt→ltb, le→leb, ==_refl}
use native.Mathlib.Omega.{arith}
use pesigitg.Prelude.Lists.{
  length, get_or, take, drop, length-set, length-take, length-drop, length-append,
}
use pesigitg.Prelude.Results.{
  Run, ok, err, panic, ◌>>=◌, ◌>>◌, return_if, or_else, assert, map_err, index, slice, slice_from,
}

module _ {ℓ κ μ} {E : Type κ} {A : Type ℓ} (P : A → Type μ) where
  pub data Safe : Run E A → Type (ℓ ⊔ κ ⊔ μ) where
    value : {a : A} → P a → Safe (ok a)
    early : {e : E} → Safe (err e)

module _ {ℓ κ μ} {E : Type κ} {A : Type ℓ} {P : A → Type μ} where
  pub Safe-ne-panic : {r : Run E A} → Safe P r → r ≢ panic
  Safe-ne-panic (value p) h = cc
  Safe-ne-panic early h = cc

  pub Safe-ok : {r : Run E A} (a : A) → Safe P r → r ≡ ok a → P a
  Safe-ok a (value {a = x} p) h = let e : x ≡ a = cc in subst P e p
  Safe-ok a early h = cc

  pub Safe-if :
      (b : Bool) {x y : Run E A}
      → (b ≡ true → Safe P x)
      → (b ≡ false → Safe P y)
      → Safe P (if b then x else y)
  Safe-if true x y = x refl
  Safe-if false x y = y refl

  pub Safe-return_if :
      (b : Bool) (e : E) (k : Run E A) → (b ≡ false → Safe P k) → Safe P (return_if b e >> k)
  unfolding run
  Safe-return_if true e k h = early
  Safe-return_if false e k h = h refl

  pub Safe-assert : (b : Bool) (k : Run E A) → b ≡ true → Safe P k → Safe P (assert b >> k)
  unfolding run
  Safe-assert true k h s = s
  Safe-assert false k h s = ground arith

  pub Safe-or_else {ν} :
      {B : Type ν} (o : Option B) (e : E) (k : B → Run E A)
      → ((b : B) → o ≡ some b → Safe P (k b))
      → Safe P (or_else o e >>= k)
  unfolding run
  Safe-or_else none e k h = early
  Safe-or_else (some b) e k h = h b refl

  pub Safe-index :
      (xs : List ℕ) (i : ℕ) (k : ℕ → Run E A)
      → i < length xs
      → Safe P (k (get_or xs i 0))
      → Safe P (index xs i >>= k)
  unfolding run
  Safe-index xs i k h s = rw (lt→ltb i (length xs) h) s

  pub Safe-slice :
      (xs : List ℕ) (a b : ℕ) (k : List ℕ → Run E A)
      → a ≤ b
      → b ≤ length xs
      → Safe P (k (take (b - a) (drop a xs)))
      → Safe P (slice xs a b >>= k)
  unfolding run
  Safe-slice xs a b k h g s = rw (le→leb a b h, le→leb b (length xs) g) s

  pub Safe-slice_from :
      (xs : List ℕ) (a : ℕ) (k : List ℕ → Run E A)
      → a ≤ length xs
      → Safe P (k (drop a xs))
      → Safe P (slice_from xs a >>= k)
  unfolding run
  Safe-slice_from xs a k h s = rw (le→leb a (length xs) h) s

  pub Safe-bind {ν ρ} :
      {B : Type ν} {Q : B → Type ρ} (m : Run E B) (k : B → Run E A)
      → Safe Q m
      → ((b : B) → Q b → Safe P (k b))
      → Safe P (m >>= k)
  unfolding run
  Safe-bind m k (value q) h = h _ q
  Safe-bind m k early h = early

  pub Safe-then {ρ} :
      {Q : Unit {0} → Type ρ} (m : Run E (Unit {0})) (k : Run E A)
      → Safe Q m
      → ((b : Unit {0}) → Q b → Safe P k)
      → Safe P (m >> k)
  unfolding run
  Safe-then m k (value q) h = h _ q
  Safe-then m k early h = early

module _ {ℓ κ μ ν} {E : Type κ} {A : Type ℓ} {P : A → Type μ} {Q : A → Type ν} where
  pub Safe-weaken : {r : Run E A} → ((a : A) → Q a → P a) → Safe Q r → Safe P r
  Safe-weaken h (value q) = value (h _ q)
  Safe-weaken h early = early

module _ {ℓ κ μ} {E : Type κ} {A : Type ℓ} {P : A → Type μ} where
  pub Safe-option : (o : Option A) (e : E) → ((a : A) → o ≡ some a → P a) → Safe P (or_else o e)
  unfolding run
  Safe-option none e h = early
  Safe-option (some a) e h = value (h a refl)

module _ {ℓ κ ν μ} {E : Type κ} {F : Type ν} {A : Type ℓ} {P : A → Type μ} where
  pub Safe-map_err : (f : F → E) {m : Run F A} → Safe P m → Safe P (map_err f m)
  unfolding run
  Safe-map_err f (value p) = value p
  Safe-map_err f early = early

-- Steps that keep or fix a length.
module _ {κ} {E : Type κ} where
  pub store-Safe :
      (xs : List ℕ) (i v : ℕ)
      → i < length xs
      → Safe {E = E} (λ ys. length ys ≡ length xs) (store xs i v)
  unfolding run
  store-Safe xs i v h = rw (lt→ltb i (length xs) h) (value (length-set xs i v))

  pub index-Safe : (xs : List ℕ) (i : ℕ) → i < length xs → Safe {E = E} (λ _. Unit {0}) (index xs i)
  unfolding run
  index-Safe xs i h = rw (lt→ltb i (length xs) h) (value tt)

  pub slice-Safe :
      (xs : List ℕ) (a b : ℕ)
      → a ≤ b
      → b ≤ length xs
      → Safe {E = E} (λ ys. length ys ≡ b - a) (slice xs a b)
  unfolding run
  slice-Safe xs a b h g =
      rw (le→leb a b h, le→leb b (length xs) g)
        (value (rw (length-take, length-drop) (omega arith)))

  pub copy_into-Safe :
      (xs : List ℕ) (a b : ℕ) (src : List ℕ)
      → a ≤ b
      → b ≤ length xs
      → length src ≡ b - a
      → Safe {E = E} (λ ys. length ys ≡ length xs) (copy_into xs a b src)
  unfolding run
  copy_into-Safe xs a b src h g e =
      rw (le→leb a b h, le→leb b (length xs) g, e, ==_refl (b - a))
        (value (rw (length-append, length-append, length-take, length-drop) (omega arith)))

module _ {ℓ κ μ} {E : Type κ} {A : Type ℓ} {Q : A → Type μ} where
  -- A postcondition together with the run that it is about.
  pub Safe-result : (m : Run E A) → Safe Q m → Safe (λ a. Q a × (m ≡ ok a)) m
  Safe-result m (value q) = value (q, refl)
  Safe-result m early = early
