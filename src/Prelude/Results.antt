-- ===== src/Prelude/Results.antt =====
-- The result of running Rust code: a value, an early return (`Err`, or `None` where the function
-- returns an `Option`), or a panic (an index or a slice out of range, `expect`, `assert!`).
use Prim.Native.Nat.{ℕ, ◌-◌}
use mathlib.Core.Path.{◌≡◌, refl}
use mathlib.Core.Logic.{◌⊎◌, inl, inr}
use mathlib.Core.Bool.{Bool, true, false, ◌&&◌}
use mathlib.Core.Option.{Option, none, some}
use mathlib.Core.List.{List, ◌++◌}
use pesigitg.Prelude.Tests.{ltb, leb, ◌==◌, if◌then◌else◌}
use pesigitg.Prelude.Lists.{length, get_or, set, take, drop}

pub data Run {ℓ κ} (E : Type κ) (A : Type ℓ) : Type (ℓ ⊔ κ) where
  ok : A → Run E A
  err : E → Run E A
  panic : Run E A

-- The error of a function that returns an `Option`: `err absent` is its `None`.
pub data Absent : Type 0 where
  absent : Absent

infixl 5 ◌>>=◌ ◌>>◌
unfoldable pub ◌>>=◌ {ℓ κ μ} :
    {E : Type μ} {A : Type ℓ} {B : Type κ} → Run E A → (A → Run E B) → Run E B
ok a >>= f = f a
err e >>= f = err e
panic >>= f = panic

unfoldable pub ◌>>◌ {κ μ} : {E : Type μ} {B : Type κ} → Run E (Unit {0}) → Run E B → Run E B
m >> k = m >>= λ _. k

module _ {μ} {E : Type μ} where
  -- `if b { return Err(e); }`
  unfoldable pub return_if : Bool → E → Run E (Unit {0})
  return_if true e = err e
  return_if false e = ok tt

  unfoldable pub or_else {ℓ} : {A : Type ℓ} → Option A → E → Run E A
  or_else none e = err e
  or_else (some a) e = ok a

  -- `assert!(b)`
  unfoldable pub assert : Bool → Run E (Unit {0})
  assert true = ok tt
  assert false = panic

  -- `map_err`, also for a call that returns an `Option` (`ok_or`).
  unfoldable pub map_err {ℓ ν} : {F : Type ν} {A : Type ℓ} → (F → E) → Run F A → Run E A
  map_err f (ok a) = ok a
  map_err f (err e) = err (f e)
  map_err f panic = panic

  -- `xs[i]` on bytes, `&xs[a..b]`, `&xs[a..]`.
  unfoldable pub index : List ℕ → ℕ → Run E ℕ
  index xs i = if ltb i (length xs) then ok (get_or xs i 0) else panic

  unfoldable pub slice : List ℕ → ℕ → ℕ → Run E (List ℕ)
  slice xs a b = if leb a b && leb b (length xs) then ok (take (b - a) (drop a xs)) else panic

  unfoldable pub slice_from : List ℕ → ℕ → Run E (List ℕ)
  slice_from xs a = if leb a (length xs) then ok (drop a xs) else panic

  -- `xs[i] = v`
  unfoldable pub store : List ℕ → ℕ → ℕ → Run E (List ℕ)
  store xs i v = if ltb i (length xs) then ok (set xs i v) else panic

  -- `xs[a..b].copy_from_slice(src)`: it panics if the range is out of bounds or the lengths differ.
  unfoldable pub copy_into : List ℕ → ℕ → ℕ → List ℕ → Run E (List ℕ)
  copy_into xs a b src =
      if (leb a b && leb b (length xs)) && (length src == b - a)
      then ok (take a xs ++ (src ++ drop b xs))
      else panic

pub Run-cases {ℓ κ} :
    {E : Type κ} {A : Type ℓ} (r : Run E A)
    → ((a : A) × (r ≡ ok a)) ⊎ (((e : E) × (r ≡ err e)) ⊎ (r ≡ panic))
Run-cases (ok a) = inl (a, refl)
Run-cases (err e) = inr (inl (e, refl))
Run-cases panic = inr (inr refl)

-- To unfold `run` is to unfold every step of a `do` block.
unfoldable pub run : Unit {0}
unfolding ◌>>=◌ ◌>>◌ return_if or_else assert map_err index slice slice_from store copy_into
run = tt
