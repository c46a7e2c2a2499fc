-- ===== src/Prelude/Xor.antt =====
-- Exclusive or: a byte and a list of bytes XORed twice with the same mask come back.
use Prim.Native.Nat.{
  ℕ, zero, suc, ◌+◌, ◌*◌, ◌/◌, ◌%◌, ◌≤◌, ◌<◌, bit_xor, bit_xor-bitwise, digits, bitwise, differ,
}
use mathlib.Core.Path.{◌≡◌, refl, ap₂}
use mathlib.Core.List.{List, [], ◌∷◌}
use native.Mathlib.Omega.{arith}
use pesigitg.Prelude.Lists.{length}

-- The digits of `a ^ b` by the recursion that defines it, with fuel for `a`.
abbrev xor_digits : ℕ → ℕ → ℕ → ℕ
xor_digits = digits (λ y. y) differ

-- More fuel than `a` makes no difference.
settled : (b a m n : ℕ) → (a ≤ m) × (a ≤ n) → xor_digits m a b ≡ xor_digits n a b
settled b (suc a) (suc m) (suc n) h =
    let halves : (suc a / 2 ≤ m) × (suc a / 2 ≤ n) = (omega arith, omega arith) in
    rw (settled (b / 2) (suc a / 2) m n halves)
settled b (suc a) (suc m) zero h = absurd (omega arith)
settled b (suc a) zero n h = absurd (omega arith)
settled b zero (suc m) (suc n) h = refl
settled b zero (suc m) zero h = refl
settled b zero zero (suc n) h = refl
settled b zero zero zero h = refl

xor_digits-suc :
    (b a : ℕ)
    → bitwise (λ y. y) differ (suc a) b
      ≡ bitwise (λ y. y) differ (suc a / 2) (b / 2) * 2 + differ (suc a % 2) (b % 2)
xor_digits-suc b a =
    let half : ℕ = suc a / 2 in
    let enough : (half ≤ a) × (half ≤ half) = (omega arith, omega arith) in
    omega (arith, settled (b / 2) half a half enough)

differ_bits : (x y : ℕ) → x < 2 → y < 2 → (differ x y < 2) × (differ (differ x y) y ≡ x)
differ_bits zero zero p q = (omega arith, refl)
differ_bits zero (suc zero) p q = (omega arith, refl)
differ_bits zero (suc (suc y)) p q = absurd (omega arith)
differ_bits (suc zero) zero p q = (omega arith, refl)
differ_bits (suc zero) (suc zero) p q = (omega arith, refl)
differ_bits (suc zero) (suc (suc y)) p q = absurd (omega arith)
differ_bits (suc (suc x)) y p q = absurd (omega arith)

bit_xor_step : (a b : ℕ) → bit_xor a b ≡ bit_xor (a / 2) (b / 2) * 2 + differ (a % 2) (b % 2)
bit_xor_step zero b = simp bit_xor-bitwise (omega arith)
bit_xor_step (suc a) b = simp bit_xor-bitwise (xor_digits-suc b a)

bit_xor_twice_fuel : (n a b : ℕ) → a ≤ n → b ≤ n → bit_xor (bit_xor a b) b ≡ a
bit_xor_twice_fuel zero zero zero p q = refl
bit_xor_twice_fuel zero (suc a) b p q = absurd (omega arith)
bit_xor_twice_fuel zero zero (suc b) p q = absurd (omega arith)
bit_xor_twice_fuel (suc n) a b p q =
    let c : ℕ = bit_xor a b in
    let d = differ_bits (a % 2) (b % 2) (omega arith) (omega arith) in
    let low : c % 2 ≡ differ (a % 2) (b % 2) = omega (arith, bit_xor_step a b, d.0) in
    let high : c / 2 ≡ bit_xor (a / 2) (b / 2) = omega (arith, bit_xor_step a b, d.0) in
    let rest = bit_xor_twice_fuel n (a / 2) (b / 2) (omega arith) (omega arith) in
    rw (bit_xor_step c b, low, high, rest, d.1) (omega arith)

-- The same mask twice.
pub bit_xor_twice : (a b : ℕ) → bit_xor (bit_xor a b) b ≡ a
bit_xor_twice a b = bit_xor_twice_fuel (a + b) a b (omega arith) (omega arith)

-- The bytes of one list XORed with the front of another.
unfoldable pub xor_bytes : List ℕ → List ℕ → List ℕ
xor_bytes [] ys = []
xor_bytes (x ∷ xs) [] = x ∷ xs
xor_bytes (x ∷ xs) (y ∷ ys) = bit_xor x y ∷ xor_bytes xs ys

pub length-xor_bytes : (xs ys : List ℕ) → length (xor_bytes xs ys) ≡ length xs
unfolding xor_bytes
length-xor_bytes [] ys = refl
length-xor_bytes (x ∷ xs) [] = refl
length-xor_bytes (x ∷ xs) (y ∷ ys) = omega (arith, length-xor_bytes xs ys)

pub xor_bytes_twice : (xs ys : List ℕ) → xor_bytes (xor_bytes xs ys) ys ≡ xs
unfolding xor_bytes
xor_bytes_twice [] ys = refl
xor_bytes_twice (x ∷ xs) [] = refl
xor_bytes_twice (x ∷ xs) (y ∷ ys) = ap₂ ◌∷◌ (bit_xor_twice x y) (xor_bytes_twice xs ys)
