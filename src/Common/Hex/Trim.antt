-- ===== src/Common/Hex/Trim.antt =====
-- `str::trim` and the boundaries of characters on ASCII texts (pesigitg-common/src/hex.rs).
use mathlib.Core.List.{reverse-cons, reverse, reverse-reverse}
use pesigitg.Common.Hex.{
  is_whitespace3, is_whitespace2, is_char_boundary, leading, strip, trailing, is_whitespace, trim,
}
use pesigitg.Prelude.{
  ◌≤◌, zero, suc, ◌<◌, ◌≡◌, refl, true, false, List, [], ◌∷◌, ◌++◌, arith, All, ℕ,
}

-- A text of ASCII characters.
abbrev pub IsAscii : List ℕ → Type 0
IsAscii = All (λ c. c < 128)

-- ASCII without whitespace.
abbrev pub Visible : List ℕ → Type 0
Visible = All (λ c. (is_whitespace c ≡ false) × (c < 128))

pub leading_ascii :
    (a b : ℕ) (s : List ℕ) → is_whitespace a ≡ false → a < 128 → leading (a ∷ b ∷ s) ≡ 0
unfolding leading is_whitespace2 is_whitespace3
leading_ascii a b [] h l = rw h (ground arith)
leading_ascii a b (c ∷ s) h l = rw h (ground arith)

-- The last bytes of whitespace of two or three bytes are no ASCII.
pub trailing_ascii :
    (a b : ℕ) (s : List ℕ) → is_whitespace a ≡ false → a < 128 → trailing (a ∷ b ∷ s) ≡ 0
unfolding trailing is_whitespace2 is_whitespace3
trailing_ascii a b [] h l = rw h (ground arith)
trailing_ascii a b (c ∷ s) h l = rw h (ground arith)

pub leading-Visible : (s : List ℕ) → Visible s → leading s ≡ 0
unfolding leading
leading-Visible [] v = refl
leading-Visible (a ∷ []) (x, v) = rw (x.0) refl
leading-Visible (a ∷ b ∷ s) (x, v) = leading_ascii a b s x.0 x.1

pub trailing-Visible : (s : List ℕ) → Visible s → trailing s ≡ 0
unfolding trailing
trailing-Visible [] v = refl
trailing-Visible (a ∷ []) (x, v) = rw (x.0) refl
trailing-Visible (a ∷ b ∷ s) (x, v) = trailing_ascii a b s x.0 x.1

pub inside_char : (y : ℕ) (s : List ℕ) → 128 ≤ y → y < 192 → is_char_boundary (y ∷ s) ≡ false
unfolding is_char_boundary
inside_char y s h l = ground arith

pub outside_char : (a : ℕ) (s : List ℕ) → a < 128 → is_char_boundary (a ∷ s) ≡ true
unfolding is_char_boundary
outside_char a s h = ground arith

pub strip_none : (size : List ℕ → ℕ) (s : List ℕ) → size s ≡ 0 → strip size 0 s ≡ s
unfolding strip
strip_none size [] h = refl
strip_none size (c ∷ cs) h = rw (h, strip) refl

pub stripped-All :
    (P : ℕ → Type 0) (c : ℕ) (cs : List ℕ) (size : List ℕ → ℕ) (n : ℕ)
    → All P (c ∷ cs)
    → ((k : ℕ) → All P (strip size k cs))
    → All P (elim n [ zero ↦ c ∷ cs | suc k ↦ strip size k cs ])
stripped-All P c cs size zero h f = h
stripped-All P c cs size (suc k) h f = f k

pub strip-All :
    (P : ℕ → Type 0) (size : List ℕ → ℕ) (k : ℕ) (s : List ℕ) → All P s → All P (strip size k s)
unfolding strip
strip-All P size k [] h = tt
strip-All P size (suc k) (c ∷ cs) h = strip-All P size k cs h.1
strip-All P size zero (c ∷ cs) h =
    stripped-All P c cs size (size (c ∷ cs)) h (λ k. strip-All P size k cs h.1)

pub All-append {ℓ κ} :
    {A : Type ℓ} (P : A → Type κ) (xs ys : List A) → All P xs → All P ys → All P (xs ++ ys)
All-append P [] ys hx hy = hy
All-append P (x ∷ xs) ys hx hy = (hx.0, All-append P xs ys hx.1 hy)

pub All-reverse {ℓ κ} : {A : Type ℓ} (P : A → Type κ) (xs : List A) → All P xs → All P (reverse xs)
All-reverse P [] h = tt
All-reverse P (x ∷ xs) h =
    rw (reverse-cons x xs) (All-append P (reverse xs) (x ∷ []) (All-reverse P xs h.1) (h.0, tt))

pub trim-Visible : (s : List ℕ) → Visible s → trim s ≡ s
unfolding trim
trim-Visible s v =
    rw
      (
        strip_none leading s (leading-Visible s v),
        strip_none trailing (reverse s) (trailing-Visible (reverse s) (All-reverse _ s v)),
      )
      (reverse-reverse s)

pub trim-IsAscii : (s : List ℕ) → IsAscii s → IsAscii (trim s)
unfolding trim
trim-IsAscii s h =
    All-reverse _ _ (strip-All _ trailing 0 _ (All-reverse _ _ (strip-All _ leading 0 s h)))

pub boundary-IsAscii : (s : List ℕ) → IsAscii s → is_char_boundary s ≡ true
unfolding is_char_boundary
boundary-IsAscii [] h = refl
boundary-IsAscii (c ∷ cs) h = ground (arith, h.0)
