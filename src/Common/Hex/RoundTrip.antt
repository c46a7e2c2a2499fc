-- ===== src/Common/Hex/RoundTrip.antt =====
-- pesigitg-common/src/hex.rs: what `encode` writes, `decode` reads back; what else `decode`
-- accepts, and where it panics.
use pesigitg.Common.Hex.{
  is_char_boundary, leading, trailing, hex_value, radix_digits, from_str_radix, is_whitespace, trim,
  decode_pairs, decode, hex_digit, format_byte, encode,
}
use pesigitg.Common.Hex.Trim.{
  IsAscii, Visible, leading_ascii, trailing_ascii, inside_char, outside_char, strip_none,
  All-append, trim-Visible, boundary-IsAscii,
}
use pesigitg.Prelude.{
  ◌≤◌, panic, ◌<◌, ◌≡◌, refl, Bool, true, false, Option, none, some, List, [], ◌∷◌, arith, ◌==◌,
  every, every-below, length, All, run, ok, ℕ, ◌+◌, ◌*◌, ◌%◌,
}

abbrev pub IsByte : ℕ → Type 0
IsByte b = b < 256

abbrev is : Option ℕ → ℕ → Bool
is none b = false
is (some a) b = a == b

is→eq : (o : Option ℕ) (b : ℕ) → is o b ≡ true → o ≡ some b
is→eq none b h = ground arith
is→eq (some a) b h = ground arith

pub from_str_radix-format_byte : (b : ℕ) → b < 256 → from_str_radix (format_byte b) ≡ some b
unfolding every from_str_radix radix_digits hex_value format_byte hex_digit
from_str_radix-format_byte b h =
    is→eq _ _ (every-below (λ x. is (from_str_radix (format_byte x)) x) 256 b h refl)

format_byte-Visible : (b : ℕ) → b < 256 → Visible (format_byte b)
unfolding format_byte hex_digit is_whitespace
format_byte-Visible b h = ((ground arith, ground arith), ((ground arith, ground arith), tt))

encode-Visible : (bytes : List ℕ) → All IsByte bytes → Visible (encode bytes)
unfolding encode
encode-Visible [] h = tt
encode-Visible (b ∷ bytes) h =
    All-append _ (format_byte b) (encode bytes) (format_byte-Visible b h.0)
      (encode-Visible bytes h.1)

Visible-IsAscii : (s : List ℕ) → Visible s → IsAscii s
Visible-IsAscii [] v = tt
Visible-IsAscii (c ∷ cs) v = (v.0.1, Visible-IsAscii cs v.1)

pub length-encode : (bytes : List ℕ) → length (encode bytes) ≡ 2 * length bytes
unfolding encode format_byte
length-encode [] = refl
length-encode (b ∷ bytes) = omega (arith, length-encode bytes)

encode-boundary : (bytes : List ℕ) → All IsByte bytes → is_char_boundary (encode bytes) ≡ true
encode-boundary bytes h =
    boundary-IsAscii (encode bytes) (Visible-IsAscii (encode bytes) (encode-Visible bytes h))

decode_pairs-encode :
    (i : ℕ) (bytes : List ℕ) → All IsByte bytes → decode_pairs i (encode bytes) ≡ ok bytes
unfolding decode_pairs encode run format_byte
decode_pairs-encode i [] h = refl
decode_pairs-encode i (b ∷ bytes) h = rw (
  encode-boundary (b ∷ bytes) h,
  encode-boundary bytes h.1,
  from_str_radix-format_byte b h.0,
  decode_pairs-encode (i + 2) bytes h.1,
  decode_pairs,
)

-- `decode` reads back what `encode` wrote, for every list of bytes.
pub decode-encode : (bytes : List ℕ) → All IsByte bytes → decode (encode bytes) ≡ ok bytes
unfolding decode run
decode-encode bytes h =
    let even : length (encode bytes) % 2 ≡ 0 = omega (arith, length-encode bytes) in
    rw (trim-Visible (encode bytes) (encode-Visible bytes h), even) (decode_pairs-encode 0 bytes h)

digit-Visible : (d v : ℕ) → hex_value d ≡ some v → (is_whitespace d ≡ false) × (d < 128)
unfolding hex_value is_whitespace
digit-Visible d v h = (ground arith, ground arith)

from_str_radix_sign : (d v : ℕ) → hex_value d ≡ some v → from_str_radix (b'+' ∷ d ∷ []) ≡ some v
unfolding from_str_radix radix_digits hex_value
from_str_radix_sign d v h = ground arith

-- A sign in place of a digit is accepted: `+` followed by a hex digit decodes to that digit.
pub decode_sign : (d v : ℕ) → hex_value d ≡ some v → decode (b'+' ∷ d ∷ []) ≡ ok (v ∷ [])
unfolding decode run decode_pairs is_char_boundary is_whitespace
decode_sign d v h =
    let (visible, ascii) = digit-Visible d v h in
    rw
      (
        trim-Visible (b'+' ∷ d ∷ []) ((refl, omega arith), ((visible, ascii), tt)),
        from_str_radix_sign d v h,
      )
      refl

-- A character across two pairs: `decode` panics on every text of four bytes whose third byte
-- continues a character, between two ASCII characters that are not whitespace.
pub decode_char :
    (a x y b : ℕ)
    → is_whitespace a ≡ false
    → a < 128
    → 128 ≤ y
    → y < 192
    → is_whitespace b ≡ false
    → b < 128
    → decode (a ∷ x ∷ y ∷ b ∷ []) ≡ panic
unfolding decode run trim decode_pairs
decode_char a x y b v a' y' y'' w b' =
    let start = leading_ascii a x (y ∷ b ∷ []) v a' in
    let stop = trailing_ascii b y (x ∷ a ∷ []) w b' in
    let inside = inside_char y (b ∷ []) y' y'' in
    let outside = outside_char a (x ∷ y ∷ b ∷ []) a' in
    rw
      (
        strip_none leading (a ∷ x ∷ y ∷ b ∷ []) start,
        strip_none trailing (b ∷ y ∷ x ∷ a ∷ []) stop,
        outside,
        inside,
      )
      refl
