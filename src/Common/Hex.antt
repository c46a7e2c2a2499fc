-- ===== src/Common/Hex.antt =====
-- pesigitg-common/src/hex.rs. A text is the list of its bytes in UTF-8, as a Rust `str` has it; the
-- messages of the Rust errors are constructors.
pub mod Trim
pub mod RoundTrip
use mathlib.Core.List.{reverse}
use pesigitg.Prelude.{
  zero, suc, true, assert, not, length, ◌>>=◌, ◌>>◌, return_if, or_else, ◌||◌, panic, ◌&&◌, ◌==◌,
  ok, ◌++◌, [], ltb, none, ◌∷◌, Run, leb, some, if◌then◌else◌, Bool, List, Option, ℕ, ◌+◌, ◌-◌, ◌*◌,
  ◌/◌, ◌%◌,
}

pub data HexError : Type 0 where
  odd_length : HexError
  invalid_at : ℕ → HexError

-- `char::to_digit(16)`.
unfoldable pub hex_value : ℕ → Option ℕ
hex_value c =
    if leb b'0' c && leb c b'9'
    then some (c - b'0')
    else if leb b'a' c && leb c b'f'
    then some (c - b'a' + 10)
    else if leb b'A' c && leb c b'F'
    then some (c - b'A' + 10)
    else none

-- The digits of `u8::from_str_radix`, with its test for overflow.
unfoldable pub radix_digits : ℕ → List ℕ → Option ℕ
radix_digits acc [] = some acc
radix_digits acc (c ∷ cs) = elim (hex_value c) [
  | none ↦ none
  | some d ↦ if ltb 255 (acc * 16 + d) then none else radix_digits (acc * 16 + d) cs
]

-- `u8::from_str_radix(s, 16)`: one leading `+` is accepted if a digit follows.
unfoldable pub from_str_radix : List ℕ → Option ℕ
from_str_radix [] = none
from_str_radix (c ∷ []) = radix_digits 0 (c ∷ [])
from_str_radix (c ∷ d ∷ cs) =
    if c == b'+' then radix_digits 0 (d ∷ cs) else radix_digits 0 (c ∷ d ∷ cs)

-- The characters of `char::is_whitespace`, by the bytes of their encodings: one, two or three.
unfoldable pub is_whitespace : ℕ → Bool
is_whitespace c = (leb 9 c && leb c 13) || c == 32

pub is_whitespace2 : ℕ → ℕ → Bool
is_whitespace2 a b = a == 0xc2 && (b == 0x85 || b == 0xa0)

pub is_whitespace3 : ℕ → ℕ → ℕ → Bool
is_whitespace3 a b c =
    ((a == 0xe1 && b == 0x9a) && c == 0x80)
    || (((a == 0xe2 && b == 0x80)
          && ((leb 0x80 c && leb c 0x8a) || ((c == 0xa8 || c == 0xa9) || c == 0xaf)))
        || (((a == 0xe2 && b == 0x81) && c == 0x9f) || ((a == 0xe3 && b == 0x80) && c == 0x80)))

-- The number of bytes of a whitespace character at the start, zero if there is none.
pub leading : List ℕ → ℕ
leading [] = 0
leading (a ∷ []) = if is_whitespace a then 1 else 0
leading (a ∷ b ∷ []) = if is_whitespace a then 1 else if is_whitespace2 a b then 2 else 0
leading (a ∷ b ∷ c ∷ s) =
    if is_whitespace a
    then 1
    else if is_whitespace2 a b
    then 2
    else if is_whitespace3 a b c
    then 3
    else 0

-- The same at the end of a text, whose bytes come in reverse.
pub trailing : List ℕ → ℕ
trailing [] = 0
trailing (a ∷ []) = if is_whitespace a then 1 else 0
trailing (a ∷ b ∷ []) = if is_whitespace a then 1 else if is_whitespace2 b a then 2 else 0
trailing (a ∷ b ∷ c ∷ s) =
    if is_whitespace a
    then 1
    else if is_whitespace2 b a
    then 2
    else if is_whitespace3 c b a
    then 3
    else 0

-- Whitespace is stripped; `k` bytes of a character are still to go.
pub strip : (List ℕ → ℕ) → ℕ → List ℕ → List ℕ
strip size k [] = []
strip size (suc k) (c ∷ cs) = strip size k cs
strip size zero (c ∷ cs) = elim (size (c ∷ cs)) [ zero ↦ c ∷ cs | suc k ↦ strip size k cs ]

-- `str::trim`.
unfoldable pub trim : List ℕ → List ℕ
trim s = reverse (strip trailing 0 (reverse (strip leading 0 s)))

-- `str::is_char_boundary` in front of the bytes: none of them, or no continuation byte.
pub is_char_boundary : List ℕ → Bool
is_char_boundary [] = true
is_char_boundary (c ∷ cs) = ltb c 0x80 || leb 0xc0 c

-- The iterator over `(0..s.len()).step_by(2)`, collected into a `Result`; `&s[i..i + 2]` panics where
-- one of its ends is inside a character.
unfoldable pub decode_pairs : ℕ → List ℕ → Run HexError (List ℕ)
decode_pairs i [] = ok []
decode_pairs i (a ∷ []) = panic
decode_pairs i (a ∷ b ∷ s) = do
  assert (is_char_boundary (a ∷ b ∷ s) && is_char_boundary s)
  byte ← or_else (from_str_radix (a ∷ b ∷ [])) (invalid_at i)
  bytes ← decode_pairs (i + 2) s
  ok (byte ∷ bytes)

unfoldable pub decode : List ℕ → Run HexError (List ℕ)
decode text = do let s = trim text; return_if (not (length s % 2 == 0)) odd_length; decode_pairs 0 s

-- A digit of `{:x}`.
unfoldable pub hex_digit : ℕ → ℕ
hex_digit d = if ltb d 10 then b'0' + d else b'a' + (d - 10)

-- `{b:02x}`.
unfoldable pub format_byte : ℕ → List ℕ
format_byte b = hex_digit (b / 16) ∷ hex_digit (b % 16) ∷ []

unfoldable pub encode : List ℕ → List ℕ
encode [] = []
encode (b ∷ bytes) = format_byte b ++ encode bytes
