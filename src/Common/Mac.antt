-- ===== src/Common/Mac.antt =====
-- pesigitg-common/src/mac.rs.
pub mod RoundTrip
use pesigitg.Common.Hex.{from_str_radix, format_byte}
use pesigitg.Prelude.{
  true, false, not, length, ◌>>=◌, ◌>>◌, return_if, or_else, ◌==◌, ok, ◌++◌, Run, ◌∷◌, [], Bool,
  List, ℕ, ◌+◌,
}

pub data MacError : Type 0 where
  wrong_count : ℕ → MacError
  invalid_octet : ℕ → MacError

-- One character in front of the parts: a separator starts a new one.
pub add_char : Bool → ℕ → List (List ℕ) → List (List ℕ)
add_char true c parts = [] ∷ parts
add_char false c [] = (c ∷ []) ∷ []
add_char false c (part ∷ parts) = (c ∷ part) ∷ parts

-- `s.split(sep)`: a text without the separator is one part.
pub split : ℕ → List ℕ → List (List ℕ)
split sep [] = [] ∷ []
split sep (c ∷ cs) = add_char (c == sep) c (split sep cs)

unfoldable pub parse_octets : ℕ → List (List ℕ) → Run MacError (List ℕ)
parse_octets i [] = ok []
parse_octets i (part ∷ parts) = do
  octet ← or_else (from_str_radix part) (invalid_octet i)
  octets ← parse_octets (i + 1) parts
  ok (octet ∷ octets)

unfoldable pub parse : List ℕ → Run MacError (List ℕ)
parse s = do
  let parts = split b':' s
  return_if (not (length parts == 6)) (wrong_count (length parts))
  parse_octets 0 parts

-- The octets of `format!`, `{:02x}` each, with a colon between two of them.
pub format : List ℕ → List ℕ
format [] = []
format (b ∷ []) = format_byte b
format (b ∷ c ∷ mac) = format_byte b ++ (b':' ∷ format (c ∷ mac))
