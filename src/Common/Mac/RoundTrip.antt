-- ===== src/Common/Mac/RoundTrip.antt =====
-- pesigitg-common/src/mac.rs: `parse` reads back what `format` wrote.
use pesigitg.Common.Hex.{format_byte, hex_digit}
use pesigitg.Common.Hex.RoundTrip.{IsByte, from_str_radix-format_byte}
use pesigitg.Common.Mac.{add_char, split, parse_octets, parse, format}
use pesigitg.Prelude.{
  ◌<◌, ◌≡◌, refl, ap, ◌∙◌, List, [], ◌∷◌, ◌++◌, map, arith, length, All, run, ok, ℕ, suc, ◌+◌,
}

format_byte-split_end :
    (sep : ℕ) (b : ℕ) → sep ≡ b':' → b < 256 → split sep (format_byte b) ≡ format_byte b ∷ []
unfolding split add_char format_byte hex_digit
format_byte-split_end sep b e h = ground arith

format_byte-split :
    (b : ℕ) (rest : List ℕ)
    → b < 256
    → split b':' (format_byte b ++ (b':' ∷ rest)) ≡ format_byte b ∷ split b':' rest
unfolding split add_char format_byte hex_digit
format_byte-split b rest h = ground (arith)

split-format :
    (b : ℕ) (mac : List ℕ)
    → All IsByte (b ∷ mac)
    → split b':' (format (b ∷ mac)) ≡ map format_byte (b ∷ mac)
unfolding format
split-format b [] h = format_byte-split_end b':' b refl h.0
split-format b (c ∷ mac) h =
    format_byte-split b (format (c ∷ mac)) h.0 ∙ ap (◌∷◌ (format_byte b)) (split-format c mac h.1)

parse_octets-format_byte :
    (i : ℕ) (mac : List ℕ) → All IsByte mac → parse_octets i (map format_byte mac) ≡ ok mac
unfolding parse_octets run
parse_octets-format_byte i [] h = refl
parse_octets-format_byte i (b ∷ mac) h =
    rw (from_str_radix-format_byte b h.0, parse_octets-format_byte (i + 1) mac h.1)

length-map {ℓ κ} :
    {A : Type ℓ} {B : Type κ} (f : A → B) (xs : List A) → length (map f xs) ≡ length xs
length-map f [] = refl
length-map f (x ∷ xs) = ap suc (length-map f xs)

-- `parse` reads back what `format` wrote, for an address of six bytes.
pub parse-format : (mac : List ℕ) → All IsByte mac → length mac ≡ 6 → parse (format mac) ≡ ok mac
unfolding parse run
parse-format [] h e = absurd (omega arith)
parse-format (b ∷ mac) h e =
    rw (split-format b mac h, length-map format_byte (b ∷ mac), e)
      (parse_octets-format_byte 0 (b ∷ mac) h)
