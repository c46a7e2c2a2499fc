-- ===== src/Quic/Initial.antt =====
-- pesigitg-daemon/src/quic/initial.rs: `parse_strict` and `read_varint`. A packet is a list of
-- bytes; `err` is the Rust `Err` (or `None`), and `panic` an index or slice out of range.
pub mod Safety
use pesigitg.Prelude.{
  ℕ, ◌+◌, ◌*◌, ◌/◌, ◌%◌, ◌^◌, bit_and, bit_or, not, ◌&&◌, ◌||◌, List, [], ◌∷◌, ltb, ◌==◌,
  if◌then◌else◌, length, Run, ok, err, Absent, absent, ◌>>=◌, ◌>>◌, return_if, map_err, index,
  slice, slice_from,
}

abbrev pub quic_v1 : ℕ
quic_v1 = 0x0000_0001

abbrev pub quic_v2 : ℕ
quic_v2 = 0x6b33_43cf

abbrev pub max_cid_len : ℕ
max_cid_len = 20

pub record Initial : Type 0 where
  pub first_byte : ℕ
  pub version : ℕ
  pub dcid : List ℕ
  pub scid : List ℕ
  pub token : List ℕ
  pub length : ℕ
  pub pn_offset : ℕ

pub data ParseError : Type 0 where
  truncated not_long_header fixed_bit_unset not_initial : ParseError
  unsupported_version : ℕ → ParseError
  dcid_length_invalid scid_length_invalid token_length_invalid : ParseError
  length_invalid length_overrun : ParseError

-- `u32::from_be_bytes`.
abbrev pub u32_from_be_bytes : ℕ → ℕ → ℕ → ℕ → ℕ
u32_from_be_bytes a b c d = ((a * 256 + b) * 256 + c) * 256 + d

-- `usize::checked_add` on a 64-bit target.
unfoldable pub checked_add {κ} : {E : Type κ} → ℕ → ℕ → E → Run E ℕ
checked_add a b e = if ltb (a + b) (2 ^ 64) then ok (a + b) else err e

-- The loop `for &byte in &buf[1..size] { value = (value << 8) | u64::from(byte); }`.
pub varint_loop : ℕ → List ℕ → ℕ
varint_loop value [] = value
varint_loop value (byte ∷ bytes) = varint_loop (bit_or (value * 256 % 2 ^ 64) byte) bytes

pub read_varint : List ℕ → Run Absent (ℕ × ℕ)
read_varint [] = err absent
read_varint (first ∷ rest) =
    let buf : List ℕ = first ∷ rest in
    let size = 2 ^ (first / 64) in
    do
      return_if (ltb (length buf) size) absent
      bytes ← slice buf 1 size
      ok (varint_loop (bit_and first 0x3f) bytes, size)

-- The `match version` on the packet type.
pub check_version : ℕ → ℕ → Run ParseError (Unit {0})
check_version version ptype =
    if version == quic_v1 && not (ptype == 0)
    then err not_initial
    else if version == quic_v2 && not (ptype == 1)
    then err not_initial
    else if version == quic_v1 || version == quic_v2
    then ok tt
    else err (unsupported_version version)

-- `parse_strict` from the token on.
pub parse_token : List ℕ → ℕ → ℕ → List ℕ → List ℕ → ℕ → Run ParseError Initial
parse_token packet first_byte version dcid scid scid_end = do
  after_scid ← slice_from packet scid_end
  (token_len, tl_size) ← map_err (λ _. token_length_invalid) (read_varint after_scid)
  let token_start = scid_end + tl_size
  token_end ← checked_add token_start token_len token_length_invalid
  return_if (ltb (length packet) token_end) token_length_invalid
  token ← slice packet token_start token_end
  after_token ← slice_from packet token_end
  (len, len_size) ← map_err (λ _. length_invalid) (read_varint after_token)
  let pn_offset = token_end + len_size
  declared_end ← checked_add pn_offset len length_overrun
  return_if (ltb (length packet) declared_end) length_overrun
  ok (record {
    first_byte = first_byte;
    version = version;
    dcid = dcid;
    scid = scid;
    token = token;
    length = len;
    pn_offset = pn_offset;
  })

-- `parse_strict` from the length of the DCID on.
pub parse_cids : List ℕ → ℕ → ℕ → Run ParseError Initial
parse_cids packet first_byte version = do
  dcid_len ← index packet 5
  return_if (ltb max_cid_len dcid_len) dcid_length_invalid
  let dcid_end = 6 + dcid_len
  return_if (ltb (length packet) (dcid_end + 1)) dcid_length_invalid
  dcid ← slice packet 6 dcid_end
  scid_len ← index packet dcid_end
  return_if (ltb max_cid_len scid_len) scid_length_invalid
  let scid_start = dcid_end + 1
  let scid_end = scid_start + scid_len
  return_if (ltb (length packet) scid_end) scid_length_invalid
  scid ← slice packet scid_start scid_end
  parse_token packet first_byte version dcid scid scid_end

pub parse_strict : List ℕ → Run ParseError Initial
parse_strict packet = do
  return_if (ltb (length packet) 9) truncated
  first_byte ← index packet 0
  return_if (bit_and first_byte 0x80 == 0) not_long_header
  return_if (bit_and first_byte 0x40 == 0) fixed_bit_unset
  b1 ← index packet 1
  b2 ← index packet 2
  b3 ← index packet 3
  b4 ← index packet 4
  let version = u32_from_be_bytes b1 b2 b3 b4
  let ptype = bit_and (first_byte / 16) 3
  check_version version ptype
  parse_cids packet first_byte version
