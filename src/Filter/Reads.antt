-- ===== src/Filter/Reads.antt =====
-- Reads of the filter in pesigitg-ebpf/src/main.rs beside those of pesigitg-daemon/src/packet.rs.
use pesigitg.Prelude.{
  ℕ, ◌+◌, ◌*◌, ◌≤◌, ◌<◌, bit_and, ◌≡◌, refl, List, arith, le→ltb-false, Safe, Safe-index, length,
  get_or, ok, value,
}
use pesigitg.Filter.{ptr_u8, ptr_u16}
use pesigitg.Packet.Parse.{read_u16, read_ihl}

-- The big-endian number at a place in the frame.
unfoldable pub be16 : List ℕ → ℕ → ℕ
be16 frame i = get_or frame i 0 * 256 + get_or frame (i + 1) 0

pub ptr_u8_lem :
    (frame : List ℕ) (i : ℕ) → i < length frame → ptr_u8 frame i ≡ ok (get_or frame i 0)
unfolding ptr_u8
ptr_u8_lem frame i h = rw (le→ltb-false (length frame) (i + 1) (omega arith)) refl

pub ptr_u16_lem :
    (frame : List ℕ) (i : ℕ) → i + 2 ≤ length frame → ptr_u16 frame i ≡ ok (be16 frame i)
unfolding ptr_u16 be16
ptr_u16_lem frame i h = rw (le→ltb-false (length frame) (i + 2) h) refl

pub read_u16-be16 :
    (frame : List ℕ) (i : ℕ)
    → i + 2 ≤ length frame
    → Safe (λ v. v ≡ be16 frame i) (read_u16 frame i)
unfolding read_u16 be16
read_u16-be16 frame i h =
    Safe-index frame i _ (omega arith) (Safe-index frame (i + 1) _ (omega arith) (value refl))

pub read_ihl-bits :
    (frame : List ℕ) (i : ℕ)
    → i + 1 ≤ length frame
    → Safe (λ v. v ≡ bit_and (get_or frame i 0) 0x0f * 4) (read_ihl frame i)
unfolding read_ihl
read_ihl-bits frame i h = Safe-index frame i _ (omega arith) (value refl)
