-- ===== src/Retry/Checksum.antt =====
-- pesigitg-daemon/src/retry/datapath.rs: the Internet checksums of a reflected frame. On `u32`,
-- `acc & 0xffff` is `acc % 2 ^ 16` and `acc >> 16` is `acc / 2 ^ 16`.
use pesigitg.Prelude.{
  zero, suc, ◌-◌, ◌*◌, ◌/◌, ◌%◌, ◌^◌, List, [], ◌∷◌, ltb, ◌==◌, if◌then◌else◌, Run, Absent, ◌>>=◌,
  index, slice, store, copy_into, ℕ, ◌+◌,
}

-- Two bytes a round; a last single byte is the high one.
pub fold_slice : ℕ → List ℕ → ℕ
fold_slice acc [] = acc
fold_slice acc (b ∷ []) = (acc + b * 256) % 2 ^ 32
fold_slice acc (a ∷ b ∷ bytes) = fold_slice ((acc + (a * 256 + b)) % 2 ^ 32) bytes

-- `while acc > 0xffff { acc = (acc & 0xffff) + (acc >> 16); }`, which takes two rounds at most.
pub fold_carries : ℕ → ℕ → ℕ
fold_carries zero acc = acc
fold_carries (suc fuel) acc =
    let next = fold_carries fuel (acc % 2 ^ 16 + acc / 2 ^ 16) in
    if ltb 0xffff acc then next else acc

pub ones_complement_sum : List ℕ → ℕ
ones_complement_sum bytes = 0xffff - fold_carries 2 (fold_slice 0 bytes) % 2 ^ 16

-- `u16::to_be_bytes`
abbrev pub be16 : ℕ → List ℕ
be16 v = v / 256 ∷ (v % 256 ∷ [])

pub write_ipv4_checksum : List ℕ → ℕ → ℕ → Run Absent (List ℕ)
write_ipv4_checksum frame ip_offset ip_hdr_len = do
  zeroed ← store frame (ip_offset + 10) 0
  zeroed' ← store zeroed (ip_offset + 11) 0
  header ← slice zeroed' ip_offset (ip_offset + ip_hdr_len)
  copy_into zeroed' (ip_offset + 10) (ip_offset + 12) (be16 (ones_complement_sum header))

-- The complement of the sum, where zero stands for "no checksum" and is replaced.
pub udp_sum : ℕ → ℕ
udp_sum acc = let sum = 0xffff - fold_carries 2 acc % 2 ^ 16 in if sum == 0 then 0xffff else sum

pub write_ipv6_udp_checksum : List ℕ → ℕ → ℕ → Run Absent (List ℕ)
write_ipv6_udp_checksum frame ip_offset udp_offset = do
  hi ← index frame (udp_offset + 4)
  lo ← index frame (udp_offset + 5)
  let udp_len = hi * 256 + lo
  zeroed ← store frame (udp_offset + 6) 0
  zeroed' ← store zeroed (udp_offset + 7) 0
  addresses ← slice zeroed' (ip_offset + 8) (ip_offset + 40)
  let pseudo = ((fold_slice 0 addresses + udp_len) % 2 ^ 32 + 17) % 2 ^ 32
  segment ← slice zeroed' udp_offset (udp_offset + udp_len)
  copy_into zeroed' (udp_offset + 6) (udp_offset + 8) (be16 (udp_sum (fold_slice pseudo segment)))
