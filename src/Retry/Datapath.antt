-- ===== src/Retry/Datapath.antt =====
-- pesigitg-daemon/src/retry/datapath.rs: `try_handle` and what it calls. A frame is the chunk of
-- memory that holds it and the length in use, as the trait `FrameView` (frame.rs) describes it.
pub mod Quiet
use pesigitg.Common.Address.{IpAddr, v4, v6}
use pesigitg.Config.Retry.{RetryConfig, RetryMode, observe, always, load}
use pesigitg.Config.Table.{ConfigTable}
use pesigitg.Packet.Parse.{
  ParsedFrame, IpFamily, ipv4, ipv6, L4, udp, icmp, eth_hdr_len, ipv4_min_hdr_len, ipv6_hdr_len,
  udp_hdr_len, ipproto_udp, eth_p_ip, eth_p_ipv6,
}
use pesigitg.Quic.Initial.{
  Initial, ParseError, parse_strict, not_long_header, not_initial, fixed_bit_unset,
  unsupported_version, truncated,
}
use pesigitg.Retry.Build.{build_retry}
use pesigitg.Retry.Checksum.{be16, write_ipv4_checksum, write_ipv6_udp_checksum}
use pesigitg.Retry.Load.{rate}
use pesigitg.Retry.Token.{VerifyError, invalid, expired, mint, verify, token_len}
use pesigitg.Prelude.{
  map, ◌>>◌, ◌%◌, ◌^◌, Bool, true, false, ◌||◌, Option, none, some, List, [], ◌∷◌, ◌++◌, ltb, leb,
  ◌==◌, if◌then◌else◌, length, take, replicate, Run, Absent, ◌>>=◌, map_err, slice, slice_from,
  copy_into, ok, err, panic, absent, ℕ, ◌+◌,
}
use mathlib.Core.Option

pub data Outcome : Type 0 where
  skip forward emitted : Outcome

pub data Detail : Type 0 where
  no_detail parse_failed token_valid token_invalid token_expired issued observed : Detail

pub data Decision : Type 0 where
  to_skip to_forward to_emit : Decision

pub record Frame : Type 0 where
  pub chunk : List ℕ
  pub len : ℕ

unfoldable pub contents : Frame → List ℕ
contents frame = take frame.len frame.chunk

pub record FrameLayout : Type 0 where
  pub is_ipv4 : Bool
  pub ip_offset : ℕ
  pub ip_hdr_len : ℕ
  pub udp_offset : ℕ
  pub quic_offset : ℕ
  pub src_mac : List ℕ
  pub src_ip : IpAddr
  pub dst_ip : IpAddr
  pub src_port : ℕ
  pub dst_port : ℕ

-- Extension headers of IPv6 are not handled.
unfoldable pub family_is_ipv4 : IpFamily → ℕ → Option Bool
family_is_ipv4 ipv4 ip_hdr_len = some true
family_is_ipv4 ipv6 ip_hdr_len = if ltb ipv6_hdr_len ip_hdr_len then none else some false

unfoldable pub layout_at : ParsedFrame → L4 → Option FrameLayout
layout_at parsed (icmp inner_quic_offset reversed_flow) = none
layout_at parsed (udp udp_offset quic_offset src_port dst_port) =
    Option.map
      (λ is_ipv4. record {
        is_ipv4 = is_ipv4;
        ip_offset = eth_hdr_len;
        ip_hdr_len = parsed.ip_hdr_len;
        udp_offset = udp_offset;
        quic_offset = quic_offset;
        src_mac = parsed.src_mac;
        src_ip = parsed.src_addr;
        dst_ip = parsed.dst_addr;
        src_port = src_port;
        dst_port = dst_port;
      })
      (family_is_ipv4 parsed.family parsed.ip_hdr_len)

unfoldable pub from_parsed : ParsedFrame → Option FrameLayout
from_parsed parsed = layout_at parsed parsed.l4

-- `Option::expect`
pub expect {ℓ} : {A : Type ℓ} → Option A → Run Absent A
expect none = panic
expect (some a) = ok a

-- The count of Initials that the batch has seen is incremented.
unfoldable pub load_over_trigger : RetryConfig → ℕ → Run Absent (Bool × ℕ)
load_over_trigger retry pending = do
  tracker ← expect retry.load_tracker
  trigger ← expect retry.load_trigger_rate
  ok (leb trigger (rate tracker), (pending + 1) % 2 ^ 64)

-- The `match retry.mode` of `load_gated_decision`.
unfoldable pub gate : RetryMode → RetryConfig → ℕ → Run Absent (Decision × ℕ)
gate always retry pending = ok (to_emit, pending)
gate observe retry pending = ok (to_skip, pending)
gate load retry pending = do
  (over, pending') ← load_over_trigger retry pending
  ok ((if over then to_emit else to_skip), pending')

unfoldable pub load_gated_decision : RetryConfig → ℕ → Run Absent (Decision × ℕ)
load_gated_decision retry pending = gate retry.mode retry pending

-- The `match retry.mode` of `classify`, for an Initial without a token of the right length.
unfoldable pub classify_mode : RetryMode → RetryConfig → ℕ → Run Absent (Decision × Detail × ℕ)
classify_mode always retry pending = ok (to_emit, issued, pending)
classify_mode observe retry pending = ok (to_skip, observed, pending)
classify_mode load retry pending = do
  (over, pending') ← load_over_trigger retry pending
  ok ((if over then to_emit else to_skip), (if over then issued else observed), pending')

unfoldable pub gated : Detail → RetryConfig → ℕ → Run Absent (Decision × Detail × ℕ)
gated detail retry pending = do
  (decision, pending') ← load_gated_decision retry pending
  ok (decision, detail, pending')

-- The `match` on the verified token.
unfoldable pub after_verify :
    Run VerifyError (Unit {0}) → RetryConfig → ℕ → Run Absent (Decision × Detail × ℕ)
after_verify (ok u) retry pending = ok (to_forward, token_valid, pending)
after_verify (err invalid) retry pending = gated token_invalid retry pending
after_verify (err expired) retry pending = gated token_expired retry pending
after_verify panic retry pending = panic

-- The `match` on the parsed Initial: the errors that are skipped silently, and the others.
pub skip_detail : ParseError → Detail
skip_detail not_long_header = no_detail
skip_detail not_initial = no_detail
skip_detail fixed_bit_unset = no_detail
skip_detail (unsupported_version v) = no_detail
skip_detail truncated = no_detail
skip_detail e = parse_failed

pub port_listed : ℕ → List ℕ → Bool
port_listed p [] = false
port_listed p (q ∷ ports) = q == p || port_listed p ports

pub is_empty : List ℕ → Bool
is_empty [] = true
is_empty (x ∷ xs) = false

pub v4_octets : IpAddr → Run Absent (List ℕ)
v4_octets (v4 octets) = ok octets
v4_octets (v6 octets) = panic

pub v6_octets : IpAddr → Run Absent (List ℕ)
v6_octets (v4 octets) = panic
v6_octets (v6 octets) = ok octets

-- The fields that `build_reflected_headers` writes, which follow one another without a gap.
pub udp_header : FrameLayout → ℕ → List ℕ
udp_header layout payload_len =
    be16 layout.dst_port
    ++ (be16 layout.src_port ++ (be16 ((udp_hdr_len + payload_len) % 2 ^ 16) ++ (0 ∷ (0 ∷ []))))

unfoldable pub ipv4_headers : FrameLayout → ℕ → Run Absent (List ℕ)
ipv4_headers layout payload_len = do
  src ← v4_octets layout.dst_ip
  dst ← v4_octets layout.src_ip
  let total_len = (ipv4_min_hdr_len + udp_hdr_len + payload_len) % 2 ^ 16
  ok (
      be16 eth_p_ip
      ++ ((0x45
            ∷ (0
                ∷ (be16 total_len
                    ++ (0 ∷ (0 ∷ (be16 0x4000 ++ (64 ∷ (ipproto_udp ∷ (0 ∷ (0 ∷ []))))))))))
          ++ (src ++ (dst ++ udp_header layout payload_len))))

unfoldable pub ipv6_headers : FrameLayout → ℕ → Run Absent (List ℕ)
ipv6_headers layout payload_len = do
  src ← v6_octets layout.dst_ip
  dst ← v6_octets layout.src_ip
  ok (
      be16 eth_p_ipv6
      ++ ((0x60
            ∷ (0
                ∷ (0
                    ∷ (0
                        ∷ (be16 ((udp_hdr_len + payload_len) % 2 ^ 16)
                            ++ (ipproto_udp ∷ (64 ∷ [])))))))
          ++ (src ++ (dst ++ udp_header layout payload_len))))

unfoldable pub build_reflected_headers : FrameLayout → List ℕ → ℕ → Run Absent (List ℕ)
build_reflected_headers layout local_mac payload_len = do
  headers ←
      if layout.is_ipv4 then ipv4_headers layout payload_len else ipv6_headers layout payload_len
  ok (layout.src_mac ++ (local_mac ++ headers))

-- `resize`: the new length must fit the chunk; the bytes in use are overwritten.
unfoldable pub resize : Frame → ℕ → Option Frame
resize frame new_len =
    if ltb (length frame.chunk) new_len then none else some (record frame { len = new_len })

unfoldable pub write_checksum : FrameLayout → List ℕ → Run Absent (List ℕ)
write_checksum layout bytes =
    if layout.is_ipv4
    then write_ipv4_checksum bytes layout.ip_offset layout.ip_hdr_len
    else write_ipv6_udp_checksum bytes layout.ip_offset layout.udp_offset

-- The frame is filled with `bytes` from its start.
unfoldable pub commit : Option Frame → FrameLayout → List ℕ → Frame → Run Absent (Outcome × Frame)
commit none layout bytes old = ok (skip, old)
commit (some frame) layout bytes old = do
  bytes' ← write_checksum layout bytes
  chunk ← copy_into frame.chunk 0 frame.len bytes'
  ok (emitted, record frame { chunk = chunk })

-- An early `return Outcome::Skip` leaves the frame as it was.
pub or_skip {κ} : {E : Type κ} → Frame → Run E (Outcome × Frame) → Run Absent (Outcome × Frame)
or_skip frame (ok r) = ok r
or_skip frame (err e) = ok (skip, frame)
or_skip frame panic = panic

-- What `try_handle` returns, the frame, and the count of Initials.
pub record Handled : Type 0 where
  pub outcome : Outcome
  pub detail : Detail
  pub frame : Frame
  pub pending : ℕ

unfoldable pub in_scope : RetryConfig → FrameLayout → Bool
in_scope retry layout = is_empty retry.ports || port_listed layout.dst_port retry.ports

-- The parameters are HMAC-SHA256 and the AES-128-GCM tag.
module _ (hmac : List ℕ → List ℕ → List ℕ) (gcm_tag : List ℕ → List ℕ → List ℕ → List ℕ) where
  unfoldable pub classify :
      Initial → IpAddr → RetryConfig → ℕ → ℕ → Run Absent (Decision × Detail × ℕ)
  classify initial src_ip retry now_ms pending =
      if length initial.token == token_len
      then after_verify
          (verify hmac retry.token_key initial.token src_ip initial.dcid now_ms
            retry.token_lifetime_ms)
          retry pending
      else classify_mode retry.mode retry pending

  -- The Retry packet that answers an Initial, in a buffer of 128 bytes.
  unfoldable pub retry_packet :
      FrameLayout → ℕ → List ℕ → List ℕ → RetryConfig → ℕ → Run Absent (List ℕ)
  retry_packet layout version odcid client_scid retry now_ms = do
    token ← map_err (λ _. absent) (mint hmac retry.token_key layout.src_ip odcid now_ms)
    (retry_buf, n) ←
        map_err (λ _. absent)
          (build_retry gcm_tag (replicate 128 0) version odcid client_scid odcid token)
    slice retry_buf 0 n

  unfoldable pub emit :
      Frame
      → FrameLayout
      → ℕ
      → List ℕ
      → List ℕ
      → RetryConfig
      → List ℕ
      → ℕ
      → Run Absent (Outcome × Frame)
  emit frame layout version odcid client_scid retry local_mac now_ms = or_skip frame do
    retry_bytes ← retry_packet layout version odcid client_scid retry now_ms
    hdr ← build_reflected_headers layout local_mac (length retry_bytes)
    let total_len = length hdr + length retry_bytes
    commit (resize frame total_len) layout (hdr ++ retry_bytes) frame

  unfoldable pub carry_out :
      Frame
      → FrameLayout
      → Initial
      → RetryConfig
      → List ℕ
      → ℕ
      → Decision
      → Run Absent (Outcome × Frame)
  carry_out frame layout initial retry local_mac now_ms to_forward = ok (forward, frame)
  carry_out frame layout initial retry local_mac now_ms to_skip = ok (skip, frame)
  carry_out frame layout initial retry local_mac now_ms to_emit =
      emit frame layout initial.version initial.dcid initial.scid retry local_mac now_ms

  unfoldable pub on_initial :
      Frame
      → FrameLayout
      → RetryConfig
      → List ℕ
      → ℕ
      → ℕ
      → Run ParseError Initial
      → Run Absent Handled
  on_initial frame layout retry local_mac now_ms pending panic = panic
  on_initial frame layout retry local_mac now_ms pending (err e) =
      ok (record { outcome = skip; detail = skip_detail e; frame = frame; pending = pending })
  on_initial frame layout retry local_mac now_ms pending (ok initial) = do
    (decision, detail, pending') ← classify initial layout.src_ip retry now_ms pending
    (outcome, frame') ← carry_out frame layout initial retry local_mac now_ms decision
    ok (record { outcome = outcome; detail = detail; frame = frame'; pending = pending' })

  unfoldable pub with_layout :
      Frame → RetryConfig → List ℕ → ℕ → ℕ → Option FrameLayout → Run Absent Handled
  with_layout frame retry local_mac now_ms pending none =
      ok (record { outcome = skip; detail = no_detail; frame = frame; pending = pending })
  with_layout frame retry local_mac now_ms pending (some layout) =
      if in_scope retry layout
      then slice_from (contents frame) layout.quic_offset
        >>= (λ quic. on_initial frame layout retry local_mac now_ms pending (parse_strict quic))
      else ok (record { outcome = skip; detail = no_detail; frame = frame; pending = pending })

  unfoldable pub with_retry :
      Frame → ParsedFrame → List ℕ → ℕ → ℕ → Option RetryConfig → Run Absent Handled
  with_retry frame parsed local_mac now_ms pending none =
      ok (record { outcome = skip; detail = no_detail; frame = frame; pending = pending })
  with_retry frame parsed local_mac now_ms pending (some retry) =
      if retry.enabled
      then with_layout frame retry local_mac now_ms pending (from_parsed parsed)
      else ok (record { outcome = skip; detail = no_detail; frame = frame; pending = pending })

  unfoldable pub try_handle :
      Frame → ParsedFrame → ConfigTable → List ℕ → ℕ → ℕ → Run Absent Handled
  try_handle frame parsed table local_mac now_ms pending =
      with_retry frame parsed local_mac now_ms pending table.retry
