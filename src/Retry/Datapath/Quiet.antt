-- ===== src/Retry/Datapath/Quiet.antt =====
-- pesigitg-daemon/src/retry/datapath.rs: when `try_handle` leaves a frame alone.
use pesigitg.Prelude.{
  ◌≤◌, Bool, Option, none, ℕ, ◌+◌, ◌%◌, ◌^◌, ◌<◌, ◌≡◌, refl, ◌≢◌, false, some, List, arith, leb,
  ◌==◌, Safe, Safe-if, Safe-return_if, Safe-slice, Safe-slice_from, Safe-bind, length, Run, run, ok,
  err, panic, value, early,
}
use mathlib.Core.Option
use pesigitg.Config.Retry.{RetryConfig, RetryMode, observe, load}
use pesigitg.Config.Table.{ConfigTable}
use pesigitg.Common.Address.{IpAddr}
use pesigitg.Packet.Parse.{ParsedFrame, L4}
use pesigitg.Packet.Parse.Bounds.{Located, whole, echoed}
use pesigitg.Quic.Initial.{ParseError, Initial}
use pesigitg.Quic.Initial.Safety.{parse_strict-Safe}
use pesigitg.Retry.Load.{LoadRateTracker, rate}
use pesigitg.Retry.Token.{verify, VerifyError, invalid, expired, token_len}
use pesigitg.Retry.Datapath.{
  emitted, Detail, Decision, to_skip, to_forward, to_emit, Frame, contents, FrameLayout,
  family_is_ipv4, layout_at, from_parsed, expect, load_over_trigger, gate, load_gated_decision,
  classify_mode, gated, after_verify, in_scope, classify, carry_out, on_initial, with_layout,
  with_retry, try_handle, Handled,
}

-- The mode does not ask for Retry packets: it observes, or the load is below the trigger.
pub data Quiet (retry : RetryConfig) : RetryMode → Type 0 where
  observing : Quiet retry observe
  below :
      (t : LoadRateTracker) (n : ℕ)
      → retry.load_tracker ≡ some t
      → retry.load_trigger_rate ≡ some n
      → rate t < n
      → Quiet retry load

load_over_trigger-below :
    (retry : RetryConfig) (pending : ℕ) (t : LoadRateTracker) (n : ℕ)
    → retry.load_tracker ≡ some t
    → retry.load_trigger_rate ≡ some n
    → rate t < n
    → load_over_trigger retry pending ≡ ok (false, (pending + 1) % 2 ^ 64)
unfolding load_over_trigger expect run
load_over_trigger-below retry pending t n e f h =
    let under : leb n (rate t) ≡ false = ground arith in rw (e, f, under) refl

Silent : Decision × Detail × ℕ → Type 0
Silent (decision, why, pending) = decision ≢ to_emit

gate-Safe :
    (retry : RetryConfig) (mode : RetryMode) (pending : ℕ)
    → Quiet retry mode
    → Safe (λ r. r.0 ≢ to_emit) (gate mode retry pending)
unfolding gate run
gate-Safe retry mode pending observing = value λ e. cc
gate-Safe retry mode pending (below t n e f h) =
    rw (load_over_trigger-below retry pending t n e f h) (value λ e'. cc)

classify_mode-Safe :
    (retry : RetryConfig) (mode : RetryMode) (pending : ℕ)
    → Quiet retry mode
    → Safe Silent (classify_mode mode retry pending)
unfolding classify_mode Silent run
classify_mode-Safe retry mode pending observing = value λ e. cc
classify_mode-Safe retry mode pending (below t n e f h) =
    rw (load_over_trigger-below retry pending t n e f h) (value λ e'. cc)

gated-Safe :
    (why : Detail) (retry : RetryConfig) (pending : ℕ)
    → Quiet retry retry.mode
    → Safe Silent (gated why retry pending)
unfolding gated load_gated_decision Silent
gated-Safe why retry pending q = Safe-bind _ _ (gate-Safe retry retry.mode pending q) λ r h. value h

after_verify-Safe {μ} :
    {P : Unit {0} → Type μ} (r : Run VerifyError (Unit {0})) (retry : RetryConfig) (pending : ℕ)
    → Safe P r
    → Quiet retry retry.mode
    → Safe Silent (after_verify r retry pending)
unfolding after_verify Silent
after_verify-Safe (ok u) retry pending (value p) q = value λ e. cc
after_verify-Safe (err invalid) retry pending early q = gated-Safe _ retry pending q
after_verify-Safe (err expired) retry pending early q = gated-Safe _ retry pending q
after_verify-Safe panic retry pending h q = elim h [ ]

module _ (hmac : List ℕ → List ℕ → List ℕ) (gcm_tag : List ℕ → List ℕ → List ℕ → List ℕ) where
  verify-Safe :
      (key token : List ℕ) (client : IpAddr) (odcid : List ℕ) (now lifetime : ℕ)
      → Safe (λ _. Unit {0}) (verify hmac key token client odcid now lifetime)
  unfolding verify
  verify-Safe key token client odcid now lifetime = Safe-return_if _ _ _ λ h.
      Safe-slice _ _ _ _ (omega arith) (ground arith) (
        Safe-slice_from _ _ _ (ground arith)
          (Safe-return_if _ _ _ λ _. Safe-return_if _ _ _ λ _. Safe-return_if _ _ _ λ _. value tt))

  classify-Safe :
      (initial : Initial) (src : IpAddr) (retry : RetryConfig) (now pending : ℕ)
      → Quiet retry retry.mode
      → Safe Silent (classify hmac gcm_tag initial src retry now pending)
  unfolding classify
  classify-Safe initial src retry now pending q =
      Safe-if (length initial.token == token_len)
        (λ _.
          after_verify-Safe _ retry pending
            (verify-Safe retry.token_key initial.token src initial.dcid now retry.token_lifetime_ms)
            q)
        λ _. classify_mode-Safe retry retry.mode pending q

  module _ (frame : Frame) (retry : RetryConfig) (local_mac : List ℕ) (now pending : ℕ)
      (q : Quiet retry retry.mode) where
    -- The frame is not answered, and as it was.
    pub Untouched : Handled → Type 0
    Untouched h = (h.outcome ≢ emitted) × (h.frame ≡ frame)

    carry_out-Safe :
        (layout : FrameLayout) (initial : Initial) (d : Decision)
        → d ≢ to_emit
        → Safe
            (λ r. (r.0 ≢ emitted) × (r.1 ≡ frame))
            (carry_out hmac gcm_tag frame layout initial retry local_mac now d)
    unfolding carry_out
    carry_out-Safe layout initial to_skip h = value ((λ e. cc), refl)
    carry_out-Safe layout initial to_forward h = value ((λ e. cc), refl)
    carry_out-Safe layout initial to_emit h = absurd (h refl)

    on_initial-Safe :
        (layout : FrameLayout) (r : Run ParseError Initial) {P : Initial → Type 0}
        → Safe P r
        → Safe Untouched (on_initial hmac gcm_tag frame layout retry local_mac now pending r)
    unfolding on_initial Untouched Silent
    on_initial-Safe layout (ok initial) (value p) =
        Safe-bind _ _ (classify-Safe initial layout.src_ip retry now pending q)
          λ d h. Safe-bind _ _ (carry_out-Safe layout initial d.0 h) λ r g. value g
    on_initial-Safe layout (err e) early = value ((λ e. cc), refl)
    on_initial-Safe layout panic h = elim h [ ]

    layout-Safe :
        (make : Bool → FrameLayout) (o : Option Bool)
        → ((b : Bool) → (make b).quic_offset ≤ length (contents frame))
        → Safe Untouched
            (with_layout hmac gcm_tag frame retry local_mac now pending (Option.map make o))
    unfolding with_layout Untouched
    layout-Safe make none h = value ((λ e. cc), refl)
    layout-Safe make (some b) h =
        Safe-if (in_scope retry (make b))
          (λ _. Safe-slice_from _ _ _ (h b) (on_initial-Safe (make b) _ (parse_strict-Safe _)))
          λ _. value ((λ e. cc), refl)

    with_layout-Safe :
        (p : ParsedFrame) (l4 : L4)
        → Located (contents frame) l4
        → Safe Untouched
            (with_layout hmac gcm_tag frame retry local_mac now pending (layout_at p l4))
    unfolding layout_at with_layout Untouched
    with_layout-Safe p l4 (echoed x f h) = value ((λ e. cc), refl)
    with_layout-Safe p l4 (whole u x s d e h) =
        layout-Safe _ (family_is_ipv4 p.family p.ip_hdr_len) λ b. h

-- In observe mode, and in load mode while the rate is below the trigger, no UDP packet or ICMP error
-- is answered: `try_handle` returns without a panic, does not report `emitted` and leaves the frame as
-- it was. The offsets of the parsed frame lie in it, as `parse_frame` gives them.
pub try_handle-Quiet :
    (hmac : List ℕ → List ℕ → List ℕ) (gcm_tag : List ℕ → List ℕ → List ℕ → List ℕ) (frame : Frame)
    (parsed : ParsedFrame) (table : ConfigTable) (retry : RetryConfig) (local_mac : List ℕ)
    (now pending : ℕ)
    → table.retry ≡ some retry
    → Quiet retry retry.mode
    → Located (contents frame) parsed.l4
    → Safe
        (λ h. (h.outcome ≢ emitted) × (h.frame ≡ frame))
        (try_handle hmac gcm_tag frame parsed table local_mac now pending)
unfolding try_handle with_retry from_parsed Untouched
try_handle-Quiet hmac gcm_tag frame parsed table retry local_mac now pending e q l = rw e (
    Safe-if retry.enabled
      (λ _. with_layout-Safe hmac gcm_tag frame retry local_mac now pending q parsed parsed.l4 l)
      λ _. value ((λ e. cc), refl))
