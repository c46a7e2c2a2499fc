-- ===== src/Packet/Process/Frames.antt =====
-- pesigitg-daemon/src/packet.rs: the frames that `process_packet` leaves behind.
use mathlib.Core.Path.{subst}
use mathlib.Core.Option
use pesigitg.Conntable.{ConnectionTable}
use pesigitg.Packet.Process.{
  Verdict, cid_forward, cid_forward_draining, fallback_forward, icmp_forward, Outcome, rewrite_macs,
  unroutable,
}
use pesigitg.Packet.Process.Macs.{OnSome}
use pesigitg.Routing.Route.Macs.{IsMac}
use pesigitg.Routing.Route.{RouteConfig, cid_payload_length}
use pesigitg.Prelude.{
  inl, inr, ltb, if◌then◌else◌, Bool-cases, Option, none, some, ◌>>=◌, ap, arith, copy_into-append,
  copy_into_lem, take, length-take, length-drop, take-append-drop, Absent, ℕ, zero, suc, ◌+◌, ◌≤◌,
  ◌≡◌, refl, Bool, true, false, List, [], ◌∷◌, ◌++◌, length, drop, ok,
}

-- The verdicts that hand a frame on.
unfoldable pub forwards : Verdict → Bool
forwards (cid_forward id) = true
forwards (cid_forward_draining id) = true
forwards fallback_forward = true
forwards icmp_forward = true
forwards _ = false

drop-nil : (n : ℕ) → drop {A = ℕ} n [] ≡ []
unfolding drop
drop-nil zero = refl
drop-nil (suc n) = refl

drop-drop : (m n k : ℕ) (xs : List ℕ) → k ≡ n + m → drop m (drop n xs) ≡ drop k xs
unfolding drop
drop-drop m zero k xs h = let e : m ≡ k = omega arith in ap (λ i. drop i xs) e
drop-drop m (suc n) zero xs h = absurd (omega arith)
drop-drop m (suc n) (suc k) [] h = drop-nil m
drop-drop m (suc n) (suc k) (x ∷ xs) h = drop-drop m n k xs (omega arith)

module _ (local_mac : List ℕ) (frame : List ℕ) (conn : ConnectionTable) where
  -- A frame that is handed on has new MACs, and any other is as it was, like the connection table.
  pub data Effect : Outcome → Type 0 where
    kept :
        (v : Verdict)
        → forwards v ≡ false
        → Effect (record { verdict = v; frame = frame; conn = conn })
    rewritten :
        (v : Verdict) (mac : List ℕ) (conn' : ConnectionTable)
        → forwards v ≡ true
        → length mac ≡ 6
        → Effect (record { verdict = v; frame = mac ++ (local_mac ++ drop 12 frame); conn = conn' })

pub is_mac : (o : Option (List ℕ)) (mac : List ℕ) → o ≡ some mac → IsMac o → length mac ≡ 6
unfolding IsMac
is_mac o mac e m = subst IsMac e m

pub chosen-mac :
    (healthy draining : Bool) (mac : Option (List ℕ))
    → IsMac mac
    → OnSome
        (λ (r : List ℕ × Bool). length r.0 ≡ 6)
        (if healthy then Option.map (λ m. (m, draining)) mac else none)
unfolding IsMac OnSome
chosen-mac false draining mac m = tt
chosen-mac true draining none m = tt
chosen-mac true draining (some mac) m = m

pub unroutable-kept :
    (dcid : List ℕ) (c : RouteConfig) (idx : Option ℕ)
    → OnSome (λ v. forwards v ≡ false) (unroutable dcid c idx)
unfolding unroutable OnSome forwards
unroutable-kept dcid c none = elim (Bool-cases (ltb (cid_payload_length c) (length dcid))) [
  | inl g ↦ rw g refl
  | inr g ↦ rw g tt
]
unroutable-kept dcid c (some i) = elim (Bool-cases (ltb (cid_payload_length c) (length dcid))) [
  | inl g ↦ rw g refl
  | inr g ↦ rw g tt
]

module _ (local_mac : List ℕ) (local_six : length local_mac ≡ 6) (frame : List ℕ)
    (room : 14 ≤ length frame) where
  pub rewrite_macs-eq :
      (mac : List ℕ)
      → length mac ≡ 6
      → rewrite_macs frame mac local_mac ≡ ok (mac ++ (local_mac ++ drop 12 frame))
  unfolding rewrite_macs ◌>>=◌ take
  rewrite_macs-eq mac g =
      let middle : List ℕ = take 6 (drop 6 frame) in
      let rest : List ℕ = drop 6 (drop 6 frame) in
      let size : length middle ≡ 6 = rw (length-take, length-drop) (omega arith) in
      rw
        (
          copy_into_lem {E = Absent} frame 0 6 mac (omega arith) (omega arith) (omega arith),
          ← take-append-drop 6 (drop 6 frame),
          copy_into-append {E = Absent} 6 12 mac middle rest local_mac (omega arith) (omega arith)
              (omega arith),
          drop-drop 6 6 12 frame (omega arith),
        )
        refl
