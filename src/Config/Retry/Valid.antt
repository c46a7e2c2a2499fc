-- ===== src/Config/Retry/Valid.antt =====
-- pesigitg-daemon/src/config/retry.rs: what `validate` lets through.
use pesigitg.Prelude.{
  ℕ, ◌*◌, ◌≤◌, ◌<◌, ◌≡◌, inl, inr, Bool, true, false, Option, none, some, List, [], ◌∷◌, arith, leb,
  ◌==◌, Bool-cases, bytes_eq, Safe, Safe-if, Safe-return_if, Safe-bind, Safe-map_err, length,
  length-replicate, value, early,
}
use mathlib.Core.Path.{subst}
use pesigitg.Config.Retry.{
  RetryMode, observe, always, load, RetryConfig, RawRetry, observe_text, always_text, load_text,
  parse_mode, parse_hex_retry_key, token_key_of, trigger_rate_of, tracker_of, insert_sorted, sort,
  dedup_after, dedup, validate,
}
use pesigitg.Retry.Load.{LoadRateTracker}
use pesigitg.Routing.Route.Validate.{decode-Safe, HasAsciiKey}

AtLeast : ℕ → List ℕ → Type 0
AtLeast p [] = Unit
AtLeast p (q ∷ ports) = (p ≤ q) × AtLeast p ports

Sorted : List ℕ → Type 0
Sorted [] = Unit
Sorted (p ∷ ports) = AtLeast p ports × Sorted ports

-- Every port is larger than the one before it.
unfoldable pub IncreasingFrom : ℕ → List ℕ → Type 0
IncreasingFrom p [] = Unit
IncreasingFrom p (q ∷ ports) = (p < q) × IncreasingFrom q ports

unfoldable pub Increasing : List ℕ → Type 0
Increasing [] = Unit
Increasing (p ∷ ports) = IncreasingFrom p ports

AtLeast-weaken : (p q : ℕ) (ports : List ℕ) → p ≤ q → AtLeast q ports → AtLeast p ports
unfolding AtLeast
AtLeast-weaken p q [] h a = tt
AtLeast-weaken p q (x ∷ ports) h (a, rest) = (omega arith, AtLeast-weaken p q ports h rest)

AtLeast-insert_sorted :
    (p q : ℕ) (ports : List ℕ) → p ≤ q → AtLeast p ports → AtLeast p (insert_sorted q ports)
unfolding AtLeast insert_sorted
AtLeast-insert_sorted p q [] h a = (h, tt)
AtLeast-insert_sorted p q (x ∷ ports) h (a, rest) = elim (Bool-cases (leb q x)) [
  | inl e ↦ rw e (h, (a, rest))
  | inr e ↦ rw e (a, AtLeast-insert_sorted p q ports h rest)
]

insert_sorted-Sorted : (q : ℕ) (ports : List ℕ) → Sorted ports → Sorted (insert_sorted q ports)
unfolding Sorted AtLeast insert_sorted
insert_sorted-Sorted q [] h = (tt, tt)
insert_sorted-Sorted q (x ∷ ports) (a, s) = elim (Bool-cases (leb q x)) [
  | inl e ↦
      let below : q ≤ x = ground arith in rw e ((below, AtLeast-weaken q x ports below a), (a, s))
  | inr e ↦
      let above : x ≤ q = ground arith in
      rw e (AtLeast-insert_sorted x q ports above a, insert_sorted-Sorted q ports s)
]

sort-Sorted : (ports : List ℕ) → Sorted (sort ports)
unfolding Sorted sort
sort-Sorted [] = tt
sort-Sorted (p ∷ ports) = insert_sorted-Sorted p (sort ports) (sort-Sorted ports)

dedup_after-IncreasingFrom :
    (p : ℕ) (ports : List ℕ)
    → AtLeast p ports
    → Sorted ports
    → IncreasingFrom p (dedup_after p ports)
unfolding Sorted AtLeast IncreasingFrom dedup_after
dedup_after-IncreasingFrom p [] a s = tt
dedup_after-IncreasingFrom p (q ∷ ports) (a, rest) (b, s) =
    let rest = dedup_after-IncreasingFrom q ports b s in
    elim (Bool-cases (p == q)) [
      | inl e ↦
          let same : q ≡ p = ground arith in
          rw e (subst (λ x. IncreasingFrom x (dedup_after q ports)) same rest)
      | inr e ↦ rw e (let above : p < q = ground arith in above, rest)
    ]

dedup-Increasing : (ports : List ℕ) → Sorted ports → Increasing (dedup ports)
unfolding Sorted Increasing dedup
dedup-Increasing [] s = tt
dedup-Increasing (p ∷ ports) (a, s) = dedup_after-IncreasingFrom p ports a s

-- A tracker and a positive trigger rate come with the load mode and with no other.
pub data Tracks : RetryMode → Option ℕ → Option LoadRateTracker → Type 0 where
  by_load : (n : ℕ) (t : LoadRateTracker) → 1 ≤ n → Tracks load (some n) (some t)
  not_always : Tracks always none none
  not_observe : Tracks observe none none

pub record IsRetry (r : RetryConfig) : Type 0 where
  pub key : length r.token_key ≡ 32
  pub short : r.token_lifetime_ms ≤ 86400 * 1000
  pub long : 1000 ≤ r.token_lifetime_ms
  pub ports : Increasing r.ports
  pub tracks : Tracks r.mode r.load_trigger_rate r.load_tracker

trigger_rate_of-Safe :
    (mode : RetryMode) (rate : Option ℕ)
    → Safe (λ t. Tracks mode t (tracker_of mode)) (trigger_rate_of mode rate)
unfolding trigger_rate_of tracker_of
trigger_rate_of-Safe load none = early
trigger_rate_of-Safe load (some n) =
    Safe-if (n == 0) (λ e. early) λ e. value (by_load n _ (ground arith))
trigger_rate_of-Safe always none = value not_always
trigger_rate_of-Safe always (some n) = early
trigger_rate_of-Safe observe none = value not_observe
trigger_rate_of-Safe observe (some n) = early

parse_mode-Safe : (text : List ℕ) → Safe (λ _. Unit {0}) (parse_mode text)
unfolding parse_mode
parse_mode-Safe text =
    Safe-if (bytes_eq text observe_text) (λ _. value tt)
      λ _.
        Safe-if (bytes_eq text always_text) (λ _. value tt)
          λ _. Safe-if (bytes_eq text load_text) (λ _. value tt) λ _. early

token_key_of-Safe :
    (key : Option (List ℕ)) (enabled : Bool)
    → HasAsciiKey key
    → Safe (λ k. length k ≡ 32) (token_key_of key enabled)
unfolding token_key_of parse_hex_retry_key HasAsciiKey
token_key_of-Safe (some hex) enabled a =
    Safe-bind _ _ (Safe-map_err _ (decode-Safe hex a))
      λ bytes _. Safe-return_if _ _ _ λ h. value (ground arith)
token_key_of-Safe none true a = early
token_key_of-Safe none false a = value (length-replicate {A = ℕ} 32 0)

-- On a deserialized section whose token key is an ASCII text `validate` returns without a panic. What
-- it accepts has a key of 32 bytes, a lifetime of one second to one day, its ports in strictly increasing order, and a load
-- tracker with a positive trigger rate exactly in the load mode.
pub validate-IsRetry :
    (now : ℕ) (raw : RawRetry) → HasAsciiKey raw.token_key → Safe IsRetry (validate now raw)
unfolding validate
validate-IsRetry now raw a = Safe-bind _ _ (parse_mode-Safe raw.mode) λ mode _.
    Safe-return_if _ _ _ λ lifetime.
      Safe-bind _ _ (token_key_of-Safe raw.token_key raw.enabled a) λ key k.
        Safe-bind _ _ (trigger_rate_of-Safe mode raw.load) λ trigger t. Safe-return_if _ _ _ λ _.
          value (record {
            key = k;
            short = ground arith;
            long = ground arith;
            ports = dedup-Increasing (sort raw.ports) (sort-Sorted raw.ports);
            tracks = t;
          })
