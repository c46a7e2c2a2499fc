-- ===== src/Neigh/Rounds.antt =====
-- `recv_neigh_entries` of pesigitg-daemon/src/neigh.rs: when its rounds end, and what they leave.
use pesigitg.Prelude.{
  inl, inr, [], Option-cases, ℕ, zero, suc, ◌+◌, ◌≤◌, ◌<◌, ◌≡◌, refl, ◌∙◌, ◌≢◌, Option, none, some,
  List, arith, Safe, Safe-ne-panic, Safe-ok, Run, Absent, ◌>>=◌, ok, err, panic, value, early,
}
use mathlib.Core.Path.{subst}
use pesigitg.Common.AddressMap.{find}
use pesigitg.Neigh.{
  find, Neighbours, ChunkOutcome, continue, done, error, process_chunk, Dump, complete, failed,
  waiting, recv_entries, recv_neigh_entries,
}
use pesigitg.Neigh.Safety.{IsNeighbours, Holds, process_chunk-Safe}

-- The dump has been read, or reading it has failed; the table is well formed.
pub Ended : Dump → Type 0
Ended (complete table) = IsNeighbours table
Ended failed = Unit
Ended (waiting table) = ⊥

-- A buffer on which the loop stops, whatever it has collected: it has the end of the dump or an error.
unfoldable pub Stops : List ℕ → Type 0
Stops buf =
    (table : Neighbours)
    → (outcome : ChunkOutcome) × (table' : Neighbours) × (outcome ≢ continue)
      × (process_chunk buf table ≡ ok (outcome, table'))

-- A round of the loop that is the last one.
unfoldable pub IsLast : Option (List ℕ) → Type 0
IsLast none = Unit
IsLast (some buf) = Stops buf

-- The result of the loop, the same for each fuel above `n`.
Settles : (ℕ → Option (List ℕ)) → ℕ → ℕ → Neighbours → Type 0
Settles received n i table =
    (r : Run Absent Dump) × ((fuel : ℕ) → n < fuel → recv_entries received fuel i table ≡ r)
    × Safe Ended r

-- What the loop does after `process_chunk`.
after_chunk : (ℕ → Option (List ℕ)) → ℕ → ℕ → ChunkOutcome × Neighbours → Run Absent Dump
after_chunk received fuel i (outcome, table) = elim outcome [
  | continue ↦ recv_entries received fuel (i + 1) table
  | done ↦ ok (complete table)
  | error ↦ ok failed
]

recv_entries-some :
    (received : ℕ → Option (List ℕ)) (fuel i : ℕ) (table : Neighbours) (buf : List ℕ)
    → received i ≡ some buf
    → recv_entries received (suc fuel) i table
      ≡ (process_chunk buf table >>= after_chunk received fuel i)
unfolding recv_entries after_chunk
recv_entries-some received fuel i table buf e = rw (e, recv_entries) refl

recv_entries-none :
    (received : ℕ → Option (List ℕ)) (fuel i : ℕ) (table : Neighbours)
    → received i ≡ none
    → recv_entries received (suc fuel) i table ≡ ok failed
unfolding recv_entries
recv_entries-none received fuel i table e = rw (e, recv_entries) refl

-- A round that ends with `done` or an error, or with a failed `recv`.
Settles-round :
    (received : ℕ → Option (List ℕ)) (n i : ℕ) (table : Neighbours) (r : Run Absent Dump)
    → ((fuel : ℕ) → n ≤ fuel → recv_entries received (suc fuel) i table ≡ r)
    → Safe Ended r
    → Settles received n i table
unfolding Settles
Settles-round received n i table r f s = (r, go, s)
  where
    go : (fuel : ℕ) → n < fuel → recv_entries received fuel i table ≡ r
    go zero h = absurd (omega arith)
    go (suc fuel) h = f fuel (omega arith)

-- The loop after a chunk settles if it does so from the next round on.
Settles-chunk :
    (received : ℕ → Option (List ℕ)) (n i : ℕ) (table : Neighbours) (buf : List ℕ)
    (c : Run Absent (ChunkOutcome × Neighbours))
    → received i ≡ some buf
    → process_chunk buf table ≡ c
    → Safe Holds c
    → ((t : Neighbours)
        → IsNeighbours t
        → process_chunk buf table ≡ ok (continue, t)
        → (k : ℕ) × (suc k ≡ n) × Settles received k (i + 1) t)
    → Settles received n i table
unfolding Settles after_chunk Ended ◌>>=◌
Settles-chunk received n i table buf (err x) e p s f =
    Settles-round received n i table (err x)
      (λ fuel h. recv_entries-some received fuel i table buf e ∙ rw p refl) early
Settles-chunk received n i table buf panic e p s f = absurd (Safe-ne-panic s refl)
Settles-chunk received n i table buf (ok (done, t)) e p s f =
    Settles-round received n i table (ok (complete t))
      (λ fuel h. recv_entries-some received fuel i table buf e ∙ rw p refl)
      (value (Safe-ok (done, t) s refl))
Settles-chunk received n i table buf (ok (error, t)) e p s f =
    Settles-round received n i table (ok failed)
      (λ fuel h. recv_entries-some received fuel i table buf e ∙ rw p refl) (value tt)
Settles-chunk received n i table buf (ok (continue, t)) e p s f =
    let (k, n', (r, g, q)) = f t (Safe-ok (continue, t) s refl) p in
    Settles-round received n i table r
      (λ fuel h. recv_entries-some received fuel i table buf e ∙ rw p (g fuel (omega arith))) q

-- The last round does not go on.
last-continues :
    (buf : List ℕ) (table t : Neighbours)
    → Stops buf
    → process_chunk buf table ≡ ok (continue, t)
    → ⊥
unfolding Stops
last-continues buf table t h e = let (outcome, t', k, e') = h table in k (same outcome t' e')
  where
    same :
        (o : ChunkOutcome) (t' : Neighbours) → process_chunk buf table ≡ ok (o, t') → o ≡ continue
    same o t' g = grind arith

settles :
    (received : ℕ → Option (List ℕ)) (n i : ℕ) (table : Neighbours)
    → IsLast (received (i + n))
    → IsNeighbours table
    → Settles received n i table
unfolding IsLast Ended
settles received zero i table l t = elim (Option-cases (received i)) [
  | inl e ↦
      Settles-round received zero i table (ok failed)
        (λ fuel h. recv_entries-none received fuel i table e) (value tt)
  | inr (buf, e) ↦
      let at : received (i + 0) ≡ some buf = rw (let z : i + 0 ≡ i = omega arith in z) e in
      let stops : Stops buf = subst IsLast at l in
      Settles-chunk received zero i table buf (process_chunk buf table) e refl
        (process_chunk-Safe buf table t) λ t' v g. elim (last-continues buf table t' stops g) [ ]
]
settles received (suc n) i table l t = elim (Option-cases (received i)) [
  | inl e ↦
      Settles-round received (suc n) i table (ok failed)
        (λ fuel h. recv_entries-none received fuel i table e) (value tt)
  | inr (buf, e) ↦
      let later : i + suc n ≡ i + 1 + n = omega arith in
      Settles-chunk received (suc n) i table buf (process_chunk buf table) e refl
        (process_chunk-Safe buf table t)
        λ t' v g.
          (n, refl, settles received n (i + 1) t' (subst (λ k. IsLast (received k)) later l) v)
]

-- Reading the dump ends: if the call of `recv` numbered `n` fails, or gives a buffer on which
-- `process_chunk` never asks for more, the loop ends within `n + 1` rounds, with the same result for
-- every larger number of rounds, without a read outside a buffer on the way. It has failed or its table
-- holds only addresses of four or sixteen octets with MACs of six bytes.
pub recv_neigh_entries-Ended :
    (received : ℕ → Option (List ℕ)) (n : ℕ)
    → IsLast (received n)
    → (r : Run Absent Dump) × ((fuel : ℕ) → n < fuel → recv_neigh_entries received fuel ≡ r)
      × Safe Ended r
unfolding recv_neigh_entries IsNeighbours find Settles
recv_neigh_entries-Ended received n l =
    let start : 0 + n ≡ n = omega arith in
    settles received n 0 [] (rw start l) (λ ip mac e. ground arith)
