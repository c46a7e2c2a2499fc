-- ===== src/Conntable/Stickiness.antt =====
-- The connection table of pesigitg-daemon/src/conntable.rs as its clients see it: which MAC a flow or
-- a DCID leads to, and for how long.
use mathlib.Core.Path.{ap₂}
use pesigitg.Prelude.{
  not, ℕ, ◌+◌, ◌-◌, ◌≤◌, ◌<◌, ◌≡◌, refl, inl, inr, false, Option, none, some, List, arith, ltb, leb,
  Bool-cases,
}
use pesigitg.Conntable.{
  Entry, sweep, sweep_interval, FlowKey, flow_eq, DcidKey, ConnectionTable, map_get, live,
  is_expired, new_entry, entry_ttl, new, lookup, lookup_dcid, or_maybe, record_dcid, insert_dcid,
  insert, maybe_sweep,
}
use pesigitg.Conntable.Maps.{
  flow_eq-Decides, dcid_eq-Decides, Distinct, map_get-map_insert, map_insert-Distinct,
  map_retain-Distinct, live-map_retain,
}

live-new_entry :
    (mac : List ℕ) (now later : ℕ)
    → later < now + entry_ttl
    → live (some (new_entry mac now)) later ≡ some mac
unfolding live is_expired new_entry
live-new_entry mac now later h =
    let fresh : leb (now + entry_ttl) later ≡ false = ground arith in rw fresh refl

-- After a decision is recorded, its flow leads to its MAC for less than five seconds, whatever DCID
-- a packet of the flow has.
pub lookup-insert_flow :
    (t : ConnectionTable) (flow : FlowKey) (dcid other : Option DcidKey) (mac : List ℕ)
    (now later : ℕ)
    → later < now + entry_ttl
    → lookup (insert t flow dcid mac now) flow other later ≡ some mac
unfolding lookup insert insert_dcid or_maybe
lookup-insert_flow t flow none other mac now later h =
    rw
      (
        map_get-map_insert flow_eq-Decides flow flow (new_entry mac now) t.by_flow,
        flow_eq-Decides.same flow,
        live-new_entry mac now later h,
      )
      refl
lookup-insert_flow t flow (some key) other mac now later h =
    rw
      (
        map_get-map_insert flow_eq-Decides flow flow (new_entry mac now) t.by_flow,
        flow_eq-Decides.same flow,
        live-new_entry mac now later h,
      )
      refl

-- A client that changes its address keeps its server: after a decision is recorded with a DCID, a
-- packet with that DCID on a flow without an unexpired entry of its own leads to the same MAC for
-- less than five seconds.
pub lookup-insert_rebinding :
    (t : ConnectionTable) (flow moved : FlowKey) (key : DcidKey) (mac : List ℕ) (now later : ℕ)
    → later < now + entry_ttl
    → live (map_get flow_eq moved t.by_flow) later ≡ none
    → lookup (insert t flow (some key) mac now) moved (some key) later ≡ some mac
unfolding lookup lookup_dcid insert insert_dcid or_maybe
lookup-insert_rebinding t flow moved key mac now later h none' =
    elim (Bool-cases (flow_eq flow moved)) [
      | inl g ↦
          rw
            (
              map_get-map_insert flow_eq-Decides flow moved (new_entry mac now) t.by_flow,
              g,
              live-new_entry mac now later h,
            )
            refl
      | inr g ↦
          rw
            (
              map_get-map_insert flow_eq-Decides flow moved (new_entry mac now) t.by_flow,
              g,
              none',
              map_get-map_insert dcid_eq-Decides key key (new_entry mac now) t.by_dcid,
              dcid_eq-Decides.same key,
              live-new_entry mac now later h,
            )
            refl
    ]

-- The tables that a worker's calls lead to.
pub data Reachable : ConnectionTable → Type 0 where
  started : (now : ℕ) → Reachable (new now)
  inserted :
      {t : ConnectionTable} (flow : FlowKey) (dcid : Option DcidKey) (mac : List ℕ) (now : ℕ)
      → Reachable t
      → Reachable (insert t flow dcid mac now)
  recorded :
      {t : ConnectionTable} (dcid : DcidKey) (mac : List ℕ) (now : ℕ)
      → Reachable t
      → Reachable (record_dcid t dcid mac now)
  swept : {t : ConnectionTable} (now : ℕ) → Reachable t → Reachable (maybe_sweep t now)

-- Both maps hold each key once.
pub record IsTable (t : ConnectionTable) : Type 0 where
  pub flows : Distinct flow_eq-Decides t.by_flow
  pub dcids : Distinct dcid_eq-Decides t.by_dcid

insert-IsTable :
    (t : ConnectionTable) (flow : FlowKey) (dcid : Option DcidKey) (mac : List ℕ) (now : ℕ)
    → IsTable t
    → IsTable (insert t flow dcid mac now)
unfolding insert insert_dcid
insert-IsTable t flow none mac now h = record {
  flows = map_insert-Distinct flow_eq-Decides flow _ _ h.flows;
  dcids = h.dcids;
}
insert-IsTable t flow (some key) mac now h = record {
  flows = map_insert-Distinct flow_eq-Decides flow _ _ h.flows;
  dcids = map_insert-Distinct dcid_eq-Decides key _ _ h.dcids;
}

sweep-IsTable : (t : ConnectionTable) (now : ℕ) → IsTable t → IsTable (sweep t now)
unfolding sweep
sweep-IsTable t now h =
    let keep = λ (e : Entry). not (is_expired e now) in
    record {
      flows = map_retain-Distinct flow_eq-Decides keep t.by_flow h.flows;
      dcids = map_retain-Distinct dcid_eq-Decides keep t.by_dcid h.dcids;
    }

maybe_sweep-IsTable : (t : ConnectionTable) (now : ℕ) → IsTable t → IsTable (maybe_sweep t now)
unfolding maybe_sweep
maybe_sweep-IsTable t now h = elim (Bool-cases (ltb (now - t.last_sweep) sweep_interval)) [
  | inl g ↦ rw g h
  | inr g ↦ rw g (sweep-IsTable t now h)
]

-- In every table that the operations lead to, each flow and each DCID stands once.
Reachable-IsTable : (t : ConnectionTable) → Reachable t → IsTable t
unfolding new record_dcid Distinct
Reachable-IsTable t (started now) = record { flows = tt; dcids = tt }
Reachable-IsTable t (inserted {t = s} flow dcid mac now r) =
    insert-IsTable s flow dcid mac now (Reachable-IsTable s r)
Reachable-IsTable t (recorded {t = s} dcid mac now r) =
    let h = Reachable-IsTable s r in
    record { flows = h.flows; dcids = map_insert-Distinct dcid_eq-Decides dcid _ _ h.dcids }
Reachable-IsTable t (swept {t = s} now r) = maybe_sweep-IsTable s now (Reachable-IsTable s r)

lookup_dcid-sweep :
    (t : ConnectionTable) (dcid : Option DcidKey) (now later : ℕ)
    → now ≤ later
    → Distinct dcid_eq-Decides t.by_dcid
    → lookup_dcid (sweep t now) dcid later ≡ lookup_dcid t dcid later
unfolding lookup_dcid sweep
lookup_dcid-sweep t none now later h d = refl
lookup_dcid-sweep t (some key) now later h d =
    live-map_retain dcid_eq-Decides key now later t.by_dcid h d

lookup-sweep :
    (t : ConnectionTable) (flow : FlowKey) (dcid : Option DcidKey) (now later : ℕ)
    → IsTable t
    → now ≤ later
    → lookup (sweep t now) flow dcid later ≡ lookup t flow dcid later
unfolding lookup sweep
lookup-sweep t flow dcid now later d h =
    ap₂ or_maybe (live-map_retain flow_eq-Decides flow now later t.by_flow h d.flows)
      (lookup_dcid-sweep t dcid now later h d.dcids)

-- Sweeping shows in no answer: on a table that the operations lead to, each lookup from the time of
-- the sweep on finds what it would have found without the sweep.
pub lookup-maybe_sweep :
    (t : ConnectionTable) (flow : FlowKey) (dcid : Option DcidKey) (now later : ℕ)
    → Reachable t
    → now ≤ later
    → lookup (maybe_sweep t now) flow dcid later ≡ lookup t flow dcid later
unfolding maybe_sweep
lookup-maybe_sweep t flow dcid now later r h =
    elim (Bool-cases (ltb (now - t.last_sweep) sweep_interval)) [
      | inl g ↦ rw g refl
      | inr g ↦ rw g (lookup-sweep t flow dcid now later (Reachable-IsTable t r) h)
    ]
