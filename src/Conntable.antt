-- ===== src/Conntable.antt =====
-- pesigitg-daemon/src/conntable.rs: the fallback table of connections. A hash map is an association
-- list in which a key stands once; an `Instant` is a number of nanoseconds.
pub mod Maps
pub mod Stickiness
use pesigitg.Common.Address.{IpAddr, addr_eq}
use pesigitg.Prelude.{
  min, Bool, not, ◌&&◌, Option, none, some, List, [], ◌∷◌, ◌++◌, ltb, leb, ◌==◌, if◌then◌else◌,
  bytes_eq, length, take, replicate, ℕ, ◌+◌, ◌-◌, ◌*◌,
}

abbrev pub entry_ttl : ℕ
entry_ttl = 5 * 1_000_000_000

abbrev pub sweep_interval : ℕ
sweep_interval = 5 * 1_000_000_000

pub record FlowKey : Type 0 where
  pub src_addr : IpAddr
  pub dst_addr : IpAddr
  pub src_port : ℕ
  pub dst_port : ℕ

unfoldable pub flow_eq : FlowKey → FlowKey → Bool
flow_eq f g =
    addr_eq f.src_addr g.src_addr
    && (addr_eq f.dst_addr g.dst_addr && (f.src_port == g.src_port && f.dst_port == g.dst_port))

-- A length and an array of 20 bytes.
pub record DcidKey : Type 0 where
  pub len : ℕ
  pub bytes : List ℕ

unfoldable pub from_slice : List ℕ → DcidKey
from_slice dcid =
    let len = min (length dcid) 20 in
    record { len = len; bytes = take len dcid ++ replicate (20 - len) 0 }

unfoldable pub dcid_eq : DcidKey → DcidKey → Bool
dcid_eq a b = a.len == b.len && bytes_eq a.bytes b.bytes

pub record Entry : Type 0 where
  pub mac : List ℕ
  pub expires : ℕ

unfoldable pub new_entry : List ℕ → ℕ → Entry
new_entry mac now = record { mac = mac; expires = now + entry_ttl }

unfoldable pub is_expired : Entry → ℕ → Bool
is_expired e now = leb e.expires now

-- `HashMap::get`, `insert` and `retain`, on keys compared by `eq`.
module _ {ℓ} {K : Type ℓ} (eq : K → K → Bool) where
  unfoldable pub map_get : K → List (K × Entry) → Option Entry
  map_get k [] = none
  map_get k ((j, e) ∷ m) = if eq j k then some e else map_get k m

  unfoldable pub map_insert : K → Entry → List (K × Entry) → List (K × Entry)
  map_insert k e [] = (k, e) ∷ []
  map_insert k e ((j, d) ∷ m) = if eq j k then (k, e) ∷ m else (j, d) ∷ map_insert k e m

unfoldable pub map_retain {ℓ} : {K : Type ℓ} → (Entry → Bool) → List (K × Entry) → List (K × Entry)
map_retain keep [] = []
map_retain keep ((j, e) ∷ m) =
    let rest = map_retain keep m in if keep e then (j, e) ∷ rest else rest

pub record ConnectionTable : Type 0 where
  pub by_flow : List (FlowKey × Entry)
  pub by_dcid : List (DcidKey × Entry)
  pub last_sweep : ℕ

unfoldable pub new : ℕ → ConnectionTable
new now = record { by_flow = []; by_dcid = []; last_sweep = now }

-- The entry of a map, if it is there and has not expired.
unfoldable pub live : Option Entry → ℕ → Option (List ℕ)
live none now = none
live (some e) now = if is_expired e now then none else some e.mac

unfoldable pub lookup_dcid : ConnectionTable → Option DcidKey → ℕ → Option (List ℕ)
lookup_dcid t none now = none
lookup_dcid t (some key) now = live (map_get dcid_eq key t.by_dcid) now

unfoldable pub or_maybe {ℓ} : {A : Type ℓ} → Option A → Option A → Option A
or_maybe none o = o
or_maybe (some a) o = some a

unfoldable pub lookup : ConnectionTable → FlowKey → Option DcidKey → ℕ → Option (List ℕ)
lookup t flow dcid now =
    or_maybe (live (map_get flow_eq flow t.by_flow) now) (lookup_dcid t dcid now)

unfoldable pub record_dcid : ConnectionTable → DcidKey → List ℕ → ℕ → ConnectionTable
record_dcid t dcid mac now = record t {
  by_dcid = map_insert dcid_eq dcid (new_entry mac now) t.by_dcid;
}

-- `if let Some(key) = dcid { self.by_dcid.insert(..) }`
unfoldable pub insert_dcid : ConnectionTable → Option DcidKey → List ℕ → ℕ → ConnectionTable
insert_dcid t none mac now = t
insert_dcid t (some key) mac now = record t {
  by_dcid = map_insert dcid_eq key (new_entry mac now) t.by_dcid;
}

unfoldable pub insert : ConnectionTable → FlowKey → Option DcidKey → List ℕ → ℕ → ConnectionTable
insert t flow dcid mac now =
    insert_dcid (record t { by_flow = map_insert flow_eq flow (new_entry mac now) t.by_flow }) dcid
      mac now

-- What `maybe_sweep` does when the interval has elapsed.
unfoldable pub sweep : ConnectionTable → ℕ → ConnectionTable
sweep t now = record {
  by_flow = map_retain (λ e. not (is_expired e now)) t.by_flow;
  by_dcid = map_retain (λ e. not (is_expired e now)) t.by_dcid;
  last_sweep = now;
}

-- `duration_since` is zero for an earlier instant.
unfoldable pub maybe_sweep : ConnectionTable → ℕ → ConnectionTable
maybe_sweep t now = if ltb (now - t.last_sweep) sweep_interval then t else sweep t now
