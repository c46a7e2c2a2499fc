-- ===== src/Neigh/Safety.antt =====
-- The reader of netlink messages in pesigitg-daemon/src/neigh.rs on every input: its reads stay inside
-- the buffer, its loops end, and what it records are addresses and MACs of their lengths.
use mathlib.Core.Path.{subst}
use pesigitg.Prelude.{
  bit_and, refl, sym, ◌∙◌, not, get_or, ℕ, zero, suc, ◌+◌, ◌%◌, ◌≤◌, ◌≡◌, inl, inr, ◌&&◌, ◌||◌,
  Option, none, some, List, arith, ltb, ◌==◌, Bool-cases, Safe, Safe-if, Safe-index, Safe-slice,
  Safe-bind, length, value,
}
use pesigitg.Common.Address.{addr_eq→eq, addr_eq, IpAddr, v4, v6}
use pesigitg.Common.AddressMap.{find, find-put}
use pesigitg.Neigh.{
  rtm_newneigh, nlmsg_error, nlmsg_done, Neighbours, nlmsg_align, read_u16, read_u32, take_dst,
  take_lladdr, attributes, record_neighbour, parse_neigh_msg, ChunkOutcome, process_msg,
  process_loop, process_chunk, nda_dst, nda_lladdr, af_inet, af_inet6, nud_valid,
}

read_u16-Safe : (buf : List ℕ) (i : ℕ) → i + 2 ≤ length buf → Safe (λ _. Unit {0}) (read_u16 buf i)
unfolding read_u16
read_u16-Safe buf i h =
    Safe-index buf i _ (omega arith) (Safe-index buf (i + 1) _ (omega arith) (value tt))

read_u32-Safe : (buf : List ℕ) (i : ℕ) → i + 4 ≤ length buf → Safe (λ _. Unit {0}) (read_u32 buf i)
unfolding read_u32
read_u32-Safe buf i h =
    Safe-bind _ _ (read_u16-Safe buf i (omega arith))
      λ low _. Safe-bind _ _ (read_u16-Safe buf (i + 2) (omega arith)) λ high _. value tt

-- A MAC has six bytes, and an address of the table four or sixteen.
unfoldable pub IsAddress : IpAddr → Type 0
IsAddress (v4 octets) = length octets ≡ 4
IsAddress (v6 octets) = length octets ≡ 16

pub OnSome {ℓ} : {A : Type ℓ} → (A → Type 0) → Option A → Type 0
OnSome P none = Unit
OnSome P (some a) = P a

pub IsMac : List ℕ → Type 0
IsMac mac = length mac ≡ 6

take_dst-IsAddress :
    (family nla_type : ℕ) (payload : List ℕ) (dst : Option IpAddr)
    → OnSome IsAddress dst
    → OnSome IsAddress (take_dst family nla_type payload dst)
unfolding take_dst OnSome IsAddress
take_dst-IsAddress family nla_type payload dst h =
    elim (Bool-cases (nla_type % 16384 == nda_dst && (family == af_inet && length payload == 4))) [
      | inl e ↦ rw e (ground arith)
      | inr e ↦
          elim (Bool-cases
            (nla_type % 16384 == nda_dst && (family == af_inet6 && length payload == 16))) [
              | inl e' ↦ rw (e, e') (ground arith)
              | inr e' ↦ rw (e, e') h
            ]
    ]

take_lladdr-IsMac :
    (nla_type : ℕ) (payload : List ℕ) (lladdr : Option (List ℕ))
    → OnSome IsMac lladdr
    → OnSome IsMac (take_lladdr nla_type payload lladdr)
unfolding take_lladdr OnSome IsMac
take_lladdr-IsMac nla_type payload lladdr h =
    elim (Bool-cases (nla_type % 16384 == nda_lladdr && length payload == 6)) [
      | inl e ↦ rw e (ground arith)
      | inr e ↦ rw e h
    ]

abbrev Found : Option IpAddr × Option (List ℕ) → Type 0
Found (dst, lladdr) = OnSome IsAddress dst × OnSome IsMac lladdr

nlmsg_align-grows : (len : ℕ) → (len ≤ nlmsg_align len) × (nlmsg_align len ≤ len + 3)
unfolding nlmsg_align
nlmsg_align-grows len = (omega arith, omega arith)

attributes-Safe :
    (fuel : ℕ) (buf : List ℕ) (family offset : ℕ) (dst : Option IpAddr) (lladdr : Option (List ℕ))
    → length buf + 4 ≤ fuel + offset
    → offset ≤ length buf + 3
    → OnSome IsAddress dst
    → OnSome IsMac lladdr
    → Safe Found (attributes fuel buf family offset dst lladdr)
unfolding attributes
attributes-Safe zero buf family offset dst lladdr h g d m = absurd (omega arith)
attributes-Safe (suc fuel) buf family offset dst lladdr h g d m =
    Safe-if (ltb (length buf) (offset + 4)) (λ e. value (d, m))
      λ e. Safe-bind _ _ (read_u16-Safe buf offset (ground arith)) λ nla_len _.
        Safe-if (ltb nla_len 4 || ltb (length buf) (offset + nla_len)) (λ k. value (d, m))
          λ k. Safe-slice buf (offset + 4) (offset + nla_len) _ (ground arith) (ground arith) (
            Safe-bind _ _ (read_u16-Safe buf (offset + 2) (ground arith)) λ nla_type _.
              let (low, high) = nlmsg_align-grows nla_len in
              attributes-Safe fuel buf family (offset + nlmsg_align nla_len) _ _ (ground arith)
                (ground arith) (take_dst-IsAddress family nla_type _ dst d)
                (take_lladdr-IsMac nla_type _ lladdr m))

-- What the table holds.
unfoldable pub IsNeighbours : Neighbours → Type 0
IsNeighbours table =
    (ip : IpAddr) (mac : List ℕ) → find ip table ≡ some mac → IsAddress ip × IsMac mac

record_neighbour-IsNeighbours :
    (dst : Option IpAddr) (lladdr : Option (List ℕ)) (table : Neighbours)
    → OnSome IsAddress dst
    → OnSome IsMac lladdr
    → IsNeighbours table
    → IsNeighbours (record_neighbour dst lladdr table)
unfolding record_neighbour IsNeighbours OnSome
record_neighbour-IsNeighbours none lladdr table d m t ip mac' e = t ip mac' e
record_neighbour-IsNeighbours (some a) none table d m t ip mac' e = t ip mac' e
record_neighbour-IsNeighbours (some a) (some mac) table d m t ip mac' e =
    elim (Bool-cases (addr_eq a ip)) [
      | inl g ↦
          let put' : some mac ≡ some mac' = sym (find-put a ip mac table ∙ rw g refl) ∙ e in
          let same : mac ≡ mac' = ground arith in
          (subst IsAddress (addr_eq→eq a ip g) d, subst IsMac same m)
      | inr g ↦ t ip mac' (sym (find-put a ip mac table ∙ rw g refl) ∙ e)
    ]

parse_neigh_msg-Safe :
    (buf : List ℕ) (table : Neighbours)
    → IsNeighbours table
    → Safe IsNeighbours (parse_neigh_msg buf table)
unfolding parse_neigh_msg OnSome
parse_neigh_msg-Safe buf table t =
    Safe-if (ltb (length buf) 28) (λ e. value t)
      λ e. Safe-bind _ _ (read_u16-Safe buf 24 (ground arith)) λ ndm_state _.
        Safe-if (bit_and ndm_state nud_valid == 0) (λ k. value t)
          λ k. Safe-index buf 16 _ (ground arith) (
            Safe-if (not (get_or buf 16 0 == af_inet) && not (get_or buf 16 0 == af_inet6))
              (λ f. value t)
              λ f.
                Safe-bind _ _
                  (attributes-Safe (length buf) buf (get_or buf 16 0) 28 none none (ground arith)
                    (ground arith) tt tt)
                  λ (dst, lladdr) (d, m).
                    value (record_neighbour-IsNeighbours dst lladdr table d m t))

abbrev pub Holds : ChunkOutcome × Neighbours → Type 0
Holds (outcome, table) = IsNeighbours table

process_msg-Safe :
    (buf : List ℕ) (offset msg_len : ℕ) (table : Neighbours)
    → offset + msg_len ≤ length buf
    → IsNeighbours table
    → Safe IsNeighbours (process_msg buf offset msg_len table)
unfolding process_msg
process_msg-Safe buf offset msg_len table h t =
    Safe-slice buf offset (offset + msg_len) _ (omega arith) h (parse_neigh_msg-Safe _ table t)

process_loop-Safe :
    (fuel : ℕ) (buf : List ℕ) (offset : ℕ) (table : Neighbours)
    → length buf + 4 ≤ fuel + offset
    → offset ≤ length buf + 3
    → IsNeighbours table
    → Safe Holds (process_loop fuel buf offset table)
unfolding process_loop
process_loop-Safe zero buf offset table h g t = absurd (omega arith)
process_loop-Safe (suc fuel) buf offset table h g t =
    Safe-if (ltb (length buf) (offset + 16)) (λ e. value t)
      λ e. Safe-bind _ _ (read_u32-Safe buf offset (ground arith)) λ msg_len _.
        Safe-if (ltb msg_len 16 || ltb (length buf) (offset + msg_len)) (λ k. value t)
          λ k. Safe-bind _ _ (read_u16-Safe buf (offset + 4) (ground arith)) λ nlmsg_type _.
            Safe-if (nlmsg_type == nlmsg_done) (λ p. value t)
              λ p.
                Safe-if (nlmsg_type == nlmsg_error) (λ q. value t)
                  λ q.
                    Safe-bind {Q = IsNeighbours} _ _
                      (Safe-if (nlmsg_type == rtm_newneigh)
                        (λ r. process_msg-Safe buf offset msg_len table (ground arith) t)
                        (λ r. value t))
                      λ table' t'.
                        let (low, high) = nlmsg_align-grows msg_len in
                        process_loop-Safe fuel buf (offset + nlmsg_align msg_len) table'
                          (ground arith) (ground arith) t'

pub process_chunk-Safe :
    (buf : List ℕ) (table : Neighbours) → IsNeighbours table → Safe Holds (process_chunk buf table)
unfolding process_chunk
process_chunk-Safe buf table t =
    process_loop-Safe (length buf + 4) buf 0 table (omega arith) (omega arith) t
