-- ===== src/Neigh.antt =====
-- pesigitg-daemon/src/neigh.rs: the neighbour table that the kernel dumps over netlink. What the
-- socket receives is a parameter; the structures of libc are read byte by byte in little-endian
-- order (`nlmsghdr` has 16 bytes, `ndmsg` 12 and the header of an attribute 4), and a read behind the
-- end of the buffer is a panic, as is a loop that uses up its fuel.
pub mod Safety
pub mod Rounds
pub mod Resolution
pub mod Messages
pub mod Dumps
pub mod Attributes
pub mod Entries
pub mod RoundTrip
use pesigitg.Prelude.{
  ℕ, zero, suc, ◌+◌, ◌*◌, ◌/◌, ◌%◌, bit_and, not, ◌&&◌, ◌||◌, Option, none, some, List, [], ◌∷◌,
  ◌++◌, ltb, ◌==◌, if◌then◌else◌, length, replicate, Run, Absent, ◌>>=◌, ◌>>◌, index, slice, ok,
  panic,
}
use pesigitg.Common.Address.{IpAddr, v4, v6}
use pesigitg.Common.AddressMap.{find, put}
use pesigitg.Config.Table.{is_none}
use pesigitg.Routing.Route.{Server}

abbrev pub nlmsg_error : ℕ
nlmsg_error = 2

abbrev pub nlmsg_done : ℕ
nlmsg_done = 3

abbrev pub rtm_newneigh : ℕ
rtm_newneigh = 28

abbrev pub rtm_getneigh : ℕ
rtm_getneigh = 30

-- `NLM_F_REQUEST | NLM_F_DUMP`
abbrev pub request_flags : ℕ
request_flags = 0x301

abbrev pub af_inet : ℕ
af_inet = 2

abbrev pub af_inet6 : ℕ
af_inet6 = 10

-- `NUD_REACHABLE | NUD_STALE | NUD_DELAY | NUD_PROBE | NUD_PERMANENT`
abbrev pub nud_valid : ℕ
nud_valid = 0x9e

abbrev pub nda_dst : ℕ
nda_dst = 1

abbrev pub nda_lladdr : ℕ
nda_lladdr = 2

-- `HashMap<IpAddr, [u8; 6]>`
abbrev pub Neighbours : Type 0
Neighbours = List (IpAddr × List ℕ)

unfoldable pub nlmsg_align : ℕ → ℕ
nlmsg_align len = (len + 3) / 4 * 4

unfoldable pub read_u16 : List ℕ → ℕ → Run Absent ℕ
read_u16 buf i = do low ← index buf i; high ← index buf (i + 1); ok (low + high * 256)

unfoldable pub read_u32 : List ℕ → ℕ → Run Absent ℕ
read_u32 buf i = do low ← read_u16 buf i; high ← read_u16 buf (i + 2); ok (low + high * 65536)

-- The arms of the match on an attribute's type, whose upper two bits are masked off.
unfoldable pub take_dst : ℕ → ℕ → List ℕ → Option IpAddr → Option IpAddr
take_dst family nla_type payload dst =
    if nla_type % 16384 == nda_dst && (family == af_inet && length payload == 4)
    then some (v4 payload)
    else if nla_type % 16384 == nda_dst && (family == af_inet6 && length payload == 16)
    then some (v6 payload)
    else dst

unfoldable pub take_lladdr : ℕ → List ℕ → Option (List ℕ) → Option (List ℕ)
take_lladdr nla_type payload lladdr =
    if nla_type % 16384 == nda_lladdr && length payload == 6 then some payload else lladdr

unfoldable pub attributes :
    ℕ
    → List ℕ
    → ℕ
    → ℕ
    → Option IpAddr
    → Option (List ℕ)
    → Run Absent (Option IpAddr × Option (List ℕ))
attributes zero buf family offset dst lladdr = panic
attributes (suc fuel) buf family offset dst lladdr =
    if ltb (length buf) (offset + 4) then ok (dst, lladdr) else do
      nla_len ← read_u16 buf offset
      if ltb nla_len 4 || ltb (length buf) (offset + nla_len) then ok (dst, lladdr) else do
        payload ← slice buf (offset + 4) (offset + nla_len)
        nla_type ← read_u16 buf (offset + 2)
        attributes fuel buf family (offset + nlmsg_align nla_len)
            (take_dst family nla_type payload dst) (take_lladdr nla_type payload lladdr)

unfoldable pub record_neighbour : Option IpAddr → Option (List ℕ) → Neighbours → Neighbours
record_neighbour none lladdr table = table
record_neighbour (some ip) none table = table
record_neighbour (some ip) (some mac) table = put ip mac table

unfoldable pub parse_neigh_msg : List ℕ → Neighbours → Run Absent Neighbours
parse_neigh_msg buf table = if ltb (length buf) 28 then ok table else do
  ndm_state ← read_u16 buf 24
  if bit_and ndm_state nud_valid == 0 then ok table else do
    family ← index buf 16
    if not (family == af_inet) && not (family == af_inet6) then ok table else do
      (dst_ip, lladdr) ← attributes (length buf) buf family 28 none none
      ok (record_neighbour dst_ip lladdr table)

pub data ChunkOutcome : Type 0 where
  continue done error : ChunkOutcome

unfoldable pub process_msg : List ℕ → ℕ → ℕ → Neighbours → Run Absent Neighbours
process_msg buf offset msg_len table = do
  msg ← slice buf offset (offset + msg_len)
  parse_neigh_msg msg table

unfoldable pub process_loop : ℕ → List ℕ → ℕ → Neighbours → Run Absent (ChunkOutcome × Neighbours)
process_loop zero buf offset table = panic
process_loop (suc fuel) buf offset table =
    if ltb (length buf) (offset + 16) then ok (continue, table) else do
      msg_len ← read_u32 buf offset
      if ltb msg_len 16 || ltb (length buf) (offset + msg_len) then ok (continue, table) else do
        nlmsg_type ← read_u16 buf (offset + 4)
        if nlmsg_type == nlmsg_done
            then ok (done, table)
            else if nlmsg_type == nlmsg_error
            then ok (error, table)
            else do
              table' ←
                  (if nlmsg_type == rtm_newneigh
                    then process_msg buf offset msg_len table
                    else ok table)
              process_loop fuel buf (offset + nlmsg_align msg_len) table'

unfoldable pub process_chunk : List ℕ → Neighbours → Run Absent (ChunkOutcome × Neighbours)
process_chunk buf table = process_loop (length buf + 4) buf 0 table

-- What `recv_neigh_entries` has come to: the table, an error, or neither yet.
pub data Dump : Type 0 where
  complete : Neighbours → Dump
  failed : Dump
  waiting : Neighbours → Dump

-- The loop, from its round `i` on: `received i` is the result of its call of `recv`, `none` for a
-- negative one. The loop has no bound of its own; the fuel is the number of rounds that are looked at.
unfoldable pub recv_entries : (ℕ → Option (List ℕ)) → ℕ → ℕ → Neighbours → Run Absent Dump
recv_entries received zero i table = ok (waiting table)
recv_entries received (suc fuel) i table = elim (received i) [
  | none ↦ ok failed
  | some buf ↦ process_chunk buf table >>= λ (outcome, table'). elim outcome [
    | continue ↦ recv_entries received fuel (i + 1) table'
    | done ↦ ok (complete table')
    | error ↦ ok failed
  ]
]

unfoldable pub recv_neigh_entries : (ℕ → Option (List ℕ)) → ℕ → Run Absent Dump
recv_neigh_entries received fuel = recv_entries received fuel 0 []

unfoldable pub u16_bytes : ℕ → List ℕ
u16_bytes n = n % 256 ∷ n / 256 % 256 ∷ []

-- The fields of the header, and a zeroed `ndmsg`, whose family `AF_UNSPEC` is zero.
unfoldable pub build_dump_request_bytes : List ℕ
build_dump_request_bytes =
    (28 ∷ 0 ∷ 0 ∷ 0 ∷ [])
    ++ (u16_bytes rtm_getneigh
        ++ (u16_bytes request_flags ++ ((1 ∷ 0 ∷ 0 ∷ 0 ∷ []) ++ replicate 16 0)))

unfoldable pub count_none : List Server → ℕ
count_none [] = 0
count_none (s ∷ servers) = (if is_none s.mac then 1 else 0) + count_none servers

unfoldable pub fill_mac : Neighbours → Server → Server
fill_mac table s = if is_none s.mac then record s { mac = find s.address table } else s

unfoldable pub fill_macs : Neighbours → List Server → List Server
fill_macs table [] = []
fill_macs table (s ∷ servers) = fill_mac table s ∷ fill_macs table servers

unfoldable pub with_table : Option Neighbours → List Server → List Server
with_table none servers = servers
with_table (some table) servers = fill_macs table servers

-- The argument is what `query_neighbour_table` yields, `none` for an error.
unfoldable pub resolve_macs : Option Neighbours → List Server → List Server
resolve_macs query servers = if count_none servers == 0 then servers else with_table query servers
