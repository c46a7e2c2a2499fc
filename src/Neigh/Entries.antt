-- ===== src/Neigh/Entries.antt =====
-- A message of the kernel through `parse_neigh_msg` of pesigitg-daemon/src/neigh.rs.
use pesigitg.Prelude.{
  ◌/◌, ◌%◌, index-append, ◌>>=◌, not, ◌&&◌, le→ltb-false, Run, Absent, index, ok, ℕ, ◌+◌, ◌*◌, ◌≡◌,
  refl, false, [], ◌∷◌, arith, ◌==◌, length,
}
use pesigitg.Common.Address.{IpAddr, v4, v6}
use pesigitg.Common.AddressMap.{put}
use pesigitg.Neigh.{Neighbours, parse_neigh_msg, read_u16, record_neighbour}
use pesigitg.Neigh.Messages.{read_u16-append}
use pesigitg.Neigh.Dumps.{Neighbour, family_of, total, IsNeighbour, body, message, length-message}
use pesigitg.Neigh.Attributes.{message-attributes}

known_family : (ip : IpAddr) → not (family_of ip == 2) && not (family_of ip == 10) ≡ false
unfolding family_of
known_family (v4 xs) = refl
known_family (v6 xs) = refl

message-state : (n : Neighbour) → read_u16 (message n) 24 ≡ ok (n.low + n.high * 256)
unfolding message body
message-state n =
    read_u16-append
      (total n % 256
        ∷ total n / 256 % 256
        ∷ 0
        ∷ 0
        ∷ 28
        ∷ 0
        ∷ n.envelope.flags0
        ∷ n.envelope.flags1
        ∷ n.envelope.seq0
        ∷ n.envelope.seq1
        ∷ n.envelope.seq2
        ∷ n.envelope.seq3
        ∷ n.envelope.pid0
        ∷ n.envelope.pid1
        ∷ n.envelope.pid2
        ∷ n.envelope.pid3
        ∷ family_of n.ip
        ∷ n.link.pad0
        ∷ n.link.pad1
        ∷ n.link.pad2
        ∷ n.link.index0
        ∷ n.link.index1
        ∷ n.link.index2
        ∷ n.link.index3
        ∷ [])
      n.low n.high _ 24 refl

message-family :
    (n : Neighbour) → ◌≡◌ {A = Run Absent ℕ} (index (message n) 16) (ok (family_of n.ip))
unfolding message body
message-family n =
    index-append 16
      (total n % 256
        ∷ total n / 256 % 256
        ∷ 0
        ∷ 0
        ∷ 28
        ∷ 0
        ∷ n.envelope.flags0
        ∷ n.envelope.flags1
        ∷ n.envelope.seq0
        ∷ n.envelope.seq1
        ∷ n.envelope.seq2
        ∷ n.envelope.seq3
        ∷ n.envelope.pid0
        ∷ n.envelope.pid1
        ∷ n.envelope.pid2
        ∷ n.envelope.pid3
        ∷ [])
      (family_of n.ip) _ refl

-- A message that the kernel writes for a usable neighbour adds it to the table.
pub parse_neigh_msg-message :
    (n : Neighbour) (table : Neighbours)
    → IsNeighbour n
    → parse_neigh_msg (message n) table ≡ ok (put n.ip n.mac table)
unfolding parse_neigh_msg ◌>>=◌ record_neighbour total
parse_neigh_msg-message n table h =
    let len = length-message n h in
    rw
      (
        le→ltb-false (length (message n)) 28 (omega (arith, len)),
        message-state n,
        h.usable,
        message-family n,
        known_family n.ip,
        message-attributes n h,
      )
      refl
