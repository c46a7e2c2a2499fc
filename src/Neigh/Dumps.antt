-- ===== src/Neigh/Dumps.antt =====
-- A message of a dump as the kernel writes it (struct nlmsghdr and ndmsg, the attributes NDA_DST and
-- NDA_LLADDR and any others behind them), and how pesigitg-daemon/src/neigh.rs reads it back.
use pesigitg.Prelude.{
  ◌/◌, ◌%◌, ◌<◌, All, ℕ, ◌+◌, ◌*◌, bit_and, ◌≡◌, false, List, [], ◌∷◌, ◌++◌, arith, ◌==◌, length,
  length-append,
}
use pesigitg.Common.Address.{IpAddr, v4, v6}
use pesigitg.Neigh.{nda_dst, nda_lladdr, nud_valid, nlmsg_align}
use pesigitg.Neigh.Safety.{IsAddress}

-- The bytes of `nlmsg_flags`, `nlmsg_seq` and `nlmsg_pid`, which can be any.
pub record Envelope : Type 0 where
  pub flags0 : ℕ
  pub flags1 : ℕ
  pub seq0 : ℕ
  pub seq1 : ℕ
  pub seq2 : ℕ
  pub seq3 : ℕ
  pub pid0 : ℕ
  pub pid1 : ℕ
  pub pid2 : ℕ
  pub pid3 : ℕ

-- The padding of `ndmsg`, `ndm_ifindex`, `ndm_flags` and `ndm_type`.
pub record Link : Type 0 where
  pub pad0 : ℕ
  pub pad1 : ℕ
  pub pad2 : ℕ
  pub index0 : ℕ
  pub index1 : ℕ
  pub index2 : ℕ
  pub index3 : ℕ
  pub flags : ℕ
  pub kind : ℕ

-- An attribute, with the bytes that fill it up to a multiple of four.
pub record Attribute : Type 0 where
  pub kind : ℕ
  pub payload : List ℕ
  pub pad : List ℕ

pub record IsOther (a : Attribute) : Type 0 where
  pub no_dst : (a.kind % 16384 == nda_dst) ≡ false
  pub no_lladdr : (a.kind % 16384 == nda_lladdr) ≡ false
  pub small : 4 + length a.payload < 256
  pub kind_byte : a.kind < 256
  pub aligned : nlmsg_align (4 + length a.payload) ≡ 4 + length a.payload + length a.pad

unfoldable pub attribute_bytes : List Attribute → List ℕ
attribute_bytes [] = []
attribute_bytes (a ∷ as') =
    (4 + length a.payload) ∷ 0 ∷ a.kind ∷ 0 ∷ (a.payload ++ (a.pad ++ attribute_bytes as'))

-- A resolved neighbour: the two bytes of its state, and the attributes behind address and MAC.
pub record Neighbour : Type 0 where
  pub ip : IpAddr
  pub mac : List ℕ
  pub low : ℕ
  pub high : ℕ
  pub envelope : Envelope
  pub link : Link
  pub others : List Attribute

unfoldable pub octets : IpAddr → List ℕ
octets (v4 xs) = xs
octets (v6 xs) = xs

unfoldable pub family_of : IpAddr → ℕ
family_of (v4 xs) = 2
family_of (v6 xs) = 10

-- The length of the attribute with the address.
unfoldable pub size : IpAddr → ℕ
size (v4 xs) = 8
size (v6 xs) = 20

unfoldable pub lladdr_attribute : List ℕ → List ℕ → List ℕ
lladdr_attribute mac rest = 10 ∷ 0 ∷ 2 ∷ 0 ∷ (mac ++ (0 ∷ 0 ∷ rest))

unfoldable pub total : Neighbour → ℕ
total n = 40 + size n.ip + length (attribute_bytes n.others)

pub record IsNeighbour (n : Neighbour) : Type 0 where
  pub address : IsAddress n.ip
  pub mac : length n.mac ≡ 6
  pub usable : (bit_and (n.low + n.high * 256) nud_valid == 0) ≡ false
  pub others : All IsOther n.others
  pub short : total n < 65536

-- What stands behind the fields of the header that the loop reads.
unfoldable pub body : Neighbour → List ℕ
body n =
    n.envelope.flags0
    ∷ n.envelope.flags1
    ∷ n.envelope.seq0
    ∷ n.envelope.seq1
    ∷ n.envelope.seq2
    ∷ n.envelope.seq3
    ∷ n.envelope.pid0
    ∷ n.envelope.pid1
    ∷ n.envelope.pid2
    ∷ n.envelope.pid3
    ∷ family_of n.ip
    ∷ n.link.pad0
    ∷ n.link.pad1
    ∷ n.link.pad2
    ∷ n.link.index0
    ∷ n.link.index1
    ∷ n.link.index2
    ∷ n.link.index3
    ∷ n.low
    ∷ n.high
    ∷ n.link.flags
    ∷ n.link.kind
    ∷ size n.ip
    ∷ 0
    ∷ 1
    ∷ 0
    ∷ (octets n.ip ++ lladdr_attribute n.mac (attribute_bytes n.others))

unfoldable pub message : Neighbour → List ℕ
message n = total n % 256 ∷ total n / 256 % 256 ∷ 0 ∷ 0 ∷ 28 ∷ 0 ∷ body n

pub octets-length : (n : Neighbour) → IsNeighbour n → size n.ip ≡ 4 + length (octets n.ip)
unfolding octets size IsAddress
octets-length n h = go n.ip h.address
  where
    go : (ip : IpAddr) → IsAddress ip → size ip ≡ 4 + length (octets ip)
    go (v4 xs) e = omega arith
    go (v6 xs) e = omega arith

pub length-message : (n : Neighbour) → IsNeighbour n → length (message n) ≡ total n
unfolding message body lladdr_attribute total
length-message n h =
    let rest = attribute_bytes n.others in
    rw
      (
        length-append (octets n.ip) (10 ∷ 0 ∷ 2 ∷ 0 ∷ (n.mac ++ (0 ∷ 0 ∷ rest))),
        length-append n.mac (0 ∷ 0 ∷ rest),
      )
      (omega (arith, h.mac, octets-length n h))
