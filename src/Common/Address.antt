-- ===== src/Common/Address.antt =====
-- `std::net::IpAddr`, as its octets, and the flow of a packet (`FlowKey` of conntable.rs).
use pesigitg.Prelude.{
  ◌≡◌, ap, Bool, true, false, List, arith, bytes_eq, bytes_eq→eq, bytes_eq_refl, ℕ,
}

pub data IpAddr : Type 0 where
  v4 : List ℕ → IpAddr
  v6 : List ℕ → IpAddr

unfoldable pub addr_eq : IpAddr → IpAddr → Bool
addr_eq (v4 a) (v4 b) = bytes_eq a b
addr_eq (v4 a) (v6 b) = false
addr_eq (v6 a) (v4 b) = false
addr_eq (v6 a) (v6 b) = bytes_eq a b

pub addr_eq→eq : (a b : IpAddr) → addr_eq a b ≡ true → a ≡ b
unfolding addr_eq
addr_eq→eq (v4 a) (v4 b) h = ap v4 (bytes_eq→eq a b h)
addr_eq→eq (v4 a) (v6 b) h = ground arith
addr_eq→eq (v6 a) (v4 b) h = ground arith
addr_eq→eq (v6 a) (v6 b) h = ap v6 (bytes_eq→eq a b h)

pub addr_eq_refl : (a : IpAddr) → addr_eq a a ≡ true
unfolding addr_eq
addr_eq_refl (v4 a) = bytes_eq_refl a
addr_eq_refl (v6 a) = bytes_eq_refl a
