-- ===== src/Neigh/Attributes.antt =====
-- A message of the kernel through the loop over its attributes
-- (pesigitg-daemon/src/neigh.rs).
use pesigitg.Prelude.{
  zero, ◌/◌, ◌%◌, ◌≤◌, ◌<◌, Option, All, suc, sym, ap, ◌∙◌, ok, ℕ, ◌+◌, ◌≡◌, refl, none, some, List,
  [], ◌∷◌, ◌++◌, arith, length, length-append,
}
use mathlib.Core.List.{append_assoc}
use pesigitg.Common.Address.{IpAddr, v4, v6}
use pesigitg.Neigh.{attributes, take_dst, take_lladdr, nlmsg_align}
use pesigitg.Neigh.Messages.{attributes-append, attributes-end}
use pesigitg.Neigh.Safety.{IsAddress}
use pesigitg.Neigh.Dumps.{
  Attribute, IsOther, attribute_bytes, Neighbour, octets, family_of, size, lladdr_attribute, total,
  IsNeighbour, body, message, octets-length, length-message,
}

take_both :
    (ip : IpAddr) (mac : List ℕ)
    → IsAddress ip
    → length mac ≡ 6
    → (take_dst (family_of ip) 1 (octets ip) none ≡ some ip)
      × ((take_lladdr 1 (octets ip) none ≡ none)
          × ((take_dst (family_of ip) 2 mac (some ip) ≡ some ip)
              × (take_lladdr 2 mac none ≡ some mac)))
unfolding take_dst take_lladdr family_of octets IsAddress
take_both (v4 xs) mac h g = (ground arith, (ground arith, (ground arith, ground arith)))
take_both (v6 xs) mac h g = (ground arith, (ground arith, (ground arith, ground arith)))

-- The message up to its attributes.
start : Neighbour → List ℕ
start n =
    total n % 256
    ∷ total n / 256 % 256
    ∷ 0
    ∷ 0
    ∷ 28
    ∷ 0
    ∷ n.envelope.flags0
    ∷ n.envelope.flags1
    ∷ n.envelope.seq0
    ∷ n.envelope.seq1
    ∷ n.envelope.seq2
    ∷ n.envelope.seq3
    ∷ n.envelope.pid0
    ∷ n.envelope.pid1
    ∷ n.envelope.pid2
    ∷ n.envelope.pid3
    ∷ family_of n.ip
    ∷ n.link.pad0
    ∷ n.link.pad1
    ∷ n.link.pad2
    ∷ n.link.index0
    ∷ n.link.index1
    ∷ n.link.index2
    ∷ n.link.index3
    ∷ n.low
    ∷ n.high
    ∷ n.link.flags
    ∷ n.link.kind
    ∷ []

nlmsg_align-size : (ip : IpAddr) → nlmsg_align (size ip) ≡ size ip
unfolding nlmsg_align size
nlmsg_align-size (v4 xs) = refl
nlmsg_align-size (v6 xs) = refl

-- The first attribute is the address.
address-step :
    (n : Neighbour) (fuel : ℕ)
    → IsNeighbour n
    → attributes (suc fuel) (message n) (family_of n.ip) 28 none none
      ≡ attributes fuel (message n) (family_of n.ip) (28 + size n.ip) (some n.ip) none
unfolding message body start
address-step n fuel h =
    let (a, (b, (c, d))) = take_both n.ip n.mac h.address h.mac in
    attributes-append fuel (start n) (size n.ip) 1 (octets n.ip)
      (lladdr_attribute n.mac (attribute_bytes n.others)) (family_of n.ip) 28 none none refl
      (octets-length n h)
    ∙ rw (nlmsg_align-size n.ip, a, b) refl

-- The message up to its MAC, and up to the attributes behind it.
to_mac : Neighbour → List ℕ
to_mac n = start n ++ (size n.ip ∷ 0 ∷ 1 ∷ 0 ∷ octets n.ip)

to_others : Neighbour → List ℕ
to_others n = to_mac n ++ (10 ∷ 0 ∷ 2 ∷ 0 ∷ (n.mac ++ (0 ∷ 0 ∷ [])))

length-to_mac : (n : Neighbour) → IsNeighbour n → length (to_mac n) ≡ 28 + size n.ip
unfolding to_mac start
length-to_mac n h =
    length-append (start n) (size n.ip ∷ 0 ∷ 1 ∷ 0 ∷ octets n.ip) ∙ omega (arith, octets-length n h)

message-to_mac :
    (n : Neighbour) → message n ≡ to_mac n ++ lladdr_attribute n.mac (attribute_bytes n.others)
unfolding message body to_mac start
message-to_mac n = sym (
    append_assoc (start n) (size n.ip ∷ 0 ∷ 1 ∷ 0 ∷ octets n.ip)
      (lladdr_attribute n.mac (attribute_bytes n.others)))

message-to_others : (n : Neighbour) → message n ≡ to_others n ++ attribute_bytes n.others
unfolding to_others lladdr_attribute
message-to_others n =
    let rest = attribute_bytes n.others in
    let tail : n.mac ++ (0 ∷ 0 ∷ rest) ≡ (n.mac ++ (0 ∷ 0 ∷ [])) ++ rest =
      sym (append_assoc n.mac (0 ∷ 0 ∷ []) rest) in
    message-to_mac n
    ∙ (ap (λ x. to_mac n ++ (10 ∷ 0 ∷ 2 ∷ 0 ∷ x)) tail
        ∙ sym (append_assoc (to_mac n) (10 ∷ 0 ∷ 2 ∷ 0 ∷ (n.mac ++ (0 ∷ 0 ∷ []))) rest))

length-to_others : (n : Neighbour) → IsNeighbour n → length (to_others n) ≡ 40 + size n.ip
unfolding to_others
length-to_others n h =
    rw
      (
        length-append (to_mac n) (10 ∷ 0 ∷ 2 ∷ 0 ∷ (n.mac ++ (0 ∷ 0 ∷ []))),
        length-append n.mac (0 ∷ 0 ∷ []),
      )
      (omega (arith, h.mac, length-to_mac n h))

-- The second attribute is the MAC.
mac-step :
    (n : Neighbour) (fuel : ℕ)
    → IsNeighbour n
    → attributes (suc fuel) (message n) (family_of n.ip) (28 + size n.ip) (some n.ip) none
      ≡ attributes fuel (message n) (family_of n.ip) (28 + size n.ip + 12) (some n.ip) (some n.mac)
unfolding lladdr_attribute nlmsg_align
mac-step n fuel h =
    let (a, (b, (c, d))) = take_both n.ip n.mac h.address h.mac in
    let step =
      attributes-append fuel (to_mac n) 10 2 n.mac (0 ∷ 0 ∷ attribute_bytes n.others)
        (family_of n.ip) (28 + size n.ip) (some n.ip) none (length-to_mac n h)
        (omega (arith, h.mac)) in
    rw (message-to_mac n) (step ∙ rw (c, d) refl)

take_other :
    (family : ℕ) (a : Attribute) (dst : Option IpAddr) (lladdr : Option (List ℕ))
    → IsOther a
    → (take_dst family a.kind a.payload dst ≡ dst) × (take_lladdr a.kind a.payload lladdr ≡ lladdr)
unfolding take_dst take_lladdr
take_other family a dst lladdr h = (rw h.no_dst refl, rw h.no_lladdr refl)

-- The attributes behind change nothing.
others-step :
    (others : List Attribute) (fuel : ℕ) (pre : List ℕ) (family i : ℕ) (dst : Option IpAddr)
    (lladdr : Option (List ℕ))
    → All IsOther others
    → length others < fuel
    → length pre ≡ i
    → attributes fuel (pre ++ attribute_bytes others) family i dst lladdr ≡ ok (dst, lladdr)
unfolding attribute_bytes
others-step others zero pre family i dst lladdr v h e = absurd (omega arith)
others-step [] (suc fuel) pre family i dst lladdr v h e =
    attributes-end fuel (pre ++ []) family i dst lladdr
      (rw (length-append {A = ℕ} pre []) (omega arith))
others-step (a ∷ others) (suc fuel) pre family i dst lladdr (v, vs) h e =
    let rest = attribute_bytes others in
    let own = (4 + length a.payload) ∷ 0 ∷ a.kind ∷ 0 ∷ (a.payload ++ a.pad) in
    let (same_dst, same_lladdr) = take_other family a dst lladdr v in
    let joined : pre ++ ((4 + length a.payload) ∷ 0 ∷ a.kind ∷ 0 ∷ (a.payload ++ (a.pad ++ rest)))
        ≡ (pre ++ own) ++ rest =
      ap (λ x. pre ++ ((4 + length a.payload) ∷ 0 ∷ a.kind ∷ 0 ∷ x))
        (sym (append_assoc a.payload a.pad rest))
      ∙ sym (append_assoc pre own rest) in
    let at : length (pre ++ own) ≡ i + nlmsg_align (4 + length a.payload) =
      rw (length-append pre own, length-append a.payload a.pad) (omega (arith, v.aligned, e)) in
    attributes-append fuel pre (4 + length a.payload) a.kind a.payload (a.pad ++ rest) family i dst
      lladdr e refl
    ∙ (rw (same_dst, same_lladdr) refl
        ∙ (ap
              (λ buf.
                attributes fuel buf family (i + nlmsg_align (4 + length a.payload)) dst lladdr)
              joined
            ∙ others-step others fuel (pre ++ own) family (i + nlmsg_align (4 + length a.payload))
                dst lladdr vs (omega arith) at))

length-attribute_bytes : (others : List Attribute) → length others ≤ length (attribute_bytes others)
unfolding attribute_bytes
length-attribute_bytes [] = omega arith
length-attribute_bytes (a ∷ others) =
    rw
      (
        length-append a.payload (a.pad ++ attribute_bytes others),
        length-append a.pad (attribute_bytes others),
      )
      (omega (arith, length-attribute_bytes others))

pub message-attributes :
    (n : Neighbour)
    → IsNeighbour n
    → attributes (length (message n)) (message n) (family_of n.ip) 28 none none
      ≡ ok (some n.ip, some n.mac)
unfolding total
message-attributes n h =
    let len = length-message n h in
    let left = 38 + size n.ip + length (attribute_bytes n.others) in
    let fuel : length (message n) ≡ suc (suc left) = omega (arith, len) in
    ap (λ f. attributes f (message n) (family_of n.ip) 28 none none) fuel
    ∙ (address-step n (suc left) h
        ∙ (mac-step n left h
            ∙ (ap
                  (λ buf.
                    attributes left buf (family_of n.ip) (28 + size n.ip + 12) (some n.ip)
                      (some n.mac))
                  (message-to_others n)
                ∙ others-step n.others left (to_others n) (family_of n.ip) (28 + size n.ip + 12)
                    (some n.ip) (some n.mac) h.others
                    (omega (arith, length-attribute_bytes n.others))
                    (length-to_others n h ∙ omega arith))))
