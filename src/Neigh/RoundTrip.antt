-- ===== src/Neigh/RoundTrip.antt =====
-- A whole dump of neighbours, as the kernel writes it into one buffer, through `process_chunk` of
-- pesigitg-daemon/src/neigh.rs.
use pesigitg.Prelude.{
  ◌/◌, ◌%◌, ◌⊎◌, inl, inr, zero, ◌≤◌, ◌<◌, All, ◌>>=◌, ℕ, suc, ◌+◌, ◌*◌, ◌≡◌, refl, sym, ap, ◌∙◌,
  List, [], ◌∷◌, ◌++◌, arith, le→ltb-false, slice-append, length, length-append, Run, Absent, slice,
  ok,
}
use mathlib.Core.List.{append_assoc}
use pesigitg.Common.Address.{IpAddr, v4, v6}
use pesigitg.Common.AddressMap.{put}
use pesigitg.Neigh.{
  process_chunk, done, Neighbours, read_u16, read_u32, nlmsg_align, process_msg, process_loop,
}
use pesigitg.Neigh.Messages.{read_u16-append, length-parts}
use pesigitg.Neigh.Entries.{parse_neigh_msg-message}
use pesigitg.Neigh.Dumps.{
  Neighbour, IsNeighbour, Attribute, IsOther, Envelope, attribute_bytes, total, size, body, message,
  length-message,
}

-- `NLMSG_DONE`, with what stands behind its header.
pub record Ending : Type 0 where
  pub envelope : Envelope
  pub payload : List ℕ

unfoldable pub end_tail : Ending → List ℕ
end_tail e =
    e.envelope.flags0 ∷ e.envelope.flags1 ∷ e.envelope.seq0 ∷ e.envelope.seq1 ∷ e.envelope.seq2
    ∷ e.envelope.seq3 ∷ e.envelope.pid0 ∷ e.envelope.pid1 ∷ e.envelope.pid2 ∷ e.envelope.pid3
    ∷ e.payload

unfoldable pub dump_end : Ending → List ℕ
dump_end e = (16 + length e.payload) ∷ 0 ∷ 0 ∷ 0 ∷ 3 ∷ 0 ∷ end_tail e

-- The messages of a dump, and its end.
unfoldable pub dump : Ending → List Neighbour → List ℕ
dump e [] = dump_end e
dump e (n ∷ ns) = message n ++ dump e ns

unfoldable pub insert_all : List Neighbour → Neighbours → Neighbours
insert_all [] table = table
insert_all (n ∷ ns) table = insert_all ns (put n.ip n.mac table)

-- The fields of a message's header that the loop reads.
header-fields :
    (pre : List ℕ) (low high ty : ℕ) (rest : List ℕ) (i : ℕ)
    → length pre ≡ i
    → (read_u32 (pre ++ (low ∷ high ∷ 0 ∷ 0 ∷ ty ∷ 0 ∷ rest)) i ≡ ok (low + high * 256))
      × (read_u16 (pre ++ (low ∷ high ∷ 0 ∷ 0 ∷ ty ∷ 0 ∷ rest)) (i + 4) ≡ ok ty)
unfolding read_u32 ◌>>=◌
header-fields pre low high ty rest i h =
    let buf = pre ++ (low ∷ high ∷ 0 ∷ 0 ∷ ty ∷ 0 ∷ rest) in
    let lower = read_u16-append pre low high (0 ∷ 0 ∷ ty ∷ 0 ∷ rest) i h in
    let split2 : buf ≡ (pre ++ (low ∷ high ∷ [])) ++ (0 ∷ 0 ∷ ty ∷ 0 ∷ rest) =
      sym (append_assoc pre (low ∷ high ∷ []) (0 ∷ 0 ∷ ty ∷ 0 ∷ rest)) in
    let upper : read_u16 buf (i + 2) ≡ ok (0 + 0 * 256) = rw split2 (
      read_u16-append (pre ++ (low ∷ high ∷ [])) 0 0 (ty ∷ 0 ∷ rest) (i + 2)
        (rw (length-append pre (low ∷ high ∷ [])) (omega arith))) in
    let split4 : buf ≡ (pre ++ (low ∷ high ∷ 0 ∷ 0 ∷ [])) ++ (ty ∷ 0 ∷ rest) =
      sym (append_assoc pre (low ∷ high ∷ 0 ∷ 0 ∷ []) (ty ∷ 0 ∷ rest)) in
    let whole : low + high * 256 + (0 + 0 * 256) * 65536 ≡ low + high * 256 = omega arith in
    let ty' : ty + 0 * 256 ≡ ty = omega arith in
    (
      rw (lower, upper) (ap ok whole),
      rw split4 (
          read_u16-append (pre ++ (low ∷ high ∷ 0 ∷ 0 ∷ [])) ty 0 rest (i + 4)
            (rw (length-append pre (low ∷ high ∷ 0 ∷ 0 ∷ [])) (omega arith))
          ∙ ap ok ty'),
    )

nlmsg_align-attribute_bytes :
    (others : List Attribute) → All IsOther others → length (attribute_bytes others) % 4 ≡ 0
unfolding attribute_bytes nlmsg_align
nlmsg_align-attribute_bytes [] v = refl
nlmsg_align-attribute_bytes (a ∷ others) (v, vs) =
    rw
      (
        length-append a.payload (a.pad ++ attribute_bytes others),
        length-append a.pad (attribute_bytes others),
      )
      (omega (arith, nlmsg_align-attribute_bytes others vs, v.aligned))

size-cases : (ip : IpAddr) → (size ip ≡ 8) ⊎ (size ip ≡ 20)
unfolding size
size-cases (v4 xs) = inl refl
size-cases (v6 xs) = inr refl

align : (n : Neighbour) → IsNeighbour n → nlmsg_align (total n) ≡ total n
unfolding nlmsg_align total
align n h =
    let even = nlmsg_align-attribute_bytes n.others h.others in
    elim (size-cases n.ip) [ inl e ↦ omega (arith, e, even) | inr e ↦ omega (arith, e, even) ]

fields :
    (pre : List ℕ) (n : Neighbour) (rest : List ℕ) (i : ℕ)
    → IsNeighbour n
    → length pre ≡ i
    → (read_u32 (pre ++ (message n ++ rest)) i ≡ ok (total n))
      × (read_u16 (pre ++ (message n ++ rest)) (i + 4) ≡ ok 28)
unfolding message
fields pre n rest i v h =
    let (a, b) = header-fields pre (total n % 256) (total n / 256 % 256) 28 (body n ++ rest) i h in
    let len : total n % 256 + total n / 256 % 256 * 256 ≡ total n = omega (arith, v.short) in
    (a ∙ ap ok len, b)

total-big : (n : Neighbour) → 40 ≤ total n
unfolding total
total-big n = omega arith

-- One round of the loop, at a message of the kernel.
process_loop-message :
    (fuel : ℕ) (pre : List ℕ) (n : Neighbour) (rest : List ℕ) (i : ℕ) (table : Neighbours)
    → IsNeighbour n
    → length pre ≡ i
    → process_loop (suc fuel) (pre ++ (message n ++ rest)) i table
      ≡ process_loop fuel (pre ++ (message n ++ rest)) (i + total n) (put n.ip n.mac table)
unfolding process_loop process_msg ◌>>=◌
process_loop-message fuel pre n rest i table v h =
    let len = length-parts pre (message n) rest in
    let own = length-message n v in
    let big : 40 ≤ total n = total-big n in
    let (read_len, read_ty) = fields pre n rest i v h in
    let cut : ◌≡◌ {A = Run Absent (List ℕ)} (slice (pre ++ (message n ++ rest)) i (i + total n))
        (ok (message n)) =
      slice-append i (i + total n) pre (message n) rest h (omega (arith, own)) in
    rw
      (
        le→ltb-false (length (pre ++ (message n ++ rest))) (i + 16) (omega (arith, len, own)),
        read_len,
        le→ltb-false (total n) 16 (omega arith),
        le→ltb-false (length (pre ++ (message n ++ rest))) (i + total n) (omega (arith, len, own)),
        read_ty,
        cut,
        parse_neigh_msg-message n table v,
        align n v,
      )
      refl

process_loop-end :
    (e : Ending) (fuel : ℕ) (pre : List ℕ) (i : ℕ) (table : Neighbours)
    → length pre ≡ i
    → process_loop (suc fuel) (pre ++ dump_end e) i table ≡ ok (done, table)
unfolding process_loop ◌>>=◌ dump_end end_tail
process_loop-end e fuel pre i table h =
    let len : length (pre ++ dump_end e) ≡ i + (16 + length e.payload) =
      length-append pre (dump_end e) ∙ omega arith in
    let (read_len, read_ty) = header-fields pre (16 + length e.payload) 0 3 (end_tail e) i h in
    let same : 16 + length e.payload + 0 * 256 ≡ 16 + length e.payload = omega arith in
    rw
      (
        le→ltb-false (length (pre ++ dump_end e)) (i + 16) (omega (arith, len)),
        read_len ∙ ap ok same,
        le→ltb-false (16 + length e.payload) 16 (omega arith),
        le→ltb-false (length (pre ++ dump_end e)) (i + (16 + length e.payload))
            (omega (arith, len)),
        read_ty,
      )
      refl

process_loop-dump :
    (e : Ending) (ns : List Neighbour) (fuel : ℕ) (pre : List ℕ) (i : ℕ) (table : Neighbours)
    → All IsNeighbour ns
    → length ns < fuel
    → length pre ≡ i
    → process_loop fuel (pre ++ dump e ns) i table ≡ ok (done, insert_all ns table)
unfolding dump insert_all
process_loop-dump end ns zero pre i table v h e = absurd (omega arith)
process_loop-dump end [] (suc fuel) pre i table v h e = process_loop-end end fuel pre i table e
process_loop-dump end (n ∷ ns) (suc fuel) pre i table (v, vs) h e =
    let whole : pre ++ (message n ++ dump end ns) ≡ (pre ++ message n) ++ dump end ns =
      sym (append_assoc pre (message n) (dump end ns)) in
    let at : length (pre ++ message n) ≡ i + total n =
      length-append pre (message n) ∙ omega (arith, length-message n v, e) in
    process_loop-message fuel pre n (dump end ns) i table v e
    ∙ (ap (λ buf. process_loop fuel buf (i + total n) (put n.ip n.mac table)) whole
        ∙ process_loop-dump end ns fuel (pre ++ message n) (i + total n) (put n.ip n.mac table) vs
            (omega arith) at)

length-dump :
    (e : Ending) (ns : List Neighbour) → All IsNeighbour ns → length ns ≤ length (dump e ns)
unfolding dump dump_end end_tail
length-dump e [] v = omega arith
length-dump e (n ∷ ns) (v, vs) =
    let big = total-big n in
    rw (length-append (message n) (dump e ns))
      (omega (arith, length-message n v, length-dump e ns vs, big))

pub process_chunk-dump :
    (e : Ending) (ns : List Neighbour) (table : Neighbours)
    → All IsNeighbour ns
    → process_chunk (dump e ns) table ≡ ok (done, insert_all ns table)
unfolding process_chunk
process_chunk-dump e ns table v =
    process_loop-dump e ns (length (dump e ns) + 4) [] 0 table v (omega (arith, length-dump e ns v))
      refl
