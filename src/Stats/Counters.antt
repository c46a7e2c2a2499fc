-- ===== src/Stats/Counters.antt =====
-- One counter and the counters by configuration, added and subtracted: pesigitg-daemon/src/stats.rs.
use pesigitg.Prelude.{ℕ, suc, ◌^◌, ◌<◌, ◌≡◌, refl, sym, ap, List, [], ◌∷◌, arith, length}
use pesigitg.Stats.{add}
use pesigitg.Stats.Snapshots.{wrapping_sub, flush_counter, flush_slots, zip_counters}
use pesigitg.Stats.Tally.{total}

pub add_swap : (s n y : ℕ) → add (add s n) y ≡ add (add s y) n
unfolding add
add_swap s n y = omega arith

pub add_flush : (s c n : ℕ) → add s (flush_counter c n) ≡ add (add s c) n
unfolding add flush_counter
add_flush s c n = ground arith

pub sub_add : (a c n : ℕ) → n < 2 ^ 64 → wrapping_sub (add (add a c) n) (add a c) ≡ n
unfolding add wrapping_sub
sub_add a c n h = omega arith

pub zip_swap :
    (ss ns ys : List ℕ)
    → zip_counters add (zip_counters add ss ns) ys ≡ zip_counters add (zip_counters add ss ys) ns
unfolding zip_counters
zip_swap [] ns ys = refl
zip_swap (s ∷ ss) [] [] = refl
zip_swap (s ∷ ss) [] (y ∷ ys) = refl
zip_swap (s ∷ ss) (n ∷ ns) [] = refl
zip_swap (s ∷ ss) (n ∷ ns) (y ∷ ys) = rw (add_swap s n y, zip_swap ss ns ys) refl

pub zip_flush :
    (ss cs ns : List ℕ)
    → length cs ≡ length ns
    → zip_counters add ss (flush_slots cs ns) ≡ zip_counters add (zip_counters add ss cs) ns
unfolding zip_counters flush_slots
zip_flush [] cs ns h = refl
zip_flush (s ∷ ss) [] ns h = refl
zip_flush (s ∷ ss) (c ∷ cs) [] h = ground arith
zip_flush (s ∷ ss) (c ∷ cs) (n ∷ ns) h = rw (add_flush s c n, zip_flush ss cs ns (omega arith)) refl

pub zip_zeros :
    (ss cs ns : List ℕ)
    → length cs ≡ length ns
    → total ns ≡ 0
    → zip_counters add ss cs ≡ zip_counters add (zip_counters add ss cs) ns
unfolding zip_counters total add
zip_zeros [] cs ns h z = refl
zip_zeros (s ∷ ss) [] ns h z = refl
zip_zeros (s ∷ ss) (c ∷ cs) [] h z = ground arith
zip_zeros (s ∷ ss) (c ∷ cs) (n ∷ ns) h z =
    let here' : add s c ≡ add (add s c) n = omega arith in
    rw (sym here', sym (zip_zeros ss cs ns (omega arith) (omega arith))) refl

pub zip_sub :
    (bs cs ns : List ℕ)
    → length bs ≡ length ns
    → length cs ≡ length ns
    → total ns < 2 ^ 64
    → zip_counters wrapping_sub
        (zip_counters add (zip_counters add bs cs) ns)
        (zip_counters add bs cs)
      ≡ ns
unfolding zip_counters total
zip_sub [] cs [] h g t = refl
zip_sub [] cs (n ∷ ns) h g t = ground arith
zip_sub (a ∷ bs) [] [] h g t = refl
zip_sub (a ∷ bs) [] (n ∷ ns) h g t = ground arith
zip_sub (a ∷ bs) (c ∷ cs) [] h g t = ground arith
zip_sub (a ∷ bs) (c ∷ cs) (n ∷ ns) h g t =
    rw (sub_add a c n (omega arith), zip_sub bs cs ns (omega arith) (omega arith) (omega arith))
      refl

pub length-zip :
    (xs ys : List ℕ) → length xs ≡ length ys → length (zip_counters add xs ys) ≡ length xs
unfolding zip_counters
length-zip [] ys h = refl
length-zip (x ∷ xs) [] h = ground arith
length-zip (x ∷ xs) (y ∷ ys) h = ap suc (length-zip xs ys (omega arith))
