-- ===== src/Routing/Route/DistinctIds.antt =====
-- pesigitg-routing/src/route.rs: `parse_routes` accepts each config_id once.
use pesigitg.Prelude.{
  none, run, early, some, All, get_or-set_self, ℕ, zero, suc, ◌<◌, ◌≡◌, refl, sym, ap, ◌∙◌, ◌≢◌,
  Bool, true, false, Option, List, [], ◌∷◌, arith, Safe, Safe-return_if, Safe-bind, Safe-weaken,
  length, get_or, set, replicate, length-replicate, length-set, value,
}
use pesigitg.Common.Address.{IpAddr}
use pesigitg.Routing.Route.{Cipher, RouteConfig, RawConfig, parse_configs, parse_routes}
use pesigitg.Routing.Route.Validate.{IsValid, HasAsciiTexts, validate-Safe, flag-Safe}

unfoldable pub Misses : ℕ → List RouteConfig → Type 0
Misses id [] = Unit
Misses id (c ∷ cs) = (c.config_id ≢ id) × Misses id cs

unfoldable pub Unique : List RouteConfig → Type 0
Unique [] = Unit
Unique (c ∷ cs) = Misses c.config_id cs × Unique cs

unfoldable pub AllValid : (List ℕ → Cipher) → List RouteConfig → Type 0
AllValid new_cipher [] = Unit
AllValid new_cipher (c ∷ cs) = IsValid new_cipher c × AllValid new_cipher cs

-- No configuration has an id that was seen before.
unfoldable Unseen : List Bool → List RouteConfig → Type 0
Unseen seen [] = Unit
Unseen seen (c ∷ cs) = (get_or seen c.config_id false ≡ false) × Unseen seen cs

get_or-set_other :
    (seen : List Bool) (i j : ℕ) → i ≢ j → get_or (set seen i true) j false ≡ get_or seen j false
unfolding get_or set
get_or-set_other [] i j h = refl
get_or-set_other (b ∷ seen) zero zero h = absurd (h refl)
get_or-set_other (b ∷ seen) zero (suc j) h = refl
get_or-set_other (b ∷ seen) (suc i) zero h = refl
get_or-set_other (b ∷ seen) (suc i) (suc j) h = get_or-set_other seen i j λ e. h (ap suc e)

Unseen-set :
    (seen : List Bool) (id : ℕ) (cs : List RouteConfig)
    → id < length seen
    → Unseen (set seen id true) cs
    → Misses id cs × Unseen seen cs
unfolding Unseen Misses
Unseen-set seen id [] h u = (tt, tt)
Unseen-set seen id (c ∷ cs) h (u, us) =
    let (m, v) = Unseen-set seen id cs h us in
    let taken = get_or-set_self seen id true false h in
    let other : c.config_id ≢ id = λ e.
      let same = ap (λ i. get_or (set seen id true) i false) e in
      let clash : true ≡ false = sym taken ∙ (sym same ∙ u) in ground arith in
    ((other, m), (sym (get_or-set_other seen id c.config_id (λ e. other (sym e))) ∙ u, v))

-- The keys and server ids of a deserialized file are ASCII.
unfoldable pub HasAsciiFile : Option (List RawConfig) → Type 0
HasAsciiFile none = Unit
HasAsciiFile (some raw) = All HasAsciiTexts raw

module _ (new_cipher : List ℕ → Cipher) (parse_addr : List ℕ → Option IpAddr) where
  parse_configs-Safe :
      (seen : List Bool) (raw : List RawConfig)
      → length seen ≡ 7
      → All HasAsciiTexts raw
      → Safe
          (λ cs. AllValid new_cipher cs × Unique cs × Unseen seen cs)
          (parse_configs new_cipher parse_addr seen raw)
  unfolding parse_configs AllValid Unique Unseen
  parse_configs-Safe seen [] h a = value (tt, tt, tt)
  parse_configs-Safe seen (raw ∷ rest) h a =
      Safe-bind _ _ (validate-Safe new_cipher parse_addr raw a.0) λ c v.
        Safe-bind _ _ (flag-Safe seen c.config_id (omega (arith, v.id_range))) λ taken e.
          Safe-return_if _ _ _ λ free.
            Safe-bind _ _
              (parse_configs-Safe (set seen c.config_id true) rest (rw length-set h) a.1)
              λ cs (valid, unique, unseen).
                let (m, u) = Unseen-set seen c.config_id cs (omega (arith, v.id_range)) unseen in
                value ((v, valid), (m, unique), (sym e ∙ free, u))

  -- `parse_routes` returns without a panic on a file whose keys and server ids are ASCII texts, and every
  -- configuration in what it accepts is valid and has a config_id of its own.
  pub parse_routes-Safe :
      (toml : Option (List RawConfig))
      → HasAsciiFile toml
      → Safe (λ cs. AllValid new_cipher cs × Unique cs) (parse_routes new_cipher parse_addr toml)
  unfolding parse_routes HasAsciiFile run
  parse_routes-Safe none a = early
  parse_routes-Safe (some raw) a = Safe-return_if _ _ _ λ _.
      Safe-weaken (λ cs (v, u, s). (v, u))
        (parse_configs-Safe (replicate 7 false) raw (length-replicate 7 false) a)
