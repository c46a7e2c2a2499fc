-- ===== src/Neigh/Resolution.antt =====
-- `resolve_macs` of pesigitg-daemon/src/neigh.rs on a list of servers.
use mathlib.Core.Path.{subst}
use pesigitg.Prelude.{
  ℕ, Option-cases, ◌≡◌, refl, sym, inl, inr, false, Option, none, some, List, [], ◌∷◌, arith, ◌==◌,
  Bool-cases,
}
use pesigitg.Config.Table.{is_none}
use pesigitg.Routing.Route.{Server}
use pesigitg.Neigh.{find, Neighbours, count_none, fill_mac, fill_macs, with_table, resolve_macs}

fill_macs-resolved :
    (table : Neighbours) (servers : List Server)
    → count_none servers ≡ 0
    → fill_macs table servers ≡ servers
unfolding fill_macs fill_mac count_none
fill_macs-resolved table [] h = refl
fill_macs-resolved table (s ∷ servers) h =
    let own : is_none s.mac ≡ false = ground arith in
    rw (own, fill_macs-resolved table servers (ground arith)) refl

-- The early return of `resolve_macs` shows in no result.
pub resolve_macs-with_table :
    (query : Option Neighbours) (servers : List Server)
    → resolve_macs query servers ≡ with_table query servers
unfolding resolve_macs with_table
resolve_macs-with_table none servers = elim (Bool-cases (count_none servers == 0)) [
  | inl e ↦ rw e refl
  | inr e ↦ rw e refl
]
resolve_macs-with_table (some table) servers = elim (Bool-cases (count_none servers == 0)) [
  | inl e ↦ rw e (sym (fill_macs-resolved table servers (ground arith)))
  | inr e ↦ rw e refl
]

-- A server with a MAC stays as it is, and one without gets the one that the table has for its address.
pub data Resolved (table : Neighbours) : Server → Server → Type 0 where
  kept : (s : Server) (mac : List ℕ) → s.mac ≡ some mac → Resolved table s s
  looked_up :
      (s t : Server)
      → s.mac ≡ none
      → t ≡ record s { mac = find s.address table }
      → Resolved table s t

unfoldable pub AllResolved : Neighbours → List Server → List Server → Type 0
AllResolved table [] [] = Unit
AllResolved table [] (t ∷ ts) = ⊥
AllResolved table (s ∷ servers) [] = ⊥
AllResolved table (s ∷ servers) (t ∷ ts) = Resolved table s t × AllResolved table servers ts

fill_mac-Resolved : (table : Neighbours) (s : Server) → Resolved table s (fill_mac table s)
unfolding fill_mac is_none
fill_mac-Resolved table s = elim (Option-cases s.mac) [
  | inl e ↦ looked_up s (fill_mac table s) e (rw e refl)
  | inr (mac, e) ↦ subst (Resolved table s) (rw e refl) (kept s mac e)
]

fill_macs-AllResolved :
    (table : Neighbours) (servers : List Server)
    → AllResolved table servers (fill_macs table servers)
unfolding AllResolved fill_macs
fill_macs-AllResolved table [] = tt
fill_macs-AllResolved table (s ∷ servers) =
    (fill_mac-Resolved table s, fill_macs-AllResolved table servers)

-- With a neighbour table that could be read, `resolve_macs` gives each server without a MAC the one that
-- the table has for its address, none if it has none, and leaves every other server and every other
-- field as they are; without one it leaves all servers.
pub resolve_macs-AllResolved :
    (table : Neighbours) (servers : List Server)
    → AllResolved table servers (resolve_macs (some table) servers)
      × (resolve_macs none servers ≡ servers)
unfolding with_table
resolve_macs-AllResolved table servers = (
  subst (AllResolved table servers) (sym (resolve_macs-with_table (some table) servers))
      (fill_macs-AllResolved table servers),
  resolve_macs-with_table none servers,
)
