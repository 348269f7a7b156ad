-- ===== src/Bet/Wealth.antt =====
-- The money that bet-backend keeps: the balances, and the stakes of the markets that are not yet
-- settled. These are the measures that the theorems on the operations speak of.
use tchebets_open.Prelude.{
  ℕ, ◌+◌, String, ◌≡◌, refl, Bool, true, false, ◌&&◌, Option, none, some, List, [], ◌∷◌, arith,
  ◌==◌, str_eq, if◌then◌else◌, Table, lookup, modify, add_row, total, lookup-modify, total-add_row,
  total-keep,
}
use tchebets_open.Bet.Models.{MarketStatus, status_open, status_locked, User, Market, Pool, Bet, Db}

abbrev pub is_live : MarketStatus → Bool
is_live status_open = true
is_live status_locked = true
is_live _ = false

abbrev pub live_of : Option Market → Bool
live_of none = false
live_of (some k) = is_live k.status

abbrev pub live_market : Table Market → ℕ → Bool
live_market markets m = live_of (lookup m markets)

abbrev pub live_stake : Table Market → Bet → ℕ
live_stake markets b = if live_market markets b.market_id then b.stake else 0

-- The sum of the balances, and of the stakes that wait for their market.
unfoldable pub held : Table User → ℕ
held users = total (λ u. u.balance) users

unfoldable pub at_stake : Table Market → Table Bet → ℕ
at_stake markets bets = total (live_stake markets) bets

unfoldable pub wealth : Db → ℕ
wealth db = held db.users + at_stake db.markets db.bets

abbrev pub stake_if_in : ℕ → Bet → ℕ
stake_if_in m b = if m == b.market_id then b.stake else 0

abbrev pub stake_if_on : ℕ → String → Bet → ℕ
stake_if_on m o b = if (m == b.market_id) && str_eq b.outcome o then b.stake else 0

-- The stakes in a market, and those on one of its outcomes.
unfoldable pub stake_in : ℕ → Table Bet → ℕ
stake_in m bets = total (stake_if_in m) bets

unfoldable pub stake_on : ℕ → String → Table Bet → ℕ
stake_on m o bets = total (stake_if_on m o) bets

unfoldable pub pools_in : ℕ → List Pool → ℕ
pools_in m [] = 0
pools_in m (p ∷ ps) = (if m == p.market_id then p.total else 0) + pools_in m ps

module _ (m : ℕ) (f : Market → Market) (markets : Table Market) (k : Market) where
  live_stake-settle :
      (b : Bet)
      → lookup m markets ≡ some k
      → is_live k.status ≡ true
      → is_live (f k).status ≡ false
      → live_stake (modify m f markets) b + stake_if_in m b ≡ live_stake markets b
  live_stake-settle b e l d = ground (arith, lookup-modify m b.market_id f markets)

  -- Settling a live market takes its stakes off the sum.
  pub at_stake-settle :
      (bets : Table Bet)
      → lookup m markets ≡ some k
      → is_live k.status ≡ true
      → is_live (f k).status ≡ false
      → at_stake (modify m f markets) bets + stake_in m bets ≡ at_stake markets bets
  unfolding at_stake stake_in
  at_stake-settle [] e l d = omega arith
  at_stake-settle ((i, b) ∷ bets) e l d =
      omega (arith, live_stake-settle b e l d, at_stake-settle bets e l d)

  live_stake-keep :
      (b : Bet)
      → lookup m markets ≡ some k
      → is_live (f k).status ≡ is_live k.status
      → live_stake (modify m f markets) b ≡ live_stake markets b
  live_stake-keep b e l = ground (arith, lookup-modify m b.market_id f markets)

  -- A change of status between live ones leaves the sum alone.
  pub at_stake-keep :
      (bets : Table Bet)
      → lookup m markets ≡ some k
      → is_live (f k).status ≡ is_live k.status
      → at_stake (modify m f markets) bets ≡ at_stake markets bets
  unfolding at_stake
  at_stake-keep [] e l = refl
  at_stake-keep ((i, b) ∷ bets) e l = omega (arith, live_stake-keep b e l, at_stake-keep bets e l)

-- A new bet on a live market adds its stake.
pub at_stake-add_row :
    (markets : Table Market) (i : ℕ) (b : Bet) (bets : Table Bet)
    → at_stake markets (add_row i b bets) ≡ at_stake markets bets + live_stake markets b
unfolding at_stake
at_stake-add_row markets i b bets = total-add_row (live_stake markets) i b bets

-- A bet that changes hands stays at stake.
pub at_stake-modify :
    (markets : Table Market) (i : ℕ) (f : Bet → Bet) (bets : Table Bet)
    → ((b : Bet) → live_stake markets (f b) ≡ live_stake markets b)
    → at_stake markets (modify i f bets) ≡ at_stake markets bets
unfolding at_stake
at_stake-modify markets i f bets h = total-keep (live_stake markets) i f bets h
