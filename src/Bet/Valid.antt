-- ===== src/Bet/Valid.antt =====
-- What holds of the tables of bet-backend between two requests.
use tchebets_open.Prelude.{ℕ, String, ◌≡◌, true, some, lookup, contains}
use tchebets_open.Bet.Models.{Market, Db, house_user_id}
use tchebets_open.Bet.Statements.{is_some, lookup_pool}
use tchebets_open.Bet.Wealth.{stake_in, stake_on, pools_in}
use tchebets_open.Bet.Credits.{known}
use tchebets_open.Bet.Tables.{BetsKnown, Keyed, or_zero}

-- The pools of a market are the stakes of its bets, in sum and outcome by outcome.
pub record Balanced (db : Db) : Type 0 where
  pub bets_known : BetsKnown db.users db.markets db.bets
  pub keyed : Keyed db.pools
  pub market_staked : (m : ℕ) → pools_in m db.pools ≡ stake_in m db.bets
  pub pool_staked : (m : ℕ) (o : String) → or_zero (lookup_pool m o db.pools) ≡ stake_on m o db.bets
  pub house_known : known house_user_id db ≡ true

-- Besides, each outcome of a market has a pool.
pub record IsValid (db : Db) : Type 0 where
  pub balanced : Balanced db
  pub pooled :
      (m : ℕ) (k : Market) (o : String)
      → lookup m db.markets ≡ some k
      → contains o k.outcomes ≡ true
      → is_some (lookup_pool m o db.pools) ≡ true
