-- ===== src/Bet/Frames.antt =====
-- What the other statements write, and what they leave alone.
use tchebets_open.Prelude.{
  ℕ, ◌+◌, ◌<◌, String, ◌≡◌, true, false, none, some, [], ◌∷◌, ◌++◌, ok, arith, ℤ, pos, lookup,
  add_row,
}
use tchebets_open.Bet.Models.{MarketStatus, Market, Bet, BetListing, Db, is_open}
use tchebets_open.Bet.Statements.{
  is_some, lookup_pool, set_pool, add_pool, insert_pool, insert_bet, insert_market, has_listed,
  insert_listing,
}
use tchebets_open.Bet.Wealth.{is_live}
use tchebets_open.Bet.Credits.{known}

-- `db'` differs from `db` in the pools only.
pub record OnlyPools (db db' : Db) : Type 0 where
  pub users : db'.users ≡ db.users
  pub markets : db'.markets ≡ db.markets
  pub bets : db'.bets ≡ db.bets
  pub listings : db'.listings ≡ db.listings

pub add_pool-OnlyPools :
    (m : ℕ) (o : String) (d : ℤ) (db db' : Db) → add_pool m o d db ≡ ok (tt, db') → OnlyPools db db'
unfolding add_pool
add_pool-OnlyPools m o d db db' e = record {
  users = ground arith;
  markets = ground arith;
  bets = ground arith;
  listings = ground arith;
}

-- The pool that was met holds the sum.
pub add_pool-result :
    (m : ℕ) (o : String) (n t : ℕ) (db db' : Db)
    → lookup_pool m o db.pools ≡ some t
    → add_pool m o (pos n) db ≡ ok (tt, db')
    → db'.pools ≡ set_pool m o (t + n) db.pools
unfolding add_pool
add_pool-result m o n t db db' l e = ground arith

pub record Inserted (id : ℕ) (b : Bet) (db db' : Db) : Type 0 where
  pub result : db' ≡ record db { bets = add_row id b db.bets }
  pub fresh : lookup id db.bets ≡ none
  pub positive : 0 < b.stake
  pub has_market : is_some (lookup b.market_id db.markets) ≡ true
  pub has_user : known b.user_id db ≡ true

pub insert_bet-Inserted :
    (id : ℕ) (b : Bet) (db db' : Db) → insert_bet id b db ≡ ok (tt, db') → Inserted id b db db'
unfolding insert_bet
insert_bet-Inserted id b db db' e = record {
  result = ground arith;
  fresh = ground arith;
  positive = ground arith;
  has_market = ground arith;
  has_user = ground arith;
}

pub live_of_open : (s : MarketStatus) → is_open s ≡ true → is_live s ≡ true
live_of_open s e = ground arith

-- A new pool.
pub insert_pool-result :
    (m : ℕ) (o : String) (t : ℕ) (db db' : Db)
    → insert_pool m o t db ≡ ok (tt, db')
    → (lookup_pool m o db.pools ≡ none)
      × (db'
          ≡ record db { pools = db.pools ++ record { market_id = m; outcome = o; total = t } ∷ [] })
unfolding insert_pool
insert_pool-result m o t db db' e = (ground arith, ground arith)

pub insert_market-result :
    (id : ℕ) (k : Market) (db db' : Db)
    → insert_market id k db ≡ ok (tt, db')
    → (lookup id db.markets ≡ none) × (db' ≡ record db { markets = add_row id k db.markets })
unfolding insert_market
insert_market-result id k db db' e = (ground arith, ground arith)

-- A new listing: its id is new, and no other listing of its bet is active.
pub record Offered (id : ℕ) (l : BetListing) (db db' : Db) : Type 0 where
  pub result : db' ≡ record db { listings = add_row id l db.listings }
  pub fresh : lookup id db.listings ≡ none
  pub only : has_listed l.bet_id db.listings ≡ false

pub insert_listing-Offered :
    (id : ℕ) (l : BetListing) (db db' : Db)
    → insert_listing id l db ≡ ok (tt, db')
    → Offered id l db db'
unfolding insert_listing
insert_listing-Offered id l db db' e = record {
  result = ground arith;
  fresh = ground arith;
  only = ground arith;
}
