-- ===== src/Bet/Sample.antt =====
-- A market of bet-backend from its creation to its settlement, on concrete tables.
use tchebets_open.Prelude.{
  ℕ, ◌+◌, String, ◌≡◌, refl, none, some, List, [], ◌∷◌, ok, arith, pos, negsuc,
}
use tchebets_open.Int64.{add64, sub64, mul64, div64}
use tchebets_open.Bet.Models.{
  status_open, status_locked, status_resolved, Market, Bet, BetListing, Db,
}
use tchebets_open.Bet.Statements.{
  add_balance, add_pool, insert_pool, insert_bet, insert_market, set_status, cancel_listings,
  insert_listing,
}
use tchebets_open.Bet.Market.{
  place_bet, place_bet_tx, lock_market, lock_tx, refund_market_internal, refund_tx, refund_bets,
  resolve_market, resolve_tx, scan_pools, pay_winners, payout, commission, credit_house,
  set_resolved, settle, adjust_balance, adjust_tx, write_balance,
}
use tchebets_open.Bet.Create.{create_market, create_tx, debit_house, seed_outcomes, seed_bet}
use tchebets_open.Bet.Listing.{
  list_bet_for_sale, list_tx, new_listing, listing_details, buy_listed_bet, buy_tx, select_buyer,
  transfer_bet, sold_details,
}
use tchebets_open.Bet.Wealth.{wealth, held, at_stake, stake_in, stake_on, pools_in}
use tchebets_open.Bet.Valid.{IsValid}
use tchebets_open.Bet.CreateLaws.{create-IsValid}
use tchebets_open.Bet.Lifecycle.{lock-IsValid}
use tchebets_open.Bet.History.{Request, create, place, lock, resolve, adjust, step, AllFit}
use tchebets_open.Bet.PlaceValid.{place_bet-IsValid}

-- The house and two users, before any market.
abbrev pub empty_db : Db
empty_db = record {
  users =
      (0, record { balance = 1000; created_at = 0 })
      ∷ (1, record { balance = 100; created_at = 0 })
      ∷ (2, record { balance = 50; created_at = 0 })
      ∷ [];
  markets = [];
  pools = [];
  bets = [];
  listings = [];
}

pub empty-IsValid : IsValid empty_db
unfolding pools_in stake_in stake_on
empty-IsValid = record {
  balanced = record {
    bets_known = tt;
    keyed = tt;
    market_staked = λ m. refl;
    pool_staked = λ m o. refl;
    house_known = refl;
  };
  pooled = λ m k o h c. ground arith;
}

-- A market on rain, with a seed of 10 on each outcome.
abbrev pub outcomes : List String
outcomes = "yes" ∷ "no" ∷ []

abbrev pub market : Market
market = record {
  question = "rain?";
  outcomes = outcomes;
  status = status_open;
  seed = 10;
  winning_outcome = none;
  created_at = 1;
}

abbrev pub seed_ids : ℕ → ℕ
seed_ids i = 100 + i

abbrev pub open_db : Db
open_db = record {
  users =
      (0, record { balance = 980; created_at = 0 })
      ∷ (1, record { balance = 100; created_at = 0 })
      ∷ (2, record { balance = 50; created_at = 0 })
      ∷ [];
  markets = (7, market) ∷ [];
  pools =
      record { market_id = 7; outcome = "yes"; total = 10 }
      ∷ record { market_id = 7; outcome = "no"; total = 10 }
      ∷ [];
  bets = (100, seed_bet 7 1 10 "yes") ∷ (101, seed_bet 7 1 10 "no") ∷ [];
  listings = [];
}

pub created : create_market 7 seed_ids 1 "rain?" outcomes (pos 10) empty_db ≡ (ok market, open_db)
unfolding create_market create_tx debit_house seed_outcomes insert_market insert_pool insert_bet
    add_balance mul64
created = refl

pub open-IsValid : IsValid open_db
open-IsValid =
    create-IsValid 7 seed_ids 1 "rain?" outcomes 10 market empty_db open_db empty-IsValid
      (ground arith) created

-- User 1 puts 40 on the rain.
abbrev pub bet_of_1 : Bet
bet_of_1 = record {
  market_id = 7;
  user_id = 1;
  original_user_id = 1;
  outcome = "yes";
  stake = 40;
  created_at = 2;
}

abbrev pub placed_db : Db
placed_db = record open_db {
  users =
      (0, record { balance = 980; created_at = 0 })
      ∷ (1, record { balance = 60; created_at = 0 })
      ∷ (2, record { balance = 50; created_at = 0 })
      ∷ [];
  pools =
      record { market_id = 7; outcome = "yes"; total = 50 }
      ∷ record { market_id = 7; outcome = "no"; total = 10 }
      ∷ [];
  bets = (100, seed_bet 7 1 10 "yes") ∷ (101, seed_bet 7 1 10 "no") ∷ (200, bet_of_1) ∷ [];
}

pub placed : place_bet 200 2 1 7 "yes" (pos 40) open_db ≡ (ok bet_of_1, placed_db)
unfolding place_bet place_bet_tx add_balance add_pool insert_bet
placed = refl

pub placed-IsValid : IsValid placed_db
placed-IsValid =
    place_bet-IsValid 200 2 1 7 "yes" (pos 40) bet_of_1 open_db placed_db open-IsValid placed

-- The market is cancelled: every stake goes back.
abbrev pub cancelled_db : Db
cancelled_db = (refund_market_internal 3 7 placed_db).1

pub refunded : refund_market_internal 3 7 placed_db ≡ (ok tt, cancelled_db)
unfolding refund_market_internal refund_tx refund_bets add_balance cancel_listings set_status
refunded = refl

-- The market is locked, and rain wins.
abbrev pub locked_db : Db
locked_db = record placed_db { markets = (7, record market { status = status_locked }) ∷ [] }

pub locked : lock_market 3 7 placed_db ≡ (ok tt, locked_db)
unfolding lock_market lock_tx cancel_listings set_status
locked = refl

pub locked-IsValid : IsValid locked_db
locked-IsValid = lock-IsValid 3 7 placed_db locked_db placed-IsValid locked

-- Of the 60, the house takes 1, and its winning seed 11 of the 59; user 1 gets 47, and 1 is dust.
abbrev pub resolved_db : Db
resolved_db = record locked_db {
  users =
      (0, record { balance = 993; created_at = 0 })
      ∷ (1, record { balance = 107; created_at = 0 })
      ∷ (2, record { balance = 50; created_at = 0 })
      ∷ [];
  markets = (7, record market { status = status_resolved; winning_outcome = some "yes" }) ∷ [];
}

pub resolved : resolve_market 4 7 "yes" locked_db ≡ (ok tt, resolved_db)
unfolding resolve_market resolve_tx cancel_listings scan_pools settle commission pay_winners payout
    credit_house set_resolved add_balance add64 sub64 mul64 div64
resolved = refl

pub pools_of_60 : pools_in 7 locked_db.pools ≡ 60
unfolding pools_in
pools_of_60 = refl

-- User 1 sells the bet to user 2, for 30.
abbrev pub offer : BetListing
offer = new_listing 3 200 7 1 30

abbrev pub listed_db : Db
listed_db = record placed_db { listings = (300, offer) ∷ [] }

pub offered :
    list_bet_for_sale 300 3 200 1 (pos 30) placed_db
    ≡ (ok (listing_details 300 offer bet_of_1), listed_db)
unfolding list_bet_for_sale list_tx insert_listing
offered = refl

abbrev pub sold_db : Db
sold_db = (buy_listed_bet 4 300 2 listed_db).1

pub bought : buy_listed_bet 4 300 2 listed_db ≡ (ok (sold_details 4 300 2 offer bet_of_1), sold_db)
unfolding buy_listed_bet buy_tx select_buyer transfer_bet add_balance
bought = refl

pub listed-IsValid : IsValid listed_db
listed-IsValid = record {
  balanced = record {
    bets_known = placed-IsValid.balanced.bets_known;
    keyed = placed-IsValid.balanced.keyed;
    market_staked = placed-IsValid.balanced.market_staked;
    pool_staked = placed-IsValid.balanced.pool_staked;
    house_known = placed-IsValid.balanced.house_known;
  };
  pooled = placed-IsValid.pooled;
}

-- The whole life of the market, with a deposit and a refused bet.
abbrev pub day : List (ℕ × Request)
day =
    (1, create 7 seed_ids "rain?" outcomes (pos 10))
    ∷ (2, place 200 1 7 "yes" (pos 40))
    ∷ (2, place 201 2 7 "no" (pos 51))
    ∷ (3, adjust 2 (pos 5))
    ∷ (4, lock 7)
    ∷ (5, resolve 7 "yes")
    ∷ []

pub day-AllFit : AllFit day empty_db
unfolding step create_market create_tx debit_house seed_outcomes insert_market insert_pool
    insert_bet add_balance mul64 place_bet place_bet_tx add_pool adjust_balance adjust_tx
    write_balance add64 wealth held at_stake lock_market lock_tx cancel_listings set_status pools_in
day-AllFit = (
  ground arith,
  (tt, (tt, ((ground arith, ground arith, ground arith), (tt, (ground arith, tt))))),
)

abbrev pub debited_db : Db
debited_db = (adjust_balance 1 (negsuc 29) open_db).1

pub debited : adjust_balance 1 (negsuc 29) open_db ≡ (ok (pos 70), debited_db)
unfolding adjust_balance adjust_tx write_balance add64
debited = refl

pub open-wealth : wealth open_db ≡ 1150
unfolding wealth held at_stake
open-wealth = refl

-- The loop over the winning bets, alone.
abbrev pub winners : List (ℕ × ℕ)
winners = (0, 10) ∷ (1, 40) ∷ []

abbrev pub paid_db : Db
paid_db = record locked_db {
  users =
      (0, record { balance = 991; created_at = 0 })
      ∷ (1, record { balance = 107; created_at = 0 })
      ∷ (2, record { balance = 50; created_at = 0 })
      ∷ [];
}

pub paid : pay_winners (pos 59) (pos 50) winners (pos 0) locked_db ≡ ok (pos 58, paid_db)
unfolding pay_winners payout add_balance add64 mul64 div64
paid = refl

pub stake_of_50 : stake_on 7 "yes" locked_db.bets ≡ 50
unfolding stake_on
stake_of_50 = refl
