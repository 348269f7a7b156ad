-- ===== src/Bet/Models.antt =====
-- bet-backend/models/models.go, and the tables of bet-backend/db/db.go.
-- A UUID is the 128-bit number that its canonical text spells, so the order of texts is that of
-- numbers. Times are numbers. A row stands beside its primary key, and carries no `id` of its own.
use tchebets_open.Prelude.{ℕ, String, Bool, true, false, Option, List, Table}

pub data MarketStatus : Type 0 where
  status_open status_locked status_resolved status_cancelled : MarketStatus

pub record User : Type 0 where
  pub balance : ℕ
  pub created_at : ℕ

pub record Market : Type 0 where
  pub question : String
  pub outcomes : List String
  pub status : MarketStatus
  pub seed : ℕ
  pub winning_outcome : Option String
  pub created_at : ℕ

pub record Pool : Type 0 where
  pub market_id : ℕ
  pub outcome : String
  pub total : ℕ

pub record Bet : Type 0 where
  pub market_id : ℕ
  pub user_id : ℕ
  pub original_user_id : ℕ
  pub outcome : String
  pub stake : ℕ
  pub created_at : ℕ

pub data BetListingStatus : Type 0 where
  listed sold cancelled : BetListingStatus

pub record BetListing : Type 0 where
  pub bet_id : ℕ
  pub market_id : ℕ
  pub seller_id : ℕ
  pub buyer_id : Option ℕ
  pub asking_price : ℕ
  pub status : BetListingStatus
  pub created_at : ℕ
  pub sold_at : Option ℕ
  pub cancelled_at : Option ℕ

pub record BetListingDetails : Type 0 where
  pub id : ℕ
  pub listing : BetListing
  pub outcome : String
  pub stake : ℕ

pub record Db : Type 0 where
  pub users : Table User
  pub markets : Table Market
  pub pools : List Pool
  pub bets : Table Bet
  pub listings : Table BetListing

-- `HouseUserID`, 00000000-0000-0000-0000-000000000000.
abbrev pub house_user_id : ℕ
house_user_id = 0

abbrev pub is_open : MarketStatus → Bool
is_open status_open = true
is_open _ = false

abbrev pub is_locked : MarketStatus → Bool
is_locked status_locked = true
is_locked _ = false

abbrev pub is_listed : BetListingStatus → Bool
is_listed listed = true
is_listed _ = false
