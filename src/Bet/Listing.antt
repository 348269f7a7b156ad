-- ===== src/Bet/Listing.antt =====
-- bet-backend/service/listing_service.go: the resale of bets.
use tchebets_open.Prelude.{
  ℕ, not, none, some, Result, ok, err, ◌==◌, ltb, if◌then◌else◌, ℤ, pos, pos_part, ◌-ℤ◌, ltb_ℤ,
  leb_ℤ, lookup, modify,
}
use tchebets_open.Bet.Models.{
  User, Bet, BetListing, BetListingDetails, listed, sold, cancelled, Db, house_user_id, is_open,
  is_listed,
}
use tchebets_open.Bet.Errors.{
  BetError, market_not_open, insufficient_balance, bet_not_found, listing_not_found, not_bet_owner,
  not_listing_owner, cannot_list_house_bet, listing_not_active, cannot_buy_own_listing,
  listing_market_no_longer_open, price_not_positive, owner_mismatch, db_error, Tx, pure, ◌>>=◌,
  ◌>>◌, guard, or_fail, gets, in_tx,
}
use tchebets_open.Bet.Statements.{add_balance, insert_listing}

abbrev pub select_bet : ℕ → BetError → Tx Bet
select_bet id e = do or_fail (← gets (λ db. lookup id db.bets)) e

abbrev pub select_listing : ℕ → BetError → Tx BetListing
select_listing id e = do or_fail (← gets (λ db. lookup id db.listings)) e

abbrev pub new_listing : (now bet_id market_id seller_id asking_price : ℕ) → BetListing
new_listing now bet_id market_id seller_id asking_price = record {
  bet_id = bet_id;
  market_id = market_id;
  seller_id = seller_id;
  buyer_id = none;
  asking_price = asking_price;
  status = listed;
  created_at = now;
  sold_at = none;
  cancelled_at = none;
}

abbrev pub listing_details : ℕ → BetListing → Bet → BetListingDetails
listing_details id l b = record { id = id; listing = l; outcome = b.outcome; stake = b.stake }

-- Between the first reading of the bet and the second no other transaction runs here, and a bet
-- never changes its market, so one reading stands for both.
unfoldable pub list_tx : (listing_id now bet_id seller_id : ℕ) → ℤ → Tx BetListingDetails
list_tx listing_id now bet_id seller_id asking_price = do
  guard (ltb_ℤ (pos 0) asking_price) price_not_positive
  b ← select_bet bet_id bet_not_found
  m ← or_fail (← gets (λ db. lookup b.market_id db.markets)) db_error
  guard (is_open m.status) market_not_open
  guard (b.user_id == seller_id) not_bet_owner
  guard (not (seller_id == house_user_id)) cannot_list_house_bet
  insert_listing listing_id (new_listing now bet_id b.market_id seller_id (pos_part asking_price))
  pure (
      listing_details listing_id
        (new_listing now bet_id b.market_id seller_id (pos_part asking_price)) b)

-- `ListBetForSale`.
unfoldable pub list_bet_for_sale :
    (listing_id now bet_id seller_id : ℕ) → ℤ → Db → Result BetError BetListingDetails × Db
unfolding list_tx
list_bet_for_sale listing_id now bet_id seller_id asking_price =
    in_tx (list_tx listing_id now bet_id seller_id asking_price)

-- `UPDATE bet_listings SET status = 'CANCELLED', cancelled_at = NOW() WHERE id = $1`.
unfoldable pub set_cancelled : (now listing_id : ℕ) → Tx (Unit {0})
set_cancelled now listing_id db = ok (
  tt,
  record db {
    listings =
        modify listing_id (λ l. record l { status = cancelled; cancelled_at = some now })
          db.listings;
  },
)

-- `CancelListing`.
unfoldable pub cancel_listing :
    (now listing_id seller_id : ℕ) → Db → Result BetError (Unit {0}) × Db
cancel_listing now listing_id seller_id = in_tx (do
  l ← select_listing listing_id listing_not_found
  guard (l.seller_id == seller_id) not_listing_owner
  guard (is_listed l.status) listing_not_active
  set_cancelled now listing_id)

-- `invalidateStaleListing`.
unfoldable pub invalidate_stale_listing :
    (now listing_id : ℕ) → Db → Result BetError (Unit {0}) × Db
invalidate_stale_listing now listing_id = in_tx (do
  l ← select_listing listing_id db_error
  if is_listed l.status then set_cancelled now listing_id else pure tt)

-- The two rows of users are locked, and so read, in the order of their ids.
unfoldable pub select_buyer : (buyer_id seller_id : ℕ) → Tx User
select_buyer buyer_id seller_id =
    let first_id = if ltb seller_id buyer_id then seller_id else buyer_id in
    let second_id = if ltb seller_id buyer_id then buyer_id else seller_id in
    do
      first ← or_fail (← gets (λ db. lookup first_id db.users)) db_error
      second ← or_fail (← gets (λ db. lookup second_id db.users)) db_error
      pure (if first_id == buyer_id then first else second)

-- The writes of a sale.
unfoldable pub transfer_bet : (now listing_id buyer_id : ℕ) → BetListing → Tx (Unit {0})
transfer_bet now listing_id buyer_id l = do
  add_balance buyer_id (pos 0 -ℤ pos l.asking_price)
  add_balance l.seller_id (pos l.asking_price)
  λ db. ok (
    tt,
    record db {
      bets = modify l.bet_id (λ b. record b { user_id = buyer_id }) db.bets;
      listings =
          modify listing_id
            (λ k. record k { status = sold; buyer_id = some buyer_id; sold_at = some now })
            db.listings;
    },
  )

-- The reply does not set `CreatedAt`: it has the time 0.
abbrev pub sold_details : (now listing_id buyer_id : ℕ) → BetListing → Bet → BetListingDetails
sold_details now listing_id buyer_id l b = record {
  id = listing_id;
  listing = record {
    bet_id = l.bet_id;
    market_id = l.market_id;
    seller_id = l.seller_id;
    buyer_id = some buyer_id;
    asking_price = l.asking_price;
    status = sold;
    created_at = 0;
    sold_at = some now;
    cancelled_at = none;
  };
  outcome = b.outcome;
  stake = b.stake;
}

-- The transaction of `BuyListedBet`, on a listing whose market is open.
unfoldable pub buy_tx : (now listing_id buyer_id : ℕ) → BetListing → Tx BetListingDetails
buy_tx now listing_id buyer_id l = do
  guard (is_listed l.status) listing_not_active
  guard (not (l.seller_id == buyer_id)) cannot_buy_own_listing
  b ← select_bet l.bet_id db_error
  guard (b.user_id == l.seller_id) owner_mismatch
  buyer ← select_buyer buyer_id l.seller_id
  guard (leb_ℤ (pos l.asking_price) (pos buyer.balance)) insufficient_balance
  transfer_bet now listing_id buyer_id l
  pure (sold_details now listing_id buyer_id l b)

-- A listing whose market is not open: rolled back, then invalidated in a transaction of its own.
abbrev pub report_stale : Result BetError (Unit {0}) × Db → Result BetError BetListingDetails × Db
report_stale (ok _, db) = (err listing_market_no_longer_open, db)
report_stale (err e, db) = (err e, db)

-- `BuyListedBet`.
unfoldable pub buy_listed_bet :
    (now listing_id buyer_id : ℕ) → Db → Result BetError BetListingDetails × Db
buy_listed_bet now listing_id buyer_id db = elim (lookup listing_id db.listings) [
  | none ↦ (err listing_not_found, db)
  | some l ↦ elim (lookup l.market_id db.markets) [
    | none ↦ (err db_error, db)
    | some m ↦
        if is_open m.status
        then in_tx (buy_tx now listing_id buyer_id l) db
        else report_stale (invalidate_stale_listing now listing_id db)
  ]
]
