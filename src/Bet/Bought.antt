-- ===== src/Bet/Bought.antt =====
-- `BuyListedBet` with its conditions met, on tables whose listings for sale are backed.
use tchebets_open.Prelude.{
  ℕ, ◌+◌, ◌-◌, ◌≤◌, ◌<◌, ◌≡◌, ◌≢◌, some, ok, arith, inl, inr, pos, ltb, Bool-cases, lookup,
  lookup-modify, modify,
}
use tchebets_open.Int64.{int64_limit}
use tchebets_open.Bet.Models.{User, Bet, BetListing, Db, sold}
use tchebets_open.Bet.Statements.{add_balance}
use tchebets_open.Bet.Credits.{set_balance}
use tchebets_open.Bet.Listing.{select_buyer, transfer_bet, buy_tx, buy_listed_bet, sold_details}
use tchebets_open.Bet.Taken.{debit-taken}
use tchebets_open.Bet.Backing.{Active, AllBacked}

credit-taken :
    (id n : ℕ) (u : User) (db : Db)
    → lookup id db.users ≡ some u
    → u.balance + n < int64_limit
    → add_balance id (pos n) db ≡ ok (tt, set_balance id (u.balance + n) db)
unfolding add_balance
credit-taken id n u db e h = ground arith

select_buyer-taken :
    (b s : ℕ) (u w : User) (db : Db)
    → lookup b db.users ≡ some u
    → lookup s db.users ≡ some w
    → select_buyer b s db ≡ ok (u, db)
unfolding select_buyer
select_buyer-taken b s u w db p q = elim (Bool-cases (ltb s b)) [
  | inl o ↦ ground arith
  | inr o ↦ ground arith
]

-- The tables after a sale: `u` is the buyer, `w` the seller.
abbrev pub sold_tables : (now id buyer : ℕ) → BetListing → User → User → Db → Db
sold_tables now id buyer l u w db = record db {
  users =
      modify l.seller_id (λ k. record k { balance = w.balance + l.asking_price })
        (modify buyer (λ k. record k { balance = u.balance - l.asking_price }) db.users);
  bets = modify l.bet_id (λ b. record b { user_id = buyer }) db.bets;
  listings =
      modify id (λ k. record k { status = sold; buyer_id = some buyer; sold_at = some now })
        db.listings;
}

module _ (now id buyer : ℕ) (l : BetListing) (u w : User) (db : Db)
    (is_buyer : lookup buyer db.users ≡ some u) (is_seller : lookup l.seller_id db.users ≡ some w)
    (other : l.seller_id ≢ buyer) (covered : l.asking_price ≤ u.balance)
    (fits : u.balance < int64_limit) (room : w.balance + l.asking_price < int64_limit) where
  transfer_bet-taken : transfer_bet now id buyer l db ≡ ok (tt, sold_tables now id buyer l u w db)
  unfolding transfer_bet
  transfer_bet-taken =
      let paid : Db = set_balance buyer (u.balance - l.asking_price) db in
      let there : lookup l.seller_id paid.users ≡ some w = ground (
        arith,
        lookup-modify buyer l.seller_id
            (λ (k : User). record k { balance = u.balance - l.asking_price }) db.users,
      ) in
      let e₁ = debit-taken buyer l.asking_price u db is_buyer covered fits in
      let e₂ = credit-taken l.seller_id l.asking_price w paid there room in ground (arith, e₁, e₂)

  -- Where every listing for sale is backed by a bet of its seller in an open market, a listing for sale
  -- is sold to any other known user who has the price, if the balance of the seller has room for it:
  -- the price and the bet change hands, and the listing is marked as sold.
  pub buy_taken :
      AllBacked db
      → Active id l db
      → (b : Bet) × (lookup l.bet_id db.bets ≡ some b)
        × (buy_listed_bet now id buyer db
            ≡ (ok (sold_details now id buyer l b), sold_tables now id buyer l u w db))
  unfolding buy_listed_bet buy_tx
  buy_taken v active =
      let b = v.backed id l active in
      let done = transfer_bet-taken in
      let found = select_buyer-taken buyer l.seller_id u w db is_buyer is_seller in
      (
        b.bet,
        b.is_bet,
        ground
            (arith, active.0, active.1, b.is_bet, b.owned, b.is_market, b.market_open, done, found),
      )
